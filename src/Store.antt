-- ===== src/Store.antt =====
-- The tables of packages/db/prisma/schema.prisma that webhook handling reads and writes, with the
-- events that Inngest has accepted, and the monad of handlers that change them and may throw.
use ai_powered_github_pr_rev.Prelude.{ℕ, String, Bool, true, false, Option, List}
use ai_powered_github_pr_rev.Prelude.Int.{ℤ}
use ai_powered_github_pr_rev.Json.{Json}

-- `WEBHOOK_EVENT_STATUSES` and `CONNECTION_STATUSES`.
pub data WebhookEventStatus : Type 0 where
  pending dispatched ignored failed : WebhookEventStatus

pub data ConnectionStatus : Type 0 where
  active disconnected access_lost : ConnectionStatus

pub data PullRequestState : Type 0 where
  open' closed : PullRequestState

-- The `error` column: `{ reason }` of a delivery that was ignored, `{ code, message }` of a failure.
pub data EventError : Type 0 where
  reason : String → EventError
  code_message : String → String → EventError

pub record WebhookEvent : Type 0 where
  pub id : String
  pub delivery_id : String
  pub event_type : String
  pub action : Option String
  pub installation_id : Option ℤ
  pub repository_full_name : Option String
  pub dispatch_payload : Option Json
  pub status : WebhookEventStatus
  pub dispatched_at : Option ℕ
  pub error : Option EventError
  pub created_at : ℕ

pub record Project : Type 0 where
  pub id : String
  pub user_id : String
  pub settings : Json
  pub deleted_at : Option ℕ

pub record Repository : Type 0 where
  pub id : String
  pub project_id : String
  pub installation_id : ℤ
  pub github_repo_id : ℤ
  pub owner : String
  pub name : String
  pub full_name : String
  pub default_branch : String
  pub is_private : Bool
  pub html_url : String
  pub connection_status : ConnectionStatus

pub record GithubInstallation : Type 0 where
  pub id : String
  pub installation_id : ℤ
  pub account_login : String
  pub account_type : String
  pub user_id : String
  pub suspended_at : Option ℕ

pub record PullRequest : Type 0 where
  pub repository_id : String
  pub number : ℤ
  pub github_pr_id : ℤ
  pub head_sha : String
  pub state : PullRequestState
  pub is_draft : Bool

-- An event as Inngest receives it; it keeps one of several with one `id`.
pub record Message : Type 0 where
  pub name : String
  pub content : Json
  pub id : String

pub record Store : Type 0 where
  pub events : List WebhookEvent
  pub projects : List Project
  pub repositories : List Repository
  pub installations : List GithubInstallation
  pub pull_requests : List PullRequest
  pub sent : List Message

-- What a handler throws: apps/api/src/lib/errors.ts, and Prisma's P2025.
pub data AppError : Type 0 where
  validation unauthenticated internal record_not_found range_error : AppError

pub data Result {ℓ} (A : Type ℓ) : Type ℓ where
  ok : A → Result A
  err : AppError → Result A

abbrev pub M : Type 0 → Type 0
M A = Store → Store × Result A

abbrev pub next : {A B : Type 0} → (A → M B) → Store × Result A → Store × Result B
next f (s, ok a) = f a s
next f (s, err e) = (s, err e)

infixl 5 ◌>>=◌ ◌>>◌
abbrev pub ◌>>=◌ : {A B : Type 0} → M A → (A → M B) → M B
◌>>=◌ m f s = next f (m s)

abbrev pub ◌>>◌ : {B : Type 0} → M (Unit {0}) → M B → M B
◌>>◌ m k s = next (λ _. k) (m s)

abbrev pub pure : {A : Type 0} → A → M A
pure a s = (s, ok a)

abbrev pub throw : {A : Type 0} → AppError → M A
throw e s = (s, err e)

-- A call that may throw and leaves the tables alone.
abbrev pub of_result : {A : Type 0} → Result A → M A
of_result result s = (s, result)

-- A handler's tests on a status.
unfoldable pub is_pending : WebhookEventStatus → Bool
is_pending pending = true
is_pending dispatched = false
is_pending ignored = false
is_pending failed = false

unfoldable pub is_active : ConnectionStatus → Bool
is_active active = true
is_active disconnected = false
is_active access_lost = false

unfoldable pub is_access_lost : ConnectionStatus → Bool
is_access_lost access_lost = true
is_access_lost active = false
is_access_lost disconnected = false

unfoldable pub is_disconnected : ConnectionStatus → Bool
is_disconnected disconnected = true
is_disconnected active = false
is_disconnected access_lost = false
