-- ===== src/Tests/Outside.antt =====
-- Concrete functions in the place of the code that is not the repository's own.
use Prim.Native.String
use Prim.Native.String.{[] as empty, ◌∷◌ as push}
use Prim.Native.Char.{code}
use text.Mathlib.TextEquality.{Char-path}
use ai_powered_github_pr_rev.Prelude.{
  ℕ, suc, String, ◌≡◌, ◌≢◌, refl, Bool, true, false, Option, none, some, [], ◌∷◌, length, nat_beq,
  arith, if◌then◌else◌, eq_iff,
}
use ai_powered_github_pr_rev.Prelude.Equality.{◌==◌, text_equality}
use ai_powered_github_pr_rev.Prelude.Int.{pos}
use ai_powered_github_pr_rev.Json.{Json, whole, obj, end, field, num}
use ai_powered_github_pr_rev.Store.{
  Project, Repository, GithubInstallation, active, access_lost, Store, open',
}
use ai_powered_github_pr_rev.Webhook.Payload.{
  RepositoryRef, PullRequestEvent, InstallationEvent, InstallationRepositoriesEvent,
  RepositoryEvent, parsed, rejected, Schemas,
}
use ai_powered_github_pr_rev.Webhook.Verification.{Bytes, Crypto, bytes_beq}
use ai_powered_github_pr_rev.Webhook.Ledger.{Moment}
use ai_powered_github_pr_rev.Webhook.RateLimit.{Redis}

abbrev pub code_points : String → Bytes
code_points empty = []
code_points (push c s) = code c ∷ code_points s

pub code_points_injective : (s t : String) → code_points s ≡ code_points t → s ≡ t
code_points_injective empty empty h = refl
code_points_injective empty (push d t) h = cc
code_points_injective (push c s) empty h = cc
code_points_injective (push c s) (push d t) h =
    ground (arith, h, Char-path c d, code_points_injective s t)

abbrev pub safe_equal : Bytes → Bytes → Option Bool
safe_equal a b = if nat_beq (length a) (length b) then some (bytes_beq a b) else none

pub safe_equal_same : (a b : Bytes) → length a ≡ length b → safe_equal a b ≡ some (bytes_beq a b)
safe_equal_same a b h = ground arith

pub safe_equal_throws : (a b : Bytes) → length a ≢ length b → safe_equal a b ≡ none
safe_equal_throws a b h = ground arith

-- A keyed digest that depends on both of its inputs, for the tests only.
abbrev pub toy_digest : String → Bytes → String
toy_digest secret [] = secret
toy_digest secret (x ∷ xs) = String.◌++◌ "a" (toy_digest secret xs)

abbrev pub toy_crypto : Crypto
toy_crypto = record {
  hmac_hex = toy_digest;
  utf8 = code_points;
  timing_safe_equal = safe_equal;
  utf8_injective = code_points_injective;
  timing_safe_equal_same = safe_equal_same;
  timing_safe_equal_throws = safe_equal_throws;
}

-- Counters that are kept for ever.
abbrev pub counted : String → (String → ℕ) → String → ℕ
counted key counters k = if k == key then suc (counters k) else counters k

pub counted_lem :
    (key : String) (n : ℕ) (counters : String → ℕ)
    → some (suc (counters key)) ≡ some n
    → (n ≡ suc (counters key)) × (counted key counters key ≡ n)
counted_lem key n counters h = ground (arith, eq_iff key key)

abbrev pub counters_redis : Redis
counters_redis = record {
  State = String → ℕ;
  counter = λ key counters. counters key;
  incr = λ key counters. (counted key counters, some (suc (counters key)));
  expire = λ key n counters. (counters, some true);
  ttl = λ key counters. (counters, some 30);
  incr_lem = counted_lem;
  expire_lem = λ _ _ _ _ _. refl;
  ttl_lem = λ _ _ _. refl;
}

abbrev pub no_counts : String → ℕ
no_counts key = 0

abbrev pub repository_ref : RepositoryRef
repository_ref = record {
  id = pos 77;
  full_name = "octo/app";
  name = "app";
  owner_login = "octo";
  html_url = "https://github.com/octo/app";
}

abbrev pub pull_request_event : PullRequestEvent
pull_request_event = record {
  action = "opened";
  number = pos 5;
  pull_request = record {
    id = pos 900;
    number = pos 5;
    state = open';
    draft = false;
    head_sha = "c0ffee";
    base_sha = "beef";
  };
  repository = repository_ref;
  installation_id = pos 42;
}

abbrev pub installation_event : String → InstallationEvent
installation_event action = record {
  action = action;
  installation_id = pos 42;
  account_login = "octo";
  account_type = "Organization";
  suspended_at = none;
}

abbrev pub repositories_event : InstallationRepositoriesEvent
repositories_event = record {
  action = "removed";
  installation_id = pos 42;
  repositories_added = none;
  repositories_removed = some (repository_ref ∷ []);
}

abbrev pub repository_event : RepositoryEvent
repository_event = record { action = "archived"; repository = repository_ref }

-- Schemas that read every payload as the events above.
abbrev pub lenient_schemas : Schemas
lenient_schemas = record {
  pull_request_event = λ _. parsed pull_request_event;
  installation_event = λ _. parsed (installation_event "suspend");
  installation_repositories_event = λ _. parsed repositories_event;
  repository_event = λ _. parsed repository_event;
}

abbrev pub strict_schemas : Schemas
strict_schemas = record lenient_schemas { pull_request_event = λ _. rejected "Required" }

abbrev pub project : Project
project = record { id = "p1"; user_id = "u1"; settings = obj end; deleted_at = none }

abbrev pub app_repository : Repository
app_repository = record {
  id = "r1";
  project_id = "p1";
  installation_id = pos 42;
  github_repo_id = pos 77;
  owner = "octo";
  name = "app";
  full_name = "octo/app";
  default_branch = "main";
  is_private = true;
  html_url = "https://github.com/octo/app";
  connection_status = active;
}

abbrev pub lost_repository : Repository
lost_repository = record app_repository {
  id = "r2";
  github_repo_id = pos 78;
  connection_status = access_lost;
}

abbrev pub github_installation : GithubInstallation
github_installation = record {
  id = "i1";
  installation_id = pos 42;
  account_login = "octo";
  account_type = "Organization";
  user_id = "u1";
  suspended_at = none;
}

abbrev pub connected_store : Store
connected_store = record {
  events = [];
  projects = project ∷ [];
  repositories = app_repository ∷ lost_repository ∷ [];
  installations = github_installation ∷ [];
  pull_requests = [];
  sent = [];
}

abbrev pub payload : Json
payload = obj (field "installation" (obj (field "id" (num (whole (pos 42))) end)) end)

abbrev pub first_moment : Moment
first_moment = record { new_id = "e1"; now = 1000000 }

abbrev pub second_moment : Moment
second_moment = record { new_id = "e2"; now = 1060000 }

abbrev pub no_dates : String → Option ℕ
no_dates text = none
