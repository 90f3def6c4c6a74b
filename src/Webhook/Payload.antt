-- ===== src/Webhook/Payload.antt =====
-- apps/api/src/modules/webhooks/webhook.schema.ts: the parsed payloads, and the fields that are read
-- from a payload before it is parsed. `safeParse` is Zod's, a parameter; `none` is a payload that
-- does not fit the schema, with the message that Zod gives.
use ai_powered_github_pr_rev.Prelude.{String, Bool, Option, none, some, List}
use ai_powered_github_pr_rev.Prelude.Int.{ℤ}
use ai_powered_github_pr_rev.Json.{
  Json, JsNumber, whole, fractional, infinite, get_field, get_field?, as_string, as_number,
}
use ai_powered_github_pr_rev.Store.{PullRequestState, Result, ok, err, range_error}

pub record RepositoryRef : Type 0 where
  pub id : ℤ
  pub full_name : String
  pub name : String
  pub owner_login : String
  pub html_url : String

pub record PullRequestRef : Type 0 where
  pub id : ℤ
  pub number : ℤ
  pub state : PullRequestState
  pub draft : Bool
  pub head_sha : String
  pub base_sha : String

pub record PullRequestEvent : Type 0 where
  pub action : String
  pub number : ℤ
  pub pull_request : PullRequestRef
  pub repository : RepositoryRef
  pub installation_id : ℤ

pub record InstallationEvent : Type 0 where
  pub action : String
  pub installation_id : ℤ
  pub account_login : String
  pub account_type : String
  pub suspended_at : Option String

pub record InstallationRepositoriesEvent : Type 0 where
  pub action : String
  pub installation_id : ℤ
  pub repositories_added : Option (List RepositoryRef)
  pub repositories_removed : Option (List RepositoryRef)

pub record RepositoryEvent : Type 0 where
  pub action : String
  pub repository : RepositoryRef

pub data Parsed (A : Type 0) : Type 0 where
  parsed : A → Parsed A
  rejected : String → Parsed A

-- `safeParse` of each schema.
pub record Schemas : Type 0 where
  pub pull_request_event : Json → Parsed PullRequestEvent
  pub installation_event : Json → Parsed InstallationEvent
  pub installation_repositories_event : Json → Parsed InstallationRepositoriesEvent
  pub repository_event : Json → Parsed RepositoryEvent

-- `BigInt(Math.trunc(id))`, which throws a RangeError on an infinity.
unfoldable pub bigint_of : Option JsNumber → Result (Option ℤ)
bigint_of none = ok none
bigint_of (some (whole n)) = ok (some n)
bigint_of (some (fractional n)) = ok (some n)
bigint_of (some (infinite is_positive)) = err range_error

unfoldable pub extract_installation_id : Json → Result (Option ℤ)
unfolding get_field get_field? as_number bigint_of
extract_installation_id raw_payload =
    bigint_of (as_number (get_field? "id" (get_field "installation" raw_payload)))

unfoldable pub extract_repository_full_name : Json → Option String
unfolding get_field get_field? as_string
extract_repository_full_name raw_payload =
    as_string (get_field? "full_name" (get_field "repository" raw_payload))

unfoldable pub extract_action : Json → Option String
unfolding get_field as_string
extract_action raw_payload = as_string (get_field "action" raw_payload)
