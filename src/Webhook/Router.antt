-- ===== src/Webhook/Router.antt =====
-- apps/api/src/modules/webhooks/event-router.ts, with the settings and the event of
-- packages/shared/src/webhooks.ts and packages/shared/src/events.ts.
pub mod Decimal
pub mod Laws
use ai_powered_github_pr_rev.Prelude.{
  ℕ, String, Bool, false, not, ◌&&◌, Option, none, some, List, [], ◌∷◌, map, if◌then◌else◌,
}
use ai_powered_github_pr_rev.Prelude.Equality.{◌==◌, text_equality}
use ai_powered_github_pr_rev.Prelude.Int.{ℤ}
use ai_powered_github_pr_rev.Json.{Json, null, bool, num, str, arr, obj, end, field, get_field}
use ai_powered_github_pr_rev.Store.{PullRequest}
use ai_powered_github_pr_rev.Webhook.Payload.{PullRequestEvent}
use ai_powered_github_pr_rev.Webhook.Allowlist.{
  includes, is_review_triggering_action, pull_request_metadata_only_actions,
  pull_request_state_sync_actions,
}
use Decimal.{int_to_string}
use Prim.Native.String

pub data IgnoreReason : Type 0 where
  no_connected_repository action_not_triggering edited_metadata_only draft_skipped : IgnoreReason
  ping push_not_handled_in_mvp : IgnoreReason

pub record WebhookTenantTarget : Type 0 where
  pub repository_id : String
  pub project_id : String
  pub installation_id : ℤ
  pub full_name : String
  pub project_settings : Json
  pub project_deleted_at : Option ℕ

pub record ReviewRequested : Type 0 where
  pub project_id : String
  pub repository_id : String
  pub installation_id : String
  pub pull_request_number : ℤ
  pub head_sha : String
  pub base_sha : String
  pub trigger : String
  pub trace_id : String
  pub pr_key : String

pub data RouterDecision : Type 0 where
  dispatch : List ReviewRequested → List PullRequest → RouterDecision
  persist_only : List PullRequest → IgnoreReason → RouterDecision
  ignore : IgnoreReason → RouterDecision

-- The setting is off unless the project's settings hold the Boolean `true`.
review_drafts : Option Json → Bool
review_drafts (some (bool b)) = b
review_drafts none = false
review_drafts (some null) = false
review_drafts (some (num n)) = false
review_drafts (some (str s)) = false
review_drafts (some (arr vs)) = false
review_drafts (some (obj fs)) = false

unfoldable pub parse_project_review_settings : Json → Bool
unfolding review_drafts get_field
parse_project_review_settings settings =
    review_drafts (get_field "reviewDraftPullRequests" settings)

unfoldable pub build_upsert : WebhookTenantTarget → PullRequestEvent → PullRequest
build_upsert tenant payload = record {
  repository_id = tenant.repository_id;
  number = payload.pull_request.number;
  github_pr_id = payload.pull_request.id;
  head_sha = payload.pull_request.head_sha;
  state = payload.pull_request.state;
  is_draft = payload.pull_request.draft;
}

infixr 65 ◌+++◌
abbrev ◌+++◌ : String → String → String
a +++ b = String.◌++◌ a b

unfoldable pub build_pr_key : WebhookTenantTarget → PullRequestEvent → String
unfolding int_to_string
build_pr_key tenant payload =
    tenant.repository_id
    +++ ":"
    +++ int_to_string payload.pull_request.number
    +++ ":"
    +++ payload.pull_request.head_sha

unfoldable pub build_event :
    WebhookTenantTarget → PullRequestEvent → String → String → ReviewRequested
build_event tenant payload trigger trace_id = record {
  project_id = tenant.project_id;
  repository_id = tenant.repository_id;
  installation_id = int_to_string tenant.installation_id;
  pull_request_number = payload.pull_request.number;
  head_sha = payload.pull_request.head_sha;
  base_sha = payload.pull_request.base_sha;
  trigger = trigger;
  trace_id = trace_id;
  pr_key = build_pr_key tenant payload;
}

is_metadata_only_action : String → Bool
is_metadata_only_action action = includes pull_request_metadata_only_actions action

is_state_sync_action : String → Bool
is_state_sync_action action = includes pull_request_state_sync_actions action

-- The `continue` of the loop over the tenants.
unfoldable pub skips_draft : PullRequestEvent → WebhookTenantTarget → Bool
unfolding parse_project_review_settings
skips_draft payload tenant =
    not (payload.action == "ready_for_review")
    && payload.pull_request.draft
    && not (parse_project_review_settings tenant.project_settings)

-- The loop that collects the events.
collect_events : PullRequestEvent → String → List WebhookTenantTarget → List ReviewRequested
collect_events payload trace_id [] = []
collect_events payload trace_id (tenant ∷ tenants) =
    let rest = collect_events payload trace_id tenants in
    if skips_draft payload tenant
    then rest
    else build_event tenant payload payload.action trace_id ∷ rest

decide_events : List PullRequest → List ReviewRequested → RouterDecision
decide_events upserts [] = persist_only upserts draft_skipped
decide_events upserts (e ∷ events) = dispatch (e ∷ events) upserts

-- The part below the test for no tenants.
route_for : PullRequestEvent → List WebhookTenantTarget → String → RouterDecision
unfolding is_metadata_only_action is_state_sync_action is_review_triggering_action decide_events
route_for payload tenants trace_id =
    let upserts = map (λ t. build_upsert t payload) tenants in
    if is_metadata_only_action payload.action
    then persist_only upserts edited_metadata_only
    else if is_state_sync_action payload.action
    then persist_only upserts action_not_triggering
    else if not (is_review_triggering_action payload.action)
    then persist_only upserts action_not_triggering
    else decide_events upserts (collect_events payload trace_id tenants)

unfoldable pub route_pull_request_event :
    PullRequestEvent → List WebhookTenantTarget → String → RouterDecision
unfolding route_for collect_events
route_pull_request_event payload [] trace_id = ignore no_connected_repository
route_pull_request_event payload (t ∷ tenants) trace_id = route_for payload (t ∷ tenants) trace_id
