-- ===== src/Webhook/Router/Laws.antt =====
-- `routePullRequestEvent` (event-router.ts), against a description that does not follow its loop.
use ai_powered_github_pr_rev.Prelude.{
  ◌≡◌, ◌≢◌, ◌↔◌, refl, String, Bool, true, false, not, ◌||◌, List, [], ◌∷◌, map, arith, filter,
  eq_iff, Bool-cases, inl, inr,
}
use ai_powered_github_pr_rev.Prelude.Equality.{◌==◌, text_equality}
use ai_powered_github_pr_rev.Store.{PullRequest}
use ai_powered_github_pr_rev.Webhook.Allowlist.{is_review_triggering_action}
use ai_powered_github_pr_rev.Webhook.Payload.{PullRequestEvent}
use ai_powered_github_pr_rev.Webhook.Router.{
  WebhookTenantTarget, ReviewRequested, dispatch, parse_project_review_settings, build_upsert,
  build_event, skips_draft, collect_events, decide_events, is_metadata_only_action,
  is_state_sync_action, route_pull_request_event,
}

-- A tenant gets a review unless the pull request is a draft, stays one, and the project has not
-- asked for reviews of drafts.
abbrev pub wants_review : PullRequestEvent → WebhookTenantTarget → Bool
wants_review payload tenant =
    not payload.pull_request.draft
    || payload.action == "ready_for_review"
    || parse_project_review_settings tenant.project_settings

-- The events of a delivery: one for each tenant that wants a review, in the tenants' order.
abbrev pub wanted_events :
    PullRequestEvent → List WebhookTenantTarget → String → List ReviewRequested
wanted_events payload tenants trace_id =
    map (λ t. build_event t payload payload.action trace_id) (filter (wants_review payload) tenants)

collect_events-eq-wanted :
    (payload : PullRequestEvent) (trace_id : String) (tenants : List WebhookTenantTarget)
    → collect_events payload trace_id tenants ≡ wanted_events payload tenants trace_id
unfolding collect_events skips_draft
collect_events-eq-wanted payload trace_id [] = refl
collect_events-eq-wanted payload trace_id (t ∷ tenants) =
    ground (arith, collect_events-eq-wanted payload trace_id tenants)

-- No action is in two of the three groups: one that triggers a review is unequal to each of the
-- others' actions.
not_equal_of_triggering :
    (other action : String)
    → is_review_triggering_action other ≡ false
    → is_review_triggering_action action ≡ true
    → (other == action) ≡ false
not_equal_of_triggering other action h k = elim (Bool-cases (other == action)) [
  | inl e ↦ cc (h, rw (← (eq_iff other action).0 e) at k)
  | inr e ↦ e
]

not_metadata_of_triggering :
    (action : String)
    → is_review_triggering_action action ≡ true
    → is_metadata_only_action action ≡ false
unfolding is_review_triggering_action is_metadata_only_action
not_metadata_of_triggering action h = rw (not_equal_of_triggering "edited" action refl h)

not_state_sync_of_triggering :
    (action : String)
    → is_review_triggering_action action ≡ true
    → is_state_sync_action action ≡ false
unfolding is_review_triggering_action is_state_sync_action
not_state_sync_of_triggering action h = rw (
  not_equal_of_triggering "closed" action refl h,
  not_equal_of_triggering "converted_to_draft" action refl h,
)

module _ (payload : PullRequestEvent) (trace_id : String) where
  decide_events-dispatch_iff :
      (ups : List PullRequest) (events : List ReviewRequested) (found : List ReviewRequested)
      (ups' : List PullRequest)
      → (decide_events ups found ≡ dispatch events ups')
        ↔ ((found ≡ events) × (events ≢ []) × (ups ≡ ups'))
  unfolding decide_events
  decide_events-dispatch_iff ups events [] ups' = ground arith
  decide_events-dispatch_iff ups events (e ∷ es) ups' = ground arith

  -- Events are dispatched exactly if the action triggers reviews and some tenant wants one; they
  -- are then those of the tenants that want one, and every tenant's copy of the pull request is
  -- stored.
  pub route_pull_request_event-dispatch_iff :
      (tenants : List WebhookTenantTarget) (events : List ReviewRequested) (ups : List PullRequest)
      → (route_pull_request_event payload tenants trace_id ≡ dispatch events ups) ↔ (
          (is_review_triggering_action payload.action ≡ true)
          × (wanted_events payload tenants trace_id ≡ events)
          × (events ≢ [])
          × (map (λ t. build_upsert t payload) tenants ≡ ups))
  unfolding route_pull_request_event
  route_pull_request_event-dispatch_iff [] events ups = ground arith
  route_pull_request_event-dispatch_iff (t ∷ tenants) events ups = ground (
    arith,
    not_metadata_of_triggering payload.action,
    not_state_sync_of_triggering payload.action,
    collect_events-eq-wanted payload trace_id (t ∷ tenants),
    decide_events-dispatch_iff (map (λ t. build_upsert t payload) (t ∷ tenants)) events
        (wanted_events payload (t ∷ tenants) trace_id) ups,
  )
