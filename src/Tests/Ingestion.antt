-- ===== src/Tests/Ingestion.antt =====
-- Ingestion and synchronisation at concrete deliveries.
use ai_powered_github_pr_rev.Prelude.{
  ◌≡◌, ◌≢◌, ◌↔◌, refl, ap, true, none, some, List, [], ◌∷◌, String,
}
use ai_powered_github_pr_rev.Prelude.Int.{pos}
use ai_powered_github_pr_rev.Database.{in_memory}
use ai_powered_github_pr_rev.Store.{is_disconnected, Store, ok, active}
use ai_powered_github_pr_rev.Repositories.Transitions.{mark-mark_disconnected}
use ai_powered_github_pr_rev.Repositories.{
  mark_disconnected, mark_access_lost, with_status, find_connected_by_github_repo_id,
}
use ai_powered_github_pr_rev.Webhook.Payload.{extract_installation_id}
use ai_powered_github_pr_rev.Webhook.Allowlist.{is_review_triggering_action}
use ai_powered_github_pr_rev.Webhook.Router.{
  WebhookTenantTarget, ReviewRequested, push_not_handled_in_mvp, skips_draft, build_upsert,
  route_pull_request_event, dispatch,
}
use ai_powered_github_pr_rev.Webhook.Router.Laws.{
  route_pull_request_event-dispatch_iff, wanted_events,
}
use ai_powered_github_pr_rev.Webhook.Outcome.{
  Delivery, dispatched_count, duplicate, ignored_for, failed_with, installation,
}
use ai_powered_github_pr_rev.Webhook.Emit.{SendResult, acknowledged, dispatcher_send}
use ai_powered_github_pr_rev.Webhook.Service.{ingest_delivery}
use ai_powered_github_pr_rev.Webhook.Service.Branches.{
  ingest_delivery_pull_request, ingest_delivery_malformed, ingest_delivery_inert,
}
use ai_powered_github_pr_rev.Webhook.Service.Replay.{ingest_delivery-ingest_delivery}
use ai_powered_github_pr_rev.Webhook.Service.Returns.{
  ingest_delivery-ReturnsOutcome, ReturnsOutcome,
}
use ai_powered_github_pr_rev.Webhook.SyncService.{ingest_sync_delivery}
use ai_powered_github_pr_rev.Webhook.SyncService.Laws.{ingest_sync_delivery-IsSynced, IsSynced}
use ai_powered_github_pr_rev.Webhook.Sync.{
  sync_installation_event, sync_installation_repositories_event, sync_repository_event,
}
use ai_powered_github_pr_rev.Webhook.Sync.Laws.{sync-kept, kept_of}
use ai_powered_github_pr_rev.Webhook.Sync.Suspension.{unsuspend-suspend}
use ai_powered_github_pr_rev.Tests.Outside.{
  lenient_schemas, strict_schemas, connected_store, payload, first_moment, second_moment, no_dates,
  pull_request_event, installation_event, repositories_event, repository_event, app_repository,
  lost_repository,
}

abbrev all_accepted : {A : Type 0} → A → SendResult
all_accepted messages = acknowledged

abbrev delivery : String → Delivery
delivery event_type = record {
  delivery_id = "d1";
  event_type = event_type;
  raw_payload = payload;
  trace_id = "t1";
}

readable : extract_installation_id payload ≡ ok (some (pos 42))
unfolding extract_installation_id
readable = refl

abbrev tenant : WebhookTenantTarget
tenant = record {
  repository_id = "r1";
  project_id = "p1";
  installation_id = pos 42;
  full_name = "octo/app";
  project_settings = payload;
  project_deleted_at = none;
}

abbrev dispatched_store : Store
dispatched_store =
    (ingest_delivery in_memory lenient_schemas first_moment (dispatcher_send all_accepted)
      (delivery "pull_request") connected_store).0

ingest_delivery_pull_request_example :
    (ingest_delivery in_memory lenient_schemas first_moment
      (dispatcher_send all_accepted)
      (delivery "pull_request")
      connected_store).1
    ≡ ok (dispatched_count 1)
unfolding route_pull_request_event find_connected_by_github_repo_id is_disconnected skips_draft
ingest_delivery_pull_request_example =
    ap (λ r. r.1)
      (ingest_delivery_pull_request in_memory lenient_schemas first_moment all_accepted
        (delivery "pull_request") connected_store pull_request_event refl refl refl)

ingest_delivery_malformed_example :
    (ingest_delivery in_memory strict_schemas first_moment
      (dispatcher_send all_accepted)
      (delivery "pull_request")
      connected_store).1
    ≡ ok (failed_with "MALFORMED_PAYLOAD")
ingest_delivery_malformed_example =
    ap (λ r. r.1)
      (ingest_delivery_malformed in_memory strict_schemas first_moment all_accepted
        (delivery "pull_request") connected_store "Required" (some (pos 42)) readable refl refl
        refl)

ingest_delivery_inert_example :
    (ingest_delivery in_memory lenient_schemas first_moment
      (dispatcher_send all_accepted)
      (delivery "push")
      connected_store).1
    ≡ ok (ignored_for push_not_handled_in_mvp)
ingest_delivery_inert_example =
    ap (λ r. r.1)
      (ingest_delivery_inert in_memory lenient_schemas first_moment all_accepted (delivery "push")
        connected_store (some (pos 42)) readable refl refl)

ingest_delivery-ReturnsOutcome_example :
    ReturnsOutcome in_memory lenient_schemas first_moment all_accepted
      (delivery "pull_request")
      connected_store
ingest_delivery-ReturnsOutcome_example =
    ingest_delivery-ReturnsOutcome in_memory lenient_schemas first_moment all_accepted
      (delivery "pull_request") connected_store (some (pos 42), readable) refl

ingest_delivery-ingest_delivery_example :
    ingest_delivery in_memory lenient_schemas second_moment
      (dispatcher_send all_accepted)
      (delivery "push")
      dispatched_store
    ≡ (dispatched_store, ok duplicate)
ingest_delivery-ingest_delivery_example =
    ingest_delivery-ingest_delivery in_memory lenient_schemas first_moment all_accepted
      (delivery "pull_request") connected_store second_moment all_accepted (delivery "push")
      (some (pos 42), readable) (some (pos 42), readable) refl refl refl refl

abbrev events_for_tenant : List ReviewRequested
events_for_tenant = wanted_events pull_request_event (tenant ∷ []) "t1"

route_pull_request_event-dispatch_iff_example :
    (route_pull_request_event pull_request_event (tenant ∷ []) "t1"
      ≡ dispatch events_for_tenant (build_upsert tenant pull_request_event ∷ []))
    ↔ ((is_review_triggering_action "opened" ≡ true)
        × (events_for_tenant ≡ events_for_tenant)
        × (events_for_tenant ≢ [])
        × (build_upsert tenant pull_request_event ∷ []
            ≡ build_upsert tenant pull_request_event ∷ []))
route_pull_request_event-dispatch_iff_example =
    route_pull_request_event-dispatch_iff pull_request_event "t1" (tenant ∷ []) events_for_tenant
      (build_upsert tenant pull_request_event ∷ [])

ingest_sync_delivery-IsSynced_example : IsSynced "d2" connected_store (
    ingest_sync_delivery in_memory lenient_schemas first_moment no_dates "d2" installation payload
      connected_store)
ingest_sync_delivery-IsSynced_example =
    ingest_sync_delivery-IsSynced in_memory lenient_schemas first_moment no_dates "d2" installation
      payload connected_store (some (pos 42)) readable refl

sync-kept_example :
    (kept_of
        (sync_installation_event in_memory no_dates 1
          (installation_event "suspend")
          connected_store).0
      ≡ kept_of connected_store)
    × (kept_of
          (sync_installation_repositories_event in_memory no_dates repositories_event
            connected_store).0
        ≡ kept_of connected_store)
    × (kept_of (sync_repository_event in_memory no_dates repository_event connected_store).0
        ≡ kept_of connected_store)
sync-kept_example =
    sync-kept in_memory no_dates 1 (installation_event "suspend") repositories_event
      repository_event connected_store

abbrev suspended_store : Store
suspended_store =
    (sync_installation_event in_memory no_dates 1 (installation_event "suspend") connected_store).0

-- The second repository had no access before the suspension, and has it afterwards.
unsuspend-suspend_example :
    (sync_installation_event in_memory no_dates 2
      (installation_event "unsuspend")
      suspended_store).0.repositories
    ≡ app_repository ∷ with_status active lost_repository ∷ []
unfolding is_disconnected
unsuspend-suspend_example =
    unsuspend-suspend in_memory no_dates 1 2 (installation_event "suspend")
      (installation_event "unsuspend") connected_store refl refl refl

mark-mark_disconnected_example :
    let s' = (mark_disconnected in_memory "p1" "r1" connected_store).0 in
    (mark_disconnected in_memory "p1" "r1" s' ≡ (s', ok 0))
    × (mark_access_lost in_memory "p1" "r1" s' ≡ (s', ok 0))
mark-mark_disconnected_example = mark-mark_disconnected in_memory "p1" "r1" connected_store
