-- ===== src/Webhook/Service.antt =====
-- `ingestDelivery` of apps/api/src/modules/webhooks/webhook.service.ts. Log lines are left out.
pub mod Spec
mod Laws
pub mod Branches
pub mod Replay
pub mod Returns
use ai_powered_github_pr_rev.Prelude.{
  String, none, some, List, [], ◌∷◌, if◌then◌else◌, ◌||◌, length,
}
use ai_powered_github_pr_rev.Prelude.Equality.{◌==◌, text_equality}
use ai_powered_github_pr_rev.Database.{Prisma}
use ai_powered_github_pr_rev.Store.{
  PullRequest, Store, internal, Result, ok, err, M, ◌>>=◌, ◌>>◌, pure, throw, of_result,
}
use ai_powered_github_pr_rev.Repositories.{find_connected_by_github_repo_id, upsert_minimal}
use ai_powered_github_pr_rev.Webhook.Payload.{
  PullRequestEvent, Parsed, parsed, rejected, Schemas, extract_installation_id,
  extract_repository_full_name, extract_action,
}
use ai_powered_github_pr_rev.Webhook.Ledger.{
  Moment, insert_pending, mark_dispatched, mark_ignored, mark_failed, save_pending_dispatch_payload,
}
use ai_powered_github_pr_rev.Webhook.Router.{
  IgnoreReason, ping, push_not_handled_in_mvp, ReviewRequested, RouterDecision, dispatch,
  persist_only, ignore, route_pull_request_event,
}
use ai_powered_github_pr_rev.Webhook.Outcome.{
  Delivery, IngestOutcome, dispatched_count, duplicate, ignored_for, pending_dispatch_failed,
  failed_with, reason_text, if_new,
}
use ai_powered_github_pr_rev.Webhook.Emit.{events_json}

module _ (db : Prisma) (schemas : Schemas) (at : Moment) where
  pub ingest_inert_event : Delivery → IgnoreReason → M IngestOutcome
  ingest_inert_event d why = do
    installation_id ← of_result (extract_installation_id d.raw_payload)
    result ← insert_pending db at (record {
      delivery_id = d.delivery_id;
      event_type = d.event_type;
      action = none;
      installation_id = installation_id;
      repository_full_name = extract_repository_full_name d.raw_payload;
    })
    if_new duplicate (λ id. do mark_ignored db id (reason_text why); pure (ignored_for why)) result

  pub ingest_malformed_pull_request_event : Delivery → String → M IngestOutcome
  ingest_malformed_pull_request_event d message = do
    installation_id ← of_result (extract_installation_id d.raw_payload)
    result ← insert_pending db at (record {
      delivery_id = d.delivery_id;
      event_type = d.event_type;
      action = extract_action d.raw_payload;
      installation_id = installation_id;
      repository_full_name = extract_repository_full_name d.raw_payload;
    })
    if_new duplicate
        (λ id. do
          mark_failed db id "MALFORMED_PAYLOAD" message
          pure (failed_with "MALFORMED_PAYLOAD"))
        result

  pub upsert_each : List PullRequest → M (Unit {0})
  upsert_each [] = pure tt
  upsert_each (u ∷ us) = do upsert_minimal db u; upsert_each us

  -- `try { send } catch`, and what follows it.
  after_send :
      String → List ReviewRequested → Store × Result (Unit {0}) → Store × Result IngestOutcome
  after_send id events (s, err e) = pure pending_dispatch_failed s
  after_send id events (s, ok _) =
      (do
        mark_dispatched db id (events_json events) at.now
        pure (dispatched_count (length events)))
        s

  module _ (send : List ReviewRequested → M (Unit {0})) where
    pub try_send : String → List ReviewRequested → M IngestOutcome
    unfolding after_send
    try_send id events s = after_send id events (send events s)

    pub act_on : String → RouterDecision → M IngestOutcome
    unfolding upsert_each try_send
    act_on id (ignore why) = do mark_ignored db id (reason_text why); pure (ignored_for why)
    act_on id (persist_only upserts why) = do
      upsert_each upserts
      mark_ignored db id (reason_text why)
      pure (ignored_for why)
    act_on id (dispatch events upserts) = do
      upsert_each upserts
      save_pending_dispatch_payload db id (events_json events)
      try_send id events

    -- The tenants are read after the row is inserted.
    pub route_delivery : PullRequestEvent → String → String → M IngestOutcome
    unfolding act_on
    route_delivery payload trace_id id s =
        act_on id
          (route_pull_request_event payload
            (find_connected_by_github_repo_id db payload.repository.id s) trace_id)
          s

    pub ingest_parsed : Delivery → Parsed PullRequestEvent → M IngestOutcome
    unfolding route_delivery ingest_malformed_pull_request_event
    ingest_parsed d (rejected message) = ingest_malformed_pull_request_event d message
    ingest_parsed d (parsed payload) = do
      result ← insert_pending db at (record {
        delivery_id = d.delivery_id;
        event_type = d.event_type;
        action = some payload.action;
        installation_id = some payload.installation_id;
        repository_full_name = some payload.repository.full_name;
      })
      if_new duplicate (route_delivery payload d.trace_id) result

    unfoldable pub ingest_delivery : Delivery → M IngestOutcome
    unfolding ingest_inert_event ingest_parsed
    ingest_delivery d =
        let inert =
          ingest_inert_event d (if d.event_type == "ping" then ping else push_not_handled_in_mvp) in
        let pull_request = ingest_parsed d (schemas.pull_request_event d.raw_payload) in
        if d.event_type == "ping" || d.event_type == "push"
        then inert
        else if d.event_type == "pull_request"
        then pull_request
        else throw internal
