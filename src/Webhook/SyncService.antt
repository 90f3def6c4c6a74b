-- ===== src/Webhook/SyncService.antt =====
-- `ingestSyncDelivery` of apps/api/src/modules/webhooks/webhook.service.ts. Log lines are left out.
pub mod Laws
use ai_powered_github_pr_rev.Prelude.{ℕ, String, Option}
use ai_powered_github_pr_rev.Prelude.Equality.{text_equality}
use ai_powered_github_pr_rev.Json.{Json}
use ai_powered_github_pr_rev.Database.{Prisma}
use ai_powered_github_pr_rev.Store.{M, ◌>>=◌, ◌>>◌, pure, of_result}
use ai_powered_github_pr_rev.Webhook.Payload.{
  Parsed, parsed, rejected, Schemas, extract_installation_id, extract_repository_full_name,
  extract_action,
}
use ai_powered_github_pr_rev.Webhook.Ledger.{Moment, insert_pending, mark_ignored, mark_failed}
use ai_powered_github_pr_rev.Webhook.Sync.{
  InstallationSyncReason, sync_installation_event, sync_installation_repositories_event,
  sync_repository_event,
}
use ai_powered_github_pr_rev.Webhook.Outcome.{
  SyncIngestOutcome, sync_ignored, sync_duplicate, sync_failed, sync_reason_text, SyncEventType,
  installation, installation_repositories, repository, sync_event_text, if_new,
}

module _ (db : Prisma) (schemas : Schemas) (at : Moment) where
  fail_sync_delivery : String → String → M SyncIngestOutcome
  fail_sync_delivery id message = do
    mark_failed db id "MALFORMED_PAYLOAD" message
    pure (sync_failed "MALFORMED_PAYLOAD")

  apply_sync :
      {Event : Type 0}
      → String
      → (Event → M InstallationSyncReason)
      → Parsed Event
      → M SyncIngestOutcome
  unfolding fail_sync_delivery
  apply_sync id sync (rejected message) = fail_sync_delivery id message
  apply_sync id sync (parsed event) = do
    outcome ← sync event
    mark_ignored db id (sync_reason_text outcome)
    pure (sync_ignored (sync_reason_text outcome))

  sync_by_type : (String → Option ℕ) → SyncEventType → Json → String → M SyncIngestOutcome
  unfolding apply_sync
  sync_by_type parse_date installation raw id =
      apply_sync id (sync_installation_event db parse_date at.now) (schemas.installation_event raw)
  sync_by_type parse_date installation_repositories raw id =
      apply_sync id (sync_installation_repositories_event db parse_date)
        (schemas.installation_repositories_event raw)
  sync_by_type parse_date repository raw id =
      apply_sync id (sync_repository_event db parse_date) (schemas.repository_event raw)

  unfoldable pub ingest_sync_delivery :
      (String → Option ℕ) → String → SyncEventType → Json → M SyncIngestOutcome
  unfolding sync_by_type
  ingest_sync_delivery parse_date delivery_id event_type raw_payload = do
    installation_id ← of_result (extract_installation_id raw_payload)
    result ← insert_pending db at (record {
      delivery_id = delivery_id;
      event_type = sync_event_text event_type;
      action = extract_action raw_payload;
      installation_id = installation_id;
      repository_full_name = extract_repository_full_name raw_payload;
    })
    if_new sync_duplicate (sync_by_type parse_date event_type raw_payload) result
