-- ===== src/Webhook/Outcome.antt =====
-- The outcomes of apps/api/src/modules/webhooks/webhook.service.ts, with the texts of their reasons.
use ai_powered_github_pr_rev.Prelude.{ℕ, String}
use ai_powered_github_pr_rev.Prelude.Equality.{text_equality}
use ai_powered_github_pr_rev.Json.{Json}
use ai_powered_github_pr_rev.Store.{M, pure}
use ai_powered_github_pr_rev.Webhook.Ledger.{InsertWebhookEventResult, inserted, duplicate_delivery}
use ai_powered_github_pr_rev.Webhook.Router.{
  IgnoreReason, no_connected_repository, action_not_triggering, edited_metadata_only, draft_skipped,
  ping, push_not_handled_in_mvp,
}
use ai_powered_github_pr_rev.Webhook.Sync.{
  InstallationSyncReason, installation_created_updated, installation_created_no_existing_row,
  installation_deleted, installation_suspended, installation_unsuspended,
  installation_repositories_added, installation_repositories_removed, repository_renamed,
  repository_deleted, repository_archived, repository_unarchived, unhandled_action,
}

pub record Delivery : Type 0 where
  pub delivery_id : String
  pub event_type : String
  pub raw_payload : Json
  pub trace_id : String

pub data IngestOutcome : Type 0 where
  dispatched_count : ℕ → IngestOutcome
  duplicate : IngestOutcome
  ignored_for : IgnoreReason → IngestOutcome
  pending_dispatch_failed : IngestOutcome
  failed_with : String → IngestOutcome

pub data SyncIngestOutcome : Type 0 where
  sync_ignored : String → SyncIngestOutcome
  sync_duplicate : SyncIngestOutcome
  sync_failed : String → SyncIngestOutcome

abbrev pub reason_text : IgnoreReason → String
reason_text no_connected_repository = "NO_CONNECTED_REPOSITORY"
reason_text action_not_triggering = "ACTION_NOT_TRIGGERING"
reason_text edited_metadata_only = "EDITED_METADATA_ONLY"
reason_text draft_skipped = "DRAFT_SKIPPED"
reason_text ping = "PING"
reason_text push_not_handled_in_mvp = "PUSH_NOT_HANDLED_IN_MVP"

abbrev pub sync_reason_text : InstallationSyncReason → String
sync_reason_text installation_created_updated = "INSTALLATION_CREATED_UPDATED"
sync_reason_text installation_created_no_existing_row = "INSTALLATION_CREATED_NO_EXISTING_ROW"
sync_reason_text installation_deleted = "INSTALLATION_DELETED"
sync_reason_text installation_suspended = "INSTALLATION_SUSPENDED"
sync_reason_text installation_unsuspended = "INSTALLATION_UNSUSPENDED"
sync_reason_text installation_repositories_added = "INSTALLATION_REPOSITORIES_ADDED"
sync_reason_text installation_repositories_removed = "INSTALLATION_REPOSITORIES_REMOVED"
sync_reason_text repository_renamed = "REPOSITORY_RENAMED"
sync_reason_text repository_deleted = "REPOSITORY_DELETED"
sync_reason_text repository_archived = "REPOSITORY_ARCHIVED"
sync_reason_text repository_unarchived = "REPOSITORY_UNARCHIVED"
sync_reason_text unhandled_action = "UNHANDLED_ACTION"

pub data SyncEventType : Type 0 where
  installation installation_repositories repository : SyncEventType

abbrev pub sync_event_text : SyncEventType → String
sync_event_text installation = "installation"
sync_event_text installation_repositories = "installation_repositories"
sync_event_text repository = "repository"

-- What a handler does after the insertion: the delivery is a duplicate, or it goes on.
abbrev pub if_new :
    {Outcome : Type 0} → Outcome → (String → M Outcome) → InsertWebhookEventResult → M Outcome
if_new outcome k (inserted id) = k id
if_new outcome k duplicate_delivery = pure outcome
