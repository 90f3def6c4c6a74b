-- ===== src/Webhook/SyncService/Laws.antt =====
-- How the ingestion of installation and repository events ends.
use ai_powered_github_pr_rev.Prelude.{
  ℕ, String, ◌≡◌, refl, Bool, Option, some, List, [], ◌∷◌, ◌++◌, any, true, false, none,
}
use ai_powered_github_pr_rev.Prelude.Equality.{text_equality}
use ai_powered_github_pr_rev.Prelude.Int.{ℤ}
use ai_powered_github_pr_rev.Json.{Json}
use ai_powered_github_pr_rev.Database.{Prisma}
use ai_powered_github_pr_rev.Store.{
  WebhookEvent, is_pending, Repository, GithubInstallation, Store, Result, ok, M, ignored, failed,
  reason, code_message,
}
use ai_powered_github_pr_rev.Webhook.Payload.{
  Parsed, parsed, rejected, Schemas, extract_installation_id, extract_repository_full_name,
  extract_action,
}
use ai_powered_github_pr_rev.Webhook.Ledger.{
  Moment, NewWebhookEvent, new_row, clashes, mark_ignored, mark_failed,
}
use ai_powered_github_pr_rev.Webhook.Ledger.Laws.{
  insert_pending_taken, insert_pending_new, update_event_new,
}
use ai_powered_github_pr_rev.Webhook.Sync.{InstallationSyncReason}
use ai_powered_github_pr_rev.Webhook.Sync.Returns.{
  Returns, sync_installation_event-Returns, sync_installation_repositories_event-Returns,
  sync_repository_event-Returns,
}
use ai_powered_github_pr_rev.Webhook.Outcome.{
  SyncIngestOutcome, sync_ignored, sync_duplicate, sync_failed, sync_reason_text, SyncEventType,
  installation, installation_repositories, repository, sync_event_text,
}
use ai_powered_github_pr_rev.Webhook.SyncService.{
  ingest_sync_delivery, apply_sync, fail_sync_delivery, sync_by_type,
}

abbrev pub sync_columns : String → SyncEventType → Json → Option ℤ → NewWebhookEvent
sync_columns delivery_id event_type raw_payload installation_id = record {
  delivery_id = delivery_id;
  event_type = sync_event_text event_type;
  action = extract_action raw_payload;
  installation_id = installation_id;
  repository_full_name = extract_repository_full_name raw_payload;
}

-- A delivery's end: one row more, settled; no message sent, no pull request written.
abbrev pub IsSynced : String → Store → Store × Result SyncIngestOutcome → Type 0
IsSynced delivery_id s result =
    (row : WebhookEvent) × (outcome : SyncIngestOutcome) × (rows : List Repository) × (rows' : List
      GithubInstallation)
    × (row.delivery_id ≡ delivery_id)
    × (is_pending row.status ≡ false)
    × (result ≡ (
      record s { events = s.events ++ row ∷ []; repositories = rows; installations = rows' },
      ok outcome,
    ))

abbrev inserted_store : Moment → NewWebhookEvent → Store → Store
inserted_store at input s = record s { events = s.events ++ new_row at input ∷ [] }

module _ (db : Prisma) (schemas : Schemas) (at : Moment) (input : NewWebhookEvent) (s : Store)
    (new : any (clashes at input) s.events ≡ false) where
  apply_sync_new :
      {Event : Type 0} (sync : Event → M InstallationSyncReason) (p : Parsed Event)
      → ((event : Event) → Returns (sync event))
      → IsSynced input.delivery_id s
          (apply_sync db schemas at at.new_id sync p (inserted_store at input s))
  unfolding apply_sync fail_sync_delivery mark_ignored mark_failed is_pending
  apply_sync_new sync (rejected message) h = (
    record (new_row at input) {
      status = failed;
      error = some (code_message "MALFORMED_PAYLOAD" message);
    },
    sync_failed "MALFORMED_PAYLOAD",
    s.repositories,
    s.installations,
    refl,
    refl,
    rw
        (update_event_new db at input s (inserted_store at input s) (new_row at input) _ new refl
          refl)
        refl,
  )
  apply_sync_new sync (parsed event) h =
      let (a, rows, rows', e) = h event (inserted_store at input s) in
      (
        record (new_row at input) { status = ignored; error = some (reason (sync_reason_text a)) },
        sync_ignored (sync_reason_text a),
        rows,
        rows',
        refl,
        refl,
        rw
            (
              e,
              update_event_new db at input s
                  (record (inserted_store at input s) {
                    repositories = rows;
                    installations = rows';
                  })
                  (new_row at input) _ new refl refl,
            )
            refl,
      )

module _ (db : Prisma) (schemas : Schemas) (at : Moment) (parse_date : String → Option ℕ)
    (delivery_id : String) (event_type : SyncEventType) (raw_payload : Json) (s : Store) where
  abbrev pub is_sync_taken : Bool
  is_sync_taken = any (clashes at (sync_columns delivery_id event_type raw_payload none)) s.events

  -- A redelivery, or a row's id used twice, changes nothing.
  pub ingest_sync_delivery_taken :
      (installation_id : Option ℤ)
      → extract_installation_id raw_payload ≡ ok installation_id
      → is_sync_taken ≡ true
      → ingest_sync_delivery db schemas at parse_date delivery_id event_type raw_payload s
        ≡ (s, ok sync_duplicate)
  unfolding ingest_sync_delivery
  ingest_sync_delivery_taken id readable h = rw (
    readable,
    insert_pending_taken db at (sync_columns delivery_id event_type raw_payload id) s h,
  )

  by_type_new :
      (id : Option ℤ) (kind : SyncEventType)
      → is_sync_taken ≡ false
      → IsSynced delivery_id s (
          sync_by_type db schemas at parse_date kind raw_payload at.new_id
            (inserted_store at (sync_columns delivery_id event_type raw_payload id) s))
  unfolding sync_by_type
  by_type_new id installation new =
      apply_sync_new db schemas at (sync_columns delivery_id event_type raw_payload id) s new _ _
        (sync_installation_event-Returns db parse_date at.now)
  by_type_new id installation_repositories new =
      apply_sync_new db schemas at (sync_columns delivery_id event_type raw_payload id) s new _ _
        (sync_installation_repositories_event-Returns db parse_date)
  by_type_new id repository new =
      apply_sync_new db schemas at (sync_columns delivery_id event_type raw_payload id) s new _ _
        (sync_repository_event-Returns db parse_date)

  -- A new delivery of an installation or repository event, of any content of which reading the
  -- installation id does not throw, leaves one settled row of its own, changes at most the
  -- repositories and the installations, sends nothing, and throws nothing while the database
  -- answers.
  pub ingest_sync_delivery-IsSynced :
      (installation_id : Option ℤ)
      → extract_installation_id raw_payload ≡ ok installation_id
      → is_sync_taken ≡ false
      → IsSynced delivery_id s
          (ingest_sync_delivery db schemas at parse_date delivery_id event_type raw_payload s)
  unfolding ingest_sync_delivery
  ingest_sync_delivery-IsSynced id readable new =
      rw
        (
          readable,
          insert_pending_new db at (sync_columns delivery_id event_type raw_payload id) s new,
        )
        (by_type_new id event_type new)
