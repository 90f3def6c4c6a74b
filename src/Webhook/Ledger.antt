-- ===== src/Webhook/Ledger.antt =====
-- apps/api/src/modules/webhooks/webhook-event.repository.ts: the audit ledger of deliveries.
pub mod Laws
use ai_powered_github_pr_rev.Prelude.{
  ℕ, String, Bool, ◌&&◌, ◌||◌, Option, none, some, List, ltb, ◌+◌,
}
use ai_powered_github_pr_rev.Prelude.Equality.{◌==◌, text_equality}
use ai_powered_github_pr_rev.Prelude.Int.{ℤ}
use ai_powered_github_pr_rev.Json.{Json}
use ai_powered_github_pr_rev.Database.{Prisma}
use ai_powered_github_pr_rev.Store.{
  WebhookEvent, pending, dispatched, ignored, failed, EventError, reason, code_message, Store,
  record_not_found, M, pure, throw, is_pending,
}

pub record NewWebhookEvent : Type 0 where
  pub delivery_id : String
  pub event_type : String
  pub action : Option String
  pub installation_id : Option ℤ
  pub repository_full_name : Option String

pub data InsertWebhookEventResult : Type 0 where
  inserted : String → InsertWebhookEventResult
  duplicate_delivery : InsertWebhookEventResult

-- What the database generates for a new row, and the clock that the handler reads.
pub record Moment : Type 0 where
  pub new_id : String
  pub now : ℕ

-- The row with the columns' defaults.
abbrev pub new_row : Moment → NewWebhookEvent → WebhookEvent
new_row at input = record {
  id = at.new_id;
  delivery_id = input.delivery_id;
  event_type = input.event_type;
  action = input.action;
  installation_id = input.installation_id;
  repository_full_name = input.repository_full_name;
  dispatch_payload = none;
  status = pending;
  dispatched_at = none;
  error = none;
  created_at = at.now;
}

-- The two unique columns of the table.
abbrev pub clashes : Moment → NewWebhookEvent → WebhookEvent → Bool
clashes at input row = row.delivery_id == input.delivery_id || row.id == at.new_id

abbrev pub has_id : String → WebhookEvent → Bool
has_id id row = row.id == id

module _ (db : Prisma) where
  unfoldable pub insert_pending : Moment → NewWebhookEvent → M InsertWebhookEventResult
  insert_pending at input s =
      elim (db.create WebhookEvent (clashes at input) (new_row at input) s.events) [
        | none ↦ pure duplicate_delivery s
        | some rows ↦ pure (inserted at.new_id) (record s { events = rows })
      ]

  -- `prisma.webhookEvent.update` with `where: { id }`.
  unfoldable pub update_event : String → (WebhookEvent → WebhookEvent) → M (Unit {0})
  update_event id data' s = elim (db.update WebhookEvent (has_id id) data' s.events) [
    | none ↦ throw record_not_found s
    | some rows ↦ pure tt (record s { events = rows })
  ]

  unfoldable pub mark_dispatched : String → Json → ℕ → M (Unit {0})
  mark_dispatched id payload now = update_event id λ row. record row {
    status = dispatched;
    dispatched_at = some now;
    dispatch_payload = some payload;
  }

  unfoldable pub mark_ignored : String → String → M (Unit {0})
  mark_ignored id why =
      update_event id λ row. record row { status = ignored; error = some (reason why) }

  unfoldable pub mark_failed : String → String → String → M (Unit {0})
  mark_failed id code message =
      update_event id
        λ row. record row { status = failed; error = some (code_message code message) }

  unfoldable pub save_pending_dispatch_payload : String → Json → M (Unit {0})
  save_pending_dispatch_payload id payload =
      update_event id λ row. record row { dispatch_payload = some payload }

  unfoldable pub find_pending_older_than : ℕ → ℕ → ℕ → Store → List WebhookEvent
  unfolding is_pending
  find_pending_older_than older_than limit now s =
      db.find_oldest WebhookEvent
        (λ row. is_pending row.status && ltb (row.created_at + older_than) now)
        (λ row. row.created_at) limit s.events
