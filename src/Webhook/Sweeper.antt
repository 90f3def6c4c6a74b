-- ===== src/Webhook/Sweeper.antt =====
-- apps/worker/src/inngest/functions/webhook-sweeper.ts, with the queries of
-- apps/worker/src/webhooks/webhook-event.repository.ts. It sends again the events of deliveries that
-- have been pending for a minute.
pub mod Plan
mod Laws
mod Status
pub mod Run
use Prim.Native.String
use ai_powered_github_pr_rev.Prelude.{
  ℕ, String, Bool, true, false, ◌&&◌, Option, none, some, List, [], ◌∷◌, ◌++◌, map, all, is_empty,
  length, ◌*◌, not, if◌then◌else◌,
}
use ai_powered_github_pr_rev.Json.{
  Json, null, bool, num, str, arr, obj, items, get_field, as_string,
}
use ai_powered_github_pr_rev.Database.{Prisma}
use ai_powered_github_pr_rev.Store.{
  WebhookEvent, dispatched, Message, Store, internal, M, ◌>>=◌, ◌>>◌, pure, throw,
}
use ai_powered_github_pr_rev.Webhook.Ledger.{update_event, mark_failed, find_pending_older_than}
use ai_powered_github_pr_rev.Webhook.Emit.{
  pull_request_review_requested, SendResult, acknowledged, refused, timed_out,
}

abbrev pub pending_threshold_ms : ℕ
pending_threshold_ms = 60 * 1000

abbrev pub sweep_batch_limit : ℕ
sweep_batch_limit = 50

pub record SweepSend : Type 0 where
  pub row_id : String
  pub delivery_id : String
  pub events : List Message

pub record SweepSkip : Type 0 where
  pub row_id : String
  pub delivery_id : String
  pub code : String
  pub message : String

pub record SweepPlan : Type 0 where
  pub sends : List SweepSend
  pub skips : List SweepSkip

abbrev is_string : Option Json → Bool
is_string v = elim (as_string v) [ none ↦ false | some _ ↦ true ]

-- An item of a payload that can be sent again.
is_replayable_item : Json → Bool
unfolding as_string get_field
is_replayable_item item =
    is_string (get_field "prKey" item)
    && is_string (get_field "repositoryId" item)
    && is_string (get_field "projectId" item)

is_replayable_list : List Json → Bool
unfolding is_replayable_item
is_replayable_list vs = not (is_empty vs) && all is_replayable_item vs

is_replayable_value : Json → Bool
unfolding is_replayable_list
is_replayable_value (arr vs) = is_replayable_list (items vs)
is_replayable_value null = false
is_replayable_value (bool b) = false
is_replayable_value (num n) = false
is_replayable_value (str s) = false
is_replayable_value (obj fs) = false

unfoldable pub is_replayable_dispatch_payload : Option Json → Bool
unfolding is_replayable_value
is_replayable_dispatch_payload none = false
is_replayable_dispatch_payload (some v) = is_replayable_value v

-- `data.prKey`, which the test above has found to be a text.
abbrev text_or_empty : Option String → String
text_or_empty none = ""
text_or_empty (some s) = s

replayed_message : Json → Message
unfolding as_string get_field
replayed_message v = record {
  name = pull_request_review_requested;
  content = v;
  id = text_or_empty (as_string (get_field "prKey" v));
}

abbrev payload_items : Option Json → List Json
payload_items (some (arr vs)) = items vs
payload_items _ = []

unfoldable pub replayed_messages : Option Json → List Message
unfolding replayed_message
replayed_messages payload = map replayed_message (payload_items payload)

abbrev pub send_of : WebhookEvent → SweepSend
send_of row = record {
  row_id = row.id;
  delivery_id = row.delivery_id;
  events = replayed_messages row.dispatch_payload;
}

abbrev pub skip_of : WebhookEvent → SweepSkip
skip_of row = record {
  row_id = row.id;
  delivery_id = row.delivery_id;
  code = "UNSWEEPABLE_DISPATCH_PAYLOAD";
  message =
      String.◌++◌ "WebhookEvent " (
        String.◌++◌ row.delivery_id " has a null or malformed dispatchPayload and cannot be swept");
}

abbrev add_row : WebhookEvent → SweepPlan → SweepPlan
add_row row plan =
    if is_replayable_dispatch_payload row.dispatch_payload
    then record plan { sends = send_of row ∷ plan.sends }
    else record plan { skips = skip_of row ∷ plan.skips }

unfoldable pub build_sweep_sends : List WebhookEvent → SweepPlan
build_sweep_sends [] = record { sends = []; skips = [] }
build_sweep_sends (row ∷ rows) = add_row row (build_sweep_sends rows)

abbrev pub sent_messages : List SweepSend → List Message
sent_messages [] = []
sent_messages (send ∷ sends) = send.events ++ sent_messages sends

pub record SweepReport : Type 0 where
  pub found : ℕ
  pub dispatched_count : ℕ
  pub failed_count : ℕ

module _ (db : Prisma) (inngest : List Message → SendResult) (now : ℕ) where
  -- The worker's `markDispatched` leaves the payload as it is.
  mark_dispatched : String → M (Unit {0})
  mark_dispatched id =
      update_event db id λ row. record row { status = dispatched; dispatched_at = some now }

  pub mark_sends : List SweepSend → M (Unit {0})
  unfolding mark_dispatched
  mark_sends [] = pure tt
  mark_sends (send ∷ sends) = do mark_dispatched send.row_id; mark_sends sends

  pub mark_skips : List SweepSkip → M (Unit {0})
  mark_skips [] = pure tt
  mark_skips (skip ∷ skips) = do mark_failed db skip.row_id skip.code skip.message; mark_skips skips

  -- `step.sendEvent`; an event that is not sent ends the run, which Inngest starts again.
  send_event : List Message → M (Unit {0})
  send_event messages s = elim (inngest messages) [
    | acknowledged ↦ pure tt (record s { sent = s.sent ++ messages })
    | refused ↦ throw internal s
    | timed_out ↦ throw internal (record s { sent = s.sent ++ messages })
  ]

  send_if_any : List SweepSend → M (Unit {0})
  unfolding send_event
  send_if_any [] = pure tt
  send_if_any (send ∷ sends) = send_event (sent_messages (send ∷ sends))

  sweep_rows : List WebhookEvent → M SweepReport
  unfolding send_if_any mark_sends mark_skips build_sweep_sends
  sweep_rows rows = do
    let plan = build_sweep_sends rows
    send_if_any plan.sends
    mark_sends plan.sends
    mark_skips plan.skips
    pure (record {
      found = length rows;
      dispatched_count = length plan.sends;
      failed_count = length plan.skips;
    })

  -- With no row found the run ends before the plan is made, with nothing to do.
  unfoldable pub webhook_sweeper : M SweepReport
  unfolding sweep_rows
  webhook_sweeper s =
      let rows = find_pending_older_than db pending_threshold_ms sweep_batch_limit now s in
      if is_empty rows
      then pure (record { found = 0; dispatched_count = 0; failed_count = 0 }) s
      else sweep_rows rows s
