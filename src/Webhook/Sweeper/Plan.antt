-- ===== src/Webhook/Sweeper/Plan.antt =====
-- `buildSweepSends` and `isReplayableDispatchPayload` (webhook-sweeper.ts).
use ai_powered_github_pr_rev.Prelude.{
  ◌≡◌, ◌≢◌, refl, ap, Bool, true, not, some, List, [], ◌∷◌, map, filter, arith, all,
}
use ai_powered_github_pr_rev.Json.{Json, items, to_items}
use ai_powered_github_pr_rev.Store.{WebhookEvent}
use ai_powered_github_pr_rev.Webhook.Router.{ReviewRequested}
use ai_powered_github_pr_rev.Webhook.Emit.{events_json, event_json, message_of}
use ai_powered_github_pr_rev.Webhook.Sweeper.{
  is_replayable_item, is_replayable_dispatch_payload, replayed_messages, replayed_message,
  build_sweep_sends, send_of, skip_of,
}

items-to_items : (vs : List Json) → items (to_items vs) ≡ vs
items-to_items [] = refl
items-to_items (v ∷ vs) = ap (◌∷◌ v) (items-to_items vs)

replayable_items :
    (events : List ReviewRequested) → all is_replayable_item (map event_json events) ≡ true
unfolding is_replayable_item
replayable_items [] = refl
replayable_items (e ∷ events) = replayable_items events

replayed-event_json :
    (events : List ReviewRequested)
    → map replayed_message (map event_json events) ≡ map message_of events
unfolding replayed_message
replayed-event_json [] = refl
replayed-event_json (e ∷ events) = ap (◌∷◌ (message_of e)) (replayed-event_json events)

-- The payload that ingestion stores for events, of which there is one at least, passes the
-- sweeper's test, and the sweeper makes of it the very messages that ingestion sends.
pub replayed_messages-events_json :
    (events : List ReviewRequested)
    → events ≢ []
    → (is_replayable_dispatch_payload (some (events_json events)) ≡ true)
      × (replayed_messages (some (events_json events)) ≡ map message_of events)
unfolding is_replayable_dispatch_payload replayed_messages
replayed_messages-events_json [] h = absurd (h refl)
replayed_messages-events_json (e ∷ events) h = (
  rw (items-to_items (map event_json events)) (replayable_items (e ∷ events)),
  rw (items-to_items (map event_json events)) (replayed-event_json (e ∷ events)),
)

abbrev pub is_replayable : WebhookEvent → Bool
is_replayable row = is_replayable_dispatch_payload row.dispatch_payload

-- The plan divides the rows: those with a replayable payload are sent, the others are skipped,
-- each kind in the order found.
pub build_sweep_sends_lem :
    (rows : List WebhookEvent)
    → ((build_sweep_sends rows).sends ≡ map send_of (filter is_replayable rows))
      × ((build_sweep_sends rows).skips
          ≡ map skip_of (filter (λ row. not (is_replayable row)) rows))
unfolding build_sweep_sends
build_sweep_sends_lem [] = (refl, refl)
build_sweep_sends_lem (row ∷ rows) = ground (arith, build_sweep_sends_lem rows)
