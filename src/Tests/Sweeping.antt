-- ===== src/Tests/Sweeping.antt =====
-- The sweeper at a ledger with two old pending rows, one of which cannot be sent again.
use ai_powered_github_pr_rev.Prelude.{◌≡◌, refl, true, none, some, List, [], ◌∷◌}
use ai_powered_github_pr_rev.Prelude.Int.{pos}
use ai_powered_github_pr_rev.Database.{in_memory}
use ai_powered_github_pr_rev.Store.{
  WebhookEvent, pending, Message, Store, err, internal, is_pending,
}
use ai_powered_github_pr_rev.Webhook.Router.{ReviewRequested}
use ai_powered_github_pr_rev.Webhook.Ledger.{find_pending_older_than}
use ai_powered_github_pr_rev.Webhook.Emit.{
  SendResult, acknowledged, refused, events_json, message_of,
}
use ai_powered_github_pr_rev.Webhook.Sweeper.{
  webhook_sweeper, is_replayable_dispatch_payload, replayed_messages, build_sweep_sends, send_of,
  skip_of,
}
use ai_powered_github_pr_rev.Webhook.Sweeper.Plan.{
  replayed_messages-events_json, build_sweep_sends_lem,
}
use ai_powered_github_pr_rev.Webhook.Sweeper.Run.{
  webhook_sweeper-IsSwept, webhook_sweeper-refused, IsSwept, found_rows,
}
use ai_powered_github_pr_rev.Tests.Outside.{connected_store}

abbrev event : ReviewRequested
event = record {
  project_id = "p1";
  repository_id = "r1";
  installation_id = "42";
  pull_request_number = pos 5;
  head_sha = "c0ffee";
  base_sha = "beef";
  trigger = "opened";
  trace_id = "t1";
  pr_key = "42:octo/app:5:c0ffee";
}

abbrev sendable : WebhookEvent
sendable = record {
  id = "e1";
  delivery_id = "d1";
  event_type = "pull_request";
  action = some "opened";
  installation_id = some (pos 42);
  repository_full_name = some "octo/app";
  dispatch_payload = some (events_json (event ∷ []));
  status = pending;
  dispatched_at = none;
  error = none;
  created_at = 1000;
}

abbrev empty_handed : WebhookEvent
empty_handed = record sendable { id = "e2"; delivery_id = "d2"; dispatch_payload = none }

abbrev ledger_store : Store
ledger_store = record connected_store { events = empty_handed ∷ sendable ∷ [] }

abbrev answer : SendResult → List Message → SendResult
answer result messages = result

replayed_messages-events_json_example :
    (is_replayable_dispatch_payload (some (events_json (event ∷ []))) ≡ true)
    × (replayed_messages (some (events_json (event ∷ []))) ≡ message_of event ∷ [])
replayed_messages-events_json_example = replayed_messages-events_json (event ∷ []) (λ h. cc)

build_sweep_sends_lem_example :
    ((build_sweep_sends (empty_handed ∷ sendable ∷ [])).sends ≡ send_of sendable ∷ [])
    × ((build_sweep_sends (empty_handed ∷ sendable ∷ [])).skips ≡ skip_of empty_handed ∷ [])
unfolding is_replayable_dispatch_payload
build_sweep_sends_lem_example = build_sweep_sends_lem (empty_handed ∷ sendable ∷ [])

webhook_sweeper-IsSwept_example :
    IsSwept in_memory
      (answer acknowledged)
      100000
      (found_rows in_memory (answer acknowledged) 100000 ledger_store)
      ledger_store
      (webhook_sweeper in_memory (answer acknowledged) 100000 ledger_store)
webhook_sweeper-IsSwept_example =
    webhook_sweeper-IsSwept in_memory (answer acknowledged) 100000 ledger_store refl

webhook_sweeper-refused_example :
    webhook_sweeper in_memory (answer refused) 100000 ledger_store ≡ (ledger_store, err internal)
unfolding find_pending_older_than is_replayable_dispatch_payload is_pending
webhook_sweeper-refused_example =
    webhook_sweeper-refused in_memory (answer refused) 100000 ledger_store (λ h. cc) refl
