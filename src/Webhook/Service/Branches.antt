-- ===== src/Webhook/Service/Branches.antt =====
-- The branches of `ingestDelivery` (apps/api/src/modules/webhooks/webhook.service.ts).
use ai_powered_github_pr_rev.Prelude.{
  String, ◌≡◌, refl, Bool, Option, true, false, some, none, ◌||◌, List, [], ◌∷◌, ◌++◌, any, eq_iff,
  if◌then◌else◌,
}
use ai_powered_github_pr_rev.Prelude.Equality.{◌==◌, text_equality}
use ai_powered_github_pr_rev.Prelude.Int.{ℤ}
use ai_powered_github_pr_rev.Database.{Prisma}
use ai_powered_github_pr_rev.Store.{
  WebhookEvent, failed, code_message, Message, Store, ok, err, internal,
}
use ai_powered_github_pr_rev.Repositories.{find_connected_by_github_repo_id}
use ai_powered_github_pr_rev.Webhook.Payload.{
  PullRequestEvent, Schemas, parsed, rejected, extract_installation_id,
  extract_repository_full_name, extract_action,
}
use ai_powered_github_pr_rev.Webhook.Ledger.{NewWebhookEvent, Moment, new_row, clashes, mark_failed}
use ai_powered_github_pr_rev.Webhook.Ledger.Laws.{insert_pending_new, update_event_new}
use ai_powered_github_pr_rev.Webhook.Router.{
  IgnoreReason, ping, push_not_handled_in_mvp, RouterDecision, route_pull_request_event,
}
use ai_powered_github_pr_rev.Webhook.Outcome.{Delivery, ignored_for, failed_with}
use ai_powered_github_pr_rev.Webhook.Emit.{SendResult, dispatcher_send}
use ai_powered_github_pr_rev.Webhook.Service.{ingest_parsed, ingest_inert_event, ingest_delivery}
use ai_powered_github_pr_rev.Webhook.Service.Laws.{act_on_new, mark_ignored_new}
use ai_powered_github_pr_rev.Webhook.Service.Spec.{
  upsert_all, upserts_of, ignored_row, settled_row, settled_outcome, settled_messages,
}

-- The columns of each kind of delivery.
abbrev pub pull_request_columns : Delivery → PullRequestEvent → NewWebhookEvent
pull_request_columns d payload = record {
  delivery_id = d.delivery_id;
  event_type = d.event_type;
  action = some payload.action;
  installation_id = some payload.installation_id;
  repository_full_name = some payload.repository.full_name;
}

abbrev pub inert_columns : Delivery → Option ℤ → NewWebhookEvent
inert_columns d installation_id = record {
  delivery_id = d.delivery_id;
  event_type = d.event_type;
  action = none;
  installation_id = installation_id;
  repository_full_name = extract_repository_full_name d.raw_payload;
}

abbrev pub malformed_columns : Delivery → Option ℤ → NewWebhookEvent
malformed_columns d installation_id = record (inert_columns d installation_id) {
  action = extract_action d.raw_payload;
}

abbrev pub failed_row : String → WebhookEvent → WebhookEvent
failed_row message row = record row {
  status = failed;
  error = some (code_message "MALFORMED_PAYLOAD" message);
}

abbrev pub inert_reason : Delivery → IgnoreReason
inert_reason d = if d.event_type == "ping" then ping else push_not_handled_in_mvp

-- The delivery is in the ledger, or its row's new id is.
abbrev pub is_taken : Moment → Delivery → List WebhookEvent → Bool
is_taken at d rows = any (clashes at (inert_columns d none)) rows

-- Which of the three handlers an event type reaches.
module _ (db : Prisma) (schemas : Schemas) (at : Moment) (inngest : List Message → SendResult)
    (d : Delivery) (s : Store) where
  pub goes_to_parsed :
      d.event_type ≡ "pull_request"
      → ingest_delivery db schemas at (dispatcher_send inngest) d s
        ≡ ingest_parsed db schemas at
            (dispatcher_send inngest)
            d
            (schemas.pull_request_event d.raw_payload)
            s
  unfolding ingest_delivery
  goes_to_parsed kind =
      rw (differs "ping" refl, differs "push" refl, (eq_iff d.event_type "pull_request").1 kind)
    where
      differs :
          (other : String) → ("pull_request" == other) ≡ false → (d.event_type == other) ≡ false
      differs other h = rw kind h

  pub goes_to_inert :
      (d.event_type == "ping" || d.event_type == "push") ≡ true
      → ingest_delivery db schemas at (dispatcher_send inngest) d s
        ≡ ingest_inert_event db schemas at d (inert_reason d) s
  unfolding ingest_delivery
  goes_to_inert kind = rw kind

  -- Any other type is a mistake of the caller: the handler throws and changes nothing.
  pub ingest_delivery_unhandled :
      (d.event_type == "ping" || d.event_type == "push") ≡ false
      → (d.event_type == "pull_request") ≡ false
      → ingest_delivery db schemas at (dispatcher_send inngest) d s ≡ (s, err internal)
  unfolding ingest_delivery
  ingest_delivery_unhandled kind other = rw (kind, other)

module _ (db : Prisma) (schemas : Schemas) (at : Moment) (inngest : List Message → SendResult)
    (d : Delivery) (s : Store) where
  abbrev inserted_store : NewWebhookEvent → Store
  inserted_store input = record s { events = s.events ++ new_row at input ∷ [] }

  abbrev pub decision : PullRequestEvent → RouterDecision
  decision payload =
      route_pull_request_event payload (find_connected_by_github_repo_id db payload.repository.id s)
        d.trace_id

  -- A new delivery of a well-formed pull_request event leaves one row, settled as the router
  -- decided and the send ended, after the rows that were there; it stores the router's copies of
  -- the pull request, adds to what Inngest holds the events that it took, and returns the outcome
  -- of the decision.
  pub ingest_delivery_pull_request :
      (payload : PullRequestEvent)
      → d.event_type ≡ "pull_request"
      → schemas.pull_request_event d.raw_payload ≡ parsed payload
      → is_taken at d s.events ≡ false
      → ingest_delivery db schemas at (dispatcher_send inngest) d s ≡ (
        record s {
          events =
              s.events
              ++ settled_row inngest at
                  (decision payload)
                  (new_row at (pull_request_columns d payload))
                ∷ [];
          pull_requests = upsert_all (upserts_of (decision payload)) s.pull_requests;
          sent = s.sent ++ settled_messages inngest (decision payload);
        },
        ok (settled_outcome inngest (decision payload)),
      )
  unfolding ingest_parsed find_connected_by_github_repo_id
  ingest_delivery_pull_request payload kind fits new =
      rw
        (
          goes_to_parsed db schemas at inngest d s kind,
          fits,
          ingest_parsed,
          insert_pending_new db at (pull_request_columns d payload) s new,
        )
        (act_on_new db schemas at (pull_request_columns d payload) s new inngest
          (new_row at (pull_request_columns d payload)) refl (decision payload)
          (inserted_store (pull_request_columns d payload)) refl)

  -- A new pull_request delivery that does not fit the schema, and of which reading the
  -- installation id does not throw, leaves one row, failed with the schema's message and the
  -- fields that could be read, sends nothing, and is reported as failed.
  pub ingest_delivery_malformed :
      (message : String) (installation_id : Option ℤ)
      → extract_installation_id d.raw_payload ≡ ok installation_id
      → d.event_type ≡ "pull_request"
      → schemas.pull_request_event d.raw_payload ≡ rejected message
      → is_taken at d s.events ≡ false
      → ingest_delivery db schemas at (dispatcher_send inngest) d s ≡ (
        record s {
          events =
              s.events
              ++ failed_row message (new_row at (malformed_columns d installation_id)) ∷ [];
        },
        ok (failed_with "MALFORMED_PAYLOAD"),
      )
  unfolding ingest_parsed mark_failed
  ingest_delivery_malformed message installation_id readable kind fits new = rw (
    goes_to_parsed db schemas at inngest d s kind,
    fits,
    readable,
    insert_pending_new db at (malformed_columns d installation_id) s new,
    update_event_new db at (malformed_columns d installation_id) s
        (inserted_store (malformed_columns d installation_id))
        (new_row at (malformed_columns d installation_id)) (failed_row message) new refl refl,
  )

  -- A new ping or push, of which reading the installation id does not throw, leaves one row,
  -- ignored for the reason of its type, and changes nothing else.
  pub ingest_delivery_inert :
      (installation_id : Option ℤ)
      → extract_installation_id d.raw_payload ≡ ok installation_id
      → (d.event_type == "ping" || d.event_type == "push") ≡ true
      → is_taken at d s.events ≡ false
      → ingest_delivery db schemas at (dispatcher_send inngest) d s ≡ (
        record s {
          events =
              s.events
              ++ ignored_row (inert_reason d) (new_row at (inert_columns d installation_id)) ∷ [];
        },
        ok (ignored_for (inert_reason d)),
      )
  unfolding ingest_inert_event
  ingest_delivery_inert installation_id readable kind new = rw (
    goes_to_inert db schemas at inngest d s kind,
    readable,
    insert_pending_new db at (inert_columns d installation_id) s new,
    mark_ignored_new db schemas at (inert_columns d installation_id) s new
        (inserted_store (inert_columns d installation_id))
        (new_row at (inert_columns d installation_id)) (inert_reason d) refl refl,
  )
