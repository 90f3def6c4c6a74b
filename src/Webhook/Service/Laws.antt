-- ===== src/Webhook/Service/Laws.antt =====
-- The steps of `ingestDelivery` (webhook.service.ts) after the row is inserted.
use ai_powered_github_pr_rev.Prelude.{◌≡◌, refl, false, some, List, [], ◌∷◌, ◌++◌, map, any, arith}
use mathlib.Core.List.{append-nil}
use ai_powered_github_pr_rev.Database.{Prisma}
use ai_powered_github_pr_rev.Store.{WebhookEvent, PullRequest, Message, Store, ok}
use ai_powered_github_pr_rev.Repositories.{upsert_minimal}
use ai_powered_github_pr_rev.Webhook.Payload.{Schemas}
use ai_powered_github_pr_rev.Webhook.Ledger.{
  NewWebhookEvent, Moment, clashes, mark_dispatched, mark_ignored, save_pending_dispatch_payload,
}
use ai_powered_github_pr_rev.Webhook.Ledger.Laws.{update_event_new}
use ai_powered_github_pr_rev.Webhook.Router.{
  IgnoreReason, ReviewRequested, RouterDecision, dispatch, persist_only, ignore,
}
use ai_powered_github_pr_rev.Webhook.Outcome.{reason_text}
use ai_powered_github_pr_rev.Webhook.Emit.{
  events_json, message_of, SendResult, acknowledged, dispatcher_send,
}
use ai_powered_github_pr_rev.Webhook.Service.{upsert_each, act_on, try_send}
use ai_powered_github_pr_rev.Webhook.Service.Spec.{
  upsert_one, upsert_all, upserts_of, ignored_row, same_pull_request, sent_row, sent_outcome,
  taken_messages, settled_row, settled_outcome, settled_messages, send_result,
}

upsert_minimal_lem :
    (db : Prisma) (u : PullRequest) (s : Store)
    → upsert_minimal db u s ≡ (record s { pull_requests = upsert_one u s.pull_requests }, ok tt)
unfolding upsert_minimal
upsert_minimal_lem db u s = ground (
  arith,
  db.upsert_lem PullRequest (same_pull_request u) u
      (λ row. record row {
        github_pr_id = u.github_pr_id;
        head_sha = u.head_sha;
        state = u.state;
        is_draft = u.is_draft;
      })
      s.pull_requests,
)

module _ (db : Prisma) (schemas : Schemas) (at : Moment) where
  upsert_each_lem :
      (us : List PullRequest) (s : Store)
      → upsert_each db schemas at us s
        ≡ (record s { pull_requests = upsert_all us s.pull_requests }, ok tt)
  unfolding upsert_each
  upsert_each_lem [] s = refl
  upsert_each_lem (u ∷ us) s =
      rw (upsert_minimal_lem db u s)
        (upsert_each_lem us (record s { pull_requests = upsert_one u s.pull_requests }))

  module _ (input : NewWebhookEvent) (s : Store)
      (new : any (clashes at input) s.events ≡ false) where
    -- The row that was inserted is the last one, and changed by what follows.
    pub mark_ignored_new :
        (s' : Store) (row : WebhookEvent) (why : IgnoreReason)
        → row.id ≡ at.new_id
        → s'.events ≡ s.events ++ row ∷ []
        → mark_ignored db at.new_id (reason_text why) s'
          ≡ (record s' { events = s.events ++ ignored_row why row ∷ [] }, ok tt)
    unfolding mark_ignored
    mark_ignored_new s' row why e es = update_event_new db at input s s' row _ new e es

    save_payload_new :
        (s' : Store) (row : WebhookEvent) (events : List ReviewRequested)
        → row.id ≡ at.new_id
        → s'.events ≡ s.events ++ row ∷ []
        → save_pending_dispatch_payload db at.new_id (events_json events) s' ≡ (
          record s' {
            events = s.events ++ record row { dispatch_payload = some (events_json events) } ∷ [];
          },
          ok tt,
        )
    unfolding save_pending_dispatch_payload
    save_payload_new s' row events e es = update_event_new db at input s s' row _ new e es

    mark_dispatched_new :
        (s' : Store) (row : WebhookEvent) (events : List ReviewRequested)
        → row.id ≡ at.new_id
        → s'.events ≡ s.events ++ row ∷ []
        → mark_dispatched db at.new_id (events_json events) at.now s'
          ≡ (record s' { events = s.events ++ sent_row acknowledged at events row ∷ [] }, ok tt)
    unfolding mark_dispatched
    mark_dispatched_new s' row events e es = update_event_new db at input s s' row _ new e es

    module _ (inngest : List Message → SendResult) (row : WebhookEvent)
        (e : row.id ≡ at.new_id) where
      try_send_new :
          (s' : Store) (events : List ReviewRequested)
          → s'.events ≡ s.events ++ record row { dispatch_payload = some (events_json events) } ∷ []
          → try_send db schemas at (dispatcher_send inngest) at.new_id events s' ≡ (
            record s' {
              events = s.events ++ sent_row (send_result inngest events) at events row ∷ [];
              sent = s'.sent ++ taken_messages (send_result inngest events) events;
            },
            ok (sent_outcome (send_result inngest events) events),
          )
      unfolding try_send dispatcher_send
      try_send_new s' events es = ground (
        arith,
        append-nil s'.sent,
        mark_dispatched_new (record s' { sent = s'.sent ++ map message_of events })
            (record row { dispatch_payload = some (events_json events) }) events e es,
      )

      pub act_on_new :
          (d : RouterDecision) (s' : Store)
          → s'.events ≡ s.events ++ row ∷ []
          → act_on db schemas at (dispatcher_send inngest) at.new_id d s' ≡ (
            record s' {
              events = s.events ++ settled_row inngest at d row ∷ [];
              pull_requests = upsert_all (upserts_of d) s'.pull_requests;
              sent = s'.sent ++ settled_messages inngest d;
            },
            ok (settled_outcome inngest d),
          )
      unfolding act_on
      act_on_new (ignore why) s' es = rw (mark_ignored_new s' row why e es, append-nil)
      act_on_new (persist_only us why) s' es = rw (
        upsert_each_lem us s',
        mark_ignored_new (record s' { pull_requests = upsert_all us s'.pull_requests }) row why e
            es,
        append-nil,
      )
      act_on_new (dispatch events us) s' es =
          rw
            (
              upsert_each_lem us s',
              save_payload_new (record s' { pull_requests = upsert_all us s'.pull_requests }) row
                  events e es,
            )
            (try_send_new
              (record s' {
                events =
                    s.events ++ record row { dispatch_payload = some (events_json events) } ∷ [];
                pull_requests = upsert_all us s'.pull_requests;
              })
              events refl)
