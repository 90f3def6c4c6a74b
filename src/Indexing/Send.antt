-- ===== src/Indexing/Send.antt =====
-- `step.sendEvent`, which the functions of apps/worker/src/inngest/functions call. What Inngest
-- answers is a parameter; an event that is not acknowledged ends the pass through the handler with
-- an error that Inngest retries, and may have arrived all the same.
use ai_powered_github_pr_rev.Prelude.{◌≡◌, refl, List, [], ◌++◌}
use mathlib.Core.List.{append-nil}
use ai_powered_github_pr_rev.Webhook.Emit.{SendResult, acknowledged, refused, timed_out}
use ai_powered_github_pr_rev.Indexing.Store.{
  IndexEvent, IndexStore, send_failed, Outcome, done, thrown, Step, continue, pure,
}

end_send : SendResult → List IndexEvent → Step (Unit {0})
end_send acknowledged events s = (record s { sent = s.sent ++ events }, done tt)
end_send refused events s = (s, thrown send_failed)
end_send timed_out events s = (record s { sent = s.sent ++ events }, thrown send_failed)

unfoldable pub send_events : (List IndexEvent → SendResult) → List IndexEvent → Step (Unit {0})
unfolding end_send
send_events inngest events = end_send (inngest events) events

-- What Inngest holds of the events after an answer, and how the pass goes on.
abbrev pub taken_events : SendResult → List IndexEvent → List IndexEvent
taken_events acknowledged events = events
taken_events refused events = []
taken_events timed_out events = events

abbrev pub outcome_of_send : {A : Type 0} → SendResult → A → Outcome A
outcome_of_send acknowledged a = done a
outcome_of_send refused a = thrown send_failed
outcome_of_send timed_out a = thrown send_failed

end_send_lem :
    (answer : SendResult) (events : List IndexEvent) (s : IndexStore)
    → end_send answer events s
      ≡ (record s { sent = s.sent ++ taken_events answer events }, outcome_of_send answer tt)
unfolding end_send
end_send_lem acknowledged events s = refl
end_send_lem refused events s = rw (append-nil s.sent) refl
end_send_lem timed_out events s = refl

pub send_events_lem :
    (inngest : List IndexEvent → SendResult) (events : List IndexEvent) (s : IndexStore)
    → send_events inngest events s ≡ (
      record s { sent = s.sent ++ taken_events (inngest events) events },
      outcome_of_send (inngest events) tt,
    )
unfolding send_events
send_events_lem inngest events s = end_send_lem (inngest events) events s

pub continue-pure :
    {A : Type 0} (answer : SendResult) (s : IndexStore) (a : A)
    → continue (λ _. pure a) (s, outcome_of_send answer (tt {0})) ≡ (s, outcome_of_send answer a)
continue-pure acknowledged s a = refl
continue-pure refused s a = refl
continue-pure timed_out s a = refl
