-- ===== src/Webhook/Service/Spec.antt =====
-- What a delivery leaves in the database, stated at once: one row that is settled, with the copies
-- of the pull request and the events that were sent.
use ai_powered_github_pr_rev.Prelude.{
  Bool, ◌&&◌, some, List, [], ◌∷◌, ◌++◌, map, any, length, if◌then◌else◌,
}
use ai_powered_github_pr_rev.Prelude.Equality.{◌==◌, text_equality, integer_equality}
use ai_powered_github_pr_rev.Database.{change}
use ai_powered_github_pr_rev.Store.{WebhookEvent, dispatched, ignored, reason, PullRequest, Message}
use ai_powered_github_pr_rev.Webhook.Ledger.{Moment}
use ai_powered_github_pr_rev.Webhook.Router.{
  IgnoreReason, ReviewRequested, RouterDecision, dispatch, persist_only, ignore,
}
use ai_powered_github_pr_rev.Webhook.Outcome.{
  IngestOutcome, dispatched_count, ignored_for, pending_dispatch_failed, reason_text,
}
use ai_powered_github_pr_rev.Webhook.Emit.{
  events_json, message_of, SendResult, acknowledged, refused, timed_out,
}

abbrev pub same_pull_request : PullRequest → PullRequest → Bool
same_pull_request input row = row.repository_id == input.repository_id && row.number == input.number

-- The copy of a pull request: one for a repository and number, with the latest state.
abbrev pub upsert_one : PullRequest → List PullRequest → List PullRequest
upsert_one input rows =
    if any (same_pull_request input) rows
    then change (same_pull_request input)
        (λ row. record row {
          github_pr_id = input.github_pr_id;
          head_sha = input.head_sha;
          state = input.state;
          is_draft = input.is_draft;
        })
        rows
    else rows ++ input ∷ []

abbrev pub upsert_all : List PullRequest → List PullRequest → List PullRequest
upsert_all [] rows = rows
upsert_all (u ∷ us) rows = upsert_all us (upsert_one u rows)

abbrev pub upserts_of : RouterDecision → List PullRequest
upserts_of (dispatch events upserts) = upserts
upserts_of (persist_only upserts why) = upserts
upserts_of (ignore why) = []

abbrev pub ignored_row : IgnoreReason → WebhookEvent → WebhookEvent
ignored_row why row = record row { status = ignored; error = some (reason (reason_text why)) }

-- The row of a delivery whose events Inngest acknowledged, or whose send failed.
abbrev pub sent_row : SendResult → Moment → List ReviewRequested → WebhookEvent → WebhookEvent
sent_row acknowledged at events row = record row {
  status = dispatched;
  dispatched_at = some at.now;
  dispatch_payload = some (events_json events);
}
sent_row refused at events row = record row { dispatch_payload = some (events_json events) }
sent_row timed_out at events row = record row { dispatch_payload = some (events_json events) }

abbrev pub sent_outcome : SendResult → List ReviewRequested → IngestOutcome
sent_outcome acknowledged events = dispatched_count (length events)
sent_outcome refused events = pending_dispatch_failed
sent_outcome timed_out events = pending_dispatch_failed

abbrev pub taken_messages : SendResult → List ReviewRequested → List Message
taken_messages acknowledged events = map message_of events
taken_messages refused events = []
taken_messages timed_out events = map message_of events

module _ (inngest : List Message → SendResult) where
  abbrev pub send_result : List ReviewRequested → SendResult
  send_result events = inngest (map message_of events)

  abbrev pub settled_row : Moment → RouterDecision → WebhookEvent → WebhookEvent
  settled_row at (dispatch events upserts) row = sent_row (send_result events) at events row
  settled_row at (persist_only upserts why) row = ignored_row why row
  settled_row at (ignore why) row = ignored_row why row

  abbrev pub settled_outcome : RouterDecision → IngestOutcome
  settled_outcome (dispatch events upserts) = sent_outcome (send_result events) events
  settled_outcome (persist_only upserts why) = ignored_for why
  settled_outcome (ignore why) = ignored_for why

  abbrev pub settled_messages : RouterDecision → List Message
  settled_messages (dispatch events upserts) = taken_messages (send_result events) events
  settled_messages (persist_only upserts why) = []
  settled_messages (ignore why) = []
