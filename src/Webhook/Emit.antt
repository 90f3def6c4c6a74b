-- ===== src/Webhook/Emit.antt =====
-- The emission of apps/api/src/inngest/emit.ts behind the controller's dispatcher. Inngest is a
-- parameter that says how a send ends: acknowledged, refused, or timed out after it took the events.
use ai_powered_github_pr_rev.Prelude.{String, List, ◌++◌, map}
use ai_powered_github_pr_rev.Prelude.Equality.{text_equality}
use ai_powered_github_pr_rev.Json.{Json, whole, num, str, arr, obj, end, field, to_items}
use ai_powered_github_pr_rev.Store.{Message, internal, M, pure, throw}
use ai_powered_github_pr_rev.Webhook.Router.{ReviewRequested}

-- The event as the JSON object that is stored and sent.
abbrev pub event_json : ReviewRequested → Json
event_json e = obj (
    field "projectId" (str e.project_id) (
      field "repositoryId" (str e.repository_id) (
        field "installationId" (str e.installation_id) (
          field "pullRequestNumber" (num (whole e.pull_request_number)) (
            field "headSha" (str e.head_sha) (
              field "baseSha" (str e.base_sha) (
                field "trigger" (str e.trigger)
                  (field "traceId" (str e.trace_id) (field "prKey" (str e.pr_key) end)))))))))

abbrev pub events_json : List ReviewRequested → Json
events_json events = arr (to_items (map event_json events))

abbrev pub pull_request_review_requested : String
pull_request_review_requested = "pull-request/review.requested"

abbrev pub message_of : ReviewRequested → Message
message_of e = record {
  name = pull_request_review_requested;
  content = event_json e;
  id = e.pr_key;
}

pub data SendResult : Type 0 where
  acknowledged refused timed_out : SendResult

-- `emitPullRequestReviewRequested` with the controller's dispatcher, which throws where it fails.
unfoldable pub dispatcher_send : (List Message → SendResult) → List ReviewRequested → M (Unit {0})
dispatcher_send inngest events s =
    let payloads = map message_of events in
    let taken = record s { sent = s.sent ++ payloads } in
    elim (inngest payloads) [
      | acknowledged ↦ pure tt taken
      | refused ↦ throw internal s
      | timed_out ↦ throw internal taken
    ]
