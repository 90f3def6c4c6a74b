-- ===== src/Webhook/Controller.antt =====
-- `receiveGithubWebhook` of apps/api/src/controllers/webhooks.controller.ts, with the constants of
-- apps/api/src/modules/webhooks/webhook-rate-limit.ts. `JSON.parse` is a parameter. Log lines are
-- left out; a response is the end of the handler, with status 200, and an error is thrown.
pub mod Laws
mod Returns
pub mod Answers
use ai_powered_github_pr_rev.Prelude.{
  ℕ, String, Bool, true, false, not, ◌||◌, Option, none, some, List, [], if◌then◌else◌,
}
use ai_powered_github_pr_rev.Prelude.Equality.{◌==◌, text_equality}
use ai_powered_github_pr_rev.Prelude.Int.{ℤ}
use ai_powered_github_pr_rev.Json.{Json}
use ai_powered_github_pr_rev.Database.{Prisma}
use ai_powered_github_pr_rev.Store.{
  Message, Store, AppError, validation, unauthenticated, internal, Result, ok, err, M,
}
use ai_powered_github_pr_rev.Webhook.Allowlist.{is_allowed_event}
use ai_powered_github_pr_rev.Webhook.Payload.{Schemas, extract_installation_id}
use ai_powered_github_pr_rev.Webhook.Router.Decimal.{int_to_string}
use ai_powered_github_pr_rev.Webhook.Verification.{
  Bytes, Crypto, SignatureVerificationResult, verified, missing_signature, malformed_signature,
  mismatch, verify_webhook_signature,
}
use ai_powered_github_pr_rev.Webhook.Ledger.{Moment}
use ai_powered_github_pr_rev.Webhook.Outcome.{
  SyncEventType, installation, installation_repositories, repository,
}
use ai_powered_github_pr_rev.Webhook.Emit.{SendResult, dispatcher_send}
use ai_powered_github_pr_rev.Webhook.Service.{ingest_delivery}
use ai_powered_github_pr_rev.Webhook.SyncService.{ingest_sync_delivery}
use ai_powered_github_pr_rev.Webhook.RateLimit.{
  Redis, RateLimitResult, allowed, retry_after, check_rate_limit,
}
use Prim.Native.String

abbrev pub webhook_rate_limit_window_seconds : ℕ
webhook_rate_limit_window_seconds = 60

abbrev pub webhook_rate_limit_per_installation : ℕ
webhook_rate_limit_per_installation = 100

-- `body` is `none` where Express has left no buffer.
pub record Request : Type 0 where
  pub body : Option Bytes
  pub delivery_id : Option String
  pub event_type : Option String
  pub signature_header : Option String
  pub trace_id : String

-- What the handler calls, and the clock and the new row's id of this run.
pub record Services : Type 1 where
  pub crypto : Crypto
  pub secret : String
  pub parse_json : Bytes → Option Json
  pub parse_date : String → Option ℕ
  pub redis : Redis
  pub db : Prisma
  pub schemas : Schemas
  pub inngest : List Message → SendResult
  pub at : Moment

abbrev pub raw_body : Request → Bytes
raw_body req = elim req.body [ none ↦ [] | some bytes ↦ bytes ]

-- A header that is missing or empty is falsy.
abbrev pub text_of : Option String → String
text_of none = ""
text_of (some value) = value

abbrev pub rate_limit_key : Option ℤ → String
rate_limit_key none = "webhook:installation:unknown"
rate_limit_key (some id) = String.◌++◌ "webhook:installation:" (int_to_string id)

unfoldable pub sync_type_of : String → Option SyncEventType
sync_type_of event_type =
    if event_type == "installation"
    then some installation
    else if event_type == "installation_repositories"
    then some installation_repositories
    else if event_type == "repository"
    then some repository
    else none

module _ (v : Services) where
  abbrev pub World : Type 0
  World = v.redis.State × Store

  abbrev respond : {A : Type 0} → v.redis.State → Store × Result A → World × Result (Unit {0})
  respond r (s, ok _) = ((r, s), ok tt)
  respond r (s, err e) = ((r, s), err e)

  -- The two services: by the type of a synchronised event, `none` for the others.
  delegate_by :
      String → String → String → Json → Option SyncEventType → World → World × Result (Unit {0})
  delegate_by delivery_id event_type trace_id payload (some kind) (r, s) =
      respond r (ingest_sync_delivery v.db v.schemas v.at v.parse_date delivery_id kind payload s)
  delegate_by delivery_id event_type trace_id payload none (r, s) = respond r (
      ingest_delivery v.db v.schemas v.at (dispatcher_send v.inngest)
        (record {
          delivery_id = delivery_id;
          event_type = event_type;
          raw_payload = payload;
          trace_id = trace_id;
        })
        s)

  unfoldable pub delegate : String → String → String → Json → World → World × Result (Unit {0})
  unfolding sync_type_of delegate_by
  delegate delivery_id event_type trace_id payload w =
      delegate_by delivery_id event_type trace_id payload (sync_type_of event_type) w

  pub after_rate_limit :
      String
      → String
      → String
      → Json
      → Store
      → v.redis.State × RateLimitResult
      → World × Result (Unit {0})
  unfolding delegate
  after_rate_limit delivery_id event_type trace_id payload s (r, retry_after seconds) =
      ((r, s), ok tt)
  after_rate_limit delivery_id event_type trace_id payload s (r, allowed) =
      delegate delivery_id event_type trace_id payload (r, s)

  -- A RangeError of the extraction leaves the handler.
  for_installation :
      String → String → String → Json → World → Result (Option ℤ) → World × Result (Unit {0})
  unfolding after_rate_limit
  for_installation delivery_id event_type trace_id payload w (err e) = (w, err e)
  for_installation delivery_id event_type trace_id payload (r, s) (ok installation_id) =
      after_rate_limit delivery_id event_type trace_id payload s (
        check_rate_limit v.redis (rate_limit_key installation_id)
          webhook_rate_limit_per_installation webhook_rate_limit_window_seconds v.at.now r)

  unfoldable pub rate_limited : String → String → String → Json → World → World × Result (Unit {0})
  unfolding for_installation
  rate_limited delivery_id event_type trace_id payload w =
      for_installation delivery_id event_type trace_id payload w (extract_installation_id payload)

  unfoldable pub authenticated : Request → String → String → World → World × Result (Unit {0})
  unfolding rate_limited is_allowed_event
  authenticated req delivery_id event_type w =
      if not (is_allowed_event event_type)
      then (w, ok tt)
      else if event_type == "ping"
      then (w, ok tt)
      else elim (v.parse_json (raw_body req)) [
        | none ↦ (w, err validation)
        | some payload ↦ rate_limited delivery_id event_type req.trace_id payload w
      ]

  after_verification :
      Request
      → String
      → String
      → World
      → Option SignatureVerificationResult
      → World × Result (Unit {0})
  unfolding authenticated
  after_verification req delivery_id event_type w none = (w, err internal)
  after_verification req delivery_id event_type w (some verified) =
      authenticated req delivery_id event_type w
  after_verification req delivery_id event_type w (some missing_signature) =
      (w, err unauthenticated)
  after_verification req delivery_id event_type w (some malformed_signature) =
      (w, err unauthenticated)
  after_verification req delivery_id event_type w (some mismatch) = (w, err unauthenticated)

  unfoldable pub receive_github_webhook : Request → World → World × Result (Unit {0})
  unfolding after_verification
  receive_github_webhook req w =
      let delivery_id = text_of req.delivery_id in
      let event_type = text_of req.event_type in
      if delivery_id == "" || event_type == ""
      then (w, err validation)
      else after_verification req delivery_id event_type w
          (verify_webhook_signature v.crypto (raw_body req) req.signature_header v.secret)
