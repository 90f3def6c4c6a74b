-- ===== src/Webhook/Service/Returns.antt =====
-- How `ingestDelivery` (apps/api/src/modules/webhooks/webhook.service.ts) ends.
use ai_powered_github_pr_rev.Prelude.{◌≡◌, refl, ap, Bool-cases, inl, inr, List, true, false}
use ai_powered_github_pr_rev.Database.{Prisma}
use ai_powered_github_pr_rev.Store.{Store, Message, ok}
use ai_powered_github_pr_rev.Webhook.Payload.{PullRequestEvent, Parsed, parsed, rejected, Schemas}
use ai_powered_github_pr_rev.Webhook.Ledger.{Moment}
use ai_powered_github_pr_rev.Webhook.Outcome.{Delivery, IngestOutcome}
use ai_powered_github_pr_rev.Webhook.Emit.{SendResult, dispatcher_send}
use ai_powered_github_pr_rev.Webhook.Service.{ingest_delivery}
use ai_powered_github_pr_rev.Webhook.Service.Branches.{
  is_taken, ingest_delivery_pull_request, ingest_delivery_malformed, ingest_delivery_inert,
}
use ai_powered_github_pr_rev.Webhook.Service.Replay.{IsReadable, is_handled, ingest_taken, by_type}

module _ (db : Prisma) (schemas : Schemas) (at : Moment) (inngest : List Message → SendResult)
    (d : Delivery) (s : Store) where
  abbrev pub ReturnsOutcome : Type 0
  ReturnsOutcome =
      (outcome : IngestOutcome) × ((ingest_delivery db schemas at (dispatcher_send inngest) d s).1
        ≡ ok outcome)

  parsed_returns :
      (p : Parsed PullRequestEvent)
      → IsReadable d
      → schemas.pull_request_event d.raw_payload ≡ p
      → d.event_type ≡ "pull_request"
      → is_taken at d s.events ≡ false
      → ReturnsOutcome
  parsed_returns (parsed payload) readable fits kind new = (
    _,
    ap (λ r. r.1) (ingest_delivery_pull_request db schemas at inngest d s payload kind fits new),
  )
  parsed_returns (rejected message) (id, readable) fits kind new = (
    _,
    ap (λ r. r.1)
        (ingest_delivery_malformed db schemas at inngest d s message id readable kind fits new),
  )

  -- While the database answers, ingestion of a ping, push or pull_request delivery, of which
  -- reading the installation id does not throw, returns an outcome and throws nothing, whether
  -- the delivery is new, malformed or a duplicate and whether the send succeeds or not.
  pub ingest_delivery-ReturnsOutcome : IsReadable d → is_handled d ≡ true → ReturnsOutcome
  ingest_delivery-ReturnsOutcome (id, readable) handled =
      elim (Bool-cases (is_taken at d s.events)) [
        | inl taken ↦
            (_, ap (λ r. r.1) (ingest_taken db schemas at inngest d s (id, readable) handled taken))
        | inr new ↦ elim (by_type db schemas at inngest d s) [
          | inl kind ↦ (
            _,
            ap (λ r. r.1) (ingest_delivery_inert db schemas at inngest d s id readable kind new),
          )
          | inr (inl kind) ↦
              parsed_returns (schemas.pull_request_event d.raw_payload) (id, readable) refl kind new
          | inr (inr kind) ↦ cc
        ]
      ]
