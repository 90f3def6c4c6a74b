-- ===== src/Webhook/Service/Replay.antt =====
-- Redelivery of a webhook to `ingestDelivery` (webhook.service.ts).
use ai_powered_github_pr_rev.Prelude.{
  String, ◌≡◌, Option, refl, ap, Bool, true, false, ◌⊎◌, inl, inr, ◌||◌, List, [], ◌∷◌, ◌++◌, any,
  arith, eq_iff, Bool-cases,
}
use ai_powered_github_pr_rev.Prelude.Equality.{◌==◌, text_equality}
use ai_powered_github_pr_rev.Prelude.Int.{ℤ}
use ai_powered_github_pr_rev.Database.{Prisma}
use ai_powered_github_pr_rev.Store.{WebhookEvent, Message, Store, ok}
use ai_powered_github_pr_rev.Webhook.Payload.{
  Parsed, parsed, rejected, PullRequestEvent, Schemas, extract_installation_id,
}
use ai_powered_github_pr_rev.Webhook.Ledger.{Moment, new_row, has_id}
use ai_powered_github_pr_rev.Webhook.Ledger.Laws.{insert_pending_taken}
use ai_powered_github_pr_rev.Webhook.Router.{RouterDecision, dispatch, persist_only, ignore}
use ai_powered_github_pr_rev.Webhook.Service.Spec.{settled_row, ignored_row}
use ai_powered_github_pr_rev.Webhook.Outcome.{Delivery, duplicate}
use ai_powered_github_pr_rev.Webhook.Emit.{SendResult, dispatcher_send}
use ai_powered_github_pr_rev.Webhook.Service.{ingest_parsed, ingest_inert_event, ingest_delivery}
use ai_powered_github_pr_rev.Webhook.Service.Branches.{
  pull_request_columns, inert_columns, malformed_columns, inert_reason, is_taken, failed_row,
  decision, goes_to_parsed, goes_to_inert, ingest_delivery_pull_request, ingest_delivery_malformed,
  ingest_delivery_inert,
}

-- The event types that have a handler here.
abbrev pub is_handled : Delivery → Bool
is_handled d = (d.event_type == "ping" || d.event_type == "push") || d.event_type == "pull_request"

-- The installation's id can be read, or is missing; an infinite number throws.
abbrev pub IsReadable : Delivery → Type 0
IsReadable d = (id : Option ℤ) × (extract_installation_id d.raw_payload ≡ ok id)

abbrev is_recorded : String → List WebhookEvent → Bool
is_recorded delivery_id rows = any (λ row. row.delivery_id == delivery_id) rows

-- One row more, of a delivery that the ledger did not hold.
abbrev Adds : Moment → Delivery → List WebhookEvent → List WebhookEvent → Type 0
Adds at d rows rows' =
    (row : WebhookEvent) × (is_taken at d rows ≡ false)
    × (row.delivery_id ≡ d.delivery_id)
    × (rows' ≡ rows ++ row ∷ [])

is_taken_of_recorded :
    (at : Moment) (d : Delivery) (rows : List WebhookEvent)
    → is_recorded d.delivery_id rows ≡ true
    → is_taken at d rows ≡ true
is_taken_of_recorded at d [] h = h
is_taken_of_recorded at d (row ∷ rows) h = ground (arith, is_taken_of_recorded at d rows)

recorded_of_taken :
    (at : Moment) (d : Delivery) (rows : List WebhookEvent)
    → any (has_id at.new_id) rows ≡ false
    → is_taken at d rows ≡ true
    → is_recorded d.delivery_id rows ≡ true
recorded_of_taken at d [] f h = h
recorded_of_taken at d (row ∷ rows) f h = ground (arith, recorded_of_taken at d rows)

is_recorded-append :
    (id : String) (rows : List WebhookEvent) (row : WebhookEvent)
    → row.delivery_id ≡ id
    → is_recorded id (rows ++ row ∷ []) ≡ true
is_recorded-append id [] row e = ground (arith, eq_iff row.delivery_id id)
is_recorded-append id (x ∷ rows) row e = ground (arith, is_recorded-append id rows row e)

delivery_id-settled_row :
    (inngest : List Message → SendResult) (at : Moment) (decided : RouterDecision)
    (row : WebhookEvent)
    → (settled_row inngest at decided row).delivery_id ≡ row.delivery_id
delivery_id-settled_row inngest at (dispatch events upserts) row = ground arith
delivery_id-settled_row inngest at (persist_only upserts why) row = refl
delivery_id-settled_row inngest at (ignore why) row = refl

module _ (db : Prisma) (schemas : Schemas) (at : Moment) (inngest : List Message → SendResult)
    (d : Delivery) (s : Store) where
  parsed_taken :
      (p : Parsed PullRequestEvent) (id : Option ℤ)
      → extract_installation_id d.raw_payload ≡ ok id
      → is_taken at d s.events ≡ true
      → ingest_parsed db schemas at (dispatcher_send inngest) d p s ≡ (s, ok duplicate)
  unfolding ingest_parsed
  parsed_taken (parsed payload) id readable h =
      rw (insert_pending_taken db at (pull_request_columns d payload) s h)
  parsed_taken (rejected message) id readable h =
      rw (readable, insert_pending_taken db at (malformed_columns d id) s h)

  inert_taken :
      (id : Option ℤ)
      → extract_installation_id d.raw_payload ≡ ok id
      → is_taken at d s.events ≡ true
      → ingest_inert_event db schemas at d (inert_reason d) s ≡ (s, ok duplicate)
  unfolding ingest_inert_event
  inert_taken id readable h = rw (readable, insert_pending_taken db at (inert_columns d id) s h)

  -- The three ways that an event type is dealt with.
  pub by_type :
      ((d.event_type == "ping" || d.event_type == "push") ≡ true)
      ⊎ ((d.event_type ≡ "pull_request") ⊎ (is_handled d ≡ false))
  by_type = elim (Bool-cases (d.event_type == "ping" || d.event_type == "push")) [
    | inl e ↦ inl e
    | inr e ↦ elim (Bool-cases (d.event_type == "pull_request")) [
      | inl f ↦ inr (inl ((eq_iff d.event_type "pull_request").0 f))
      | inr f ↦ inr (inr (rw (e, f)))
    ]
  ]

  pub ingest_taken :
      IsReadable d
      → is_handled d ≡ true
      → is_taken at d s.events ≡ true
      → ingest_delivery db schemas at (dispatcher_send inngest) d s ≡ (s, ok duplicate)
  ingest_taken (id, readable) handled h = elim by_type [
    | inl kind ↦ rw (goes_to_inert db schemas at inngest d s kind) (inert_taken id readable h)
    | inr (inl kind) ↦
        rw (goes_to_parsed db schemas at inngest d s kind)
          (parsed_taken (schemas.pull_request_event d.raw_payload) id readable h)
    | inr (inr kind) ↦ cc
  ]

  Adds-parsed :
      (p : Parsed PullRequestEvent) (id : Option ℤ)
      → extract_installation_id d.raw_payload ≡ ok id
      → schemas.pull_request_event d.raw_payload ≡ p
      → d.event_type ≡ "pull_request"
      → is_taken at d s.events ≡ false
      → Adds at d s.events (ingest_delivery db schemas at (dispatcher_send inngest) d s).0.events
  Adds-parsed (parsed payload) id readable fits kind new =
      let row = new_row at (pull_request_columns d payload) in
      let decided = decision db schemas at inngest d s payload in
      (
        settled_row inngest at decided row,
        new,
        delivery_id-settled_row inngest at decided row,
        ap (λ r. r.0.events)
            (ingest_delivery_pull_request db schemas at inngest d s payload kind fits new),
      )
  Adds-parsed (rejected message) id readable fits kind new = (
    failed_row message (new_row at (malformed_columns d id)),
    new,
    refl,
    ap (λ r. r.0.events)
        (ingest_delivery_malformed db schemas at inngest d s message id readable kind fits new),
  )

  Adds-new :
      IsReadable d
      → is_handled d ≡ true
      → is_taken at d s.events ≡ false
      → Adds at d s.events (ingest_delivery db schemas at (dispatcher_send inngest) d s).0.events
  Adds-new (id, readable) handled new = elim by_type [
    | inl kind ↦ (
      ignored_row (inert_reason d) (new_row at (inert_columns d id)),
      new,
      refl,
      ap (λ r. r.0.events) (ingest_delivery_inert db schemas at inngest d s id readable kind new),
    )
    | inr (inl kind) ↦
        Adds-parsed (schemas.pull_request_event d.raw_payload) id readable refl kind new
    | inr (inr other) ↦ cc
  ]

  recorded_after :
      IsReadable d
      → is_handled d ≡ true
      → any (has_id at.new_id) s.events ≡ false
      → is_recorded d.delivery_id
          (ingest_delivery db schemas at (dispatcher_send inngest) d s).0.events
        ≡ true
  recorded_after readable handled fresh = elim (Bool-cases (is_taken at d s.events)) [
    | inl taken ↦
        rw (ingest_taken readable handled taken) (recorded_of_taken at d s.events fresh taken)
    | inr new ↦
        let (row, _, same, grown) = Adds-new readable handled new in
        rw grown (is_recorded-append d.delivery_id s.events row same)
  ]

module _ (db : Prisma) (schemas : Schemas) (at : Moment) (inngest : List Message → SendResult)
    (d : Delivery) (s : Store) where
  -- Where the id of the first delivery's row is new, and reading the installation id of neither
  -- payload throws, a second delivery of a handled type with the same delivery id, whatever else
  -- it holds, changes nothing and is reported as a duplicate, however the first one ended.
  pub ingest_delivery-ingest_delivery :
      (at' : Moment) (inngest' : List Message → SendResult) (d' : Delivery)
      → IsReadable d
      → IsReadable d'
      → is_handled d ≡ true
      → is_handled d' ≡ true
      → d'.delivery_id ≡ d.delivery_id
      → any (has_id at.new_id) s.events ≡ false
      → let s' = (ingest_delivery db schemas at (dispatcher_send inngest) d s).0 in
        ingest_delivery db schemas at' (dispatcher_send inngest') d' s' ≡ (s', ok duplicate)
  ingest_delivery-ingest_delivery at' inngest' d' readable readable' handled handled' same fresh =
      let s' = (ingest_delivery db schemas at (dispatcher_send inngest) d s).0 in
      ingest_taken db schemas at' inngest' d' s' readable' handled' (
        is_taken_of_recorded at' d' s'.events
          (rw same (recorded_after db schemas at inngest d s readable handled fresh)))
