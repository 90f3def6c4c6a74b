-- ===== src/Webhook/Controller/Laws.antt =====
-- The tests that `receiveGithubWebhook` (controllers/webhooks.controller.ts) makes on a request.
use ai_powered_github_pr_rev.Prelude.{
  String, ◌≡◌, ◌≢◌, ◌⊎◌, ◌↔◌, refl, ap, ◌∙◌, Bool, true, false, not, ◌||◌, Option, none, some,
  arith, Bool-cases, inl, inr,
}
use ai_powered_github_pr_rev.Prelude.Equality.{◌==◌, text_equality}
use ai_powered_github_pr_rev.Store.{validation, unauthenticated, err}
use ai_powered_github_pr_rev.Webhook.Allowlist.{is_allowed_event}
use ai_powered_github_pr_rev.Webhook.Verification.{
  SignatureVerificationResult, verified, missing_signature, malformed_signature, mismatch,
  expected_header, verify_webhook_signature,
}
use ai_powered_github_pr_rev.Webhook.Verification.Laws.{
  verify_webhook_signature-ne-none, verify_webhook_signature-verified_iff,
}
use ai_powered_github_pr_rev.Webhook.Controller.{
  Request, Services, World, raw_body, text_of, authenticated, after_verification,
  receive_github_webhook,
}

verified_or_not :
    (o : Option SignatureVerificationResult) → (o ≡ some verified) ⊎ (o ≢ some verified)
verified_or_not none = inr cc
verified_or_not (some verified) = inl refl
verified_or_not (some missing_signature) = inr cc
verified_or_not (some malformed_signature) = inr cc
verified_or_not (some mismatch) = inr cc

module _ (v : Services) (req : Request) (w : World v) where
  -- The two headers that name a delivery and its type are there.
  abbrev pub is_named : Bool
  is_named = not (text_of req.delivery_id == "" || text_of req.event_type == "")

  -- The signature header is the one that the holder of the secret computes over the body.
  abbrev pub IsSigned : Type 0
  IsSigned = req.signature_header ≡ some (expected_header v.crypto (raw_body req) v.secret)

  abbrev verification : Option SignatureVerificationResult
  verification = verify_webhook_signature v.crypto (raw_body req) req.signature_header v.secret

  signed_iff : (verification ≡ some verified) ↔ IsSigned
  signed_iff =
      verify_webhook_signature-verified_iff v.crypto (raw_body req) v.secret req.signature_header

  unsigned_after :
      (r : Option SignatureVerificationResult)
      → r ≢ none
      → r ≢ some verified
      → after_verification v req (text_of req.delivery_id) (text_of req.event_type) w r
        ≡ (w, err unauthenticated)
  unfolding after_verification
  unsigned_after none ne nv = absurd (ne refl)
  unsigned_after (some verified) ne nv = absurd (nv refl)
  unsigned_after (some missing_signature) ne nv = refl
  unsigned_after (some malformed_signature) ne nv = refl
  unsigned_after (some mismatch) ne nv = refl

  -- A request with both delivery headers but without the sender's signature is turned away as
  -- unauthenticated, and changes nothing.
  pub receive_github_webhook-unsigned :
      is_named ≡ true → (IsSigned → ⊥) → receive_github_webhook v req w ≡ (w, err unauthenticated)
  unfolding receive_github_webhook
  receive_github_webhook-unsigned named unsigned = ground (
    arith,
    unsigned_after verification
        (verify_webhook_signature-ne-none v.crypto (raw_body req) v.secret req.signature_header)
        (λ h. unsigned (signed_iff.0 h)),
  )

  pub receive_github_webhook_signed :
      is_named ≡ true
      → IsSigned
      → receive_github_webhook v req w
        ≡ authenticated v req (text_of req.delivery_id) (text_of req.event_type) w
  unfolding receive_github_webhook after_verification
  receive_github_webhook_signed named signed = ground (arith, signed_iff.1 signed)

  pub signed_or_not : IsSigned ⊎ (IsSigned → ⊥)
  signed_or_not = elim (verified_or_not verification) [
    | inl e ↦ inl (signed_iff.0 e)
    | inr ne ↦ inr (λ signed. ne (signed_iff.1 signed))
  ]

  pub receive_github_webhook_unnamed :
      is_named ≡ false → receive_github_webhook v req w ≡ (w, err validation)
  unfolding receive_github_webhook
  receive_github_webhook_unnamed unnamed = ground arith

  -- What has to hold of a request before anything is done for it.
  abbrev pub IsAuthentic : Type 0
  IsAuthentic =
      (is_named ≡ true)
      × IsSigned
      × (is_allowed_event (text_of req.event_type) ≡ true)
      × ((text_of req.event_type == "ping") ≡ false)
      × (v.parse_json (raw_body req) ≢ none)

  authenticated_changes :
      (delivery_id event_type : String)
      → (authenticated v req delivery_id event_type w).0 ≢ w
      → (is_allowed_event event_type ≡ true)
        × ((event_type == "ping") ≡ false)
        × (v.parse_json (raw_body req) ≢ none)
  unfolding authenticated
  authenticated_changes delivery_id event_type h = elim (Bool-cases (is_allowed_event event_type)) [
    | inr e ↦ absurd (h (rw e refl))
    | inl e ↦ elim (Bool-cases (event_type == "ping")) [
      | inl f ↦ absurd (h (rw (e, f) refl))
      | inr f ↦ (e, f, λ g. h (rw (e, f, g) refl))
    ]
  ]

  signed_changes : is_named ≡ true → (receive_github_webhook v req w).0 ≢ w → IsSigned
  signed_changes named h = elim signed_or_not [
    | inl signed ↦ signed
    | inr unsigned ↦ absurd (h (ap (λ r. r.0) (receive_github_webhook-unsigned named unsigned)))
  ]

  -- Whatever the webhook endpoint changes, in the tables, in Redis or in what is sent, it changes
  -- for a request with both delivery headers, the signature that the holder of the secret
  -- computes over this very body, an event type on the list other than ping, and a JSON body.
  pub receive_github_webhook-IsAuthentic : (receive_github_webhook v req w).0 ≢ w → IsAuthentic
  receive_github_webhook-IsAuthentic h = elim (Bool-cases is_named) [
    | inr e ↦ absurd (h (ap (λ r. r.0) (receive_github_webhook_unnamed e)))
    | inl named ↦
        let signed = signed_changes named h in
        let (listed, no_ping, parses) =
          authenticated_changes (text_of req.delivery_id) (text_of req.event_type)
            (λ e. h (ap (λ r. r.0) (receive_github_webhook_signed named signed) ∙ e)) in
        (named, signed, listed, no_ping, parses)
  ]
