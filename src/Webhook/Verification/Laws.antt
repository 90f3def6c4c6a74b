-- ===== src/Webhook/Verification/Laws.antt =====
-- `verifyWebhookSignature` (apps/api/src/modules/webhooks/webhook-verification.ts).
use ai_powered_github_pr_rev.Prelude.{
  ◌≡◌, ◌≢◌, ◌↔◌, ap, String, true, false, Option, none, some, [], ◌∷◌, arith, eq_iff, Bool-cases,
  inl, inr,
}
use ai_powered_github_pr_rev.Webhook.Verification.{
  Bytes, bytes_beq, Crypto, verified, signature_prefix, expected_header, verify_webhook_signature,
}
use ai_powered_github_pr_rev.Prelude.Equality.{◌==◌, text_equality}
use text.Mathlib.TextPositions.{starts_with-append}
use text.Mathlib.Text.{starts_with}

bytes_beq_iff : (a b : Bytes) → (bytes_beq a b ≡ true) ↔ (a ≡ b)
bytes_beq_iff [] [] = ground arith
bytes_beq_iff [] (y ∷ ys) = ground arith
bytes_beq_iff (x ∷ xs) [] = ground arith
bytes_beq_iff (x ∷ xs) (y ∷ ys) = ground (arith, bytes_beq_iff xs ys)

not_empty : (header : String) → starts_with header signature_prefix ≡ true → (header == "") ≡ false
not_empty header h = elim (Bool-cases (header == "")) [
  | inl e ↦ cc (rw ((eq_iff header "").0 e) at h)
  | inr e ↦ e
]

module _ (c : Crypto) (raw_body : Bytes) (secret : String) where
  -- The signature check returns on every header: timingSafeEqual is never reached with buffers of
  -- different lengths, on which it throws.
  pub verify_webhook_signature-ne-none :
      (header : Option String) → verify_webhook_signature c raw_body header secret ≢ none
  unfolding verify_webhook_signature
  verify_webhook_signature-ne-none none = cc
  verify_webhook_signature-ne-none (some header) =
      ground (
        arith,
        c.timing_safe_equal_same (c.utf8 (expected_header c raw_body secret)) (c.utf8 header),
      )

  -- The two byte strings that are compared.
  abbrev expected_bytes : Bytes
  expected_bytes = c.utf8 (expected_header c raw_body secret)

  eq-expected_of_verified :
      (header : String)
      → verify_webhook_signature c raw_body (some header) secret ≡ some verified
      → header ≡ expected_header c raw_body secret
  unfolding verify_webhook_signature
  eq-expected_of_verified header h = ground (
    arith,
    c.timing_safe_equal_same expected_bytes (c.utf8 header),
    bytes_beq_iff expected_bytes (c.utf8 header),
    c.utf8_injective (expected_header c raw_body secret) header,
  )

  verified_of_eq :
      (header : String)
      → header ≡ expected_header c raw_body secret
      → verify_webhook_signature c raw_body (some header) secret ≡ some verified
  unfolding verify_webhook_signature
  verified_of_eq header h = rw h (
      ground (
        arith,
        starts_with-append signature_prefix (c.hmac_hex secret raw_body),
        c.timing_safe_equal_same expected_bytes expected_bytes,
        bytes_beq_iff expected_bytes expected_bytes,
        not_empty (expected_header c raw_body secret),
      ))

  -- Exactly the header that the holder of the secret computes over these bytes is accepted.
  pub verify_webhook_signature-verified_iff :
      (header : Option String)
      → (verify_webhook_signature c raw_body header secret ≡ some verified)
        ↔ (header ≡ some (expected_header c raw_body secret))
  unfolding verify_webhook_signature
  verify_webhook_signature-verified_iff none = (λ h. cc, λ h. cc)
  verify_webhook_signature-verified_iff (some header) =
      (λ h. ap some (eq-expected_of_verified header h), λ h. verified_of_eq header (cc))
