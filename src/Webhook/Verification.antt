-- ===== src/Webhook/Verification.antt =====
-- apps/api/src/modules/webhooks/webhook-verification.ts. The functions of `node:crypto` and the
-- encoder of `Buffer.from` are parameters.
pub mod Laws
use ai_powered_github_pr_rev.Prelude.{
  ℕ, ◌≡◌, ◌≢◌, ◌*◌, String, Bool, true, false, not, Option, none, some, List, [], ◌∷◌, ◌&&◌, ltb,
  nat_beq, if◌then◌else◌, length,
}
use ai_powered_github_pr_rev.Prelude.Equality.{◌==◌, text_equality}
use text.Mathlib.Text.{starts_with}
use Prim.Native.String

abbrev pub Bytes : Type 0
Bytes = List ℕ

abbrev pub bytes_beq : Bytes → Bytes → Bool
bytes_beq [] [] = true
bytes_beq (x ∷ xs) (y ∷ ys) = nat_beq x y && bytes_beq xs ys
bytes_beq _ _ = false

pub record Crypto : Type 0 where
  -- `createHmac("sha256", secret).update(body).digest("hex")`
  pub hmac_hex : String → Bytes → String
  -- `Buffer.from(text, "utf8")`
  pub utf8 : String → Bytes
  -- `none` is the error that it throws where the lengths differ.
  pub timing_safe_equal : Bytes → Bytes → Option Bool
  pub utf8_injective : (s t : String) → utf8 s ≡ utf8 t → s ≡ t
  pub timing_safe_equal_same :
      (a b : Bytes) → length a ≡ length b → timing_safe_equal a b ≡ some (bytes_beq a b)
  pub timing_safe_equal_throws : (a b : Bytes) → length a ≢ length b → timing_safe_equal a b ≡ none

abbrev pub max_webhook_payload_bytes : ℕ
max_webhook_payload_bytes = 5 * 1024 * 1024

pub is_payload_too_large : Bytes → Bool
is_payload_too_large raw_body = ltb max_webhook_payload_bytes (length raw_body)

pub data SignatureVerificationResult : Type 0 where
  verified missing_signature malformed_signature mismatch : SignatureVerificationResult

abbrev pub signature_prefix : String
signature_prefix = "sha256="

module _ (c : Crypto) where
  abbrev pub expected_header : Bytes → String → String
  expected_header raw_body secret = String.◌++◌ signature_prefix (c.hmac_hex secret raw_body)

  compared : Option Bool → Option SignatureVerificationResult
  compared none = none
  compared (some equal) = some (if equal then verified else mismatch)

  -- The tests on a header that is there.
  verify_header : Bytes → String → String → Option SignatureVerificationResult
  unfolding compared
  verify_header raw_body header secret =
      if not (starts_with header signature_prefix)
      then some malformed_signature
      else let expected = c.utf8 (expected_header raw_body secret) in
        let actual = c.utf8 header in
        if not (nat_beq (length expected) (length actual))
        then some malformed_signature
        else compared (c.timing_safe_equal expected actual)

  -- `none` is an exception that leaves the function.
  unfoldable pub verify_webhook_signature :
      Bytes → Option String → String → Option SignatureVerificationResult
  unfolding verify_header
  verify_webhook_signature raw_body none secret = some missing_signature
  verify_webhook_signature raw_body (some header) secret =
      if header == "" then some missing_signature else verify_header raw_body header secret
