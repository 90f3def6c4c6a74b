-- ===== src/Tests/Endpoint.antt =====
-- The webhook endpoint, the signature check and the rate limiter at concrete requests.
use ai_powered_github_pr_rev.Prelude.{
  arith, ◌≡◌, ◌≢◌, ◌↔◌, refl, ap, true, false, none, some, Option, [], ◌∷◌, String, Bool, count,
  is_empty,
}
use ai_powered_github_pr_rev.Prelude.Equality.{◌==◌, text_equality}
use ai_powered_github_pr_rev.Json.{Json, infinite, num, obj, field, end, get_field?}
use ai_powered_github_pr_rev.Database.{in_memory}
use ai_powered_github_pr_rev.Store.{unauthenticated, range_error, err}
use ai_powered_github_pr_rev.Webhook.Allowlist.{is_allowed_event}
use ai_powered_github_pr_rev.Webhook.Payload.{extract_installation_id}
use ai_powered_github_pr_rev.Webhook.Verification.{
  Bytes, verified, verify_webhook_signature, expected_header,
}
use ai_powered_github_pr_rev.Webhook.Verification.Laws.{
  verify_webhook_signature-ne-none, verify_webhook_signature-verified_iff,
}
use ai_powered_github_pr_rev.Webhook.Ledger.{insert_pending, mark_ignored, update_event}
use ai_powered_github_pr_rev.Webhook.Service.{ingest_delivery}
use ai_powered_github_pr_rev.Webhook.Emit.{acknowledged}
use ai_powered_github_pr_rev.Webhook.RateLimit.{is_allowed, check_rate_limit}
use ai_powered_github_pr_rev.Webhook.RateLimit.Laws.{run_checks, run_checks-count_allowed}
use ai_powered_github_pr_rev.Webhook.Controller.{Request, Services, World, receive_github_webhook}
use ai_powered_github_pr_rev.Webhook.Controller.Laws.{
  receive_github_webhook-unsigned, receive_github_webhook-IsAuthentic, IsAuthentic,
}
use ai_powered_github_pr_rev.Webhook.Controller.Answers.{
  receive_github_webhook-IsAnswer, IsAnswer, receive_github_webhook-range_error,
}
use ai_powered_github_pr_rev.Tests.Outside.{
  toy_crypto, counters_redis, no_counts, lenient_schemas, connected_store, payload, first_moment,
  no_dates,
}

abbrev body : Bytes
body = 1 ∷ 2 ∷ []

abbrev services : Services
services = record {
  crypto = toy_crypto;
  secret = "key";
  parse_json = λ bytes. some payload;
  parse_date = no_dates;
  redis = counters_redis;
  db = in_memory;
  schemas = lenient_schemas;
  inngest = λ messages. acknowledged;
  at = first_moment;
}

abbrev world : World services
world = (no_counts, connected_store)

abbrev request : Option String → Request
request header = record {
  body = some body;
  delivery_id = some "d1";
  event_type = some "push";
  signature_header = header;
  trace_id = "t1";
}

verify_webhook_signature-verified_iff_example :
    (verify_webhook_signature toy_crypto body (some "sha256=aakey") "key" ≡ some verified)
    ↔ (Option.some "sha256=aakey" ≡ some (expected_header toy_crypto body "key"))
verify_webhook_signature-verified_iff_example =
    verify_webhook_signature-verified_iff toy_crypto body "key" (some "sha256=aakey")

verify_webhook_signature-ne-none_example :
    verify_webhook_signature toy_crypto body (some "sha256=short") "key" ≢ none
verify_webhook_signature-ne-none_example =
    verify_webhook_signature-ne-none toy_crypto body "key" (some "sha256=short")

abbrev is_tampered : Option String → Bool
is_tampered none = true
is_tampered (some header) = header == "sha256=aakez"

tampered : ◌≢◌ {A = Option String} (some "sha256=aakez") (some "sha256=aakey")
tampered h = cc (ap is_tampered h)

receive_github_webhook-unsigned_example :
    receive_github_webhook services (request (some "sha256=aakez")) world
    ≡ (world, err unauthenticated)
receive_github_webhook-unsigned_example =
    receive_github_webhook-unsigned services (request (some "sha256=aakez")) world refl tampered

receive_github_webhook-IsAnswer_example :
    IsAnswer services
      (request (some "sha256=aakey"))
      world
      (receive_github_webhook services (request (some "sha256=aakey")) world)
receive_github_webhook-IsAnswer_example =
    receive_github_webhook-IsAnswer services (request (some "sha256=aakey")) world

-- A body whose installation id is 1e999.
abbrev huge_payload : Json
huge_payload = obj (field "installation" (obj (field "id" (num (infinite true)) end)) end)

abbrev huge_services : Services
huge_services = record services { parse_json = λ bytes. some huge_payload }

receive_github_webhook-range_error_example :
    receive_github_webhook huge_services (request (some "sha256=aakey")) world
    ≡ (world, err range_error)
unfolding is_allowed_event get_field?
receive_github_webhook-range_error_example =
    receive_github_webhook-range_error huge_services (request (some "sha256=aakey")) world
      (refl, refl, refl, refl, cc) (huge_payload, true, refl, refl)

-- The delivery of a push makes a row.
row_made :
    is_empty (receive_github_webhook services (request (some "sha256=aakey")) world).0.1.events
    ≡ false
unfolding receive_github_webhook verify_webhook_signature check_rate_limit ingest_delivery
    insert_pending mark_ignored update_event extract_installation_id
row_made = refl

changes : (receive_github_webhook services (request (some "sha256=aakey")) world).0 ≢ world
changes h = cc row_made

receive_github_webhook-IsAuthentic_example :
    IsAuthentic services (request (some "sha256=aakey")) world
receive_github_webhook-IsAuthentic_example =
    receive_github_webhook-IsAuthentic services (request (some "sha256=aakey")) world changes

-- Of three requests in a window with a limit of two, two are let through.
run_checks-count_allowed_example :
    count is_allowed (run_checks counters_redis "k" 2 60 (0 ∷ 1000 ∷ 59999 ∷ []) no_counts) ≡ 2
run_checks-count_allowed_example =
    run_checks-count_allowed counters_redis (λ key r. cc, λ key n r. cc, λ key r. cc) "k" 2 60 0
      (0 ∷ 1000 ∷ 59999 ∷ []) no_counts (omega arith) (refl, (refl, (refl, tt)))
