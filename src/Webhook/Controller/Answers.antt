-- ===== src/Webhook/Controller/Answers.antt =====
-- The answers of `receiveGithubWebhook` (controllers/webhooks.controller.ts).
use ai_powered_github_pr_rev.Prelude.{
  String, ◌≡◌, ◌⊎◌, refl, Bool, true, false, Option, none, some, Bool-cases, Option-cases, inl, inr,
}
use ai_powered_github_pr_rev.Prelude.Equality.{◌==◌, text_equality}
use ai_powered_github_pr_rev.Prelude.Int.{ℤ}
use ai_powered_github_pr_rev.Json.{
  Json, whole, fractional, infinite, null, bool, num, str, arr, obj, get_field, get_field?,
  as_number,
}
use ai_powered_github_pr_rev.Store.{validation, unauthenticated, range_error, Result, ok, err}
use ai_powered_github_pr_rev.Webhook.Allowlist.{is_allowed_event}
use ai_powered_github_pr_rev.Webhook.Payload.{bigint_of, extract_installation_id}
use ai_powered_github_pr_rev.Webhook.Controller.{
  Request, Services, World, raw_body, text_of, rate_limited, authenticated, receive_github_webhook,
  for_installation,
}
use ai_powered_github_pr_rev.Webhook.Controller.Laws.{
  IsAuthentic, is_named, receive_github_webhook-unsigned, receive_github_webhook_signed,
  receive_github_webhook_unnamed, signed_or_not,
}
use ai_powered_github_pr_rev.Webhook.Controller.Returns.{after_rate_limit_returns}

module _ (v : Services) where
  -- The body is JSON whose `installation.id` is a number that JSON.parse reads as an infinity.
  abbrev pub IsUnreadable : Request → Type 0
  IsUnreadable req =
      (payload : Json) × (is_positive : Bool) × (v.parse_json (raw_body req) ≡ some payload)
      × (get_field? "id" (get_field "installation" payload) ≡ some (num (infinite is_positive)))

  -- A 200; one of two refusals, or a RangeError for such an id, that leave everything as it was.
  abbrev pub IsAnswer : Request → World v → World v × Result (Unit {0}) → Type 0
  IsAnswer req w result =
      (result.1 ≡ ok tt)
      ⊎ ((result ≡ (w, err validation))
          ⊎ ((result ≡ (w, err unauthenticated))
              ⊎ ((result ≡ (w, err range_error)) × IsUnreadable req)))

  infinite_of_thrown :
      (value : Option Json)
      → ((id : Option ℤ) × (bigint_of (as_number value) ≡ ok id))
        ⊎ ((is_positive : Bool) × (value ≡ some (num (infinite is_positive))))
  unfolding bigint_of as_number
  infinite_of_thrown none = inl (none, refl)
  infinite_of_thrown (some null) = inl (none, refl)
  infinite_of_thrown (some (bool b)) = inl (none, refl)
  infinite_of_thrown (some (str text)) = inl (none, refl)
  infinite_of_thrown (some (arr vs)) = inl (none, refl)
  infinite_of_thrown (some (obj fields)) = inl (none, refl)
  infinite_of_thrown (some (num (whole n))) = inl (some n, refl)
  infinite_of_thrown (some (num (fractional n))) = inl (some n, refl)
  infinite_of_thrown (some (num (infinite is_positive))) = inr (is_positive, refl)

  rate_limited_unreadable :
      (delivery_id event_type trace_id : String) (payload : Json) (w : World v) (is_positive : Bool)
      → get_field? "id" (get_field "installation" payload) ≡ some (num (infinite is_positive))
      → rate_limited v delivery_id event_type trace_id payload w ≡ (w, err range_error)
  unfolding rate_limited for_installation extract_installation_id bigint_of as_number
  rate_limited_unreadable delivery_id event_type trace_id payload w is_positive e = rw e

  rate_limited-IsAnswer :
      (req : Request) (delivery_id event_type : String) (payload : Json) (w : World v)
      → is_allowed_event event_type ≡ true
      → v.parse_json (raw_body req) ≡ some payload
      → IsAnswer req w (rate_limited v delivery_id event_type req.trace_id payload w)
  unfolding rate_limited for_installation extract_installation_id
  rate_limited-IsAnswer req delivery_id event_type payload (r, s) listed parses =
      elim (infinite_of_thrown (get_field? "id" (get_field "installation" payload))) [
        | inr (is_positive, e) ↦ inr (
            inr (
              inr (
                rate_limited_unreadable delivery_id event_type req.trace_id payload (r, s)
                    is_positive e,
                (payload, is_positive, parses, e),
              )))
        | inl (id, readable) ↦ inl (
            rw readable (
              after_rate_limit_returns v delivery_id event_type req.trace_id payload s _ id readable
                listed))
      ]

  authenticated_json :
      (req : Request) (delivery_id event_type : String) (w : World v) (payload : Json)
      → is_allowed_event event_type ≡ true
      → (event_type == "ping") ≡ false
      → v.parse_json (raw_body req) ≡ some payload
      → authenticated v req delivery_id event_type w
        ≡ rate_limited v delivery_id event_type req.trace_id payload w
  unfolding authenticated
  authenticated_json req delivery_id event_type w payload e f g = rw (e, f, g)

  authenticated-IsAnswer :
      (req : Request) (delivery_id event_type : String) (w : World v)
      → IsAnswer req w (authenticated v req delivery_id event_type w)
  unfolding authenticated
  authenticated-IsAnswer req delivery_id event_type w =
      elim (Bool-cases (is_allowed_event event_type)) [
        | inr e ↦ rw e (inl refl)
        | inl e ↦ elim (Bool-cases (event_type == "ping")) [
          | inl f ↦ rw (e, f) (inl refl)
          | inr f ↦ elim (Option-cases (v.parse_json (raw_body req))) [
            | inl g ↦ rw (e, f, g) (inr (inl refl))
            | inr (payload, g) ↦
                rw (authenticated_json req delivery_id event_type w payload e f g)
                  (rate_limited-IsAnswer req delivery_id event_type payload w e g)
          ]
        ]
      ]

  -- While the database answers, every request is answered with 200, or refused as malformed or
  -- unsigned with nothing changed, or, if its JSON body has an installation id that is a literal
  -- past the largest double, ended by a RangeError with nothing changed; no other error leaves
  -- the endpoint, however the delivery ends and whatever Inngest and Redis do.
  pub receive_github_webhook-IsAnswer :
      (req : Request) (w : World v) → IsAnswer req w (receive_github_webhook v req w)
  receive_github_webhook-IsAnswer req w = elim (Bool-cases (is_named v req w)) [
    | inr unnamed ↦ inr (inl (receive_github_webhook_unnamed v req w unnamed))
    | inl named ↦ elim (signed_or_not v req w) [
      | inr unsigned ↦ inr (inr (inl (receive_github_webhook-unsigned v req w named unsigned)))
      | inl signed ↦
          rw (receive_github_webhook_signed v req w named signed)
            (authenticated-IsAnswer req (text_of req.delivery_id) (text_of req.event_type) w)
    ]
  ]

  -- A request that is authentic and of a listed type other than ping, with a JSON body whose
  -- installation id is a literal past the largest double, ends in a RangeError, and nothing is
  -- recorded, counted or sent.
  pub receive_github_webhook-range_error :
      (req : Request) (w : World v)
      → IsAuthentic v req w
      → IsUnreadable req
      → receive_github_webhook v req w ≡ (w, err range_error)
  receive_github_webhook-range_error req w (named, signed, listed, no_ping, _)
        (payload, is_positive, parses, e) =
      rw
        (
          receive_github_webhook_signed v req w named signed,
          authenticated_json req (text_of req.delivery_id) (text_of req.event_type) w payload listed
              no_ping parses,
        )
        (rate_limited_unreadable (text_of req.delivery_id) (text_of req.event_type) req.trace_id
          payload w is_positive e)
