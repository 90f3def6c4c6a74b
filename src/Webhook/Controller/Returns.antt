-- ===== src/Webhook/Controller/Returns.antt =====
-- What `receiveGithubWebhook` (controllers/webhooks.controller.ts) returns after the rate limiter.
use ai_powered_github_pr_rev.Prelude.{
  String, ◌≡◌, refl, ap, Bool, true, false, ◌||◌, Option, none, some, arith, Bool-cases, inl, inr,
  if◌then◌else◌,
}
use ai_powered_github_pr_rev.Prelude.Equality.{beq_sym, ◌==◌, text_equality}
use ai_powered_github_pr_rev.Prelude.Int.{ℤ}
use ai_powered_github_pr_rev.Json.{Json}
use ai_powered_github_pr_rev.Store.{Store, Result, ok, err}
use ai_powered_github_pr_rev.Webhook.Allowlist.{is_allowed_event}
use ai_powered_github_pr_rev.Webhook.Payload.{extract_installation_id}
use ai_powered_github_pr_rev.Webhook.Outcome.{
  Delivery, SyncEventType, installation, installation_repositories, repository,
}
use ai_powered_github_pr_rev.Webhook.Emit.{dispatcher_send}
use ai_powered_github_pr_rev.Webhook.Service.{ingest_delivery}
use ai_powered_github_pr_rev.Webhook.Service.Returns.{ingest_delivery-ReturnsOutcome}
use ai_powered_github_pr_rev.Webhook.SyncService.{ingest_sync_delivery}
use ai_powered_github_pr_rev.Webhook.SyncService.Laws.{
  is_sync_taken, ingest_sync_delivery_taken, ingest_sync_delivery-IsSynced,
}
use ai_powered_github_pr_rev.Webhook.RateLimit.{RateLimitResult, allowed, retry_after}
use ai_powered_github_pr_rev.Webhook.Controller.{
  Services, World, sync_type_of, delegate, delegate_by, after_rate_limit, respond,
}

abbrev sync_type_by : Bool → Bool → Bool → Option SyncEventType
sync_type_by a b c =
    if a
    then some installation
    else if b
    then some installation_repositories
    else if c
    then some repository
    else none

-- The list's six tests, without the three that a synchronised type passes.
listed_tests :
    (a b c pr push ping' : Bool)
    → sync_type_by a b c ≡ none
    → (pr || (a || (b || (c || (push || (ping' || false)))))) ≡ true
    → ((ping' || push) || pr) ≡ true
listed_tests true b c pr push ping' h listed = cc
listed_tests false true c pr push ping' h listed = cc
listed_tests false false true pr push ping' h listed = cc
listed_tests false false false pr push ping' h listed = ground arith

handled_of_listed :
    (event_type : String)
    → is_allowed_event event_type ≡ true
    → sync_type_of event_type ≡ none
    → ((event_type == "ping" || event_type == "push") || event_type == "pull_request") ≡ true
unfolding is_allowed_event sync_type_of
handled_of_listed event_type listed h =
    listed_tests (event_type == "installation") (event_type == "installation_repositories")
      (event_type == "repository") (event_type == "pull_request") (event_type == "push")
      (event_type == "ping") h
      (rw
        (
          beq_sym event_type "installation",
          beq_sym event_type "installation_repositories",
          beq_sym event_type "repository",
          beq_sym event_type "pull_request",
          beq_sym event_type "push",
          beq_sym event_type "ping",
        )
        listed)

module _ (v : Services) where
  ok_of_ok :
      {A : Type 0} (r : v.redis.State) (result : Store × Result A) (a : A)
      → result.1 ≡ ok a
      → (respond v r result).1 ≡ ok tt
  ok_of_ok r (s, ok b) a h = refl
  ok_of_ok r (s, err e) a h = cc

  sync_returns :
      (r : v.redis.State) (delivery_id : String) (kind : SyncEventType) (payload : Json) (s : Store)
      (id : Option ℤ)
      → extract_installation_id payload ≡ ok id
      → (respond v r
          (ingest_sync_delivery v.db v.schemas v.at v.parse_date delivery_id kind payload s)).1
        ≡ ok tt
  sync_returns r delivery_id kind payload s id readable =
      elim (Bool-cases
        (is_sync_taken v.db v.schemas v.at v.parse_date delivery_id kind payload s)) [
          | inl taken ↦ ok_of_ok r _ _ (
              ap (λ e. e.1)
                (ingest_sync_delivery_taken v.db v.schemas v.at v.parse_date delivery_id kind
                  payload s id readable taken))
          | inr new ↦
              let (row, outcome, rows, rows', same, settled, e) =
                ingest_sync_delivery-IsSynced v.db v.schemas v.at v.parse_date delivery_id kind
                  payload s id readable new in
              ok_of_ok r _ outcome (ap (λ e. e.1) e)
        ]

  delegate_by_returns :
      (delivery_id event_type trace_id : String) (payload : Json) (w : World v)
      (sync : Option SyncEventType) (id : Option ℤ)
      → extract_installation_id payload ≡ ok id
      → sync_type_of event_type ≡ sync
      → is_allowed_event event_type ≡ true
      → (delegate_by v delivery_id event_type trace_id payload sync w).1 ≡ ok tt
  unfolding delegate_by
  delegate_by_returns delivery_id event_type trace_id payload (r, s) (some kind) id readable e
        listed =
      sync_returns r delivery_id kind payload s id readable
  delegate_by_returns delivery_id event_type trace_id payload (r, s) none id readable e listed =
      let d : Delivery = record {
        delivery_id = delivery_id;
        event_type = event_type;
        raw_payload = payload;
        trace_id = trace_id;
      } in
      let (outcome, returned) =
        ingest_delivery-ReturnsOutcome v.db v.schemas v.at v.inngest d s (id, readable)
          (handled_of_listed event_type listed e) in
      ok_of_ok r (ingest_delivery v.db v.schemas v.at (dispatcher_send v.inngest) d s) outcome
        returned

  delegate_returns :
      (delivery_id event_type trace_id : String) (payload : Json) (w : World v) (id : Option ℤ)
      → extract_installation_id payload ≡ ok id
      → is_allowed_event event_type ≡ true
      → (delegate v delivery_id event_type trace_id payload w).1 ≡ ok tt
  unfolding delegate
  delegate_returns delivery_id event_type trace_id payload w id readable listed =
      delegate_by_returns delivery_id event_type trace_id payload w (sync_type_of event_type) id
        readable refl listed

  pub after_rate_limit_returns :
      (delivery_id event_type trace_id : String) (payload : Json) (s : Store)
      (checked : v.redis.State × RateLimitResult) (id : Option ℤ)
      → extract_installation_id payload ≡ ok id
      → is_allowed_event event_type ≡ true
      → (after_rate_limit v delivery_id event_type trace_id payload s checked).1 ≡ ok tt
  unfolding after_rate_limit
  after_rate_limit_returns delivery_id event_type trace_id payload s (r, retry_after n) id readable
        listed =
      refl
  after_rate_limit_returns delivery_id event_type trace_id payload s (r, allowed) id readable
        listed =
      delegate_returns delivery_id event_type trace_id payload (r, s) id readable listed
