-- ===== src/Webhook/RateLimit/Laws.antt =====
-- `checkRateLimit` (apps/api/src/lib/rate-limit.ts) over several requests of one window.
use ai_powered_github_pr_rev.Prelude.{
  ℕ, suc, ◌-◌, String, ◌<◌, ◌≡◌, ◌≢◌, none, List, [], ◌∷◌, leb, All, arith, if◌then◌else◌, count,
  length, Option-cases, inl, inr,
}
use ai_powered_github_pr_rev.Webhook.RateLimit.{
  Redis, RateLimitResult, allowed, is_allowed, bucket_of, window_key, check_rate_limit,
  compare_count, after_incr, after_expire,
}

module _ (redis : Redis) where
  -- The Redis server answers each command.
  abbrev pub IsReachable : Type 0
  IsReachable =
      ((key : String) (r : redis.State) → (redis.incr key r).1 ≢ none)
      × ((key : String) (n : ℕ) (r : redis.State) → (redis.expire key n r).1 ≢ none)
      × ((key : String) (r : redis.State) → (redis.ttl key r).1 ≢ none)

  abbrev pub counter_at : String → ℕ → ℕ → redis.State → ℕ
  counter_at key window_seconds now r =
      redis.counter (window_key key window_seconds (bucket_of window_seconds now)) r

  -- A command that errs lets the request through.
  pub check_rate_limit_fails_open :
      (key : String) (limit window_seconds now : ℕ) (r : redis.State)
      → (redis.incr (window_key key window_seconds (bucket_of window_seconds now)) r).1 ≡ none
      → (check_rate_limit redis key limit window_seconds now r).1 ≡ allowed
  unfolding check_rate_limit
  check_rate_limit_fails_open key limit window_seconds now r h = ground (arith, h)

  compare_count_lem :
      (at : String) (limit window_seconds n : ℕ) (r : redis.State)
      → ((r : redis.State) → (redis.ttl at r).1 ≢ none)
      → (is_allowed (compare_count redis at limit window_seconds n r).1 ≡ leb n limit)
        × (redis.counter at (compare_count redis at limit window_seconds n r).0
            ≡ redis.counter at r)
  unfolding compare_count
  compare_count_lem at limit window_seconds n r ttl = ground (arith, ttl r, redis.ttl_lem at at r)

  after_expire_lem :
      IsReachable
      → (at : String) (limit window_seconds n : ℕ) (r : redis.State) → 0 < window_seconds
      → (is_allowed
            (after_expire redis at limit window_seconds n (redis.expire at window_seconds r)).1
          ≡ leb n limit)
        × (redis.counter at
              (after_expire redis at limit window_seconds n (redis.expire at window_seconds r)).0
            ≡ redis.counter at r)
  unfolding after_expire
  after_expire_lem (up_incr, up_expire, up_ttl) at limit window_seconds n r positive = ground (
    arith,
    up_expire at window_seconds r,
    redis.expire_lem at at window_seconds r positive,
    compare_count_lem at limit window_seconds n (redis.expire at window_seconds r).0 (up_ttl at),
  )

  after_incr_lem :
      IsReachable
      → (at : String) (limit window_seconds : ℕ) (r : redis.State) → 0 < window_seconds
      → (is_allowed (after_incr redis at limit window_seconds (redis.incr at r)).1
          ≡ leb (suc (redis.counter at r)) limit)
        × (redis.counter at (after_incr redis at limit window_seconds (redis.incr at r)).0
            ≡ suc (redis.counter at r))
  unfolding after_incr
  after_incr_lem (up_incr, up_expire, up_ttl) at limit window_seconds r positive =
      elim (Option-cases (redis.incr at r).1) [
        | inl e ↦ absurd (up_incr at r e)
        | inr (n, e) ↦ ground (
          arith,
          e,
          redis.incr_lem at n r e,
          compare_count_lem at limit window_seconds n (redis.incr at r).0 (up_ttl at),
          after_expire_lem (up_incr, up_expire, up_ttl) at limit window_seconds n
              (redis.incr at r).0 positive,
        )
      ]

  -- Where Redis answers, a request is counted, and it is allowed where the count is within the limit.
  check_rate_limit_lem :
      IsReachable
      → (key : String) (limit window_seconds now : ℕ) (r : redis.State) → 0 < window_seconds
      → (is_allowed (check_rate_limit redis key limit window_seconds now r).1
          ≡ leb (suc (counter_at key window_seconds now r)) limit)
        × (counter_at key window_seconds now
              (check_rate_limit redis key limit window_seconds now r).0
            ≡ suc (counter_at key window_seconds now r))
  unfolding check_rate_limit
  check_rate_limit_lem (up_incr, up_expire, up_ttl) key limit window_seconds now r positive =
      after_incr_lem (up_incr, up_expire, up_ttl)
        (window_key key window_seconds (bucket_of window_seconds now)) limit window_seconds r
        positive

  -- The requests of one key, one after the other, at these times.
  abbrev pub run_checks : String → ℕ → ℕ → List ℕ → redis.State → List RateLimitResult
  run_checks key limit window_seconds [] r = []
  run_checks key limit window_seconds (now ∷ nows) r =
      let checked = check_rate_limit redis key limit window_seconds now r in
      checked.1 ∷ run_checks key limit window_seconds nows checked.0

  abbrev pub min : ℕ → ℕ → ℕ
  min a b = if leb a b then a else b

  -- While Redis answers, and it has counted a number of requests of the key in the window that
  -- all the times lie in, exactly as many more are let through as the limit leaves. The window
  -- has a positive length.
  pub run_checks-count_allowed :
      IsReachable
      → (key : String) (limit window_seconds bucket : ℕ) (nows : List ℕ) (r : redis.State)
      → 0 < window_seconds
      → All (λ now. bucket_of window_seconds now ≡ bucket) nows
      → count is_allowed (run_checks key limit window_seconds nows r)
        ≡ min (length nows) (limit - redis.counter (window_key key window_seconds bucket) r)
  run_checks-count_allowed up key limit window_seconds bucket [] r positive a = ground arith
  run_checks-count_allowed up key limit window_seconds bucket (now ∷ nows) r positive (a, as') =
      ground (
        arith,
        a,
        check_rate_limit_lem up key limit window_seconds now r positive,
        run_checks-count_allowed up key limit window_seconds bucket nows
            (check_rate_limit redis key limit window_seconds now r).0 positive as',
      )
