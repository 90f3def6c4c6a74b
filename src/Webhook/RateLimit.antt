-- ===== src/Webhook/RateLimit.antt =====
-- `checkRateLimit` of apps/api/src/lib/rate-limit.ts, the version with a window, which its callers
-- use; the file holds both sides of an unresolved merge. Redis is a parameter.
pub mod Laws
use ai_powered_github_pr_rev.Prelude.{
  ℕ, zero, suc, String, ◌≡◌, ◌<◌, Bool, true, false, Option, none, some, List, [], ◌∷◌, ltb, ◌/◌,
  if◌then◌else◌, nat_beq,
}
use ai_powered_github_pr_rev.Prelude.Equality.{◌==◌, text_equality}
use ai_powered_github_pr_rev.Prelude.Int.{pos}
use ai_powered_github_pr_rev.Webhook.Router.Decimal.{int_to_string}
use Prim.Native.String

-- The commands that are used; `none` is an error of the connection. A command that fails leaves the
-- counters as they are or counts once, and says nothing about which. EXPIRE with 0 seconds would
-- delete the key; with more it leaves the counter as it is.
pub record Redis : Type 1 where
  pub State : Type 0
  -- The number under a key, 0 where it has none.
  pub counter : String → State → ℕ
  pub incr : String → State → State × Option ℕ
  pub expire : String → ℕ → State → State × Option Bool
  -- In seconds; 0 stands for the negative answers too.
  pub ttl : String → State → State × Option ℕ
  pub incr_lem :
      (key : String) (n : ℕ) (r : State)
      → (incr key r).1 ≡ some n
      → (n ≡ suc (counter key r)) × (counter key (incr key r).0 ≡ n)
  pub expire_lem :
      (key key' : String) (n : ℕ) (r : State)
      → 0 < n
      → counter key' (expire key n r).0 ≡ counter key' r
  pub ttl_lem : (key key' : String) (r : State) → counter key' (ttl key r).0 ≡ counter key' r

-- `retryAfterSeconds` is there where the request is not allowed.
pub data RateLimitResult : Type 0 where
  allowed : RateLimitResult
  retry_after : ℕ → RateLimitResult

abbrev pub is_allowed : RateLimitResult → Bool
is_allowed allowed = true
is_allowed (retry_after seconds) = false

-- `Math.floor(Date.now() / 1000 / windowSeconds)`
abbrev pub bucket_of : ℕ → ℕ → ℕ
bucket_of window_seconds now = now / 1000 / window_seconds

unfoldable pub window_key : String → ℕ → ℕ → String
unfolding int_to_string
window_key key window_seconds bucket = String.◌++◌ "ratelimit:" (
    String.◌++◌ key (
      String.◌++◌ ":" (
        String.◌++◌ (int_to_string (pos window_seconds))
          (String.◌++◌ ":" (int_to_string (pos bucket))))))

module _ (redis : Redis) where
  -- `ttl > 0 ? ttl : windowSeconds`; an error is caught, and the request is allowed.
  after_ttl : ℕ → redis.State × Option ℕ → redis.State × RateLimitResult
  after_ttl window_seconds (r, none) = (r, allowed)
  after_ttl window_seconds (r, some left) =
      (r, retry_after (if ltb 0 left then left else window_seconds))

  unfoldable pub compare_count : String → ℕ → ℕ → ℕ → redis.State → redis.State × RateLimitResult
  unfolding after_ttl
  compare_count at limit window_seconds count r =
      if ltb limit count then after_ttl window_seconds (redis.ttl at r) else (r, allowed)

  after_expire : String → ℕ → ℕ → ℕ → redis.State × Option Bool → redis.State × RateLimitResult
  unfolding compare_count
  after_expire at limit window_seconds count (r, none) = (r, allowed)
  after_expire at limit window_seconds count (r, some _) =
      compare_count at limit window_seconds count r

  after_incr : String → ℕ → ℕ → redis.State × Option ℕ → redis.State × RateLimitResult
  unfolding compare_count after_expire
  after_incr at limit window_seconds (r, none) = (r, allowed)
  after_incr at limit window_seconds (r, some count) =
      if nat_beq count 1
      then after_expire at limit window_seconds count (redis.expire at window_seconds r)
      else compare_count at limit window_seconds count r

  unfoldable pub check_rate_limit : String → ℕ → ℕ → ℕ → redis.State → redis.State × RateLimitResult
  unfolding after_incr window_key
  check_rate_limit key limit window_seconds now r =
      let at = window_key key window_seconds (bucket_of window_seconds now) in
      after_incr at limit window_seconds (redis.incr at r)
