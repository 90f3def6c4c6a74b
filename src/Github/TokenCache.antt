-- ===== src/Github/TokenCache.antt =====
-- `RedisTokenCache` of packages/github/src/client/token-cache.ts. Redis is a parameter; the clock is an argument of each
-- call, and Redis has the same one.
pub mod Backed
pub mod Fresh
use ai_powered_github_pr_rev.Prelude.{
  ℕ, zero, suc, ◌+◌, ◌*◌, ◌≡◌, ◌⊎◌, String, Bool, true, false, Option, none, some, if◌then◌else◌,
  leb, ltb,
}
use ai_powered_github_pr_rev.Prelude.Int.{ℤ, pos, negsuc}
use ai_powered_github_pr_rev.Github.InMemoryTokenCache as InMemory
use ai_powered_github_pr_rev.Github.InMemoryTokenCache.{Entry, Entries, expiring}

abbrev pub live : ℕ → Option Entry → Option String
live now none = none
live now (some entry) = if ltb now entry.expires_at_ms then some entry.value else none

-- A command changes the state and answers, or throws, which is `none`; one that throws may have been
-- carried out.
pub record Redis : Type 1 where
  pub State : Type 0
  pub stored : String → State → Option Entry
  pub get : ℕ → String → State → Option (Option String)
  pub set : ℕ → String → String → ℕ → State → State × Bool
  pub del : String → State → State × Bool
  pub get_lem :
      (now : ℕ) (key : String) (s : State) (answer : Option String)
      → get now key s ≡ some answer
      → answer ≡ live now (stored key s)
  pub set_lem :
      (now : ℕ) (key value : String) (ttl : ℕ) (s : State) (k : String)
      → (stored k (set now key value ttl s).0 ≡ stored k s)
        ⊎ ((k ≡ key) × (stored k (set now key value ttl s).0 ≡ some (expiring now value ttl)))
  pub del_lem :
      (key : String) (s : State) (k : String)
      → (stored k (del key s).0 ≡ stored k s) ⊎ (stored k (del key s).0 ≡ none)

-- `RedisTokenCache`, but for when it last logged an error.
pub record Cache (redis : Redis) : Type 0 where
  pub state : redis.State
  pub fallback : Entries

module _ (redis : Redis) where
  abbrev pub from_fallback : ℕ → String → Cache redis → Cache redis × Option String
  from_fallback now key c =
      let answer = InMemory.get now key c.fallback in (record c { fallback = answer.0 }, answer.1)

  after_get : ℕ → String → Cache redis → Option (Option String) → Cache redis × Option String
  after_get now key c (some (some value)) = (c, some value)
  after_get now key c (some none) = from_fallback now key c
  after_get now key c none = from_fallback now key c

  unfoldable pub cache_get : ℕ → String → Cache redis → Cache redis × Option String
  unfolding after_get
  cache_get now key c = after_get now key c (redis.get now key c.state)

  unfoldable pub cache_delete : String → Cache redis → Cache redis
  cache_delete key c = record c {
    fallback = InMemory.delete key c.fallback;
    state = (redis.del key c.state).0;
  }

  after_set : ℕ → String → String → ℕ → Entries → redis.State × Bool → Cache redis
  after_set now key value ttl fallback (s, true) = record { state = s; fallback = fallback }
  after_set now key value ttl fallback (s, false) = record {
    state = s;
    fallback = InMemory.set now key value (pos ttl) fallback;
  }

  unfoldable pub cache_set : ℕ → String → String → ℤ → Cache redis → Cache redis
  unfolding after_set cache_delete
  cache_set now key value (negsuc n) c = cache_delete key c
  cache_set now key value (pos zero) c = cache_delete key c
  cache_set now key value (pos (suc n)) c =
      after_set now key value (suc n) c.fallback (redis.set now key value (suc n) c.state)
