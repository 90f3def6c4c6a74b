-- ===== src/Github/TokenCache/Fresh.antt =====
-- What `RedisTokenCache` serves (token-cache.ts).
use ai_powered_github_pr_rev.Prelude.{
  ℕ, ◌≡◌, ◌<◌, inl, inr, refl, sym, ◌∙◌, String, Option, none, some, List, [], ◌∷◌, Any,
}
use ai_powered_github_pr_rev.Prelude.Equality.{text_equality}
use ai_powered_github_pr_rev.Github.InMemoryTokenCache as InMemory
use ai_powered_github_pr_rev.Github.InMemoryTokenCache.{Entry, Entries, put, expiring, read}
use ai_powered_github_pr_rev.Github.TokenCache.{Redis, Cache, after_get, cache_get}
use ai_powered_github_pr_rev.Github.TokenCache.Backed.{
  Grant, Reach, IsGranted, IsBacked, IsLive, read-IsLive, live-IsLive, of_redis, Backed,
  Reach-Backed,
}

-- A grant of the value that has not expired.
abbrev pub HasLiveGrant : ℕ → String → String → List Grant → Type 0
HasLiveGrant now key value grants =
    Any (λ g. (g.key ≡ key) × (g.value ≡ value) × (now < g.expires_at_ms)) grants

live_grant :
    (now : ℕ) (key value : String) (entry : Entry) (grants : List Grant)
    → IsGranted grants key entry
    → entry.value ≡ value
    → now < entry.expires_at_ms
    → HasLiveGrant now key value grants
unfolding IsGranted
live_grant now key value entry [] g same lt = g
live_grant now key value entry (x ∷ xs) (inl (k, v, e)) same lt = inl (k, v ∙ same, rw e lt)
live_grant now key value entry (x ∷ xs) (inr g) same lt =
    inr (live_grant now key value entry xs g same lt)

backed_value :
    (grants : List Grant) (entries : Entries) (now : ℕ) (key value : String)
    → IsBacked grants entries
    → IsLive now value (entries key)
    → HasLiveGrant now key value grants
unfolding IsBacked IsLive
backed_value grants entries now key value backed (entry, e, same, lt) =
    live_grant now key value entry grants (backed key entry e) same lt

module _ (redis : Redis) (now : ℕ) (key value : String) (c : Cache redis) (grants : List Grant)
    (b : Backed redis c grants) where
  answered :
      (o : Option (Option String))
      → redis.get now key c.state ≡ o
      → (after_get redis now key c o).1 ≡ some value
      → HasLiveGrant now key value grants
  unfolding after_get InMemory.get
  answered (some (some v)) e h =
      backed_value grants (of_redis redis c.state) now key value b.in_redis (
        live-IsLive now value (redis.stored key c.state)
          (sym h ∙ redis.get_lem now key c.state (some v) e))
  answered (some none) e h =
      backed_value grants c.fallback now key value b.in_memory
        (read-IsLive now key value c.fallback (c.fallback key) h)
  answered none e h =
      backed_value grants c.fallback now key value b.in_memory
        (read-IsLive now key value c.fallback (c.fallback key) h)

-- After any sequence of calls on a token cache that was empty, also when commands of Redis fail
-- with or without having been carried out, a value that the cache serves for a key was set for
-- that key with a time to live that has not run out.
pub cache_get-HasLiveGrant :
    (redis : Redis) (c : Cache redis) (grants : List Grant) (now : ℕ) (key value : String)
    → Reach redis c grants
    → (cache_get redis now key c).1 ≡ some value
    → HasLiveGrant now key value grants
unfolding cache_get
cache_get-HasLiveGrant redis c grants now key value r =
    answered redis now key value c grants (Reach-Backed redis r) _ refl
