-- ===== src/Tests/Tokens.antt =====
-- A token cache whose Redis carries out every command, but reports that it has not when the value is
-- "lost".
use ai_powered_github_pr_rev.Prelude.{
  ℕ, ◌+◌, ◌*◌, ◌≡◌, ◌⊎◌, inl, inr, refl, String, true, not, Option, none, some, [], ◌∷◌, Bool-cases,
  eq_iff,
}
use ai_powered_github_pr_rev.Prelude.Int.{pos}
use ai_powered_github_pr_rev.Prelude.Equality.{◌==◌, text_equality}
use ai_powered_github_pr_rev.Github.InMemoryTokenCache.{Entries, put, expiring}
use ai_powered_github_pr_rev.Github.TokenCache.{live, Redis, Cache, cache_get, cache_set}
use ai_powered_github_pr_rev.Github.TokenCache.Backed.{Reach, start, sets}
use ai_powered_github_pr_rev.Github.TokenCache.Fresh.{HasLiveGrant, cache_get-HasLiveGrant}

map_get_lem :
    (now : ℕ) (key : String) (s : Entries) (answer : Option String)
    → some (live now (s key)) ≡ some answer
    → answer ≡ live now (s key)
map_get_lem now key s answer h = cc

map_set_lem :
    (now : ℕ) (key value : String) (ttl : ℕ) (s : Entries) (k : String)
    → (put key (some (expiring now value ttl)) s k ≡ s k)
      ⊎ ((k ≡ key) × (put key (some (expiring now value ttl)) s k ≡ some (expiring now value ttl)))
map_set_lem now key value ttl s k = elim (Bool-cases (k == key)) [
  | inl e ↦ inr ((eq_iff k key).0 e, rw e refl)
  | inr e ↦ inl (rw e refl)
]

map_del_lem :
    (key : String) (s : Entries) (k : String) → (put key none s k ≡ s k) ⊎ (put key none s k ≡ none)
map_del_lem key s k = elim (Bool-cases (k == key)) [
  | inl e ↦ inr (rw e refl)
  | inr e ↦ inl (rw e refl)
]

abbrev map_redis : Redis
map_redis = record {
  State = Entries;
  stored = λ key s. s key;
  get = λ now key s. some (live now (s key));
  set = λ now key value ttl s. (put key (some (expiring now value ttl)) s, not (value == "lost"));
  del = λ key s. (put key none s, true);
  get_lem = map_get_lem;
  set_lem = map_set_lem;
  del_lem = map_del_lem;
}

abbrev empty_cache : Cache map_redis
empty_cache = record { state = λ key. none; fallback = λ key. none }

abbrev filled : Cache map_redis
filled = cache_set map_redis 1000 "installation:42" "t0ken" (pos 3000) empty_cache

filled-reached :
    Reach map_redis filled
      (record { key = "installation:42"; value = "t0ken"; expires_at_ms = 1000 + 3000 * 1000 } ∷ [])
filled-reached =
    sets 1000 "installation:42" "t0ken" (pos 3000) (start empty_cache (λ key. refl) (λ key. refl))

cache_get-HasLiveGrant_example :
    HasLiveGrant 2000 "installation:42" "t0ken"
      (record { key = "installation:42"; value = "t0ken"; expires_at_ms = 1000 + 3000 * 1000 } ∷ [])
unfolding cache_set cache_get
cache_get-HasLiveGrant_example =
    cache_get-HasLiveGrant map_redis filled
      (record { key = "installation:42"; value = "t0ken"; expires_at_ms = 1000 + 3000 * 1000 } ∷ [])
      2000 "installation:42" "t0ken" filled-reached refl
