-- ===== src/Github/TokenCache/Backed.antt =====
-- Uses of a token cache (token-cache.ts) in any order, and where its entries come from.
use ai_powered_github_pr_rev.Prelude.{
  ℕ, zero, suc, ◌+◌, ◌*◌, ◌≡◌, ◌<◌, inl, inr, refl, ap, sym, ◌∙◌, String, Bool, true, false, Option,
  none, some, List, [], ◌∷◌, arith, Any, leb, Bool-cases, eq_iff,
}
use ai_powered_github_pr_rev.Prelude.Int.{ℤ, pos, negsuc}
use ai_powered_github_pr_rev.Prelude.Equality.{◌==◌, text_equality}
use ai_powered_github_pr_rev.Github.InMemoryTokenCache as InMemory
use ai_powered_github_pr_rev.Github.InMemoryTokenCache.{Entry, Entries, put, expiring, read}
use ai_powered_github_pr_rev.Github.TokenCache.{
  live, Redis, Cache, after_get, cache_get, cache_delete, after_set, cache_set,
}

-- What a caller has put in the cache.
pub record Grant : Type 0 where
  pub key : String
  pub value : String
  pub expires_at_ms : ℕ

abbrev pub granted : ℕ → String → String → ℤ → List Grant → List Grant
granted now key value (pos (suc n)) grants =
    record { key = key; value = value; expires_at_ms = now + suc n * 1000 } ∷ grants
granted now key value (pos zero) grants = grants
granted now key value (negsuc n) grants = grants

-- The calls, from a cache that is empty, with what has been put in it.
pub data Reach (redis : Redis) : Cache redis → List Grant → Type 0 where
  start :
      (c : Cache redis)
      → ((key : String) → redis.stored key c.state ≡ none)
      → ((key : String) → c.fallback key ≡ none)
      → Reach redis c []
  gets :
      (now : ℕ) (key : String) {c : Cache redis} {grants : List Grant}
      → Reach redis c grants
      → Reach redis (cache_get redis now key c).0 grants
  sets :
      (now : ℕ) (key value : String) (ttl : ℤ) {c : Cache redis} {grants : List Grant}
      → Reach redis c grants
      → Reach redis (cache_set redis now key value ttl c) (granted now key value ttl grants)
  deletes :
      (key : String) {c : Cache redis} {grants : List Grant}
      → Reach redis c grants
      → Reach redis (cache_delete redis key c) grants

unfoldable pub IsGranted : List Grant → String → Entry → Type 0
IsGranted grants key entry =
    Any (λ g. (g.key ≡ key) × (g.value ≡ entry.value) × (g.expires_at_ms ≡ entry.expires_at_ms))
      grants

-- Every entry of a map was put there by a caller.
unfoldable pub IsBacked : List Grant → Entries → Type 0
IsBacked grants entries =
    (key : String) (entry : Entry) → entries key ≡ some entry → IsGranted grants key entry

put-IsBacked :
    (grants : List Grant) (key : String) (o : Option Entry) (entries : Entries)
    → IsBacked grants entries
    → ((entry : Entry) → o ≡ some entry → IsGranted grants key entry)
    → IsBacked grants (put key o entries)
unfolding IsBacked
put-IsBacked grants key o entries backed new k entry = elim (Bool-cases (k == key)) [
  | inl e ↦ rw (e, (eq_iff k key).0 e) (new entry)
  | inr e ↦ rw e (backed k entry)
]

clear-IsBacked :
    (grants : List Grant) (key : String) (entries : Entries)
    → IsBacked grants entries
    → IsBacked grants (put key none entries)
clear-IsBacked grants key entries backed =
    put-IsBacked grants key none entries backed (λ entry h. cc)

more-IsBacked :
    (g : Grant) (grants : List Grant) (entries : Entries)
    → IsBacked grants entries
    → IsBacked (g ∷ grants) entries
unfolding IsBacked IsGranted
more-IsBacked g grants entries backed key entry h = inr (backed key entry h)

read-IsBacked :
    (grants : List Grant) (now : ℕ) (key : String) (entries : Entries) (o : Option Entry)
    → IsBacked grants entries
    → IsBacked grants (read now key entries o).0
read-IsBacked grants now key entries none backed = backed
read-IsBacked grants now key entries (some entry) backed =
    elim (Bool-cases (leb entry.expires_at_ms now)) [
      | inl e ↦ rw e (clear-IsBacked grants key entries backed)
      | inr e ↦ rw e backed
    ]

-- An entry with a value that has not expired.
unfoldable pub IsLive : ℕ → String → Option Entry → Type 0
IsLive now value o =
    (entry : Entry) × (o ≡ some entry) × (entry.value ≡ value) × (now < entry.expires_at_ms)

pub read-IsLive :
    (now : ℕ) (key value : String) (entries : Entries) (o : Option Entry)
    → (read now key entries o).1 ≡ some value
    → IsLive now value o
unfolding IsLive
read-IsLive now key value entries none h = cc
read-IsLive now key value entries (some entry) h =
    let facts : (entry.value ≡ value) × (now < entry.expires_at_ms) = ground (arith, h) in
    (entry, refl, facts.0, facts.1)

pub live-IsLive :
    (now : ℕ) (value : String) (o : Option Entry) → some value ≡ live now o → IsLive now value o
unfolding IsLive
live-IsLive now value none h = cc
live-IsLive now value (some entry) h =
    let facts : (entry.value ≡ value) × (now < entry.expires_at_ms) = ground (arith, h) in
    (entry, refl, facts.0, facts.1)

module _ (redis : Redis) where
  abbrev pub of_redis : redis.State → Entries
  of_redis s key = redis.stored key s

  pub record Backed (c : Cache redis) (grants : List Grant) : Type 0 where
    pub in_redis : IsBacked grants (of_redis c.state)
    pub in_memory : IsBacked grants c.fallback

  get-Backed :
      (now : ℕ) (key : String) (c : Cache redis) (grants : List Grant) (o : Option (Option String))
      → Backed c grants
      → Backed (after_get redis now key c o).0 grants
  unfolding after_get InMemory.get
  get-Backed now key c grants (some (some value)) b = b
  get-Backed now key c grants (some none) b = record {
    in_redis = b.in_redis;
    in_memory = read-IsBacked grants now key c.fallback (c.fallback key) b.in_memory;
  }
  get-Backed now key c grants none b = record {
    in_redis = b.in_redis;
    in_memory = read-IsBacked grants now key c.fallback (c.fallback key) b.in_memory;
  }

  del-IsBacked :
      (key : String) (s : redis.State) (grants : List Grant)
      → IsBacked grants (of_redis s)
      → IsBacked grants (of_redis (redis.del key s).0)
  unfolding IsBacked
  del-IsBacked key s grants backed k entry h = elim (redis.del_lem key s k) [
    | inl same ↦ backed k entry (sym same ∙ h)
    | inr gone ↦ cc
  ]

  delete-Backed :
      (key : String) (c : Cache redis) (grants : List Grant)
      → Backed c grants
      → Backed (cache_delete redis key c) grants
  unfolding cache_delete InMemory.delete
  delete-Backed key c grants b = record {
    in_redis = del-IsBacked key c.state grants b.in_redis;
    in_memory = clear-IsBacked grants key c.fallback b.in_memory;
  }

  abbrev grant_of : ℕ → String → String → ℕ → Grant
  grant_of now key value n = record { key = key; value = value; expires_at_ms = now + suc n * 1000 }

  own_grant :
      (now : ℕ) (key value : String) (n : ℕ) (grants : List Grant) (k : String)
      → key ≡ k
      → (entry : Entry) → some (expiring now value (suc n)) ≡ some entry
      → IsGranted (grant_of now key value n ∷ grants) k entry
  unfolding IsGranted
  own_grant now key value n grants k at entry h =
      let same : expiring now value (suc n) ≡ entry = cc in
      inl (at, ap (λ e. e.value) same, ap (λ e. e.expires_at_ms) same)

  set_redis-IsBacked :
      (now : ℕ) (key value : String) (n : ℕ) (s : redis.State) (grants : List Grant)
      → IsBacked grants (of_redis s)
      → IsBacked
          (grant_of now key value n ∷ grants)
          (of_redis (redis.set now key value (suc n) s).0)
  unfolding IsBacked IsGranted
  set_redis-IsBacked now key value n s grants backed k entry h =
      elim (redis.set_lem now key value (suc n) s k) [
        | inl same ↦ inr (backed k entry (sym same ∙ h))
        | inr new ↦ own_grant now key value n grants k (sym (new.0)) entry (sym (new.1) ∙ h)
      ]

  after_set-Backed :
      (now : ℕ) (key value : String) (n : ℕ) (fallback : Entries) (grants : List Grant)
      (r : redis.State × Bool)
      → IsBacked (grant_of now key value n ∷ grants) (of_redis r.0)
      → IsBacked grants fallback
      → Backed
          (after_set redis now key value (suc n) fallback r)
          (grant_of now key value n ∷ grants)
  unfolding after_set InMemory.set
  after_set-Backed now key value n fallback grants (s, true) a b = record {
    in_redis = a;
    in_memory = more-IsBacked _ grants fallback b;
  }
  after_set-Backed now key value n fallback grants (s, false) a b = record {
    in_redis = a;
    in_memory =
        put-IsBacked _ key _ fallback (more-IsBacked _ grants fallback b)
          (own_grant now key value n grants key refl);
  }

  set-Backed :
      (now : ℕ) (key value : String) (ttl : ℤ) (c : Cache redis) (grants : List Grant)
      → Backed c grants
      → Backed (cache_set redis now key value ttl c) (granted now key value ttl grants)
  unfolding cache_set
  set-Backed now key value (negsuc n) c grants b = delete-Backed key c grants b
  set-Backed now key value (pos zero) c grants b = delete-Backed key c grants b
  set-Backed now key value (pos (suc n)) c grants b =
      after_set-Backed now key value n c.fallback grants _
        (set_redis-IsBacked now key value n c.state grants b.in_redis) b.in_memory

  pub Reach-Backed :
      {c : Cache redis} {grants : List Grant} → Reach redis c grants → Backed c grants
  unfolding IsBacked cache_get
  Reach-Backed (start c empty_redis empty_map) = record {
    in_redis = λ key entry h. let no : none ≡ some entry = sym (empty_redis key) ∙ h in cc;
    in_memory = λ key entry h. let no : none ≡ some entry = sym (empty_map key) ∙ h in cc;
  }
  Reach-Backed (gets now key r) = get-Backed now key _ _ _ (Reach-Backed r)
  Reach-Backed (sets now key value ttl r) = set-Backed now key value ttl _ _ (Reach-Backed r)
  Reach-Backed (deletes key r) = delete-Backed key _ _ (Reach-Backed r)
