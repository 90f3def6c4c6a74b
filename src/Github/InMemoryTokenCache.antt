-- ===== src/Github/InMemoryTokenCache.antt =====
-- `InMemoryTokenCache` of packages/github/src/client/token-cache.ts. The clock is an argument of each
-- call.
use ai_powered_github_pr_rev.Prelude.{
  ℕ, zero, suc, ◌+◌, ◌*◌, String, Option, none, some, if◌then◌else◌, leb,
}
use ai_powered_github_pr_rev.Prelude.Int.{ℤ, pos, negsuc}
use ai_powered_github_pr_rev.Prelude.Equality.{◌==◌, text_equality}

pub record Entry : Type 0 where
  pub value : String
  pub expires_at_ms : ℕ

-- Its map.
abbrev pub Entries : Type 0
Entries = String → Option Entry

abbrev pub put : String → Option Entry → Entries → Entries
put key entry entries k = if k == key then entry else entries k

abbrev pub expiring : ℕ → String → ℕ → Entry
expiring now value ttl = record { value = value; expires_at_ms = now + ttl * 1000 }

abbrev pub read : ℕ → String → Entries → Option Entry → Entries × Option String
read now key entries none = (entries, none)
read now key entries (some entry) =
    if leb entry.expires_at_ms now
    then (put key none entries, none)
    else (entries, some entry.value)

unfoldable pub get : ℕ → String → Entries → Entries × Option String
get now key entries = read now key entries (entries key)

unfoldable pub set : ℕ → String → String → ℤ → Entries → Entries
set now key value (negsuc n) entries = put key none entries
set now key value (pos zero) entries = put key none entries
set now key value (pos (suc n)) entries = put key (some (expiring now value (suc n))) entries

unfoldable pub delete : String → Entries → Entries
delete key entries = put key none entries
