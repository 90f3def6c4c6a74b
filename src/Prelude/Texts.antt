-- ===== src/Prelude/Texts.antt =====
-- The methods of JavaScript's strings that the import resolver calls, by code points.
use Prim.Native.Char.{Char, code}
use Prim.Native.Nat.{ℕ, zero, suc}
use Prim.Native.String.{String, [] as empty, ◌∷◌ as push}
use mathlib.Core.Bool.{Bool, true, false}
use mathlib.Core.Option.{Option, none, some}
use mathlib.Core.List.{List, [], ◌∷◌}
use ai_powered_github_pr_rev.Prelude.Tests.{nat_beq, if◌then◌else◌}
use ai_powered_github_pr_rev.Prelude.Equality.{◌==◌, text_equality}
use Prim.Native.String.{◌++◌}

-- `length`.
abbrev pub text_length : String → ℕ
text_length empty = 0
text_length (push c s) = suc (text_length s)

-- `slice(0, n)`.
abbrev pub first_chars : ℕ → String → String
first_chars zero s = empty
first_chars (suc n) empty = empty
first_chars (suc n) (push c s) = push c (first_chars n s)

-- What follows a prefix, and what precedes a suffix.
abbrev pub strip_prefix : String → String → Option String
strip_prefix empty s = some s
strip_prefix (push p ps) empty = none
strip_prefix (push p ps) (push c s) =
    let rest = strip_prefix ps s in if nat_beq (code p) (code c) then rest else none

abbrev pub push_some : Char → Option String → Option String
push_some c none = none
push_some c (some s) = some (push c s)

abbrev pub strip_suffix : String → String → Option String
strip_suffix suffix empty = if suffix == "" then some empty else none
strip_suffix suffix (push c s) =
    let rest = push_some c (strip_suffix suffix s) in
    if suffix == push c s then some empty else rest

abbrev pub is_some {ℓ} : {A : Type ℓ} → Option A → Bool
is_some none = false
is_some (some a) = true

-- `startsWith`.
abbrev pub starts_with : String → String → Bool
starts_with s prefix = is_some (strip_prefix prefix s)

-- A text before and after a character in it: the two `slice`s at an `indexOf` or a `lastIndexOf`.
pub record Halves : Type 0 where
  pub before : String
  pub after : String

abbrev pub push_before : Char → Option Halves → Option Halves
push_before c none = none
push_before c (some h) = some (record h { before = push c h.before })

abbrev pub cut_at : ℕ → String → Option Halves
cut_at mark empty = none
cut_at mark (push c s) =
    let rest = push_before c (cut_at mark s) in
    if nat_beq (code c) mark then some (record { before = empty; after = s }) else rest

abbrev pub cut_here : ℕ → Char → String → Option Halves → Option Halves
cut_here mark c s (some h) = some (record h { before = push c h.before })
cut_here mark c s none =
    if nat_beq (code c) mark then some (record { before = empty; after = s }) else none

abbrev pub cut_at_last : ℕ → String → Option Halves
cut_at_last mark empty = none
cut_at_last mark (push c s) = cut_here mark c s (cut_at_last mark s)

-- `split` at a character, and `join` with "/".
abbrev pub onto_first : Char → List String → List String
onto_first c [] = push c empty ∷ []
onto_first c (s ∷ ss) = push c s ∷ ss

abbrev pub split_at : ℕ → String → List String
split_at mark empty = empty ∷ []
split_at mark (push c s) =
    let rest = split_at mark s in if nat_beq (code c) mark then empty ∷ rest else onto_first c rest

abbrev pub join_after : String → List String → String
join_after s [] = s
join_after s (t ∷ ts) = s ++ "/" ++ join_after t ts

abbrev pub join : List String → String
join [] = ""
join (s ∷ ss) = join_after s ss

-- A text that is falsy is empty.
abbrev pub truthy : Option String → Option String
truthy none = none
truthy (some s) = if s == "" then none else some s
