-- ===== src/Graph/Paths/Laws.antt =====
-- Where relative paths lead (import-resolver.ts).
use ai_powered_github_pr_rev.Prelude.{
  ℕ, zero, suc, ◌||◌, ◌++◌, ◌≡◌, refl, ◌↔◌, String, Bool, true, false, Option, none, some, List, [],
  ◌∷◌, if◌then◌else◌, length, arith, All, Bool-cases, inl, inr,
}
use mathlib.Core.List.{reverse, reverse-cons}
use ai_powered_github_pr_rev.Prelude.Equality.{◌==◌, text_equality}
use ai_powered_github_pr_rev.Prelude.ListLaws.{find_holds, All-append}
use ai_powered_github_pr_rev.Prelude.Texts.{join}
use ai_powered_github_pr_rev.Graph.RepoContext.{Node, has}
use ai_powered_github_pr_rev.Graph.Paths.{
  ladder_candidates, resolve_via_extension_ladder, resolve_segments, segments_of, joined,
  resolve_repo_relative_path,
}

-- Segments that go up more often than they have come down, begun `depth` directories below the root.
abbrev pub escapes : ℕ → List String → Bool
escapes depth [] = false
escapes zero (segment ∷ segments) =
    if segment == ""
    then escapes zero segments
    else if segment == "."
    then escapes zero segments
    else if segment == ".."
    then true
    else escapes 1 segments
escapes (suc depth) (segment ∷ segments) =
    if segment == ""
    then escapes (suc depth) segments
    else if segment == "."
    then escapes (suc depth) segments
    else if segment == ".."
    then escapes depth segments
    else escapes (suc (suc depth)) segments

-- A segment that names a file or a directory.
abbrev pub IsName : String → Type 0
IsName segment =
    ((segment == "") ≡ false) × ((segment == ".") ≡ false) × ((segment == "..") ≡ false)

resolve_segments-escapes :
    (segments stack : List String)
    → (resolve_segments segments stack ≡ none) ↔ (escapes (length stack) segments ≡ true)
unfolding resolve_segments
resolve_segments-escapes [] stack = ground arith
resolve_segments-escapes (segment ∷ segments) [] =
    ground (
      arith,
      resolve_segments-escapes segments [],
      resolve_segments-escapes segments (segment ∷ []),
    )
resolve_segments-escapes (segment ∷ segments) (top ∷ stack) = ground (
  arith,
  resolve_segments-escapes segments (top ∷ stack),
  resolve_segments-escapes segments stack,
  resolve_segments-escapes segments (segment ∷ top ∷ stack),
)

-- Walking the segments from a directory, both named from the root down: where they lead.
pub data Leads : List String → List String → List String → Type 0 where
  stop : {dir : List String} → Leads dir [] dir
  stay :
      {dir segments end : List String} {segment : String}
      → (segment == "" || segment == ".") ≡ true
      → Leads dir segments end
      → Leads dir (segment ∷ segments) end
  up :
      {dir segments end : List String} {segment : String} (name : String)
      → (segment == "..") ≡ true
      → Leads dir segments end
      → Leads (dir ++ name ∷ []) (segment ∷ segments) end
  down :
      {dir segments end : List String} {segment : String}
      → IsName segment
      → Leads (dir ++ segment ∷ []) segments end
      → Leads dir (segment ∷ segments) end

-- Where the stack leads, unless the path is refused.
LeadsTo : List String → List String → Option (List String) → Type 0
LeadsTo dir segments none = Unit
LeadsTo dir segments (some stack) = Leads dir segments (reverse stack)

stay-LeadsTo :
    (dir segments : List String) (segment : String) (o : Option (List String))
    → (segment == "" || segment == ".") ≡ true
    → LeadsTo dir segments o
    → LeadsTo dir (segment ∷ segments) o
unfolding LeadsTo
stay-LeadsTo dir segments segment none h leads = tt
stay-LeadsTo dir segments segment (some stack) h leads = stay h leads

up-LeadsTo :
    (stack segments : List String) (segment top : String) (o : Option (List String))
    → (segment == "..") ≡ true
    → LeadsTo (reverse stack) segments o
    → LeadsTo (reverse (top ∷ stack)) (segment ∷ segments) o
unfolding LeadsTo
up-LeadsTo stack segments segment top none h leads = tt
up-LeadsTo stack segments segment top (some end) h leads =
    rw (reverse-cons top stack) (up top h leads)

down-LeadsTo :
    (stack segments : List String) (segment : String) (o : Option (List String))
    → IsName segment
    → LeadsTo (reverse (segment ∷ stack)) segments o
    → LeadsTo (reverse stack) (segment ∷ segments) o
unfolding LeadsTo
down-LeadsTo stack segments segment none h leads = tt
down-LeadsTo stack segments segment (some end) h leads =
    down h (rw (← reverse-cons segment stack) leads)

resolve_segments-LeadsTo :
    (segments stack : List String)
    → LeadsTo (reverse stack) segments (resolve_segments segments stack)
unfolding resolve_segments LeadsTo
resolve_segments-LeadsTo [] stack = stop
resolve_segments-LeadsTo (segment ∷ segments) [] = elim (Bool-cases (segment == "")) [
  | inl e ↦
      rw e (stay-LeadsTo [] segments segment _ (rw e refl) (resolve_segments-LeadsTo segments []))
  | inr e ↦ elim (Bool-cases (segment == ".")) [
    | inl f ↦
        rw (e, f)
          (stay-LeadsTo [] segments segment _ (rw (e, f) refl)
            (resolve_segments-LeadsTo segments []))
    | inr f ↦ elim (Bool-cases (segment == "..")) [
      | inl g ↦ rw (e, f, g) tt
      | inr g ↦
          rw (e, f, g)
            (down-LeadsTo [] segments segment _ (e, f, g)
              (resolve_segments-LeadsTo segments (segment ∷ [])))
    ]
  ]
]
resolve_segments-LeadsTo (segment ∷ segments) (top ∷ stack) = elim (Bool-cases (segment == "")) [
  | inl e ↦ rw e (
      stay-LeadsTo _ segments segment _ (rw e refl)
        (resolve_segments-LeadsTo segments (top ∷ stack)))
  | inr e ↦ elim (Bool-cases (segment == ".")) [
    | inl f ↦
        rw (e, f)
          (stay-LeadsTo _ segments segment _ (rw (e, f) refl)
            (resolve_segments-LeadsTo segments (top ∷ stack)))
    | inr f ↦ elim (Bool-cases (segment == "..")) [
      | inl g ↦
          rw (e, f, g)
            (up-LeadsTo stack segments segment top _ g (resolve_segments-LeadsTo segments stack))
      | inr g ↦
          rw (e, f, g)
            (down-LeadsTo (top ∷ stack) segments segment _ (e, f, g)
              (resolve_segments-LeadsTo segments (segment ∷ top ∷ stack)))
    ]
  ]
]

AllNames : Option (List String) → Type 0
AllNames none = Unit
AllNames (some stack) = All IsName stack

resolve_segments-AllNames :
    (segments stack : List String) → All IsName stack → AllNames (resolve_segments segments stack)
unfolding resolve_segments AllNames
resolve_segments-AllNames [] stack names = names
resolve_segments-AllNames (segment ∷ segments) [] names = ground (
  arith,
  resolve_segments-AllNames segments [] tt,
  λ (n : IsName segment). resolve_segments-AllNames segments (segment ∷ []) (n, tt),
)
resolve_segments-AllNames (segment ∷ segments) (top ∷ stack) (t, names) = ground (
  arith,
  resolve_segments-AllNames segments (top ∷ stack) (t, names),
  resolve_segments-AllNames segments stack names,
  λ (n : IsName segment).
      resolve_segments-AllNames segments (segment ∷ top ∷ stack) (n, (t, names)),
)

All-reverse : (names : List String) → All IsName names → All IsName (reverse names)
All-reverse [] a = tt
All-reverse (name ∷ names) (n, a) =
    rw (reverse-cons name names)
      (All-append IsName (reverse names) (name ∷ []) (All-reverse names a) (n, tt))

-- A path inside the repository, or none when its segments escape.
pub IsInside : List String → Option String → Type 0
IsInside segments none = escapes 0 segments ≡ true
IsInside segments (some path) =
    (escapes 0 segments ≡ false)
    × ((names : List String) × (path ≡ join names) × Leads [] segments names × All IsName names)

joined-IsInside :
    (segments : List String) (o : Option (List String))
    → ((o ≡ none) ↔ (escapes 0 segments ≡ true))
    → LeadsTo [] segments o
    → AllNames o
    → IsInside segments (joined o)
unfolding IsInside LeadsTo AllNames
joined-IsInside segments none h leads names = h.0 refl
joined-IsInside segments (some stack) h leads names = elim (Bool-cases (escapes 0 segments)) [
  | inl e ↦ let never : some stack ≡ none = h.1 e in cc
  | inr e ↦ (e, (reverse stack, refl, leads, All-reverse stack names))
]

-- A specifier is refused relative to a directory just when its segments go up from the root of
-- the repository at some point; else the result is the join of the names of the directories and
-- the file, from the root down, to which the segments lead: an empty one and "." stay, ".." goes
-- up, another one goes down; no name is empty, "." or "..".
pub resolve_repo_relative_path-IsInside :
    (from_dir specifier : String)
    → IsInside (segments_of from_dir specifier) (resolve_repo_relative_path from_dir specifier)
unfolding resolve_repo_relative_path
resolve_repo_relative_path-IsInside from_dir specifier =
    joined-IsInside (segments_of from_dir specifier) _
      (resolve_segments-escapes (segments_of from_dir specifier) [])
      (resolve_segments-LeadsTo (segments_of from_dir specifier) [])
      (resolve_segments-AllNames (segments_of from_dir specifier) [] tt)

-- The ladder finds a file.
pub ladder-has :
    (node : Node) (base_path : String) (files : List String) (path : String)
    → resolve_via_extension_ladder node base_path files ≡ some path
    → has files path ≡ true
unfolding resolve_via_extension_ladder
ladder-has node base_path files path =
    find_holds (has files) (ladder_candidates node base_path) path
