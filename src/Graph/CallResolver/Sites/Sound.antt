-- ===== src/Graph/CallResolver/Sites/Sound.antt =====
-- The candidates of the name index (call-resolver.ts), and the files that declare them.
use ai_powered_github_pr_rev.Prelude.{
  String, ◌≡◌, Bool, true, ◌&&◌, Option, none, some, List, [], ◌∷◌, any, All, arith, Bool-cases,
  inl, inr, eq_iff,
}
use ai_powered_github_pr_rev.Prelude.ListLaws.{All-filter, All-append}
use ai_powered_github_pr_rev.Prelude.Equality.{◌==◌, text_equality}
use ai_powered_github_pr_rev.Graph.CallResolver.{
  CallResolverSymbol, CallResolverFileInput, is_callable, IndexedSymbol,
}
use ai_powered_github_pr_rev.Graph.CallResolver.Index.{
  bucket_key, build_name_index, candidates_for_name,
}
use ai_powered_github_pr_rev.Graph.CallResolver.Index.Laws.{
  search, named_in, candidates-build_name_index,
}
use ai_powered_github_pr_rev.Graph.CallResolver.Rules.{callable_match}
use ai_powered_github_pr_rev.Graph.CallResolver.Rules.Declared.{is_declared}
use ai_powered_github_pr_rev.Graph.CallResolver.Sites.{CallSiteContext, fitting}

-- The candidates are declared symbols of the name.
abbrev pub IsCandidate : List CallResolverFileInput → String → IndexedSymbol → Type 0
IsCandidate files name c = is_declared files name c.symbol.id ≡ true

named_in-IsCandidate :
    (files : List CallResolverFileInput) (name : String) (file : CallResolverFileInput)
    (symbols : List CallResolverSymbol)
    → ((id : String)
        → any (λ s. s.id == id && callable_match name s) symbols ≡ true
        → is_declared files name id ≡ true)
    → All (IsCandidate files name) (named_in name file symbols)
named_in-IsCandidate files name file [] h = tt
named_in-IsCandidate files name file (s ∷ symbols) h =
    let rest = named_in-IsCandidate files name file symbols (λ id k. h id (ground (arith, k))) in
    elim (Bool-cases (is_callable s.kind)) [
      | inr e ↦ rw e rest
      | inl e ↦ elim (Bool-cases (s.name == name)) [
        | inr f ↦ rw (e, f) rest
        | inl f ↦ rw (e, f) (h s.id (ground (arith, e, f, eq_iff s.id s.id)), rest)
      ]
    ]

search-IsCandidate :
    (all_files : List CallResolverFileInput) (per_package : Bool) (bucket name : String)
    (files : List CallResolverFileInput)
    → ((id : String) → is_declared files name id ≡ true → is_declared all_files name id ≡ true)
    → All (IsCandidate all_files name) (search per_package bucket name files)
search-IsCandidate all_files per_package bucket name [] h = tt
search-IsCandidate all_files per_package bucket name (file ∷ files) h =
    let rest =
      search-IsCandidate all_files per_package bucket name files
        (λ id k. h id (ground (arith, k))) in
    elim (Bool-cases (bucket_key per_package file == bucket)) [
      | inr e ↦ rw e rest
      | inl e ↦ rw e (
          All-append (IsCandidate all_files name) (named_in name file file.symbols) _
            (named_in-IsCandidate all_files name file file.symbols
              (λ id k. h id (ground (arith, k))))
            rest)
    ]

pub candidates-IsCandidate :
    (files : List CallResolverFileInput) (per_package : Bool) (bucket name : String)
    → All
        (IsCandidate files name)
        (candidates_for_name (build_name_index files per_package) bucket name)
candidates-IsCandidate files per_package bucket name =
    rw (candidates-build_name_index files per_package bucket name)
      (search-IsCandidate files per_package bucket name files (λ id k. k))

module _ (P : IndexedSymbol → Type 0) where
  pub fitting-All :
      (ctx : CallSiteContext) (receiver : Option String) (cs : List IndexedSymbol)
      → All P cs
      → All P (fitting ctx receiver cs)
  unfolding fitting
  fitting-All ctx none cs a = All-filter P _ cs a
  fitting-All ctx (some receiver) cs a = All-filter P _ _ (All-filter P _ cs a)
