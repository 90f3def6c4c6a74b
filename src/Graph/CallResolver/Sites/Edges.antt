-- ===== src/Graph/CallResolver/Sites/Edges.antt =====
-- The edges of `resolveCallSite` and `resolveCalls` (call-resolver.ts).
use ai_powered_github_pr_rev.Prelude.{
  ◌≤◌, String, ◌≡◌, refl, Bool, true, false, Option, none, some, List, [], ◌∷◌, map, if◌then◌else◌,
  any, length, ltb, All, arith, Bool-cases, inl, inr, eq_iff,
}
use ai_powered_github_pr_rev.Prelude.ListLaws.{All-weaken, All-map, All-append, length-map}
use ai_powered_github_pr_rev.Prelude.Equality.{◌==◌, text_equality}
use ai_powered_github_pr_rev.Graph.CallResolver.{
  CallResolverSymbol, ParsedCall, ParsedSymbol, CallResolverFileInput, IndexedSymbol,
  ResolvedCallEdge, CallResolutionResult, is_method, ambiguous_tiebreak,
}
use ai_powered_github_pr_rev.Graph.CallResolver.Index.{NameIndex, bucket_key, build_name_index}
use ai_powered_github_pr_rev.Graph.CallResolver.Sites.{
  CallSiteContext, CallSiteResult, edge_to, choose, by_name_match, by_import, by_same_file,
  resolve_call_site, narrow_ambiguous_candidates, resolve_symbol_calls, resolve_file_symbols,
  resolve_files, resolve_calls, ambiguous_confidence, call_ambiguity_max_candidates,
}
use ai_powered_github_pr_rev.Graph.CallResolver.Rules.{
  resolve_same_file, resolve_named_import, narrow_ambiguous_candidates,
}
use ai_powered_github_pr_rev.Graph.CallResolver.Rules.Declared.{
  declares, is_declared, IsFileOf, same_file_declared, named_import_declared, narrow-All,
}
use ai_powered_github_pr_rev.Graph.CallResolver.Sites.Sound.{
  IsCandidate, candidates-IsCandidate, fitting-All,
}

-- From the caller, to a callable symbol of the called name that some file declares.
abbrev pub IsSiteEdge : List CallResolverFileInput → CallSiteContext → ResolvedCallEdge → Type 0
IsSiteEdge files ctx e =
    (e.from_symbol_id ≡ ctx.caller_symbol_id)
    × (is_declared files ctx.call_name e.to_symbol_id ≡ true)

abbrev pub IsSiteResult : List CallResolverFileInput → CallSiteContext → CallSiteResult → Type 0
IsSiteResult files ctx result = All (IsSiteEdge files ctx) result.edges × (length result.edges ≤ 3)

module _ (files : List CallResolverFileInput) (ctx : CallSiteContext) where
  tiebreak-IsSiteResult :
      (cs : List IndexedSymbol)
      → All (IsCandidate files ctx.call_name) cs
      → IsSiteResult files ctx (
          if ltb call_ambiguity_max_candidates (length cs)
          then record { edges = []; ambiguity_skipped = true }
          else record {
            edges =
                map
                  (λ c.
                    edge_to ctx c.symbol.id ambiguous_tiebreak (ambiguous_confidence (length cs)))
                  cs;
            ambiguity_skipped = false;
          })
  tiebreak-IsSiteResult cs a = elim (Bool-cases (ltb call_ambiguity_max_candidates (length cs))) [
    | inl e ↦ rw e (tt, omega arith)
    | inr e ↦ rw e (
      All-map (IsSiteEdge files ctx) _ cs
          (All-weaken (IsCandidate files ctx.call_name) _ cs (λ c d. (refl, d)) a),
      rw
          (length-map
            (λ c. edge_to ctx c.symbol.id ambiguous_tiebreak (ambiguous_confidence (length cs))) cs)
          (ground (arith, e)),
    )
  ]

  choose-IsSiteResult :
      (cs : List IndexedSymbol)
      → All (IsCandidate files ctx.call_name) cs
      → IsSiteResult files ctx (choose ctx cs)
  unfolding choose narrow_ambiguous_candidates
  choose-IsSiteResult [] a = (tt, omega arith)
  choose-IsSiteResult (only ∷ []) (d, a) = (((refl, d), tt), omega arith)
  choose-IsSiteResult (x ∷ y ∷ more) a =
      tiebreak-IsSiteResult _ (
        narrow-All (IsCandidate files ctx.call_name) ctx.file ctx.file.package_name (x ∷ y ∷ more)
          a)

  by_import-IsSiteResult :
      (per_package : Bool) (target : Option CallResolverSymbol)
      → resolve_named_import ctx.call_name ctx.receiver ctx.file files ≡ target
      → IsSiteResult files ctx
          (by_import ctx target (build_name_index files per_package) per_package)
  unfolding by_import by_name_match
  by_import-IsSiteResult per_package (some target) e = (
    ((refl, named_import_declared ctx.call_name ctx.receiver ctx.file files target e), tt),
    omega arith,
  )
  by_import-IsSiteResult per_package none e = choose-IsSiteResult _ (
      fitting-All (IsCandidate files ctx.call_name) ctx ctx.receiver _
        (candidates-IsCandidate files per_package (bucket_key per_package ctx.file) ctx.call_name))

  by_same_file-IsSiteResult :
      (per_package : Bool) (own : Option CallResolverSymbol)
      → IsFileOf files ctx.file
      → resolve_same_file ctx.call_name ctx.receiver ctx.caller_class_name ctx.file.symbols ≡ own
      → IsSiteResult files ctx
          (by_same_file ctx own files (build_name_index files per_package) per_package)
  unfolding by_same_file
  by_same_file-IsSiteResult per_package (some own) f e = (
    (
      (
        refl,
        f (declares ctx.call_name own.id)
            (same_file_declared ctx.call_name ctx.receiver ctx.caller_class_name ctx.file own e),
      ),
      tt,
    ),
    omega arith,
  )
  by_same_file-IsSiteResult per_package none f e = by_import-IsSiteResult per_package _ refl

  -- Each edge of a call in one of the files leads from the calling symbol to a callable symbol of
  -- the called name that one of the files declares, and a call has at most three edges.
  pub resolve_call_site-IsSiteResult :
      (per_package : Bool)
      → IsFileOf files ctx.file
      → IsSiteResult files ctx
          (resolve_call_site ctx files (build_name_index files per_package) per_package)
  unfolding resolve_call_site
  resolve_call_site-IsSiteResult per_package f = by_same_file-IsSiteResult per_package _ f refl

-- A symbol of one of the files has this id.
abbrev pub has_symbol : String → CallResolverFileInput → Bool
has_symbol id file = any (λ s. s.id == id) file.symbols

abbrev pub IsEdge : List CallResolverFileInput → ResolvedCallEdge → Type 0
IsEdge files e =
    (any (has_symbol e.from_symbol_id) files ≡ true)
    × ((name : String) × (is_declared files name e.to_symbol_id ≡ true))

module _ (files : List CallResolverFileInput) (per_package : Bool) where
  abbrev index : NameIndex
  index = build_name_index files per_package

  calls-IsEdge :
      (file : CallResolverFileInput) (caller : CallResolverSymbol) (p : ParsedSymbol)
      (calls : List ParsedCall) (rest : CallResolutionResult)
      → IsFileOf files file
      → any (has_symbol caller.id) files ≡ true
      → All (IsEdge files) rest.edges
      → All
          (IsEdge files)
          (resolve_symbol_calls files index per_package file caller p calls rest).edges
  unfolding resolve_symbol_calls
  calls-IsEdge file caller p [] rest f c a = a
  calls-IsEdge file caller p (call ∷ calls) rest f c a =
      let ctx : CallSiteContext = record {
        file = file;
        caller_symbol_id = caller.id;
        caller_class_name = if is_method p.kind then p.parent_symbol else none;
        call_name = call.name;
        receiver = call.receiver;
      } in
      All-append (IsEdge files) (resolve_call_site ctx files index per_package).edges _
        (All-weaken (IsSiteEdge files ctx) (IsEdge files) _
          (λ e (from, to). (rw from c, (call.name, to)))
          (resolve_call_site-IsSiteResult files ctx per_package f).0)
        (calls-IsEdge file caller p calls rest f c a)

  symbols-IsEdge :
      (file : CallResolverFileInput) (ps : List ParsedSymbol) (symbols : List CallResolverSymbol)
      (rest : CallResolutionResult)
      → IsFileOf files file
      → ((id : String) → any (λ s. s.id == id) symbols ≡ true → any (has_symbol id) files ≡ true)
      → All (IsEdge files) rest.edges
      → All (IsEdge files) (resolve_file_symbols files index per_package file ps symbols rest).edges
  unfolding resolve_file_symbols
  symbols-IsEdge file [] symbols rest f o a = a
  symbols-IsEdge file (p ∷ ps) [] rest f o a = a
  symbols-IsEdge file (p ∷ ps) (s ∷ symbols) rest f o a =
      calls-IsEdge file s p p.calls _ f (o s.id (ground (arith, eq_iff s.id s.id)))
        (symbols-IsEdge file ps symbols rest f (λ id k. o id (ground (arith, k))) a)

  files-IsEdge :
      (some_files : List CallResolverFileInput)
      → ((test : CallResolverFileInput → Bool) → any test some_files ≡ true → any test files ≡ true)
      → All (IsEdge files) (resolve_files files index per_package some_files).edges
  unfolding resolve_files
  files-IsEdge [] i = tt
  files-IsEdge (file ∷ some_files) i =
      symbols-IsEdge file file.parsed_symbols file.symbols _ (λ test t. i test (ground (arith, t)))
        (λ id k. i (has_symbol id) (ground (arith, k)))
        (files-IsEdge some_files (λ test t. i test (ground (arith, t))))

  -- Every edge that is found for a repository leads from a symbol of one of its files to a
  -- callable symbol that one of its files declares.
  pub resolve_calls-IsEdge : All (IsEdge files) (resolve_calls files per_package).edges
  unfolding resolve_calls
  resolve_calls-IsEdge = files-IsEdge files (λ test t. t)
