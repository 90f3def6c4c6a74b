-- ===== src/Graph/CallResolver/Sites.antt =====
-- `resolveCallSite` and `resolveCalls`.
mod Sound
pub mod Edges
use Prim.Native.String
use Prim.Native.String.{[] as empty, ◌∷◌ as push}
use Prim.Native.Char.{code}
use ai_powered_github_pr_rev.Prelude.{
  ℕ, zero, suc, ◌+◌, ◌*◌, String, Bool, true, false, not, ◌&&◌, ◌||◌, Option, none, some, List, [],
  ◌∷◌, ◌++◌, map, if◌then◌else◌, filter, find, any, is_empty, length, ltb, nat_beq,
}
use ai_powered_github_pr_rev.Prelude.Equality.{◌==◌, text_equality}
use ai_powered_github_pr_rev.Graph.CallResolver.{
  CallResolverSymbol, ParsedImport, ParsedCall, ParsedSymbol, ImportResolution, resolved, external,
  unresolved, CallResolverFileInput, is_callable, is_method, is_bare_callable, IndexedSymbol,
  CallResolutionRule, same_file, named_import, unique_repo_match, ambiguous_tiebreak, Confidence,
  ResolvedCallEdge, CallResolutionResult,
}
use ai_powered_github_pr_rev.Graph.CallResolver.Index.{
  NameIndex, or_text, bucket_key, build_name_index, candidates_for_name,
}
use ai_powered_github_pr_rev.Graph.CallResolver.Rules.{
  resolve_same_file, resolve_named_import, is_receiver_class_in_scope, narrow_ambiguous_candidates,
}

abbrev pub call_confidence_same_file : Confidence
call_confidence_same_file = record { numerator = 95; denominator = 100 }

abbrev pub call_confidence_named_import : Confidence
call_confidence_named_import = record { numerator = 9; denominator = 10 }

abbrev pub call_confidence_unique_repo_match : Confidence
call_confidence_unique_repo_match = record { numerator = 7; denominator = 10 }

abbrev pub call_ambiguity_max_candidates : ℕ
call_ambiguity_max_candidates = 3

-- `CALL_CONFIDENCE_AMBIGUOUS_BASE / n`, with 0.4 as the base.
abbrev pub ambiguous_confidence : ℕ → Confidence
ambiguous_confidence n = record { numerator = 4; denominator = 10 * n }

pub record CallSiteContext : Type 0 where
  pub file : CallResolverFileInput
  pub caller_symbol_id : String
  pub caller_class_name : Option String
  pub call_name : String
  pub receiver : Option String

-- `edge` and `edges` are one list: the source sets one of them at most.
pub record CallSiteResult : Type 0 where
  pub edges : List ResolvedCallEdge
  pub ambiguity_skipped : Bool

abbrev pub edge_to : CallSiteContext → String → CallResolutionRule → Confidence → ResolvedCallEdge
edge_to ctx to rule confidence = record {
  from_symbol_id = ctx.caller_symbol_id;
  to_symbol_id = to;
  rule = rule;
  confidence = confidence;
}

-- The candidates that are left: one, several or none.
choose : CallSiteContext → List IndexedSymbol → CallSiteResult
unfolding narrow_ambiguous_candidates
choose ctx [] = record { edges = []; ambiguity_skipped = false }
choose ctx (only ∷ []) = record {
  edges = edge_to ctx only.symbol.id unique_repo_match call_confidence_unique_repo_match ∷ [];
  ambiguity_skipped = false;
}
choose ctx (a ∷ b ∷ more) =
    let narrowed = narrow_ambiguous_candidates (a ∷ b ∷ more) ctx.file in
    if ltb call_ambiguity_max_candidates (length narrowed)
    then record { edges = []; ambiguity_skipped = true }
    else record {
      edges =
          map
            (λ c.
              edge_to ctx c.symbol.id ambiguous_tiebreak (ambiguous_confidence (length narrowed)))
            narrowed;
      ambiguity_skipped = false;
    }

-- The candidates of the index that fit the form of the call.
pub fitting : CallSiteContext → Option String → List IndexedSymbol → List IndexedSymbol
unfolding is_receiver_class_in_scope is_method is_bare_callable
fitting ctx none candidates = filter (λ c. is_bare_callable c.symbol.kind) candidates
fitting ctx (some receiver) candidates =
    filter (λ c. is_receiver_class_in_scope receiver c ctx.file)
      (filter (λ c. is_method c.symbol.kind) candidates)

by_name_match : CallSiteContext → NameIndex → Bool → CallSiteResult
unfolding choose fitting candidates_for_name
by_name_match ctx index per_package = choose ctx (
    fitting ctx ctx.receiver
      (candidates_for_name index (bucket_key per_package ctx.file) ctx.call_name))

by_import : CallSiteContext → Option CallResolverSymbol → NameIndex → Bool → CallSiteResult
unfolding by_name_match
by_import ctx (some target) index per_package = record {
  edges = edge_to ctx target.id named_import call_confidence_named_import ∷ [];
  ambiguity_skipped = false;
}
by_import ctx none index per_package = by_name_match ctx index per_package

by_same_file :
    CallSiteContext
    → Option CallResolverSymbol
    → List CallResolverFileInput
    → NameIndex
    → Bool
    → CallSiteResult
unfolding by_import resolve_named_import
by_same_file ctx (some own) files index per_package = record {
  edges = edge_to ctx own.id same_file call_confidence_same_file ∷ [];
  ambiguity_skipped = false;
}
by_same_file ctx none files index per_package =
    by_import ctx (resolve_named_import ctx.call_name ctx.receiver ctx.file files) index per_package

unfoldable pub resolve_call_site :
    CallSiteContext → List CallResolverFileInput → NameIndex → Bool → CallSiteResult
unfolding by_same_file resolve_same_file
resolve_call_site ctx files index per_package =
    by_same_file ctx
      (resolve_same_file ctx.call_name ctx.receiver ctx.caller_class_name ctx.file.symbols) files
      index per_package

module _ (files : List CallResolverFileInput) (index : NameIndex) (per_package : Bool) where
  abbrev pub add_result : CallSiteResult → CallResolutionResult → CallResolutionResult
  add_result site rest = record {
    edges = site.edges ++ rest.edges;
    skipped_for_ambiguity =
        if site.ambiguity_skipped
        then suc rest.skipped_for_ambiguity
        else rest.skipped_for_ambiguity;
  }

  -- The loops over the calls of a symbol, the symbols of a file and the files. A symbol without a row
  -- is passed over.
  resolve_symbol_calls :
      CallResolverFileInput
      → CallResolverSymbol
      → ParsedSymbol
      → List ParsedCall
      → CallResolutionResult
      → CallResolutionResult
  unfolding resolve_call_site is_method
  resolve_symbol_calls file caller parsed_symbol [] rest = rest
  resolve_symbol_calls file caller parsed_symbol (call ∷ calls) rest =
      add_result
        (resolve_call_site
          (record {
            file = file;
            caller_symbol_id = caller.id;
            caller_class_name =
                if is_method parsed_symbol.kind then parsed_symbol.parent_symbol else none;
            call_name = call.name;
            receiver = call.receiver;
          })
          files index per_package)
        (resolve_symbol_calls file caller parsed_symbol calls rest)

  resolve_file_symbols :
      CallResolverFileInput
      → List ParsedSymbol
      → List CallResolverSymbol
      → CallResolutionResult
      → CallResolutionResult
  unfolding resolve_symbol_calls
  resolve_file_symbols file [] symbols rest = rest
  resolve_file_symbols file (p ∷ ps) [] rest = rest
  resolve_file_symbols file (p ∷ ps) (s ∷ symbols) rest =
      resolve_symbol_calls file s p p.calls (resolve_file_symbols file ps symbols rest)

  resolve_files : List CallResolverFileInput → CallResolutionResult
  unfolding resolve_file_symbols
  resolve_files [] = record { edges = []; skipped_for_ambiguity = 0 }
  resolve_files (file ∷ rest) =
      resolve_file_symbols file file.parsed_symbols file.symbols (resolve_files rest)

unfoldable pub resolve_calls : List CallResolverFileInput → Bool → CallResolutionResult
unfolding resolve_files build_name_index
resolve_calls files per_package =
    resolve_files files (build_name_index files per_package) per_package files
