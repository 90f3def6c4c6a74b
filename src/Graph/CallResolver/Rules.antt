-- ===== src/Graph/CallResolver/Rules.antt =====
-- The rules for a call in its own file and through an import, and the narrowing of candidates:
-- `resolveSameFile`, `resolveNamedImport`, `isReceiverClassInScope`, `narrowAmbiguousCandidates`.
pub mod Declared
use Prim.Native.String
use Prim.Native.String.{[] as empty, ◌∷◌ as push}
use Prim.Native.Char.{code}
use ai_powered_github_pr_rev.Prelude.{
  ℕ, zero, suc, ◌+◌, ◌*◌, String, Bool, true, false, not, ◌&&◌, ◌||◌, Option, none, some, List, [],
  ◌∷◌, ◌++◌, map, if◌then◌else◌, filter, find, any, is_empty, length, ltb, nat_beq,
}
use ai_powered_github_pr_rev.Prelude.Equality.{◌==◌, text_equality}
use ai_powered_github_pr_rev.Graph.CallResolver.{
  CallResolverSymbol, ParsedImport, ParsedCall, ParsedSymbol, ImportResolution, resolved, external,
  unresolved, CallResolverFileInput, is_callable, is_method, is_bare_callable, IndexedSymbol,
  CallResolutionRule, same_file, named_import, unique_repo_match, ambiguous_tiebreak, Confidence,
  ResolvedCallEdge, CallResolutionResult,
}
use ai_powered_github_pr_rev.Graph.CallResolver.Index.{
  NameIndex, or_text, bucket_key, build_name_index, candidates_for_name,
}

-- `===` against a value that may be `undefined`, which no text equals.
abbrev pub is_text : Option String → String → Bool
is_text none text = false
is_text (some value) text = value == text

abbrev pub or_else : {A : Type 0} → Option A → Option A → Option A
or_else none b = b
or_else (some a) b = some a

abbrev pub bare_match : String → CallResolverSymbol → Bool
bare_match call_name s = s.name == call_name && is_bare_callable s.kind

abbrev pub own_method_match : String → String → CallResolverSymbol → Bool
own_method_match call_name class_name s =
    s.name == call_name && is_method s.kind && is_text s.parent_symbol class_name

abbrev pub method_match : String → CallResolverSymbol → Bool
method_match call_name s = s.name == call_name && is_method s.kind

own_method : String → String → Option String → List CallResolverSymbol → Option CallResolverSymbol
own_method call_name receiver none symbols = none
own_method call_name receiver (some class_name) symbols =
    if receiver == "this" then find (own_method_match call_name class_name) symbols else none

unfoldable pub resolve_same_file :
    String → Option String → Option String → List CallResolverSymbol → Option CallResolverSymbol
unfolding own_method is_bare_callable is_method
resolve_same_file call_name none caller_class_name symbols = find (bare_match call_name) symbols
resolve_same_file call_name (some receiver) caller_class_name symbols =
    or_else (own_method call_name receiver caller_class_name symbols)
      (find (method_match call_name) symbols)

abbrev pub callable_match : String → CallResolverSymbol → Bool
callable_match call_name s = s.name == call_name && is_callable s.kind

-- `new Map(files.map((f) => [f.filePath, f]))` and `get`: of two files with one path the later one.
unfoldable pub file_at : List CallResolverFileInput → String → Option CallResolverFileInput
file_at [] path = none
file_at (file ∷ files) path =
    or_else (file_at files path) (if file.file_path == path then some file else none)

symbol_of_file : String → Option CallResolverFileInput → Option CallResolverSymbol
symbol_of_file call_name none = none
symbol_of_file call_name (some target) = find (callable_match call_name) target.symbols

symbol_of_resolution :
    String → List CallResolverFileInput → Option ImportResolution → Option CallResolverSymbol
unfolding symbol_of_file file_at
symbol_of_resolution call_name files (some (resolved path)) =
    symbol_of_file call_name (file_at files path)
symbol_of_resolution call_name files none = none
symbol_of_resolution call_name files (some (external name version)) = none
symbol_of_resolution call_name files (some (unresolved specifier)) = none

symbol_of_import :
    String
    → CallResolverFileInput
    → List CallResolverFileInput
    → Option ParsedImport
    → Option CallResolverSymbol
unfolding symbol_of_resolution
symbol_of_import call_name file files none = none
symbol_of_import call_name file files (some imp) =
    symbol_of_resolution call_name files (file.import_resolutions imp.specifier)

abbrev includes : List String → String → Bool
includes names name = any (λ n. n == name) names

unfoldable pub resolve_named_import :
    String
    → Option String
    → CallResolverFileInput
    → List CallResolverFileInput
    → Option CallResolverSymbol
unfolding symbol_of_import is_callable
resolve_named_import call_name none file files =
    symbol_of_import call_name file files
      (find (λ i. not i.is_type_only && includes i.named call_name) file.imports)
resolve_named_import call_name (some receiver) file files =
    symbol_of_import call_name file files
      (find (λ i. not i.is_type_only && is_text i.namespace receiver) file.imports)

-- A class name that is missing or empty is falsy.
imports_class : Option String → CallResolverFileInput → Bool
imports_class none file = false
imports_class (some class_name) file =
    not (class_name == "")
    && any
        (λ i. not i.is_type_only && (is_text i.default class_name || includes i.named class_name))
        file.imports

unfoldable pub is_receiver_class_in_scope : String → IndexedSymbol → CallResolverFileInput → Bool
unfolding imports_class
is_receiver_class_in_scope receiver candidate file =
    receiver == "this" || imports_class candidate.symbol.parent_symbol file

-- The text before the first slash, or all of it.
unfoldable pub top_level_segment : String → String
top_level_segment empty = ""
top_level_segment (push c rest) =
    let segment = top_level_segment rest in if nat_beq (code c) 47 then "" else push c segment

same_top_level : List IndexedSymbol → CallResolverFileInput → List IndexedSymbol
unfolding top_level_segment
same_top_level candidates file =
    let same =
      filter (λ c. top_level_segment c.file_path == top_level_segment file.file_path) candidates in
    if is_empty same then candidates else same

pub same_package : List IndexedSymbol → CallResolverFileInput → Option String → List IndexedSymbol
unfolding same_top_level
same_package candidates file none = same_top_level candidates file
same_package candidates file (some caller_package) =
    let same = filter (λ c. is_text c.package_name caller_package) candidates in
    if is_empty same then same_top_level candidates file else same

unfoldable pub narrow_ambiguous_candidates :
    List IndexedSymbol → CallResolverFileInput → List IndexedSymbol
unfolding same_package
narrow_ambiguous_candidates candidates file = same_package candidates file file.package_name
