-- ===== src/Graph/CallResolver/Index.antt =====
-- `buildNameIndex` and `candidatesForName`: a map from a bucket to a map from a name to symbols. A
-- `Map` is the list of its entries.
pub mod Laws
use ai_powered_github_pr_rev.Prelude.{
  String, Bool, Option, none, some, List, [], ◌∷◌, ◌++◌, if◌then◌else◌, not,
}
use ai_powered_github_pr_rev.Prelude.Equality.{◌==◌, text_equality}
use ai_powered_github_pr_rev.Graph.CallResolver.{
  CallResolverSymbol, CallResolverFileInput, IndexedSymbol, is_callable,
}

module _ {V : Type 0} where
  abbrev pub get : String → List (String × V) → Option V
  get key [] = none
  get key ((k, v) ∷ entries) = if k == key then some v else get key entries

  -- `get`, and `set` of what `f` makes of the value, or of `start` where there is none.
  abbrev pub put : String → V → (V → V) → List (String × V) → List (String × V)
  put key start f [] = (key, f start) ∷ []
  put key start f ((k, v) ∷ entries) =
      let rest = put key start f entries in if k == key then (k, f v) ∷ entries else (k, v) ∷ rest

abbrev pub ByName : Type 0
ByName = List (String × List IndexedSymbol)

abbrev pub NameIndex : Type 0
NameIndex = List (String × ByName)

-- `?? ""` and `?? []`
abbrev pub or_text : Option String → String
or_text none = ""
or_text (some text) = text

abbrev pub or_none : {V : Type 0} → Option (List V) → List V
or_none none = []
or_none (some vs) = vs

abbrev pub bucket_key : Bool → CallResolverFileInput → String
bucket_key per_package file = if per_package then or_text file.package_name else ""

abbrev pub index_symbol : CallResolverFileInput → CallResolverSymbol → IndexedSymbol
index_symbol file symbol = record {
  symbol = symbol;
  file_path = file.file_path;
  package_name = file.package_name;
}

unfoldable pub add_symbols : CallResolverFileInput → List CallResolverSymbol → ByName → ByName
unfolding is_callable
add_symbols file [] by_name = by_name
add_symbols file (symbol ∷ symbols) by_name = add_symbols file symbols (
    if not (is_callable symbol.kind)
    then by_name
    else put symbol.name [] (λ found. found ++ index_symbol file symbol ∷ []) by_name)

unfoldable pub add_files : Bool → List CallResolverFileInput → NameIndex → NameIndex
unfolding add_symbols
add_files per_package [] index = index
add_files per_package (file ∷ files) index =
    add_files per_package files
      (put (bucket_key per_package file) [] (add_symbols file file.symbols) index)

unfoldable pub build_name_index : List CallResolverFileInput → Bool → NameIndex
unfolding add_files
build_name_index files per_package = add_files per_package files []

unfoldable pub candidates_for_name : NameIndex → String → String → List IndexedSymbol
candidates_for_name index bucket name = or_none (get name (or_none (get bucket index)))
