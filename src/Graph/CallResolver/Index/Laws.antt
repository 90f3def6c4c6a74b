-- ===== src/Graph/CallResolver/Index/Laws.antt =====
-- The name index (call-resolver.ts) and a search of all files.
use ai_powered_github_pr_rev.Prelude.{
  String, ◌≡◌, refl, Bool, List, [], ◌∷◌, ◌++◌, if◌then◌else◌, not, arith, Bool-cases, inl, inr,
  eq_iff, sym,
}
use mathlib.Core.List.{append-nil, append_assoc}
use ai_powered_github_pr_rev.Prelude.Equality.{beq_sym, ◌==◌, text_equality}
use ai_powered_github_pr_rev.Graph.CallResolver.{
  CallResolverSymbol, CallResolverFileInput, IndexedSymbol, is_callable,
}
use ai_powered_github_pr_rev.Graph.CallResolver.Index.{
  get, put, ByName, NameIndex, or_none, bucket_key, index_symbol, add_symbols, add_files,
  build_name_index, candidates_for_name,
}

-- The callable symbols of one name in a file, and in the files of a bucket, in order.
abbrev pub named_in : String → CallResolverFileInput → List CallResolverSymbol → List IndexedSymbol
named_in name file [] = []
named_in name file (symbol ∷ symbols) =
    let rest = named_in name file symbols in
    if not (is_callable symbol.kind)
    then rest
    else if symbol.name == name
    then index_symbol file symbol ∷ rest
    else rest

abbrev pub search : Bool → String → String → List CallResolverFileInput → List IndexedSymbol
search per_package bucket name [] = []
search per_package bucket name (file ∷ files) =
    let rest = search per_package bucket name files in
    if bucket_key per_package file == bucket then named_in name file file.symbols ++ rest else rest

module _ {V : Type 0} where
  -- The values under the other keys stay, and the one under the key is `f` of the old one.
  abbrev changed_at : Bool → List V → (List V → List V) → List V
  changed_at same old f = if same then f old else old

  get-put :
      (key k : String) (f : List V → List V) (m : List (String × List V))
      → or_none (get k (put key [] f m)) ≡ changed_at (key == k) (or_none (get k m)) f
  get-put key k f [] = ground arith
  get-put key k f ((k', v) ∷ m) = elim (Bool-cases (k' == key)) [
    | inl e ↦ rw ((eq_iff k' key).0 e) (ground (arith, eq_iff key key))
    | inr e ↦ elim (Bool-cases (k' == k)) [
      | inl g ↦ rw (e, g) (rw (← (eq_iff k' k).0 g) (rw (beq_sym key k', e)))
      | inr g ↦ rw (e, g) (get-put key k f m)
    ]
  ]

abbrev found_in : ByName → String → List IndexedSymbol
found_in by_name name = or_none (get name by_name)

abbrev add : CallResolverFileInput → CallResolverSymbol → List IndexedSymbol → List IndexedSymbol
add file symbol found = found ++ index_symbol file symbol ∷ []

found_in-add_symbols :
    (file : CallResolverFileInput) (symbols : List CallResolverSymbol) (by_name : ByName)
    (name : String)
    → found_in (add_symbols file symbols by_name) name
      ≡ found_in by_name name ++ named_in name file symbols
unfolding add_symbols
found_in-add_symbols file [] by_name name = sym (append-nil (found_in by_name name))
found_in-add_symbols file (symbol ∷ symbols) by_name name =
    elim (Bool-cases (is_callable symbol.kind)) [
      | inr e ↦ rw e (found_in-add_symbols file symbols by_name name)
      | inl e ↦
          rw
            (
              e,
              found_in-add_symbols file symbols (put symbol.name [] (add file symbol) by_name) name,
              get-put symbol.name name (add file symbol) by_name,
            )
            (elim (Bool-cases (symbol.name == name)) [
              | inr f ↦ rw f refl
              | inl f ↦
                  rw
                    (
                      f,
                      append_assoc (found_in by_name name) (index_symbol file symbol ∷ [])
                          (named_in name file symbols),
                    )
                    refl
            ])
    ]

candidates-add_files :
    (per_package : Bool) (files : List CallResolverFileInput) (index : NameIndex)
    (bucket name : String)
    → candidates_for_name (add_files per_package files index) bucket name
      ≡ candidates_for_name index bucket name ++ search per_package bucket name files
unfolding add_files candidates_for_name
candidates-add_files per_package [] index bucket name =
    sym (append-nil (candidates_for_name index bucket name))
candidates-add_files per_package (file ∷ files) index bucket name =
    rw
      (
        candidates-add_files per_package files
            (put (bucket_key per_package file) [] (add_symbols file file.symbols) index) bucket
            name,
        candidates_for_name,
        get-put (bucket_key per_package file) bucket (add_symbols file file.symbols) index,
      )
      (elim (Bool-cases (bucket_key per_package file == bucket)) [
        | inr e ↦ rw e refl
        | inl e ↦
            rw
              (
                e,
                found_in-add_symbols file file.symbols (or_none (get bucket index)) name,
                append_assoc (found_in (or_none (get bucket index)) name)
                    (named_in name file file.symbols) (search per_package bucket name files),
              )
              refl
      ])

-- The candidates that the name index gives for a name in a bucket are those that a search of all
-- files finds: the callable symbols of that name in the files of the bucket, in the files' order
-- and each file's order.
pub candidates-build_name_index :
    (files : List CallResolverFileInput) (per_package : Bool) (bucket name : String)
    → candidates_for_name (build_name_index files per_package) bucket name
      ≡ search per_package bucket name files
unfolding build_name_index candidates_for_name
candidates-build_name_index files per_package bucket name =
    candidates-add_files per_package files [] bucket name
