-- ===== src/Graph/CallResolver/Rules/Declared.antt =====
-- The symbols that the rules of call-resolver.ts find, and the files that declare them.
use ai_powered_github_pr_rev.Prelude.{
  String, ◌≡◌, refl, Bool, true, false, ◌&&◌, Option, none, some, List, [], ◌∷◌, if◌then◌else◌,
  find, any, All, arith, Bool-cases, Option-cases, inl, inr, eq_iff,
}
use ai_powered_github_pr_rev.Prelude.ListLaws.{All-filter}
use ai_powered_github_pr_rev.Prelude.Equality.{◌==◌, text_equality}
use ai_powered_github_pr_rev.Graph.CallResolver.{
  CallResolverSymbol, ParsedImport, ImportResolution, resolved, external, unresolved,
  CallResolverFileInput, is_callable, is_method, is_bare_callable, IndexedSymbol, SymbolKind,
}
use ai_powered_github_pr_rev.Graph.CallResolver.Rules.{
  own_method, resolve_same_file, callable_match, bare_match, method_match, own_method_match,
  file_at, symbol_of_file, symbol_of_resolution, symbol_of_import, resolve_named_import,
  same_package, same_top_level,
}

-- A callable symbol of the name and the id in a file, and in one of the files.
abbrev pub declares : String → String → CallResolverFileInput → Bool
declares name id file = any (λ s. s.id == id && callable_match name s) file.symbols

abbrev pub is_declared : List CallResolverFileInput → String → String → Bool
is_declared files name id = any (declares name id) files

-- The file is one of the files.
abbrev pub IsFileOf : List CallResolverFileInput → CallResolverFileInput → Type 0
IsFileOf files file =
    (test : CallResolverFileInput → Bool) → test file ≡ true → any test files ≡ true

-- What is found meets a weaker test.
found_declared :
    (p q : CallResolverSymbol → Bool) (symbols : List CallResolverSymbol) (s : CallResolverSymbol)
    → ((x : CallResolverSymbol) → p x ≡ true → q x ≡ true)
    → find p symbols ≡ some s
    → any (λ x. x.id == s.id && q x) symbols ≡ true
found_declared p q [] s weaker h = cc
found_declared p q (x ∷ symbols) s weaker h = elim (Bool-cases (p x)) [
  | inl e ↦ ground (arith, h, e, weaker x e, eq_iff x.id s.id)
  | inr e ↦ ground (arith, h, e, found_declared p q symbols s weaker)
]

callable_of_bare : (kind : SymbolKind) → is_bare_callable kind ≡ true → is_callable kind ≡ true
unfolding is_bare_callable is_callable
callable_of_bare kind h = ground arith

callable_of_method : (kind : SymbolKind) → is_method kind ≡ true → is_callable kind ≡ true
unfolding is_method is_callable
callable_of_method kind h = ground arith

own_declared :
    (name receiver : String) (class_name : Option String) (file : CallResolverFileInput)
    (s : CallResolverSymbol)
    → own_method name receiver class_name file.symbols ≡ some s
    → declares name s.id file ≡ true
unfolding own_method
own_declared name receiver none file s h = cc
own_declared name receiver (some class_name) file s h = elim (Bool-cases (receiver == "this")) [
  | inl e ↦
      found_declared (own_method_match name class_name) (callable_match name) file.symbols s
        (λ x m. ground (arith, m, callable_of_method x.kind)) (ground (arith, h, e))
  | inr e ↦ cc (rw e at h)
]

pub same_file_declared :
    (name : String) (receiver class_name : Option String) (file : CallResolverFileInput)
    (s : CallResolverSymbol)
    → resolve_same_file name receiver class_name file.symbols ≡ some s
    → declares name s.id file ≡ true
unfolding resolve_same_file
same_file_declared name none class_name file s h =
    found_declared (bare_match name) (callable_match name) file.symbols s
      (λ x m. ground (arith, m, callable_of_bare x.kind)) h
same_file_declared name (some receiver) class_name file s h =
    elim (Option-cases (own_method name receiver class_name file.symbols)) [
      | inl e ↦
          found_declared (method_match name) (callable_match name) file.symbols s
            (λ x m. ground (arith, m, callable_of_method x.kind)) (ground (arith, h, e))
      | inr (own, e) ↦ own_declared name receiver class_name file s (ground (arith, h, e))
    ]

file_at_declared :
    (files : List CallResolverFileInput) (path : String) (file : CallResolverFileInput)
    → file_at files path ≡ some file
    → IsFileOf files file
unfolding file_at
file_at_declared [] path file h test t = cc
file_at_declared (x ∷ files) path file h test t = elim (Option-cases (file_at files path)) [
  | inr (g, e) ↦ ground (arith, file_at_declared files path file (ground (arith, h, e)) test t)
  | inl e ↦ elim (Bool-cases (x.file_path == path)) [
    | inl f ↦ ground (arith, h, e, f, t)
    | inr f ↦ ground (arith, h, e, f)
  ]
]

import_declared :
    (name : String) (file : CallResolverFileInput) (files : List CallResolverFileInput)
    (imp : Option ParsedImport) (s : CallResolverSymbol)
    → symbol_of_import name file files imp ≡ some s
    → is_declared files name s.id ≡ true
unfolding symbol_of_import symbol_of_resolution symbol_of_file
import_declared name file files none s h = cc
import_declared name file files (some imp) s h =
    by_resolution (file.import_resolutions imp.specifier) h
  where
    by_file :
        (path : String) (target : Option CallResolverFileInput)
        → file_at files path ≡ target
        → symbol_of_file name target ≡ some s
        → is_declared files name s.id ≡ true
    by_file path none e k = cc
    by_file path (some target) e k =
        file_at_declared files path target e (declares name s.id)
          (found_declared (callable_match name) (callable_match name) target.symbols s (λ x m. m) k)

    by_resolution :
        (r : Option ImportResolution)
        → symbol_of_resolution name files r ≡ some s
        → is_declared files name s.id ≡ true
    by_resolution none k = cc
    by_resolution (some (external n v)) k = cc
    by_resolution (some (unresolved n)) k = cc
    by_resolution (some (resolved path)) k = by_file path (file_at files path) refl k

pub named_import_declared :
    (name : String) (receiver : Option String) (file : CallResolverFileInput)
    (files : List CallResolverFileInput) (s : CallResolverSymbol)
    → resolve_named_import name receiver file files ≡ some s
    → is_declared files name s.id ≡ true
unfolding resolve_named_import
named_import_declared name none file files s h = import_declared name file files _ s h
named_import_declared name (some receiver) file files s h = import_declared name file files _ s h

module _ (P : IndexedSymbol → Type 0) where
  if-All :
      (b : Bool) (xs ys : List IndexedSymbol) → All P xs → All P ys → All P (if b then xs else ys)
  if-All true xs ys a b = a
  if-All false xs ys a b = b

  top_level-All :
      (file : CallResolverFileInput) (cs : List IndexedSymbol)
      → All P cs
      → All P (same_top_level cs file)
  unfolding same_top_level
  top_level-All file cs a = if-All _ cs _ a (All-filter P _ cs a)

  pub narrow-All :
      (file : CallResolverFileInput) (package_name : Option String) (cs : List IndexedSymbol)
      → All P cs
      → All P (same_package cs file package_name)
  unfolding same_package
  narrow-All file none cs a = top_level-All file cs a
  narrow-All file (some name) cs a =
      if-All _ (same_top_level cs file) _ (top_level-All file cs a) (All-filter P _ cs a)
