-- ===== src/Graph/CallResolver.antt =====
-- apps/worker/src/indexing/graph/call-resolver.ts, with the parsed symbols and imports of
-- apps/worker/src/indexing/parsing/parsed-file.types.ts that it reads. It finds the symbols that the
-- calls of a repository's files may reach.
pub mod Index
pub mod Rules
pub mod Sites
use ai_powered_github_pr_rev.Prelude.{ℕ, String, Bool, true, false, Option, List}

-- `SYMBOL_KINDS`
pub data SymbolKind : Type 0 where
  function arrow_function class method interface : SymbolKind
  type_alias enum react_component hook variable : SymbolKind

pub record CallResolverSymbol : Type 0 where
  pub id : String
  pub name : String
  pub kind : SymbolKind
  pub parent_symbol : Option String

pub record ParsedImport : Type 0 where
  pub specifier : String
  pub is_type_only : Bool
  pub named : List String
  pub default : Option String
  pub namespace : Option String

pub record ParsedCall : Type 0 where
  pub name : String
  pub receiver : Option String

pub record ParsedSymbol : Type 0 where
  pub kind : SymbolKind
  pub parent_symbol : Option String
  pub calls : List ParsedCall

pub data ImportResolution : Type 0 where
  resolved : String → ImportResolution
  external : String → Option String → ImportResolution
  unresolved : String → ImportResolution

-- The map of resolutions is a function, `none` for a specifier that it does not hold.
pub record CallResolverFileInput : Type 0 where
  pub file_path : String
  pub package_name : Option String
  pub symbols : List CallResolverSymbol
  pub parsed_symbols : List ParsedSymbol
  pub imports : List ParsedImport
  pub import_resolutions : String → Option ImportResolution

-- `CALLABLE_KINDS` and `BARE_CALL_KINDS`
unfoldable pub is_callable : SymbolKind → Bool
is_callable function = true
is_callable arrow_function = true
is_callable method = true
is_callable hook = true
is_callable react_component = true
is_callable class = false
is_callable interface = false
is_callable type_alias = false
is_callable enum = false
is_callable variable = false

unfoldable pub is_method : SymbolKind → Bool
is_method method = true
is_method function = false
is_method arrow_function = false
is_method hook = false
is_method react_component = false
is_method class = false
is_method interface = false
is_method type_alias = false
is_method enum = false
is_method variable = false

unfoldable pub is_bare_callable : SymbolKind → Bool
is_bare_callable function = true
is_bare_callable arrow_function = true
is_bare_callable hook = true
is_bare_callable react_component = true
is_bare_callable method = false
is_bare_callable class = false
is_bare_callable interface = false
is_bare_callable type_alias = false
is_bare_callable enum = false
is_bare_callable variable = false

pub record IndexedSymbol : Type 0 where
  pub symbol : CallResolverSymbol
  pub file_path : String
  pub package_name : Option String

pub data CallResolutionRule : Type 0 where
  same_file named_import unique_repo_match ambiguous_tiebreak : CallResolutionRule

-- A confidence is the quotient of two numbers.
pub record Confidence : Type 0 where
  pub numerator : ℕ
  pub denominator : ℕ

pub record ResolvedCallEdge : Type 0 where
  pub from_symbol_id : String
  pub to_symbol_id : String
  pub rule : CallResolutionRule
  pub confidence : Confidence

pub record CallResolutionResult : Type 0 where
  pub edges : List ResolvedCallEdge
  pub skipped_for_ambiguity : ℕ
