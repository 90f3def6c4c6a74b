-- ===== src/Graph/ImportResolver.antt =====
-- apps/worker/src/indexing/graph/import-resolver.ts, but for the paths, which Graph.Paths has.
pub mod Aliases
pub mod Specifier
pub mod Manifest
pub mod Sound
pub mod Answers
use Prim.Native.Char.{code}
use Prim.Native.String.{[] as empty, ◌∷◌ as push}
use ai_powered_github_pr_rev.Prelude.{
  ℕ, String, Bool, true, false, ◌&&◌, ◌||◌, Option, none, some, List, [], ◌∷◌, if◌then◌else◌, ltb,
  leb, nat_beq,
}
use ai_powered_github_pr_rev.Prelude.Equality.{◌==◌, text_equality}
use ai_powered_github_pr_rev.Prelude.Texts.{text_length, first_chars, starts_with, truthy}
use ai_powered_github_pr_rev.Graph.CallResolver.{ImportResolution, resolved, external, unresolved}
use ai_powered_github_pr_rev.Graph.RepoContext.{
  Node, RepoContext, TsconfigEntry, dir_of, find_tsconfig_for_file,
}
use ai_powered_github_pr_rev.Graph.ImportResolver.Aliases.{
  is_relative_specifier, resolve_relative, resolve_via_paths_or_base_url,
}
use ai_powered_github_pr_rev.Graph.ImportResolver.Specifier.{
  BareSpecifier, split_bare_specifier, match_node_builtin, lookup_dependency_version,
}
use ai_powered_github_pr_rev.Graph.ImportResolver.Manifest.{
  resolve_workspace_package, resolve_subpath_import,
}

abbrev pub max_specifier_length : ℕ
max_specifier_length = 2000

unfoldable pub bounded : String → String
bounded specifier =
    if ltb max_specifier_length (text_length specifier)
    then first_chars max_specifier_length specifier
    else specifier

-- The regular expression `^[a-zA-Z]:[\\/]`.
abbrev pub is_letter : ℕ → Bool
is_letter c = (leb 65 c && leb c 90) || (leb 97 c && leb c 122)

has_drive : String → Bool
has_drive (push c (push colon (push slash s))) =
    is_letter (code c)
    && nat_beq (code colon) 58
    && (nat_beq (code slash) 92 || nat_beq (code slash) 47)
has_drive (push c (push colon empty)) = false
has_drive (push c empty) = false
has_drive empty = false

unfoldable pub is_absolute : String → Bool
unfolding has_drive
is_absolute specifier = starts_with specifier "/" || has_drive specifier

external_or_unresolved :
    Node → String → String → RepoContext → Option BareSpecifier → ImportResolution
external_or_unresolved node specifier from_file_path context none = unresolved specifier
external_or_unresolved node specifier from_file_path context (some split) =
    if ltb 0 (text_length split.package_name)
    then external split.package_name
        (lookup_dependency_version node split.package_name from_file_path context)
    else unresolved specifier

-- `result ?? { status: "UNRESOLVED" }`, and a `return` when there is a result.
abbrev pub resolution_or : Option ImportResolution → ImportResolution → ImportResolution
resolution_or none otherwise = otherwise
resolution_or (some resolution) otherwise = resolution

module _ (node : Node) (from_file_path : String) (context : RepoContext) where
  unfoldable pub resolve_package : String → ImportResolution
  unfolding external_or_unresolved
  resolve_package specifier = resolution_or (resolve_workspace_package node specifier context) (
      if starts_with specifier "#"
      then resolution_or (resolve_subpath_import node specifier from_file_path context)
          (unresolved specifier)
      else external_or_unresolved node specifier from_file_path context
          (split_bare_specifier specifier))

  of_builtin : String → Option String → ImportResolution
  unfolding resolve_package
  of_builtin specifier none = resolve_package specifier
  of_builtin specifier (some name) = external name none

  abbrev pub of_tsconfig : String → Option TsconfigEntry → Option ImportResolution
  of_tsconfig specifier none = none
  of_tsconfig specifier (some tsconfig) =
      resolve_via_paths_or_base_url node specifier tsconfig context.files

  unfoldable pub resolve_bare : String → ImportResolution
  unfolding of_builtin
  resolve_bare specifier =
      resolution_or (of_tsconfig specifier (find_tsconfig_for_file node context from_file_path))
        (of_builtin specifier (truthy (match_node_builtin node specifier)))

  unfoldable pub resolve_bounded : String → ImportResolution
  unfolding resolve_bare
  resolve_bounded specifier =
      if is_relative_specifier specifier
      then resolve_relative node specifier from_file_path context.files
      else if is_absolute specifier
      then unresolved specifier
      else resolve_bare specifier

  unfoldable pub resolve_import : String → ImportResolution
  unfolding resolve_bounded
  resolve_import specifier =
      if nat_beq (text_length specifier) 0
      then unresolved specifier
      else resolve_bounded (bounded specifier)
