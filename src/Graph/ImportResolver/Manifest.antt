-- ===== src/Graph/ImportResolver/Manifest.antt =====
-- The resolution of import-resolver.ts (apps/worker/src/indexing/graph) by package manifests:
-- workspace packages with their `exports`, and subpath imports.
use ai_powered_github_pr_rev.Prelude.{
  String, Bool, false, ◌&&◌, ◌||◌, not, Option, none, some, List, [], ◌∷◌, if◌then◌else◌, find, any,
}
use Prim.Native.String.{◌++◌}
use ai_powered_github_pr_rev.Prelude.Equality.{◌==◌, text_equality}
use ai_powered_github_pr_rev.Prelude.Texts.{starts_with, strip_prefix, Halves, cut_at, truthy}
use ai_powered_github_pr_rev.Json.{
  Json, null, bool, num, str, arr, obj, Fields, end, field, find_field,
}
use ai_powered_github_pr_rev.Graph.CallResolver.{ImportResolution}
use ai_powered_github_pr_rev.Graph.RepoContext.{
  Node, PackageManifest, RepoContext, find_package_for_file,
}
use ai_powered_github_pr_rev.Graph.Paths.{resolve_repo_relative_path}
use ai_powered_github_pr_rev.Graph.ImportResolver.Aliases.{
  resolution_of, ladder_at, between, substitute_wildcard, or_next, first_some,
}
use ai_powered_github_pr_rev.Graph.ImportResolver.Specifier.{BareSpecifier, split_bare_specifier}

-- A property that is a text.
abbrev pub text_of : Option Json → Option String
text_of none = none
text_of (some (str s)) = some s
text_of (some null) = none
text_of (some (bool b)) = none
text_of (some (num n)) = none
text_of (some (arr vs)) = none
text_of (some (obj fields)) = none

unfoldable pub first_condition : List String → Fields → Option String
unfolding find_field
first_condition conditions fields =
    first_some (λ condition. text_of (find_field condition fields)) conditions

unfoldable pub unwrap_conditions : Json → Option String
unfolding first_condition
unwrap_conditions (str s) = some s
unwrap_conditions (obj fields) = first_condition ("import" ∷ "default" ∷ "types" ∷ []) fields
unwrap_conditions null = none
unwrap_conditions (bool b) = none
unwrap_conditions (num n) = none
unwrap_conditions (arr vs) = none

has_subpath_keys : Fields → Bool
has_subpath_keys end = false
has_subpath_keys (field key value rest) = starts_with key "." || has_subpath_keys rest

-- One round of the loop over the keys with a star.
substituted : Node → Option String → Option String → Option String
substituted node wildcard none = none
substituted node none (some target) = none
substituted node (some wildcard) (some target) = some (substitute_wildcard node target wildcard)

after_dot_slash : Halves → Option String → String → Option String
after_dot_slash star none subpath = none
after_dot_slash star (some before) subpath =
    between (record { before = before; after = star.after }) subpath

star_wildcard : String → Option Halves → Option String
unfolding after_dot_slash
star_wildcard subpath none = none
star_wildcard subpath (some star) = after_dot_slash star (strip_prefix "./" star.before) subpath

by_pattern : Node → String → Fields → Option String
unfolding substituted star_wildcard unwrap_conditions
by_pattern node subpath end = none
by_pattern node subpath (field key value rest) =
    or_next
      (substituted node (star_wildcard subpath (cut_at 42 key)) (truthy (unwrap_conditions value)))
      (by_pattern node subpath rest)

exports_key : String → String
exports_key subpath = if subpath == "" then "." else "./" ++ subpath

of_exports_key : Node → String → Fields → Option Json → Option String
unfolding has_subpath_keys by_pattern unwrap_conditions
of_exports_key node subpath fields (some value) = unwrap_conditions value
of_exports_key node subpath fields none =
    let pattern = by_pattern node subpath fields in
    if not (has_subpath_keys fields)
    then (if subpath == "" then unwrap_conditions (obj fields) else none)
    else if subpath == ""
    then none
    else pattern

unfoldable pub resolve_exports_entry : Node → Json → String → Option String
unfolding of_exports_key exports_key find_field
resolve_exports_entry node (str s) subpath = if subpath == "" then some s else none
resolve_exports_entry node (obj fields) subpath =
    of_exports_key node subpath fields (find_field (exports_key subpath) fields)
resolve_exports_entry node null subpath = none
resolve_exports_entry node (bool b) subpath = none
resolve_exports_entry node (num n) subpath = none
resolve_exports_entry node (arr vs) subpath = none

-- A path relative to a directory, when there is one.
unfoldable pub path_in : Node → List String → String → Option String → Option String
unfolding ladder_at
path_in node files dir none = none
path_in node files dir (some target) = ladder_at node files (resolve_repo_relative_path dir target)

unfoldable pub main_entry : Node → PackageManifest → List String → Option String
unfolding path_in ladder_at
main_entry node pkg files =
    or_next
      (first_some (λ entry. path_in node files pkg.dir (truthy entry))
        (pkg.types ∷ pkg.module' ∷ pkg.main ∷ []))
      (ladder_at node files (some pkg.dir))

unfoldable pub without_exports : Node → PackageManifest → String → List String → Option String
unfolding main_entry path_in
without_exports node pkg subpath files =
    if subpath == "" then main_entry node pkg files else path_in node files pkg.dir (some subpath)

unfoldable pub by_exports :
    Node → PackageManifest → String → List String → Option Json → Option String
unfolding without_exports path_in resolve_exports_entry
by_exports node pkg subpath files none = without_exports node pkg subpath files
by_exports node pkg subpath files (some exports) =
    or_next (path_in node files pkg.dir (truthy (resolve_exports_entry node exports subpath)))
      (if subpath == "" then without_exports node pkg subpath files else none)

unfoldable pub resolve_package_entry_point :
    Node → PackageManifest → String → List String → Option String
unfolding by_exports
resolve_package_entry_point node pkg subpath files = by_exports node pkg subpath files pkg.exports

abbrev pub is_named : String → Option String → Bool
is_named name none = false
is_named name (some n) = n == name

unfoldable pub of_workspace_package :
    Node → String → BareSpecifier → List String → Option PackageManifest → Option ImportResolution
of_workspace_package node specifier split files none = none
of_workspace_package node specifier split files (some pkg) =
    some (resolution_of specifier (resolve_package_entry_point node pkg split.subpath files))

unfoldable pub of_split :
    Node → String → RepoContext → Option BareSpecifier → Option ImportResolution
unfolding of_workspace_package
of_split node specifier context none = none
of_split node specifier context (some split) =
    of_workspace_package node specifier split context.files (
      find
        (λ pkg.
          is_named split.package_name pkg.name
          && any (λ root. root == pkg.dir) context.workspace_roots)
        context.packages)

unfoldable pub resolve_workspace_package : Node → String → RepoContext → Option ImportResolution
unfolding of_split split_bare_specifier
resolve_workspace_package node specifier context =
    of_split node specifier context (split_bare_specifier specifier)

import_target : Json → Option String
unfolding first_condition
import_target (str s) = some s
import_target (obj fields) = first_condition ("import" ∷ "default" ∷ []) fields
import_target null = none
import_target (bool b) = none
import_target (num n) = none
import_target (arr vs) = none

unfoldable pub of_import :
    Node → String → String → List String → Option Json → Option ImportResolution
unfolding import_target path_in
of_import node specifier dir files none = none
of_import node specifier dir files (some value) =
    some (resolution_of specifier (path_in node files dir (truthy (import_target value))))

unfoldable pub of_imports :
    Node → String → String → List String → Option Json → Option ImportResolution
unfolding of_import find_field
of_imports node specifier dir files (some (obj fields)) =
    of_import node specifier dir files (find_field specifier fields)
of_imports node specifier dir files none = none
of_imports node specifier dir files (some (str s)) = none
of_imports node specifier dir files (some null) = none
of_imports node specifier dir files (some (bool b)) = none
of_imports node specifier dir files (some (num n)) = none
of_imports node specifier dir files (some (arr vs)) = none

unfoldable pub of_owner :
    Node → String → List String → Option PackageManifest → Option ImportResolution
unfolding of_imports
of_owner node specifier files none = none
of_owner node specifier files (some owner) = of_imports node specifier owner.dir files owner.imports

unfoldable pub resolve_subpath_import :
    Node → String → String → RepoContext → Option ImportResolution
unfolding of_owner find_package_for_file
resolve_subpath_import node specifier from_file_path context =
    of_owner node specifier context.files (find_package_for_file node context from_file_path)
