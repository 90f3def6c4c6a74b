-- ===== src/Graph/ImportResolver/Specifier.antt =====
-- Bare specifiers, built-in modules and the versions of dependencies in import-resolver.ts
-- (apps/worker/src/indexing/graph).
use ai_powered_github_pr_rev.Prelude.{
  String, Option, none, some, List, ◌∷◌, if◌then◌else◌, find, filter, any,
}
use Prim.Native.String.{◌++◌}
use ai_powered_github_pr_rev.Prelude.Equality.{◌==◌, text_equality}
use ai_powered_github_pr_rev.Prelude.Texts.{starts_with, Halves, cut_at, truthy}
use ai_powered_github_pr_rev.Graph.RepoContext.{
  Node, Dependency, PackageManifest, RepoContext, find_package_for_file,
}
use ai_powered_github_pr_rev.Graph.ImportResolver.Aliases.{or_next, first_some}

pub record BareSpecifier : Type 0 where
  pub package_name : String
  pub subpath : String

abbrev pub whole : String → BareSpecifier
whole specifier = record { package_name = specifier; subpath = "" }

unscoped : String → Option Halves → BareSpecifier
unscoped specifier none = whole specifier
unscoped specifier (some h) = record { package_name = h.before; subpath = h.after }

scoped_rest : String → String → Option Halves → BareSpecifier
scoped_rest specifier scope none = whole specifier
scoped_rest specifier scope (some h) = record {
  package_name = scope ++ "/" ++ h.before;
  subpath = h.after;
}

scoped : String → Option Halves → Option BareSpecifier
unfolding scoped_rest
scoped specifier none = none
scoped specifier (some h) = some (scoped_rest specifier h.before (cut_at 47 h.after))

unfoldable pub split_bare_specifier : String → Option BareSpecifier
unfolding unscoped scoped
split_bare_specifier specifier =
    if starts_with specifier "@"
    then scoped specifier (cut_at 47 specifier)
    else some (unscoped specifier (cut_at 47 specifier))

builtin_package : Node → Option BareSpecifier → Option String
builtin_package node none = none
builtin_package node (some split) =
    if any (λ name. name == split.package_name) node.builtin_modules
    then some split.package_name
    else none

unfoldable pub match_node_builtin : Node → String → Option String
unfolding builtin_package split_bare_specifier
match_node_builtin node specifier =
    if starts_with specifier "node:"
    then some specifier
    else builtin_package node (split_bare_specifier specifier)

abbrev pub version_in : String → List Dependency → Option String
version_in name dependencies = elim (find (λ d. d.name == name) dependencies) [
  | none ↦ none
  | some d ↦ some d.version
]

unfoldable pub dependency_version : String → PackageManifest → Option String
dependency_version name pkg = truthy (
    or_next (version_in name pkg.dependencies)
      (or_next (version_in name pkg.dev_dependencies) (version_in name pkg.peer_dependencies)))

abbrev pub owner_first : Option PackageManifest → List PackageManifest → List PackageManifest
owner_first none roots = roots
owner_first (some owner) roots = owner ∷ roots

unfoldable pub lookup_dependency_version : Node → String → String → RepoContext → Option String
unfolding dependency_version find_package_for_file
lookup_dependency_version node package_name from_file_path context =
    first_some (dependency_version package_name) (
      owner_first (find_package_for_file node context from_file_path)
        (filter (λ p. p.dir == "") context.packages))
