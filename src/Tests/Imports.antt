-- ===== src/Tests/Imports.antt =====
-- Imports of a small repository with an alias, a workspace package and a dependency.
use Prim.Native.String.{◌++◌}
use ai_powered_github_pr_rev.Prelude.{◌≡◌, refl, String, Option, none, some, [], ◌∷◌}
use ai_powered_github_pr_rev.Prelude.Texts.{Halves, cut_at, cut_at_last}
use ai_powered_github_pr_rev.Json.{str, obj, end, field}
use ai_powered_github_pr_rev.Graph.CallResolver.{ImportResolution, resolved, external, unresolved}
use ai_powered_github_pr_rev.Graph.RepoContext.{
  Node, TsconfigEntry, PackageManifest, RepoContext, dir_of, find_tsconfig_for_file,
}
use ai_powered_github_pr_rev.Graph.Paths.{
  resolve_repo_relative_path, segments_of, resolve_via_extension_ladder,
}
use ai_powered_github_pr_rev.Graph.Paths.Laws.{IsInside, resolve_repo_relative_path-IsInside}
use ai_powered_github_pr_rev.Graph.ImportResolver.{bounded, is_absolute, resolve_import}
use ai_powered_github_pr_rev.Graph.ImportResolver.Aliases.{
  is_relative_specifier, resolve_relative, resolve_via_paths_or_base_url, match_paths_alias,
}
use ai_powered_github_pr_rev.Graph.ImportResolver.Specifier.{
  match_node_builtin, lookup_dependency_version,
}
use ai_powered_github_pr_rev.Graph.ImportResolver.Manifest.{
  resolve_workspace_package, resolve_package_entry_point,
}
use ai_powered_github_pr_rev.Graph.ImportResolver.Answers.{IsAnswerTo, resolve_import-IsAnswerTo}

abbrev last_part : String → Option Halves → String
last_part p none = p
last_part p (some h) = h.after

abbrev first_part : Option Halves → String
first_part none = "."
first_part (some h) = h.before

abbrev put : String → String → Option Halves → String
put target wildcard none = target
put target wildcard (some h) = h.before ++ wildcard ++ h.after

abbrev node : Node
node = record {
  basename = λ p. last_part p (cut_at_last 47 p);
  dirname = λ p. first_part (cut_at_last 47 p);
  replace_star = λ target wildcard. put target wildcard (cut_at 42 target);
  builtin_modules = "fs" ∷ "path" ∷ [];
}

abbrev app : PackageManifest
app = record {
  dir = "app";
  name = some "app";
  main = none;
  module' = none;
  types = none;
  exports = none;
  imports = none;
  dependencies = record { name = "react"; version = "18" } ∷ [];
  dev_dependencies = [];
  peer_dependencies = [];
}

abbrev shared : PackageManifest
shared = record app {
  dir = "packages/shared";
  name = some "@repo/shared";
  exports = some (obj (field "." (obj (field "import" (str "./src/index.js") end)) end));
}

abbrev tsconfig : TsconfigEntry
tsconfig = record {
  dir = "app";
  base_url = none;
  paths = some (record { key = "@/*"; targets = "./lib/*" ∷ [] } ∷ []);
}

abbrev context : RepoContext
context = record {
  tsconfigs = tsconfig ∷ [];
  workspace_roots = "packages/shared" ∷ [];
  packages = app ∷ shared ∷ [];
  files =
      "app/main.ts" ∷ "app/lib/api.ts" ∷ "app/util/index.ts" ∷ "packages/shared/src/index.ts" ∷ [];
}

abbrev import' : String → ImportResolution
import' specifier = resolve_import node "app/main.ts" context specifier

answers :
    (import' "./util" ≡ resolved "app/util/index.ts")
    × (import' "./lib/api.js" ≡ resolved "app/lib/api.ts")
    × (import' "../../etc" ≡ unresolved "../../etc")
    × (import' "@/api" ≡ resolved "app/lib/api.ts")
    × (import' "@repo/shared" ≡ resolved "packages/shared/src/index.ts")
    × (import' "react" ≡ external "react" (some "18"))
    × (import' "fs" ≡ external "fs" none)
    × (import' "C:/x" ≡ unresolved "C:/x")
unfolding resolve_import is_relative_specifier bounded resolve_relative resolve_repo_relative_path
    dir_of resolve_via_extension_ladder is_absolute find_tsconfig_for_file
    resolve_via_paths_or_base_url match_paths_alias match_node_builtin resolve_workspace_package
    resolve_package_entry_point lookup_dependency_version
answers = (refl, refl, refl, refl, refl, refl, refl, refl)

resolve_import-IsAnswerTo_example :
    IsAnswerTo context.files (bounded "@/api") (resolve_import node "app/main.ts" context "@/api")
resolve_import-IsAnswerTo_example = resolve_import-IsAnswerTo node "app/main.ts" context "@/api"

resolve_repo_relative_path-IsInside_example :
    IsInside
      (segments_of "app/util" "../lib/./api")
      (resolve_repo_relative_path "app/util" "../lib/./api")
resolve_repo_relative_path-IsInside_example =
    resolve_repo_relative_path-IsInside "app/util" "../lib/./api"
