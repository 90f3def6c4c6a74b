-- ===== src/Graph/RepoContext.antt =====
-- The context of a repository and its nearest manifests
-- (apps/worker/src/indexing/graph/repo-context.ts).
use ai_powered_github_pr_rev.Prelude.{
  String, Bool, ◌||◌, Option, none, some, List, [], ◌∷◌, if◌then◌else◌, ltb, any,
}
use Prim.Native.String.{◌++◌}
use ai_powered_github_pr_rev.Prelude.Equality.{◌==◌, text_equality}
use ai_powered_github_pr_rev.Prelude.Texts.{text_length, starts_with}
use ai_powered_github_pr_rev.Json.{Json}

-- An entry of `compilerOptions.paths`, and of a manifest's dependencies. An object is the list of its
-- own properties.
pub record Alias : Type 0 where
  pub key : String
  pub targets : List String

pub record Dependency : Type 0 where
  pub name : String
  pub version : String

pub record TsconfigEntry : Type 0 where
  pub dir : String
  pub base_url : Option String
  pub paths : Option (List Alias)

pub record PackageManifest : Type 0 where
  pub dir : String
  pub name : Option String
  pub main : Option String
  pub module' : Option String
  pub types : Option String
  pub exports : Option Json
  pub imports : Option Json
  pub dependencies : List Dependency
  pub dev_dependencies : List Dependency
  pub peer_dependencies : List Dependency

pub record RepoContext : Type 0 where
  pub tsconfigs : List TsconfigEntry
  pub workspace_roots : List String
  pub packages : List PackageManifest
  pub files : List String

-- Node's `path.posix`, `String.prototype.replace` of the first "*", and `builtinModules`.
pub record Node : Type 0 where
  pub basename : String → String
  pub dirname : String → String
  pub replace_star : String → String → String
  pub builtin_modules : List String

-- `files.has`.
abbrev pub has : List String → String → Bool
has files path = any (λ f. f == path) files

unfoldable pub dir_of : Node → String → String
dir_of node file_path = if node.dirname file_path == "." then "" else node.dirname file_path

-- A directory that is the file's, or one above it.
unfoldable pub covers : String → String → Bool
covers dir entry_dir = entry_dir == "" || dir == entry_dir || starts_with dir (entry_dir ++ "/")

-- The loop for the longest of the directories that cover the file's; of two with one length the
-- first.
module _ {Entry : Type 0} (dir_of_entry : Entry → String) where
  abbrev pub longer : Entry → Option Entry → Entry
  longer entry none = entry
  longer entry (some best) =
      if ltb (text_length (dir_of_entry best)) (text_length (dir_of_entry entry))
      then entry
      else best

  abbrev pub nearest : String → List Entry → Option Entry → Option Entry
  nearest dir [] best = best
  nearest dir (entry ∷ entries) best =
      nearest dir entries
        (if covers dir (dir_of_entry entry) then some (longer entry best) else best)

unfoldable pub find_tsconfig_for_file : Node → RepoContext → String → Option TsconfigEntry
unfolding covers dir_of
find_tsconfig_for_file node context file_path =
    nearest (λ (entry : TsconfigEntry). entry.dir) (dir_of node file_path) context.tsconfigs none

unfoldable pub find_package_for_file : Node → RepoContext → String → Option PackageManifest
unfolding covers dir_of
find_package_for_file node context file_path =
    nearest (λ (pkg : PackageManifest). pkg.dir) (dir_of node file_path) context.packages none
