-- ===== src/Graph/ImportResolver/Aliases.antt =====
-- The resolution of import-resolver.ts (apps/worker/src/indexing/graph) by a tsconfig's `paths` and
-- `baseUrl`, and of relative specifiers.
use ai_powered_github_pr_rev.Prelude.{
  ℕ, String, Bool, ◌||◌, Option, none, some, List, [], ◌∷◌, if◌then◌else◌, ltb, find,
}
use ai_powered_github_pr_rev.Prelude.Equality.{◌==◌, text_equality}
use ai_powered_github_pr_rev.Prelude.Texts.{
  text_length, starts_with, strip_prefix, strip_suffix, Halves, cut_at, truthy,
}
use ai_powered_github_pr_rev.Graph.CallResolver.{ImportResolution, resolved, unresolved}
use ai_powered_github_pr_rev.Graph.RepoContext.{Node, Alias, TsconfigEntry, dir_of}
use ai_powered_github_pr_rev.Graph.Paths.{resolve_repo_relative_path, resolve_via_extension_ladder}

-- `resolved ? RESOLVED : UNRESOLVED`.
abbrev pub resolution_of : String → Option String → ImportResolution
resolution_of specifier none = unresolved specifier
resolution_of specifier (some path) = resolved path

abbrev pub resolved_or_none : Option String → Option ImportResolution
resolved_or_none none = none
resolved_or_none (some path) = some (resolved path)

-- The ladder at a joined path, which is `null` for a path that escapes; an empty result is falsy.
unfoldable pub ladder_at : Node → List String → Option String → Option String
ladder_at node files none = none
ladder_at node files (some path) = truthy (resolve_via_extension_ladder node path files)

unfoldable pub is_relative_specifier : String → Bool
is_relative_specifier specifier =
    starts_with specifier "./"
    || starts_with specifier "../"
    || specifier == "."
    || specifier == ".."

unfoldable pub resolve_relative : Node → String → String → List String → ImportResolution
unfolding ladder_at
resolve_relative node specifier from_file_path files =
    resolution_of specifier
      (ladder_at node files (resolve_repo_relative_path (dir_of node from_file_path) specifier))

-- What lies between a prefix and a suffix that do not overlap: `startsWith`, `endsWith`, the test of
-- the lengths, and `slice`.
abbrev pub between : Halves → String → Option String
between star specifier = elim (strip_prefix star.before specifier) [
  | none ↦ none
  | some rest ↦ strip_suffix star.after rest
]

pub record AliasMatch : Type 0 where
  pub targets : List String
  pub wildcard : String
  pub prefix_length : ℕ

pick_alias : List String → ℕ → Option String → Option AliasMatch → Option AliasMatch
pick_alias targets n none best = best
pick_alias targets n (some wildcard) none =
    some (record { targets = targets; wildcard = wildcard; prefix_length = n })
pick_alias targets n (some wildcard) (some best) =
    if ltb best.prefix_length n
    then some (record { targets = targets; wildcard = wildcard; prefix_length = n })
    else some best

try_alias : String → Alias → Option Halves → Option AliasMatch → Option AliasMatch
unfolding pick_alias
try_alias specifier entry none best = best
try_alias specifier entry (some star) best =
    pick_alias entry.targets (text_length star.before) (between star specifier) best

best_alias : String → List Alias → Option AliasMatch → Option AliasMatch
unfolding try_alias
best_alias specifier [] best = best
best_alias specifier (entry ∷ entries) best =
    best_alias specifier entries (try_alias specifier entry (cut_at 42 entry.key) best)

exact_or_best : String → List Alias → Option Alias → Option AliasMatch
unfolding best_alias
exact_or_best specifier paths (some entry) =
    some (record { targets = entry.targets; wildcard = ""; prefix_length = 0 })
exact_or_best specifier paths none = best_alias specifier paths none

-- The prefix length of the result is not used.
unfoldable pub match_paths_alias : String → List Alias → Option AliasMatch
unfolding exact_or_best
match_paths_alias specifier paths =
    exact_or_best specifier paths (find (λ entry. entry.key == specifier) paths)

abbrev pub replaced : Node → String → String → Option Halves → String
replaced node target wildcard none = target
replaced node target wildcard (some star) = node.replace_star target wildcard

unfoldable pub substitute_wildcard : Node → String → String → String
substitute_wildcard node target wildcard = replaced node target wildcard (cut_at 42 target)

-- The first result of a loop that returns.
abbrev pub or_next : Option String → Option String → Option String
or_next none rest = rest
or_next (some path) rest = some path

abbrev pub first_some : {A : Type 0} → (A → Option String) → List A → Option String
first_some f [] = none
first_some f (x ∷ xs) = or_next (f x) (first_some f xs)

unfoldable pub by_base_url : Node → String → Option String → List String → Option ImportResolution
by_base_url node specifier none files = none
by_base_url node specifier (some base_url) files =
    resolved_or_none (ladder_at node files (resolve_repo_relative_path base_url specifier))

-- The directory that targets are relative to: `baseUrl ?? dir`.
abbrev pub base_dir : TsconfigEntry → String
base_dir tsconfig = elim tsconfig.base_url [ none ↦ tsconfig.dir | some base_url ↦ base_url ]

unfoldable pub by_alias :
    Node → String → TsconfigEntry → Option AliasMatch → List String → Option ImportResolution
unfolding by_base_url substitute_wildcard
by_alias node specifier tsconfig none files = by_base_url node specifier tsconfig.base_url files
by_alias node specifier tsconfig (some found) files = some (
    resolution_of specifier (
      first_some
        (λ target. ladder_at node files (
          resolve_repo_relative_path (base_dir tsconfig)
            (substitute_wildcard node target found.wildcard)))
        found.targets))

abbrev pub alias_of : String → Option (List Alias) → Option AliasMatch
alias_of specifier none = none
alias_of specifier (some paths) = match_paths_alias specifier paths

unfoldable pub resolve_via_paths_or_base_url :
    Node → String → TsconfigEntry → List String → Option ImportResolution
unfolding by_alias
resolve_via_paths_or_base_url node specifier tsconfig files =
    by_alias node specifier tsconfig (alias_of specifier tsconfig.paths) files
