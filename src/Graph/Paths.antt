-- ===== src/Graph/Paths.antt =====
-- `resolveRepoRelativePath` and `resolveViaExtensionLadder`
-- (apps/worker/src/indexing/graph/import-resolver.ts).
pub mod Laws
use Prim.Native.String.{◌++◌}
use ai_powered_github_pr_rev.Prelude.{
  ℕ, String, Bool, true, false, Option, none, some, List, [], ◌∷◌, map, if◌then◌else◌, find,
}
use mathlib.Core.List.{reverse}
use mathlib.Core.List.{◌++◌ as append}
use ai_powered_github_pr_rev.Prelude.Equality.{◌==◌, text_equality}
use ai_powered_github_pr_rev.Prelude.Texts.{strip_suffix, Halves, cut_at_last, split_at, join}
use ai_powered_github_pr_rev.Graph.RepoContext.{Node, has}

abbrev pub resolution_extensions : List String
resolution_extensions = ".ts" ∷ ".tsx" ∷ ".js" ∷ ".jsx" ∷ ".mjs" ∷ ".cjs" ∷ []

abbrev pub js_to_ts_swap : String → Option String
js_to_ts_swap ext =
    if ext == ".js"
    then some ".ts"
    else if ext == ".jsx"
    then some ".tsx"
    else if ext == ".mjs"
    then some ".mts"
    else if ext == ".cjs"
    then some ".cts"
    else none

-- `lastIndexOf(".")`, at the first character or nowhere an empty extension.
extension_of : Option Halves → String
extension_of none = ""
extension_of (some h) = if h.before == "" then "" else "." ++ h.after

unfoldable pub posix_extname : Node → String → String
unfolding extension_of
posix_extname node p = extension_of (cut_at_last 46 (node.basename p))

without : Option String → String → String
without none base_path = base_path
without (some start) base_path = start

swapped : String → String → Option String → List String
unfolding without
swapped base_path ext none = []
swapped base_path ext (some swap) = (without (strip_suffix ext base_path) base_path ++ swap) ∷ []

-- The paths that the ladder tries, in its order.
unfoldable pub ladder_candidates : Node → String → List String
unfolding posix_extname swapped
ladder_candidates node base_path =
    let ext = posix_extname node base_path in
    append (swapped base_path ext (js_to_ts_swap ext)) (
      base_path
      ∷ append (if ext == "" then map (λ e. base_path ++ e) resolution_extensions else [])
          (map (λ e. base_path ++ "/index" ++ e) resolution_extensions))

unfoldable pub resolve_via_extension_ladder : Node → String → List String → Option String
unfolding ladder_candidates
resolve_via_extension_ladder node base_path files =
    find (has files) (ladder_candidates node base_path)

-- The loop over the segments; the stack's top is its head, and `none` is a path that escapes the
-- repository.
unfoldable pub resolve_segments : List String → List String → Option (List String)
resolve_segments [] stack = some stack
resolve_segments (segment ∷ segments) [] =
    let skip = resolve_segments segments [] in
    let enter = resolve_segments segments (segment ∷ []) in
    if segment == ""
    then skip
    else if segment == "."
    then skip
    else if segment == ".."
    then none
    else enter
resolve_segments (segment ∷ segments) (top ∷ stack) =
    let skip = resolve_segments segments (top ∷ stack) in
    let leave = resolve_segments segments stack in
    let enter = resolve_segments segments (segment ∷ top ∷ stack) in
    if segment == ""
    then skip
    else if segment == "."
    then skip
    else if segment == ".."
    then leave
    else enter

-- `combined.split("/")`.
abbrev pub segments_of : String → String → List String
segments_of from_dir specifier =
    split_at 47 (if from_dir == "" then specifier else from_dir ++ "/" ++ specifier)

abbrev pub joined : Option (List String) → Option String
joined none = none
joined (some stack) = some (join (reverse stack))

unfoldable pub resolve_repo_relative_path : String → String → Option String
unfolding resolve_segments
resolve_repo_relative_path from_dir specifier =
    joined (resolve_segments (segments_of from_dir specifier) [])
