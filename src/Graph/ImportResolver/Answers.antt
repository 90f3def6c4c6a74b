-- ===== src/Graph/ImportResolver/Answers.antt =====
-- The three answers of `resolveImport` (import-resolver.ts).
use ai_powered_github_pr_rev.Prelude.{
  ◌≡◌, refl, String, true, false, Option, none, some, List, arith, ltb, nat_beq, Bool-cases, inl,
  inr,
}
use ai_powered_github_pr_rev.Prelude.Equality.{text_equality}
use ai_powered_github_pr_rev.Prelude.Texts.{truthy, starts_with, text_length}
use ai_powered_github_pr_rev.Json.{Json, null, bool, num, str, arr, obj}
use ai_powered_github_pr_rev.Graph.CallResolver.{ImportResolution, resolved, external, unresolved}
use ai_powered_github_pr_rev.Graph.RepoContext.{
  Node, RepoContext, TsconfigEntry, PackageManifest, has, find_tsconfig_for_file,
}
use ai_powered_github_pr_rev.Graph.ImportResolver.Sound.{
  Found, first_some-Found, ladder_at-Found, path_in-Found, resolve_package_entry_point-Found,
}
use ai_powered_github_pr_rev.Graph.ImportResolver.Aliases.{
  resolution_of, AliasMatch, by_alias, by_base_url, resolved_or_none, resolve_via_paths_or_base_url,
  is_relative_specifier, resolve_relative,
}
use ai_powered_github_pr_rev.Graph.ImportResolver.Specifier.{
  BareSpecifier, split_bare_specifier, match_node_builtin,
}
use ai_powered_github_pr_rev.Graph.ImportResolver.Manifest.{
  of_workspace_package, of_split, resolve_workspace_package, of_import, of_imports, of_owner,
  resolve_subpath_import,
}
use ai_powered_github_pr_rev.Graph.ImportResolver.{
  bounded, max_specifier_length, is_absolute, external_or_unresolved, resolution_or,
  resolve_package, of_builtin, of_tsconfig, resolve_bare, resolve_bounded, resolve_import,
}

-- An answer about a specifier of bounded length.
pub IsAnswerTo : List String → String → ImportResolution → Type 0
IsAnswerTo files specifier (resolved path) = has files path ≡ true
IsAnswerTo files specifier (external name version) =
    (is_relative_specifier specifier ≡ false) × (is_absolute specifier ≡ false)
IsAnswerTo files specifier (unresolved reported) = reported ≡ specifier

MayAnswer : List String → String → Option ImportResolution → Type 0
MayAnswer files specifier none = Unit
MayAnswer files specifier (some r) = IsAnswerTo files specifier r

module _ (files : List String) (specifier : String) where
  resolution_of-IsAnswerTo :
      (o : Option String) → Found files o → IsAnswerTo files specifier (resolution_of specifier o)
  unfolding Found IsAnswerTo
  resolution_of-IsAnswerTo none f = refl
  resolution_of-IsAnswerTo (some path) f = f

  resolved_or_none-MayAnswer :
      (o : Option String) → Found files o → MayAnswer files specifier (resolved_or_none o)
  unfolding Found IsAnswerTo MayAnswer
  resolved_or_none-MayAnswer none f = tt
  resolved_or_none-MayAnswer (some path) f = f

  resolution_or-IsAnswerTo :
      (o : Option ImportResolution) (r : ImportResolution)
      → MayAnswer files specifier o
      → IsAnswerTo files specifier r
      → IsAnswerTo files specifier (resolution_or o r)
  unfolding MayAnswer
  resolution_or-IsAnswerTo none r a b = b
  resolution_or-IsAnswerTo (some x) r a b = a

  module _ (node : Node) where
    by_base_url-MayAnswer :
        (base_url : Option String)
        → MayAnswer files specifier (by_base_url node specifier base_url files)
    unfolding by_base_url MayAnswer
    by_base_url-MayAnswer none = tt
    by_base_url-MayAnswer (some b) = resolved_or_none-MayAnswer _ (ladder_at-Found files node _)

    by_alias-MayAnswer :
        (tsconfig : TsconfigEntry) (found : Option AliasMatch)
        → MayAnswer files specifier (by_alias node specifier tsconfig found files)
    unfolding by_alias MayAnswer
    by_alias-MayAnswer tsconfig none = by_base_url-MayAnswer tsconfig.base_url
    by_alias-MayAnswer tsconfig (some found) =
        resolution_of-IsAnswerTo _
          (first_some-Found files _ found.targets (λ target. ladder_at-Found files node _))

    of_workspace_package-MayAnswer :
        (split : BareSpecifier) (pkg : Option PackageManifest)
        → MayAnswer files specifier (of_workspace_package node specifier split files pkg)
    unfolding of_workspace_package MayAnswer
    of_workspace_package-MayAnswer split none = tt
    of_workspace_package-MayAnswer split (some pkg) =
        resolution_of-IsAnswerTo _ (resolve_package_entry_point-Found files node pkg split.subpath)

    of_import-MayAnswer :
        (dir : String) (value : Option Json)
        → MayAnswer files specifier (of_import node specifier dir files value)
    unfolding of_import MayAnswer
    of_import-MayAnswer dir none = tt
    of_import-MayAnswer dir (some value) =
        resolution_of-IsAnswerTo _ (path_in-Found files node dir _)

    of_imports-MayAnswer :
        (dir : String) (value : Option Json)
        → MayAnswer files specifier (of_imports node specifier dir files value)
    unfolding of_imports MayAnswer
    of_imports-MayAnswer dir none = tt
    of_imports-MayAnswer dir (some (obj fields)) = of_import-MayAnswer dir _
    of_imports-MayAnswer dir (some (str s)) = tt
    of_imports-MayAnswer dir (some null) = tt
    of_imports-MayAnswer dir (some (bool b)) = tt
    of_imports-MayAnswer dir (some (num n)) = tt
    of_imports-MayAnswer dir (some (arr vs)) = tt

    of_owner-MayAnswer :
        (owner : Option PackageManifest)
        → MayAnswer files specifier (of_owner node specifier files owner)
    unfolding of_owner MayAnswer
    of_owner-MayAnswer none = tt
    of_owner-MayAnswer (some owner) = of_imports-MayAnswer owner.dir owner.imports

module _ (node : Node) (from_file_path : String) (context : RepoContext) (specifier : String) where
  of_split-MayAnswer :
      (split : Option BareSpecifier)
      → MayAnswer context.files specifier (of_split node specifier context split)
  unfolding of_split MayAnswer
  of_split-MayAnswer none = tt
  of_split-MayAnswer (some split) =
      of_workspace_package-MayAnswer context.files specifier node split _

  of_tsconfig-MayAnswer :
      (tsconfig : Option TsconfigEntry)
      → MayAnswer context.files specifier
          (of_tsconfig node from_file_path context specifier tsconfig)
  unfolding resolve_via_paths_or_base_url MayAnswer
  of_tsconfig-MayAnswer none = tt
  of_tsconfig-MayAnswer (some tsconfig) = by_alias-MayAnswer context.files specifier node tsconfig _

  relative-IsAnswerTo :
      IsAnswerTo context.files specifier
        (resolve_relative node specifier from_file_path context.files)
  unfolding resolve_relative
  relative-IsAnswerTo =
      resolution_of-IsAnswerTo context.files specifier _ (ladder_at-Found context.files node _)

  module _ (bare : is_relative_specifier specifier ≡ false)
      (inside : is_absolute specifier ≡ false) where
    external_or_unresolved-IsAnswerTo :
        (split : Option BareSpecifier)
        → IsAnswerTo context.files specifier
            (external_or_unresolved node specifier from_file_path context split)
    unfolding external_or_unresolved IsAnswerTo
    external_or_unresolved-IsAnswerTo none = refl
    external_or_unresolved-IsAnswerTo (some split) =
        elim (Bool-cases (ltb 0 (text_length split.package_name))) [
          | inl e ↦ rw e (bare, inside)
          | inr e ↦ rw e refl
        ]

    resolve_package-IsAnswerTo :
        IsAnswerTo context.files specifier (resolve_package node from_file_path context specifier)
    unfolding resolve_package resolve_workspace_package resolve_subpath_import IsAnswerTo
    resolve_package-IsAnswerTo =
        resolution_or-IsAnswerTo context.files specifier _ _
          (of_split-MayAnswer (split_bare_specifier specifier))
          (elim (Bool-cases (starts_with specifier "#")) [
            | inl e ↦ rw e (
                resolution_or-IsAnswerTo context.files specifier _ (unresolved specifier)
                  (of_owner-MayAnswer context.files specifier node _) refl)
            | inr e ↦ rw e (external_or_unresolved-IsAnswerTo (split_bare_specifier specifier))
          ])

    of_builtin-IsAnswerTo :
        (name : Option String)
        → IsAnswerTo context.files specifier (of_builtin node from_file_path context specifier name)
    unfolding of_builtin IsAnswerTo
    of_builtin-IsAnswerTo none = resolve_package-IsAnswerTo
    of_builtin-IsAnswerTo (some name) = (bare, inside)

    resolve_bare-IsAnswerTo :
        IsAnswerTo context.files specifier (resolve_bare node from_file_path context specifier)
    unfolding resolve_bare
    resolve_bare-IsAnswerTo =
        resolution_or-IsAnswerTo context.files specifier _ _
          (of_tsconfig-MayAnswer (find_tsconfig_for_file node context from_file_path))
          (of_builtin-IsAnswerTo (truthy (match_node_builtin node specifier)))

  resolve_bounded-IsAnswerTo :
      IsAnswerTo context.files specifier (resolve_bounded node from_file_path context specifier)
  unfolding resolve_bounded IsAnswerTo
  resolve_bounded-IsAnswerTo = elim (Bool-cases (is_relative_specifier specifier)) [
    | inl e ↦ rw e relative-IsAnswerTo
    | inr e ↦ elim (Bool-cases (is_absolute specifier)) [
      | inl f ↦ rw (e, f) refl
      | inr f ↦ rw (e, f) (resolve_bare-IsAnswerTo e f)
    ]
  ]

-- A RESOLVED import names a file of the repository's context, an EXTERNAL one has a specifier
-- that is neither relative nor absolute, and an UNRESOLVED one reports its specifier, cut at the
-- length limit.
pub resolve_import-IsAnswerTo :
    (node : Node) (from_file_path : String) (context : RepoContext) (specifier : String)
    → IsAnswerTo context.files
        (bounded specifier)
        (resolve_import node from_file_path context specifier)
unfolding resolve_import bounded IsAnswerTo
resolve_import-IsAnswerTo node from_file_path context specifier =
    elim (Bool-cases (nat_beq (text_length specifier) 0)) [
      | inl e ↦
          let short : ltb max_specifier_length (text_length specifier) ≡ false =
            ground (arith, e) in
          rw (e, short) refl
      | inr e ↦ rw e (resolve_bounded-IsAnswerTo node from_file_path context (bounded specifier))
    ]
