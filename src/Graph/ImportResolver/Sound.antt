-- ===== src/Graph/ImportResolver/Sound.antt =====
-- What `resolveImport` (import-resolver.ts) may say of an import.
use ai_powered_github_pr_rev.Prelude.{
  ◌≡◌, refl, String, true, Option, none, some, List, [], ◌∷◌, arith, Bool-cases, inl, inr,
}
use ai_powered_github_pr_rev.Prelude.Equality.{◌==◌, text_equality}
use ai_powered_github_pr_rev.Prelude.Texts.{truthy}
use ai_powered_github_pr_rev.Json.{Json}
use ai_powered_github_pr_rev.Graph.RepoContext.{Node, PackageManifest, has}
use ai_powered_github_pr_rev.Graph.Paths.{resolve_via_extension_ladder}
use ai_powered_github_pr_rev.Graph.Paths.Laws.{ladder-has}
use ai_powered_github_pr_rev.Graph.ImportResolver.Manifest.{
  path_in, main_entry, without_exports, by_exports, resolve_package_entry_point,
}
use ai_powered_github_pr_rev.Graph.ImportResolver.Aliases.{ladder_at, or_next, first_some}

-- A path that is found is a file of the context.
unfoldable pub Found : List String → Option String → Type 0
Found files none = Unit
Found files (some path) = has files path ≡ true

module _ (files : List String) where
  pub truthy-Found : (o : Option String) → Found files o → Found files (truthy o)
  unfolding Found
  truthy-Found none f = tt
  truthy-Found (some path) f = ground (arith, f)

  or_next-Found :
      (o rest : Option String) → Found files o → Found files rest → Found files (or_next o rest)
  unfolding Found
  or_next-Found none rest f g = g
  or_next-Found (some path) rest f g = f

  pub first_some-Found :
      {A : Type 0} (f : A → Option String) (xs : List A)
      → ((x : A) → Found files (f x))
      → Found files (first_some f xs)
  unfolding Found
  first_some-Found f [] g = tt
  first_some-Found f (x ∷ xs) g = or_next-Found (f x) _ (g x) (first_some-Found f xs g)

  module _ (node : Node) where
    ladder-Found :
        (path : String) (o : Option String)
        → resolve_via_extension_ladder node path files ≡ o
        → Found files o
    unfolding Found
    ladder-Found path none e = tt
    ladder-Found path (some target) e = ladder-has node path files target e

    pub ladder_at-Found : (o : Option String) → Found files (ladder_at node files o)
    unfolding Found ladder_at
    ladder_at-Found none = tt
    ladder_at-Found (some path) = truthy-Found _ (ladder-Found path _ refl)

    pub path_in-Found : (dir : String) (o : Option String) → Found files (path_in node files dir o)
    unfolding Found path_in
    path_in-Found dir none = tt
    path_in-Found dir (some target) = ladder_at-Found _

    main_entry-Found : (pkg : PackageManifest) → Found files (main_entry node pkg files)
    unfolding main_entry
    main_entry-Found pkg =
        or_next-Found _ _
          (first_some-Found _ (pkg.types ∷ pkg.module' ∷ pkg.main ∷ [])
            (λ entry. path_in-Found pkg.dir (truthy entry)))
          (ladder_at-Found (some pkg.dir))

    without_exports-Found :
        (pkg : PackageManifest) (subpath : String)
        → Found files (without_exports node pkg subpath files)
    unfolding without_exports
    without_exports-Found pkg subpath = elim (Bool-cases (subpath == "")) [
      | inl e ↦ rw e (main_entry-Found pkg)
      | inr e ↦ rw e (path_in-Found pkg.dir (some subpath))
    ]

    by_exports-Found :
        (pkg : PackageManifest) (subpath : String) (exports : Option Json)
        → Found files (by_exports node pkg subpath files exports)
    unfolding by_exports Found
    by_exports-Found pkg subpath none = without_exports-Found pkg subpath
    by_exports-Found pkg subpath (some exports) = elim (Bool-cases (subpath == "")) [
      | inl e ↦ rw e (or_next-Found _ _ (path_in-Found pkg.dir _) (main_entry-Found pkg))
      | inr e ↦ rw e (or_next-Found _ none (path_in-Found pkg.dir _) tt)
    ]

    pub resolve_package_entry_point-Found :
        (pkg : PackageManifest) (subpath : String)
        → Found files (resolve_package_entry_point node pkg subpath files)
    unfolding resolve_package_entry_point
    resolve_package_entry_point-Found pkg subpath = by_exports-Found pkg subpath pkg.exports
