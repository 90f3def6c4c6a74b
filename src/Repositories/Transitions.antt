-- ===== src/Repositories/Transitions.antt =====
-- `markDisconnected` and `markAccessLost` (repository.repository.ts), one after the other.
use ai_powered_github_pr_rev.Prelude.{
  String, ◌≡◌, refl, Bool, false, List, [], ◌∷◌, count, arith, if◌then◌else◌,
}
use ai_powered_github_pr_rev.Prelude.Equality.{text_equality}
use ai_powered_github_pr_rev.Database.{Prisma, change}
use ai_powered_github_pr_rev.Store.{
  Repository, Store, ok, is_active, is_disconnected, disconnected, access_lost,
}
use ai_powered_github_pr_rev.Repositories.{
  update_repositories, mark_disconnected, mark_access_lost, with_status,
}

-- A second update whose test no row meets after the first one finds nothing to do.
module _ (test later : Repository → Bool) (data' later_data : Repository → Repository)
    (never : (row : Repository) → later (if test row then data' row else row) ≡ false) where
  count-change : (rows : List Repository) → count later (change test data' rows) ≡ 0
  count-change [] = refl
  count-change (row ∷ rows) = rw (never row) (count-change rows)

  change-change :
      (rows : List Repository)
      → change later later_data (change test data' rows) ≡ change test data' rows
  change-change [] = refl
  change-change (row ∷ rows) = rw (never row, change-change rows) refl

  update-update :
      (db : Prisma) (s : Store)
      → let s' = (update_repositories db test data' s).0 in
        update_repositories db later later_data s' ≡ (s', ok 0)
  unfolding update_repositories
  update-update db s =
      rw
        (
          db.update_many_lem Repository test data' s.repositories,
          db.update_count_lem Repository later (change test data' s.repositories),
          db.update_many_lem Repository later later_data (change test data' s.repositories),
          count-change s.repositories,
          change-change s.repositories,
        )
        refl

module _ (db : Prisma) (project_id repository_id : String) (s : Store) where
  -- A repository that the user has disconnected cannot be disconnected again, nor lose access:
  -- either transition then changes no row and reports 0 rows.
  pub mark-mark_disconnected :
      let s' = (mark_disconnected db project_id repository_id s).0 in
      (mark_disconnected db project_id repository_id s' ≡ (s', ok 0))
      × (mark_access_lost db project_id repository_id s' ≡ (s', ok 0))
  unfolding mark_disconnected mark_access_lost is_disconnected is_active
  mark-mark_disconnected = (
    update-update _ _ (with_status disconnected) (with_status disconnected) (λ row. ground arith) db
        s,
    update-update _ _ (with_status disconnected) (with_status access_lost) (λ row. ground arith) db
        s,
  )
