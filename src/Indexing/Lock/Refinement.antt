-- ===== src/Indexing/Lock/Refinement.antt =====
-- `acquireIndexingLock`, `markIndexed` and `markFailed` (repository.repository.ts) against a lock.
use ai_powered_github_pr_rev.Prelude.ListLaws.{find_holds}
use ai_powered_github_pr_rev.Prelude.{
  ℕ, String, ◌≡◌, refl, Bool, true, false, Option, none, some, count, arith, if◌then◌else◌,
}
use ai_powered_github_pr_rev.Prelude.Equality.{◌==◌, text_equality}
use ai_powered_github_pr_rev.Database.{Prisma}
use ai_powered_github_pr_rev.Database.Rows.{find-change}
use ai_powered_github_pr_rev.Indexing.Store.{Repository, IndexStore, done}
use ai_powered_github_pr_rev.Indexing.Lock.{
  MarkIndexedInput, MarkFailedInput, lock_test, locked_at, indexed_as, failed_as, is_lockable,
  acquire_indexing_lock, mark_indexed, mark_failed, update_repository,
}
use ai_powered_github_pr_rev.Indexing.Lock.Writes.{
  row_of, update_repository_lem, acquire_indexing_lock_lem, count-lock_test,
}

-- The abstract lock: one that is taken is refused, and a release frees it whoever has it.
pub data Lock : Type 0 where
  free held : Lock

abbrev pub take : Lock → Lock × Bool
take free = (held, true)
take held = (held, false)

abbrev pub lock_of_row : Option Repository → Lock
lock_of_row none = held
lock_of_row (some row) = if is_lockable row.index_status then free else held

-- The lock of a repository, which is held for ever when there is no such row.
abbrev pub lock_of : String → IndexStore → Lock
lock_of id s = lock_of_row (row_of id s.repositories)

module _ (db : Prisma) (now : ℕ) (id : String) (s : IndexStore) (row : Repository)
    (unique : count (λ row'. row'.id == id) s.repositories ≡ 1)
    (found : row_of id s.repositories ≡ some row) where
  acquire-refines :
      (lock_of id (acquire_indexing_lock db now id s).0 ≡ (take (lock_of id s)).0)
      × ((acquire_indexing_lock db now id s).1 ≡ done (take (lock_of id s)).1)
  unfolding is_lockable
  acquire-refines =
      rw
        (
          acquire_indexing_lock_lem db now id s,
          count-lock_test id s.repositories row unique found,
          find-change (λ row'. row'.id == id) (lock_test id) (locked_at now) (λ r. ground arith)
              s.repositories,
          found,
        )
        (ground (arith, find_holds (λ row'. row'.id == id) s.repositories row found))

  write-frees :
      (data' : Repository → Repository)
      → ((r : Repository) → (data' r).id ≡ r.id)
      → ((r : Repository) → is_lockable (data' r).index_status ≡ true)
      → ((update_repository db id data' s).1 ≡ done tt)
        × (lock_of id (update_repository db id data' s).0 ≡ free)
  write-frees data' same_id frees =
      rw
        (
          update_repository_lem db id data' s row found,
          find-change (λ row'. row'.id == id) (λ row'. row'.id == id) data'
              (λ r. ground (arith, same_id r)) s.repositories,
          found,
          find_holds (λ row'. row'.id == id) s.repositories row found,
          frees row,
        )
        (refl, refl)

  -- The lock on a repository whose row is the only one of its identifier implements an abstract
  -- lock, which is free when the status can be locked: acquiring it says whether it was free and
  -- leaves it held, and marking the repository indexed or failed succeeds and frees it.
  pub lock_refinement :
      (completed : MarkIndexedInput) (failure : MarkFailedInput)
      → (lock_of id (acquire_indexing_lock db now id s).0 ≡ (take (lock_of id s)).0)
        × ((acquire_indexing_lock db now id s).1 ≡ done (take (lock_of id s)).1)
        × ((mark_indexed db now (record completed { repository_id = id }) s).1 ≡ done tt)
        × (lock_of id (mark_indexed db now (record completed { repository_id = id }) s).0 ≡ free)
        × ((mark_failed db now (record failure { repository_id = id }) s).1 ≡ done tt)
        × (lock_of id (mark_failed db now (record failure { repository_id = id }) s).0 ≡ free)
  unfolding mark_indexed mark_failed is_lockable
  lock_refinement completed failure =
      let indexed =
        write-frees (indexed_as now (record completed { repository_id = id })) (λ r. refl)
          (λ r. refl) in
      let failed =
        write-frees (failed_as now (record failure { repository_id = id })) (λ r. refl)
          (λ r. refl) in
      (acquire-refines.0, acquire-refines.1, indexed.0, indexed.1, failed.0, failed.1)
