-- ===== src/Indexing/Lock/Writes.antt =====
-- The queries of repository.repository.ts as changes of the table's rows.
use ai_powered_github_pr_rev.Prelude.{
  ℕ, String, ◌≡◌, refl, Option, some, List, find, count, nat_beq, if◌then◌else◌,
}
use ai_powered_github_pr_rev.Prelude.Equality.{◌==◌, text_equality}
use ai_powered_github_pr_rev.Database.{Prisma, change}
use ai_powered_github_pr_rev.Database.Rows.{any-find, count_unique}
use ai_powered_github_pr_rev.Indexing.Store.{Repository, IndexStore, done}
use ai_powered_github_pr_rev.Indexing.Lock.{
  lock_test, locked_at, is_lockable, update_repository, acquire_indexing_lock, find_index_target,
  to_target,
}

abbrev pub row_of : String → List Repository → Option Repository
row_of id rows = find (λ row. row.id == id) rows

module _ (db : Prisma) where
  pub update_repository_lem :
      (id : String) (data' : Repository → Repository) (s : IndexStore) (row : Repository)
      → row_of id s.repositories ≡ some row
      → update_repository db id data' s
        ≡ (record s { repositories = change (λ row'. row'.id == id) data' s.repositories }, done tt)
  unfolding update_repository
  update_repository_lem id data' s row h =
      rw
        (
          db.update_lem Repository (λ row'. row'.id == id) data' s.repositories,
          any-find (λ row'. row'.id == id) s.repositories row h,
        )
        refl

  pub acquire_indexing_lock_lem :
      (now : ℕ) (id : String) (s : IndexStore)
      → acquire_indexing_lock db now id s ≡ (
        record s { repositories = change (lock_test id) (locked_at now) s.repositories },
        done (nat_beq (count (lock_test id) s.repositories) 1),
      )
  unfolding acquire_indexing_lock
  acquire_indexing_lock_lem now id s =
      rw
        (
          db.update_many_lem Repository (lock_test id) (locked_at now) s.repositories,
          db.update_count_lem Repository (lock_test id) s.repositories,
        )
        refl

  pub find_index_target_lem :
      (id : String) (s : IndexStore) (row : Repository)
      → row_of id s.repositories ≡ some row
      → find_index_target db id s ≡ (s, done (some (to_target row)))
  unfolding find_index_target
  find_index_target_lem id s row h =
      rw (db.find_unique_lem Repository (λ row'. row'.id == id) s.repositories, h) refl

-- How many rows of a unique identifier the lock's `where` finds.
pub count-lock_test :
    (id : String) (rows : List Repository) (row : Repository)
    → count (λ row'. row'.id == id) rows ≡ 1
    → row_of id rows ≡ some row
    → count (lock_test id) rows ≡ (if is_lockable row.index_status then 1 else 0)
count-lock_test id rows row =
    count_unique (λ row'. row'.id == id) (λ row'. is_lockable row'.index_status) rows row
