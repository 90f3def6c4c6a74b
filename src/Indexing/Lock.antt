-- ===== src/Indexing/Lock.antt =====
-- apps/worker/src/indexing/persistence/repository.repository.ts: the lock on a repository, which is
-- its `indexStatus`, and the writes that release it.
pub mod Writes
pub mod Refinement
pub mod Exclusion
use ai_powered_github_pr_rev.Prelude.{
  ℕ, String, Bool, true, false, ◌&&◌, Option, none, some, List, map, nat_beq, ltb, ◌-◌,
}
use ai_powered_github_pr_rev.Prelude.Equality.{◌==◌, text_equality}
use ai_powered_github_pr_rev.Prelude.Int.{ℤ}
use ai_powered_github_pr_rev.Database.{Prisma}
use ai_powered_github_pr_rev.Indexing.Store.{
  IndexStatus, indexing, indexed, updating, partial, Repository, IndexStore, Step, Outcome, done,
  thrown, record_not_found,
}

-- `LOCKABLE_STATUSES`.
unfoldable pub is_lockable : IndexStatus → Bool
is_lockable IndexStatus.pending = true
is_lockable IndexStatus.failed = true
is_lockable indexed = true
is_lockable indexing = false
is_lockable updating = false
is_lockable partial = false

unfoldable pub is_pending : IndexStatus → Bool
is_pending IndexStatus.pending = true
is_pending IndexStatus.failed = false
is_pending indexed = false
is_pending indexing = false
is_pending updating = false
is_pending partial = false

pub record StalePendingRepository : Type 0 where
  pub id : String
  pub project_id : String

pub record IndexTarget : Type 0 where
  pub owner : String
  pub name : String
  pub default_branch : String
  pub installation_id : ℤ
  pub project_id : String
  pub indexed_commit_sha : Option String

pub record MarkIndexedInput : Type 0 where
  pub repository_id : String
  pub commit_sha : String
  pub indexed_file_count : ℕ
  pub skipped_file_count : ℕ

pub record MarkFailedInput : Type 0 where
  pub repository_id : String
  pub code : String
  pub message : String

-- The client sets `updatedAt` at every update.
abbrev pub locked_at : ℕ → Repository → Repository
locked_at now row = record row { index_status = indexing; updated_at = now }

abbrev pub indexed_as : ℕ → MarkIndexedInput → Repository → Repository
indexed_as now input row = record row {
  index_status = indexed;
  indexed_commit_sha = some input.commit_sha;
  last_indexed_at = some now;
  indexed_file_count = input.indexed_file_count;
  skipped_file_count = input.skipped_file_count;
  index_error = none;
  updated_at = now;
}

abbrev pub failed_as : ℕ → MarkFailedInput → Repository → Repository
failed_as now input row = record row {
  index_status = IndexStatus.failed;
  index_error = some (record { code = input.code; message = input.message; step = none });
  updated_at = now;
}

abbrev pub to_target : Repository → IndexTarget
to_target row = record {
  owner = row.owner;
  name = row.name;
  default_branch = row.default_branch;
  installation_id = row.installation_id;
  project_id = row.project_id;
  indexed_commit_sha = row.indexed_commit_sha;
}

abbrev pub to_target? : Option Repository → Option IndexTarget
to_target? none = none
to_target? (some row) = some (to_target row)

abbrev pub to_stale : Repository → StalePendingRepository
to_stale row = record { id = row.id; project_id = row.project_id }

abbrev pub written : IndexStore → Option (List Repository) → IndexStore × Outcome (Unit {0})
written s none = (s, thrown record_not_found)
written s (some rows) = (record s { repositories = rows }, done tt)

abbrev pub lock_test : String → Repository → Bool
lock_test repository_id row = row.id == repository_id && is_lockable row.index_status

-- `updatedAt < now - older`, which holds of no row when `older` is past `now`.
abbrev pub stale_test : ℕ → ℕ → Repository → Bool
stale_test now older row = is_pending row.index_status && ltb row.updated_at (now - older)

module _ (db : Prisma) where
  -- `prisma.repository.update` by identifier.
  unfoldable pub update_repository : String → (Repository → Repository) → Step (Unit {0})
  update_repository id data' s =
      written s (db.update Repository (λ row. row.id == id) data' s.repositories)

  unfoldable pub acquire_indexing_lock : ℕ → String → Step Bool
  acquire_indexing_lock now id s = (
    record s {
      repositories = db.update_many Repository (lock_test id) (locked_at now) s.repositories;
    },
    done (nat_beq (db.update_count Repository (lock_test id) s.repositories) 1),
  )

  unfoldable pub find_stale_pending : ℕ → ℕ → Step (List StalePendingRepository)
  find_stale_pending now older s =
      (s, done (map to_stale (db.find_many Repository (stale_test now older) s.repositories)))

  unfoldable pub find_index_target : String → Step (Option IndexTarget)
  find_index_target id s =
      (s, done (to_target? (db.find_unique Repository (λ row. row.id == id) s.repositories)))

  unfoldable pub mark_indexed : ℕ → MarkIndexedInput → Step (Unit {0})
  mark_indexed now input = update_repository input.repository_id (indexed_as now input)

  unfoldable pub mark_failed : ℕ → MarkFailedInput → Step (Unit {0})
  mark_failed now input = update_repository input.repository_id (failed_as now input)
