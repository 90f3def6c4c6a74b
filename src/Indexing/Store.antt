-- ===== src/Indexing/Store.antt =====
-- The columns of `Repository` and `IndexJob` (packages/db/prisma/schema.prisma) that indexing reads
-- and writes, the events that it sends, and the monad of its steps.
use ai_powered_github_pr_rev.Prelude.{ℕ, String, Option, List}
use ai_powered_github_pr_rev.Prelude.Int.{ℤ}

pub data IndexStatus : Type 0 where
  pending indexing indexed updating failed partial : IndexStatus

pub data IndexJobMode : Type 0 where
  full incremental : IndexJobMode

pub data IndexJobStatus : Type 0 where
  pending running succeeded failed : IndexJobStatus

-- The `indexError` and `error` columns; only a job's error may have a step.
pub record IndexError : Type 0 where
  pub code : String
  pub message : String
  pub step : Option String

pub record Repository : Type 0 where
  pub id : String
  pub project_id : String
  pub installation_id : ℤ
  pub owner : String
  pub name : String
  pub default_branch : String
  pub index_status : IndexStatus
  pub indexed_commit_sha : Option String
  pub indexed_file_count : ℕ
  pub skipped_file_count : ℕ
  pub last_indexed_at : Option ℕ
  pub index_error : Option IndexError
  pub updated_at : ℕ

pub record IndexJob : Type 0 where
  pub id : String
  pub repository_id : String
  pub mode : IndexJobMode
  pub status : IndexJobStatus
  pub target_commit_sha : Option String
  pub previous_commit_sha : Option String
  pub inngest_run_id : Option String
  pub files_total : ℕ
  pub files_processed : ℕ
  pub files_skipped : ℕ
  pub symbols_created : ℕ
  pub edges_created : ℕ
  pub current_step : Option String
  pub progress_percent : ℕ
  pub started_at : Option ℕ
  pub completed_at : Option ℕ
  pub error : Option IndexError
  pub attempts : ℕ
  pub created_at : ℕ

-- `repository.indexed` and `repository.index.requested`.
pub data IndexEvent : Type 0 where
  repository_indexed :
      (project_id repository_id commit_sha : String) (file_count duration_ms : ℕ) → IndexEvent
  repository_index_requested :
      (project_id repository_id : String) (mode : IndexJobMode) (reason index_job_id : String)
      → IndexEvent

pub record IndexStore : Type 0 where
  pub repositories : List Repository
  pub jobs : List IndexJob
  pub sent : List IndexEvent
  -- What `step.sleepUntil` was called with.
  pub sleeps : List ℕ

-- What a step throws: Inngest's `NonRetriableError`, an `Error` that Inngest retries, an error of
-- the database, or that of a send which Inngest does not acknowledge (it is retried too).
pub data RunError : Type 0 where
  non_retriable : String → RunError
  retriable : String → RunError
  record_not_found unique_violation send_failed : RunError

pub data Outcome {ℓ} (A : Type ℓ) : Type ℓ where
  done : A → Outcome A
  thrown : RunError → Outcome A

abbrev pub Step : Type 0 → Type 0
Step A = IndexStore → IndexStore × Outcome A

abbrev pub continue :
    {A B : Type 0} → (A → Step B) → IndexStore × Outcome A → IndexStore × Outcome B
continue f (s, done a) = f a s
continue f (s, thrown e) = (s, thrown e)

infixl 5 ◌>>=◌ ◌>>◌
abbrev pub ◌>>=◌ : {A B : Type 0} → Step A → (A → Step B) → Step B
◌>>=◌ m f s = continue f (m s)

abbrev pub ◌>>◌ : {B : Type 0} → Step (Unit {0}) → Step B → Step B
◌>>◌ m k s = continue (λ _. k) (m s)

abbrev pub pure : {A : Type 0} → A → Step A
pure a s = (s, done a)

abbrev pub throw : {A : Type 0} → RunError → Step A
throw e s = (s, thrown e)
