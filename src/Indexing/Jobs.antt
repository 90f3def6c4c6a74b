-- ===== src/Indexing/Jobs.antt =====
-- apps/worker/src/indexing/persistence/index-job.repository.ts

pub mod Writes
use ai_powered_github_pr_rev.Prelude.{ℕ, ◌+◌, String, Bool, Option, none, some, List, if◌then◌else◌}
use ai_powered_github_pr_rev.Prelude.Equality.{◌==◌, text_equality}
use ai_powered_github_pr_rev.Prelude.Texts.{truthy}
use ai_powered_github_pr_rev.Database.{Prisma}
use ai_powered_github_pr_rev.Indexing.Store.{
  IndexJobMode, IndexJobStatus, IndexError, IndexJob, IndexStore, Step, Outcome, done, thrown,
  record_not_found, unique_violation,
}

pub record CreateIndexJobInput : Type 0 where
  pub repository_id : String
  pub mode : IndexJobMode
  pub inngest_run_id : String
  pub id : Option String

pub record ProgressUpdate : Type 0 where
  pub current_step : String
  pub progress_percent : ℕ
  pub target_commit_sha : Option String
  pub previous_commit_sha : Option String
  pub files_total : Option ℕ
  pub files_processed : Option ℕ
  pub files_skipped : Option ℕ

pub record FinalCounts : Type 0 where
  pub files_total : ℕ
  pub files_processed : ℕ
  pub files_skipped : ℕ
  pub symbols_created : Option ℕ
  pub edges_created : Option ℕ

pub record JobError : Type 0 where
  pub code : String
  pub message : String
  pub step : Option String

-- A column that the update gives, else as it is: `...(x !== undefined ? { column: x } : {})`, and
-- `x ?? y`.
abbrev pub given {ℓ} : {A : Type ℓ} → Option A → A → A
given none old = old
given (some new) old = new

abbrev pub given? : Option String → Option String → Option String
given? none old = old
given? (some new) old = some new

-- `input.id ? { id: input.id } : {}`, and the column's default, a new identifier.
abbrev pub job_id : Option String → String → String
job_id none fresh = fresh
job_id (some id) fresh = if id == "" then fresh else id

abbrev pub new_job : ℕ → String → CreateIndexJobInput → IndexJob
new_job now fresh input = record {
  id = job_id input.id fresh;
  repository_id = input.repository_id;
  mode = input.mode;
  status = IndexJobStatus.running;
  target_commit_sha = none;
  previous_commit_sha = none;
  inngest_run_id = some input.inngest_run_id;
  files_total = 0;
  files_processed = 0;
  files_skipped = 0;
  symbols_created = 0;
  edges_created = 0;
  current_step = some "acquire-lock";
  progress_percent = 0;
  started_at = some now;
  completed_at = none;
  error = none;
  attempts = 1;
  created_at = now;
}

abbrev pub created : IndexJob → IndexStore → Option (List IndexJob) → IndexStore × Outcome IndexJob
created job s none = (s, thrown unique_violation)
created job s (some jobs) = (record s { jobs = jobs }, done job)

abbrev pub updated : IndexStore → Option (List IndexJob) → IndexStore × Outcome (Unit {0})
updated s none = (s, thrown record_not_found)
updated s (some jobs) = (record s { jobs = jobs }, done tt)

abbrev pub has_run_id : String → Option String → Bool
has_run_id run_id none = Bool.false
has_run_id run_id (some id) = id == run_id

abbrev pub progressed : ProgressUpdate → IndexJob → IndexJob
progressed update job = record job {
  current_step = some update.current_step;
  progress_percent = update.progress_percent;
  target_commit_sha = given? update.target_commit_sha job.target_commit_sha;
  previous_commit_sha = given? update.previous_commit_sha job.previous_commit_sha;
  files_total = given update.files_total job.files_total;
  files_processed = given update.files_processed job.files_processed;
  files_skipped = given update.files_skipped job.files_skipped;
}

abbrev pub succeeded_with : ℕ → FinalCounts → IndexJob → IndexJob
succeeded_with now counts job = record job {
  status = IndexJobStatus.succeeded;
  current_step = some "completed";
  progress_percent = 100;
  completed_at = some now;
  files_total = counts.files_total;
  files_processed = counts.files_processed;
  files_skipped = counts.files_skipped;
  symbols_created = given counts.symbols_created job.symbols_created;
  edges_created = given counts.edges_created job.edges_created;
}

abbrev pub failed_with : ℕ → JobError → IndexJob → IndexJob
failed_with now error job = record job {
  status = IndexJobStatus.failed;
  current_step = some (given error.step "failed");
  completed_at = some now;
  error = some (record { code = error.code; message = error.message; step = truthy error.step });
}

abbrev pub succeeded_no_op : ℕ → IndexJob → IndexJob
succeeded_no_op now job = record job {
  status = IndexJobStatus.succeeded;
  current_step = some "no-op-already-indexed";
  progress_percent = 100;
  completed_at = some now;
}

module _ (db : Prisma) where
  -- `prisma.indexJob.update` by identifier.
  unfoldable pub update_job : String → (IndexJob → IndexJob) → Step (Unit {0})
  update_job id data' s = updated s (db.update IndexJob (λ job. job.id == id) data' s.jobs)

  unfoldable pub create_index_job : ℕ → String → CreateIndexJobInput → Step IndexJob
  create_index_job now fresh input s =
      let job = new_job now fresh input in
      created job s (db.create IndexJob (λ other. other.id == job.id) job s.jobs)

  unfoldable pub find_by_inngest_run_id : String → Step (Option IndexJob)
  find_by_inngest_run_id run_id s = (
    s,
    done (
        db.find_newest IndexJob (λ job. has_run_id run_id job.inngest_run_id)
          (λ job. job.created_at) s.jobs),
  )

  unfoldable pub increment_attempts : String → Step (Unit {0})
  increment_attempts id = update_job id (λ job. record job { attempts = job.attempts + 1 })

  unfoldable pub update_progress : String → ProgressUpdate → Step (Unit {0})
  update_progress id update = update_job id (progressed update)

  unfoldable pub mark_succeeded : ℕ → String → FinalCounts → Step (Unit {0})
  mark_succeeded now id counts = update_job id (succeeded_with now counts)

  unfoldable pub mark_failed : ℕ → String → JobError → Step (Unit {0})
  mark_failed now id error = update_job id (failed_with now error)

  unfoldable pub mark_succeeded_no_op : ℕ → String → Step (Unit {0})
  mark_succeeded_no_op now id = update_job id (succeeded_no_op now)
