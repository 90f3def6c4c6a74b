-- ===== src/Indexing/Failure/Laws.antt =====
-- What `onFailure` (repository-index.ts) leaves in the database.
use ai_powered_github_pr_rev.Prelude.{ℕ, ◌≡◌, refl, String, none, some, filter}
use ai_powered_github_pr_rev.Prelude.Equality.{text_equality}
use ai_powered_github_pr_rev.Database.{Prisma, newest}
use ai_powered_github_pr_rev.Indexing.Store.{IndexStore, IndexJob, Repository, done}
use ai_powered_github_pr_rev.Indexing.ErrorCode.{IndexErrorCode, code_text, with_code}
use ai_powered_github_pr_rev.Indexing.ErrorCode.Laws.{parse_code-with_code}
use ai_powered_github_pr_rev.Indexing.Jobs.{
  JobError, failed_with, has_run_id, find_by_inngest_run_id,
}
use ai_powered_github_pr_rev.Indexing.Jobs
use ai_powered_github_pr_rev.Indexing.Jobs.Writes.{job_of, job_of-change_job, update_job_lem}
use ai_powered_github_pr_rev.Indexing.Lock
use ai_powered_github_pr_rev.Indexing.Lock.{MarkFailedInput, failed_as}
use ai_powered_github_pr_rev.Indexing.Lock.Writes.{row_of, update_repository_lem}
use ai_powered_github_pr_rev.Indexing.Run.Results.{row_change, row_of-row_change}
use ai_powered_github_pr_rev.Indexing.Failure.{fail_job, on_failure}

abbrev pub failure_input : String → IndexErrorCode → String → MarkFailedInput
failure_input id c message = record { repository_id = id; code = code_text c; message = message }

abbrev pub job_error : IndexErrorCode → String → JobError
job_error c message = record { code = code_text c; message = message; step = none }

module _ (db : Prisma) (now : ℕ) (id run_id message : String) (c : IndexErrorCode) (s : IndexStore)
    (row : Repository) (job : IndexJob) (found : row_of id s.repositories ≡ some row)
    (newest_is : newest
        (λ j. j.created_at)
        (filter (λ j. has_run_id run_id j.inngest_run_id) s.jobs)
      ≡ some job)
    (stored : job_of job.id s.jobs ≡ some job) where
  -- When a run has failed with a coded message, its repository is there, and a stored job is the
  -- newest of the run, onFailure succeeds and marks both FAILED, with the code and the message
  -- without its prefix as the error.
  pub on_failure-with_code :
      ((on_failure db now id run_id (with_code c message) s).1 ≡ done tt)
      × (row_of id (on_failure db now id run_id (with_code c message) s).0.repositories
          ≡ some (failed_as now (failure_input id c message) row))
      × (job_of job.id (on_failure db now id run_id (with_code c message) s).0.jobs
          ≡ some (failed_with now (job_error c message) job))
  unfolding on_failure fail_job Lock.mark_failed find_by_inngest_run_id Jobs.mark_failed
  on_failure-with_code =
      rw
        (
          parse_code-with_code c message,
          update_repository_lem db id (failed_as now (failure_input id c message)) s row found,
          db.find_newest_lem IndexJob (λ j. has_run_id run_id j.inngest_run_id) (λ j. j.created_at)
              s.jobs,
          newest_is,
          update_job_lem db job.id (failed_with now (job_error c message))
              (record s {
                repositories =
                    row_change id (failed_as now (failure_input id c message)) s.repositories;
              })
              job stored,
        )
        (
          refl,
          row_of-row_change id (failed_as now (failure_input id c message)) s.repositories row
              (λ r. refl) found,
          job_of-change_job job.id (failed_with now (job_error c message)) s.jobs job (λ j. refl)
              stored,
        )
