-- ===== src/Indexing/Failure.antt =====
-- `onFailure` of apps/worker/src/inngest/functions/repository-index.ts.
pub mod Laws
use ai_powered_github_pr_rev.Prelude.{ℕ, String, Option, none, some}
use ai_powered_github_pr_rev.Database.{Prisma}
use ai_powered_github_pr_rev.Indexing.Store.{IndexJob, Step, ◌>>=◌, ◌>>◌, pure}
use ai_powered_github_pr_rev.Indexing.ErrorCode.{CodedMessage, parsed_code_text, parse_code}
use ai_powered_github_pr_rev.Indexing.Jobs
use ai_powered_github_pr_rev.Indexing.Jobs.{find_by_inngest_run_id}
use ai_powered_github_pr_rev.Indexing.Lock

module _ (db : Prisma) (now : ℕ) where
  unfoldable pub fail_job : CodedMessage → Option IndexJob → Step (Unit {0})
  fail_job error none = pure tt
  fail_job error (some job) =
      Jobs.mark_failed db now job.id
        (record { code = parsed_code_text error.code; message = error.message; step = none })

  -- The run's event is of `repository_id`, and its error has the message.
  unfoldable pub on_failure : (repository_id run_id message : String) → Step (Unit {0})
  unfolding fail_job
  on_failure repository_id run_id message = do
    Lock.mark_failed db now (record {
      repository_id = repository_id;
      code = parsed_code_text (parse_code message).code;
      message = (parse_code message).message;
    })
    job ← find_by_inngest_run_id db run_id
    fail_job (parse_code message) job
