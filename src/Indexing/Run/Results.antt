-- ===== src/Indexing/Run/Results.antt =====
-- What a run of `repositoryIndex` (repository-index.ts) leaves in the database, from its lock to its
-- last write.
use ai_powered_github_pr_rev.Prelude.ListLaws.{find_holds}
use ai_powered_github_pr_rev.Prelude.{◌≡◌, refl, String, none, some, List, [], ◌∷◌, ◌++◌, arith}
use ai_powered_github_pr_rev.Prelude.Equality.{◌==◌, text_equality}
use ai_powered_github_pr_rev.Database.{Prisma, change}
use ai_powered_github_pr_rev.Database.Rows.{find-change}
use ai_powered_github_pr_rev.Indexing.Store.{
  IndexEvent, repository_indexed, IndexStore, IndexJob, Repository,
}
use ai_powered_github_pr_rev.Indexing.Counts.{IndexResult}
use ai_powered_github_pr_rev.Indexing.Jobs.{
  FinalCounts, ProgressUpdate, progressed, succeeded_with, update_progress, mark_succeeded,
}
use ai_powered_github_pr_rev.Indexing.Jobs.Writes.{
  job_of, change_job, job_of-change_job, update_job_lem,
}
use ai_powered_github_pr_rev.Indexing.Lock.{MarkIndexedInput, indexed_as, mark_indexed}
use ai_powered_github_pr_rev.Indexing.Lock.Writes.{row_of, update_repository_lem}
use ai_powered_github_pr_rev.Webhook.Emit.{SendResult}
use ai_powered_github_pr_rev.Indexing.Send.{
  taken_events, outcome_of_send, send_events_lem, continue-pure,
}
use ai_powered_github_pr_rev.Indexing.Run.{
  Run, index_completed, announce, settle_job, settle_repository, persist_result, send_event,
}

-- The rows of a repository and of a job in a store.
pub record Holds (id : String) (row : Repository) (job_id : String) (job : IndexJob)
    (s : IndexStore) : Type 0 where
  pub row_is : row_of id s.repositories ≡ some row
  pub job_is : job_of job_id s.jobs ≡ some job

abbrev pub final_counts : IndexResult → FinalCounts
final_counts r = record {
  files_total = r.files_total;
  files_processed = r.files_processed;
  files_skipped = r.files_skipped;
  symbols_created = some r.symbols_created;
  edges_created = some r.edges_created;
}

abbrev pub result_progress : IndexResult → ProgressUpdate
result_progress r = record {
  current_step = "persisted";
  progress_percent = 90;
  target_commit_sha = none;
  previous_commit_sha = none;
  files_total = some r.files_total;
  files_processed = some r.files_processed;
  files_skipped = some r.files_skipped;
}

abbrev pub indexed_input : String → String → IndexResult → MarkIndexedInput
indexed_input id sha r = record {
  repository_id = id;
  commit_sha = sha;
  indexed_file_count = r.files_indexed;
  skipped_file_count = r.files_skipped;
}

abbrev pub row_change : String → (Repository → Repository) → List Repository → List Repository
row_change id data' rows = change (λ row. row.id == id) data' rows

pub row_of-row_change :
    (id : String) (data' : Repository → Repository) (rows : List Repository) (row : Repository)
    → ((r : Repository) → (data' r).id ≡ r.id)
    → row_of id rows ≡ some row
    → row_of id (row_change id data' rows) ≡ some (data' row)
row_of-row_change id data' rows row same h =
    rw
      (
        find-change (λ r. r.id == id) (λ r. r.id == id) data' (λ r. ground (arith, same r)) rows,
        h,
        find_holds (λ r. r.id == id) rows row h,
      )
      refl

abbrev pub indexed_event : Run → String → IndexResult → IndexEvent
indexed_event run sha r = repository_indexed run.project_id run.repository_id sha r.files_indexed 0

-- Inngest's answer to the event.
abbrev pub announced : Run → String → IndexResult → SendResult
announced run sha r = run.inngest (indexed_event run sha r ∷ [])

module _ (db : Prisma) (run : Run) where
  pub announce_lem :
      (sha : String) (r : IndexResult) (s : IndexStore)
      → announce db run sha r s ≡ (
        record s {
          sent = s.sent ++ taken_events (announced run sha r) (indexed_event run sha r ∷ []);
        },
        outcome_of_send (announced run sha r) (index_completed sha r),
      )
  unfolding announce send_event
  announce_lem sha r s = rw (send_events_lem run.inngest (indexed_event run sha r ∷ []) s) (
      continue-pure (announced run sha r)
        (record s {
          sent = s.sent ++ taken_events (announced run sha r) (indexed_event run sha r ∷ []);
        })
        (index_completed sha r))

  -- From the counts of the first job update to the event.
  pub persist_result_lem :
      (job_id sha : String) (r : IndexResult) (s : IndexStore) (row : Repository) (job : IndexJob)
      → Holds run.repository_id row job_id job s
      → persist_result db run job_id sha r s ≡ (
        record s {
          jobs =
              change_job job_id
                (succeeded_with (run.now 3) (final_counts r))
                (change_job job_id (progressed (result_progress r)) s.jobs);
          repositories =
              row_change run.repository_id
                (indexed_as (run.now 2) (indexed_input run.repository_id sha r))
                s.repositories;
          sent = s.sent ++ taken_events (announced run sha r) (indexed_event run sha r ∷ []);
        },
        outcome_of_send (announced run sha r) (index_completed sha r),
      )
  unfolding persist_result settle_repository settle_job update_progress mark_indexed mark_succeeded
  persist_result_lem job_id sha r s row job h =
      rw
        (
          update_job_lem db job_id (progressed (result_progress r)) s job h.job_is,
          update_repository_lem db run.repository_id
              (indexed_as (run.now 2) (indexed_input run.repository_id sha r))
              (record s { jobs = change_job job_id (progressed (result_progress r)) s.jobs }) row
              h.row_is,
          update_job_lem db job_id (succeeded_with (run.now 3) (final_counts r))
              (record s {
                jobs = change_job job_id (progressed (result_progress r)) s.jobs;
                repositories =
                    row_change run.repository_id
                      (indexed_as (run.now 2) (indexed_input run.repository_id sha r))
                      s.repositories;
              })
              (progressed (result_progress r) job)
              (job_of-change_job job_id (progressed (result_progress r)) s.jobs job (λ j. refl)
                h.job_is),
        )
        (announce_lem sha r _)
