-- ===== src/Indexing/Run/Begin.antt =====
-- The beginning of a run of `repositoryIndex` (repository-index.ts): the lock, the job and the attempt.
use ai_powered_github_pr_rev.Prelude.ListLaws.{find_holds}
use ai_powered_github_pr_rev.Prelude.{
  ◌+◌, ◌≡◌, refl, ◌∙◌, true, false, some, List, [], ◌∷◌, ◌++◌, any, count, arith, if◌then◌else◌,
  ltb, Bool-cases, inl, inr, eq_iff,
}
use ai_powered_github_pr_rev.Prelude.Equality.{◌==◌, text_equality}
use ai_powered_github_pr_rev.Database.{Prisma, change}
use ai_powered_github_pr_rev.Database.Rows.{find-change, find-append, count-change}
use ai_powered_github_pr_rev.Indexing.Store.{IndexStore, IndexJob, Repository}
use ai_powered_github_pr_rev.Indexing.Jobs.{new_job, increment_attempts}
use ai_powered_github_pr_rev.Indexing.Jobs.Writes.{
  job_of, change_job, job_of-change_job, update_job_lem, create_index_job_lem,
}
use ai_powered_github_pr_rev.Indexing.Lock.{lock_test, locked_at, is_lockable}
use ai_powered_github_pr_rev.Indexing.Lock.Writes.{
  row_of, acquire_indexing_lock_lem, count-lock_test,
}
use ai_powered_github_pr_rev.Indexing.Run.{
  Run, record_attempt, resolve_target, after_job, after_lock, repository_index, job_input,
}
use ai_powered_github_pr_rev.Indexing.Run.Results.{Holds}

abbrev pub job_of_run : Run → IndexJob
job_of_run run = new_job (run.now 1) run.fresh_id (job_input run)

-- The job as a retried run counts it.
abbrev pub attempted : Run → IndexJob → IndexJob
attempted run job = if ltb 0 run.attempt then record job { attempts = job.attempts + 1 } else job

module _ (db : Prisma) (run : Run) where
  -- What has happened when the handler turns to the target: the lock is taken and the job is there.
  pub record Begun (s : IndexStore) (row : Repository) : Type 0 where
    pub store : IndexStore
    pub holds :
        Holds run.repository_id
          (locked_at (run.now 0) row)
          (job_of_run run).id
          (attempted run (job_of_run run))
          store
    pub same_sent : store.sent ≡ s.sent
    pub same_sleeps : store.sleeps ≡ s.sleeps
    pub none_lockable : count (lock_test run.repository_id) store.repositories ≡ 0
    pub continues : repository_index db run s ≡ resolve_target db run (job_of_run run).id store

  module _ (s : IndexStore) (row : Repository)
      (unique : count (λ r. r.id == run.repository_id) s.repositories ≡ 1)
      (found : row_of run.repository_id s.repositories ≡ some row) where
    module _ (lockable : is_lockable row.index_status ≡ true)
        (new : any (λ job. job.id == (job_of_run run).id) s.jobs ≡ false) where
      abbrev locked : List Repository
      locked = change (lock_test run.repository_id) (locked_at (run.now 0)) s.repositories

      locked_row : row_of run.repository_id locked ≡ some (locked_at (run.now 0) row)
      locked_row =
          rw
            (
              find-change (λ r. r.id == run.repository_id) (lock_test run.repository_id)
                  (locked_at (run.now 0)) (λ r. ground arith) s.repositories,
              found,
              find_holds (λ r. r.id == run.repository_id) s.repositories row found,
              lockable,
            )
            refl

      none_left : count (lock_test run.repository_id) locked ≡ 0
      unfolding is_lockable
      none_left =
          count-change (lock_test run.repository_id) (lock_test run.repository_id)
            (locked_at (run.now 0)) (λ r. ground arith) s.repositories

      abbrev with_job : List IndexJob
      with_job = s.jobs ++ (job_of_run run) ∷ []

      own_job : job_of (job_of_run run).id with_job ≡ some (job_of_run run)
      own_job =
          find-append (λ job. job.id == (job_of_run run).id) s.jobs (job_of_run run) new
            ((eq_iff (job_of_run run).id (job_of_run run).id).1 refl)

      reached :
          repository_index db run s
          ≡ after_job db run (job_of_run run) (record s { repositories = locked; jobs = with_job })
      unfolding repository_index after_lock
      reached =
          rw
            (
              acquire_indexing_lock_lem db (run.now 0) run.repository_id s,
              count-lock_test run.repository_id s.repositories row unique found,
              lockable,
              create_index_job_lem db (run.now 1) run.fresh_id (job_input run)
                  (record s { repositories = locked }) new,
            )
            refl

      pub begun : Begun s row
      unfolding after_job record_attempt increment_attempts
      begun = elim (Bool-cases (ltb 0 run.attempt)) [
        | inr e ↦ record {
          store = record s { repositories = locked; jobs = with_job };
          holds = record { row_is = locked_row; job_is = rw e own_job };
          same_sent = refl;
          same_sleeps = refl;
          none_lockable = none_left;
          continues = reached ∙ rw e refl;
        }
        | inl e ↦ record {
          store = record s {
            repositories = locked;
            jobs =
                change_job (job_of_run run).id (λ job. record job { attempts = job.attempts + 1 })
                  with_job;
          };
          holds = record {
            row_is = locked_row;
            job_is = rw e (
                job_of-change_job (job_of_run run).id
                  (λ job. record job { attempts = job.attempts + 1 }) with_job (job_of_run run)
                  (λ j. refl) own_job);
          };
          same_sent = refl;
          same_sleeps = refl;
          none_lockable = none_left;
          continues =
              reached
              ∙ rw
                  (
                    e,
                    update_job_lem db (job_of_run run).id
                        (λ job. record job { attempts = job.attempts + 1 })
                        (record s { repositories = locked; jobs = with_job }) (job_of_run run)
                        own_job,
                  )
                  refl;
        }
      ]
