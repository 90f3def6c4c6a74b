-- ===== src/Indexing/Run/Endings.antt =====
-- How a run of `repositoryIndex` (repository-index.ts) ends: with an index, with nothing to do, or at
-- the lock.
use ai_powered_github_pr_rev.Prelude.{
  ℕ, ◌+◌, ◌≡◌, ◌≤◌, ◌<◌, refl, ap, ◌∙◌, String, true, false, none, some, List, [], ◌∷◌, ◌++◌,
  length, any, count, arith,
}
use ai_powered_github_pr_rev.Prelude.Equality.{◌==◌, text_equality}
use ai_powered_github_pr_rev.Database.{Prisma}
use ai_powered_github_pr_rev.Database.Rows.{change-none}
use ai_powered_github_pr_rev.Github.Failure.{commit, get_head_commit}
use ai_powered_github_pr_rev.Indexing.Store.{IndexStore, IndexJob, Repository, Outcome, done}
use ai_powered_github_pr_rev.Indexing.Counts.{IndexResult, completed}
use ai_powered_github_pr_rev.Indexing.Jobs.{
  ProgressUpdate, progressed, succeeded_with, succeeded_no_op, update_progress,
  mark_succeeded_no_op,
}
use ai_powered_github_pr_rev.Indexing.Jobs.Writes.{
  job_of, change_job, job_of-change_job, update_job_lem,
}
use ai_powered_github_pr_rev.Indexing.Lock.{
  lock_test, locked_at, indexed_as, is_lockable, acquire_indexing_lock, to_target,
}
use ai_powered_github_pr_rev.Indexing.Lock.Writes.{
  row_of, acquire_indexing_lock_lem, find_index_target_lem, count-lock_test,
}
use ai_powered_github_pr_rev.Indexing.Send.{taken_events, outcome_of_send}
use ai_powered_github_pr_rev.Indexing.Run.{
  Run, RunResult, already_indexing, already_indexed, index_completed, index_commit, is_commit,
  after_commit, after_target, after_lock, resolve_target, repository_index, max_rate_limit_sleeps,
}
use ai_powered_github_pr_rev.Indexing.Run.Waits.{is_rate_limited, answer, downloaded}
use ai_powered_github_pr_rev.Indexing.Run.Results.{
  announced, indexed_event, Holds, final_counts, result_progress, indexed_input, row_of-row_change,
  persist_result_lem,
}
use ai_powered_github_pr_rev.Indexing.Run.Begin.{job_of_run, attempted, Begun, begun}

abbrev pub target_progress : String → ProgressUpdate
target_progress sha = record {
  current_step = "resolve-sha";
  progress_percent = 10;
  target_commit_sha = some sha;
  previous_commit_sha = none;
  files_total = none;
  files_processed = none;
  files_skipped = none;
}

-- A store and result that a run ends with, which began at `s` and slept `k` times.
pub record Indexed (run : Run) (sha : String) (r : IndexResult) (k : ℕ) (job_id : String)
    (row : Repository) (job : IndexJob) (s : IndexStore) (end : IndexStore × Outcome RunResult)
    : Type 0 where
  pub result : end.1 ≡ outcome_of_send (announced run sha r) (index_completed sha r)
  pub row_is :
      row_of run.repository_id end.0.repositories
      ≡ some (indexed_as (run.now 2) (indexed_input run.repository_id sha r) row)
  pub job_is :
      job_of job_id end.0.jobs
      ≡ some (
          succeeded_with
            (run.now 3)
            (final_counts r)
            (progressed (result_progress r) (progressed (target_progress sha) job)))
  pub sent_is :
      end.0.sent ≡ s.sent ++ taken_events (announced run sha r) (indexed_event run sha r ∷ [])
  pub slept : length end.0.sleeps ≡ length s.sleeps + k

length-append : {A : Type 0} (xs ys : List A) → length (xs ++ ys) ≡ length xs + length ys
length-append [] ys = omega arith
length-append (x ∷ xs) ys = omega (arith, length-append xs ys)

module _ (db : Prisma) (run : Run) (k : ℕ) (r : IndexResult) (few : k ≤ max_rate_limit_sleeps)
    (limited : (i : ℕ) → i < k → is_rate_limited (answer run i) ≡ true)
    (fetched : answer run k ≡ completed r) where
  index_commit-Indexed :
      (job_id sha : String) (s : IndexStore) (row : Repository) (job : IndexJob)
      → Holds run.repository_id row job_id job s
      → Indexed run sha r k job_id row job s (index_commit db run job_id sha s)
  unfolding index_commit update_progress
  index_commit-Indexed job_id sha s row job h =
      let s1 : IndexStore = record s {
        jobs = change_job job_id (progressed (target_progress sha)) s.jobs;
      } in
      let (slept, many, e) = downloaded db run s1 k r few limited fetched in
      let job1 =
        job_of-change_job job_id (progressed (target_progress sha)) s.jobs job (λ j. refl)
          h.job_is in
      rw
        (
          update_job_lem db job_id (progressed (target_progress sha)) s job h.job_is,
          e,
          persist_result_lem db run job_id sha r (record s1 { sleeps = s.sleeps ++ slept }) row
              (progressed (target_progress sha) job) (record { row_is = h.row_is; job_is = job1 }),
        )
        (record {
          result = refl;
          row_is =
              row_of-row_change run.repository_id
                (indexed_as (run.now 2) (indexed_input run.repository_id sha r)) s.repositories row
                (λ x. refl) h.row_is;
          job_is =
              job_of-change_job job_id (succeeded_with (run.now 3) (final_counts r)) _ _ (λ j. refl)
                (job_of-change_job job_id (progressed (result_progress r)) _ _ (λ j. refl) job1);
          sent_is = refl;
          slept = length-append s.sleeps slept ∙ ap (λ n. length s.sleeps + n) many;
        })

module _ (db : Prisma) (run : Run) (s : IndexStore) (row : Repository)
    (unique : count (λ x. x.id == run.repository_id) s.repositories ≡ 1)
    (found : row_of run.repository_id s.repositories ≡ some row) where
  module _ (sha : String) (lockable : is_lockable row.index_status ≡ true)
      (new : any (λ job. job.id == (job_of_run run).id) s.jobs ≡ false)
      (head : get_head_commit (run.head row.installation_id row.owner row.name row.default_branch)
        ≡ commit sha) where
    after_begin :
        (b : Begun db run s row)
        → resolve_target db run (job_of_run run).id b.store
          ≡ after_commit db run
              (job_of_run run).id
              (to_target (locked_at (run.now 0) row))
              (commit sha)
              b.store
    unfolding resolve_target after_target
    after_begin b =
        rw
          (
            find_index_target_lem db run.repository_id b.store (locked_at (run.now 0) row)
                b.holds.row_is,
            head,
          )
          refl

    -- Let the repository's row be the only one of its identifier and in a status that can be
    -- locked, the job's identifier be new, and GitHub name a branch commit other than the indexed
    -- one. If the first k fetches, k at most 5, meet a rate limit and the next one succeeds, then
    -- the row is INDEXED at the commit with its counts and without an error, the job has
    -- SUCCEEDED with the counts and the commit, and the run has slept k times. If Inngest
    -- acknowledges repository.indexed, it is sent once and the run completes with the result;
    -- else the run throws an error that is retried, with the event sent only where the answer
    -- came too late.
    pub repository_index-Indexed :
        (k : ℕ) (r : IndexResult)
        → is_commit row.indexed_commit_sha sha ≡ false
        → k ≤ max_rate_limit_sleeps
        → ((i : ℕ) → i < k → is_rate_limited (answer run i) ≡ true)
        → answer run k ≡ completed r
        → Indexed run sha r k
            (job_of_run run).id
            (locked_at (run.now 0) row)
            (attempted run (job_of_run run))
            s
            (repository_index db run s)
    unfolding after_commit
    repository_index-Indexed k r moved few limited fetched =
        let b = begun db run s row unique found lockable new in
        let end =
          index_commit-Indexed db run k r few limited fetched (job_of_run run).id sha b.store
            (locked_at (run.now 0) row) (attempted run (job_of_run run)) b.holds in
        rw (b.continues, after_begin b, moved)
          (record {
            result = end.result;
            row_is = end.row_is;
            job_is = end.job_is;
            sent_is =
                end.sent_is
                ∙ ap (λ x. x ++ taken_events (announced run sha r) (indexed_event run sha r ∷ []))
                    b.same_sent;
            slept = end.slept ∙ ap (λ x. length x + k) b.same_sleeps;
          })

    -- A run that takes the lock, creates its job, and finds the branch at the indexed commit
    -- reports ALREADY_INDEXED and marks its job SUCCEEDED, sends nothing, and leaves the
    -- repository INDEXING, so that the lock is refused at any later time. The row is the only one
    -- of its identifier and the job's identifier is new.
    pub repository_index-up_to_date :
        (later : ℕ)
        → is_commit row.indexed_commit_sha sha ≡ true
        → ((repository_index db run s).1 ≡ done (already_indexed sha))
          × (job_of (job_of_run run).id (repository_index db run s).0.jobs
              ≡ some (succeeded_no_op (run.now 4) (attempted run (job_of_run run))))
          × (row_of run.repository_id (repository_index db run s).0.repositories
              ≡ some (locked_at (run.now 0) row))
          × ((repository_index db run s).0.sent ≡ s.sent)
          × ((acquire_indexing_lock db later run.repository_id (repository_index db run s).0).1
              ≡ done false)
    unfolding after_commit mark_succeeded_no_op
    repository_index-up_to_date later same =
        let b = begun db run s row unique found lockable new in
        rw
          (
            b.continues,
            after_begin b,
            same,
            update_job_lem db (job_of_run run).id (succeeded_no_op (run.now 4)) b.store
                (attempted run (job_of_run run)) b.holds.job_is,
          )
          (
            refl,
            job_of-change_job (job_of_run run).id (succeeded_no_op (run.now 4)) b.store.jobs
                (attempted run (job_of_run run)) (λ j. refl) b.holds.job_is,
            b.holds.row_is,
            b.same_sent,
            rw
                (
                  acquire_indexing_lock_lem db later run.repository_id (record b.store {
                    jobs =
                        change_job (job_of_run run).id (succeeded_no_op (run.now 4)) b.store.jobs;
                  }),
                  b.none_lockable,
                )
                refl,
          )

  -- A run on a repository whose row is the only one of its identifier and in a status that cannot
  -- be locked returns ALREADY_INDEXING and changes nothing.
  pub repository_index-busy :
      is_lockable row.index_status ≡ false → repository_index db run s ≡ (s, done already_indexing)
  unfolding repository_index after_lock
  repository_index-busy locked =
      let zero_rows : count (lock_test run.repository_id) s.repositories ≡ 0 =
        rw (count-lock_test run.repository_id s.repositories row unique found, locked) refl in
      rw
        (
          acquire_indexing_lock_lem db (run.now 0) run.repository_id s,
          zero_rows,
          change-none (lock_test run.repository_id) (locked_at (run.now 0)) s.repositories
              zero_rows,
        )
        refl
