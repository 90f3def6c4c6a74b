-- ===== src/Indexing/Run/Codes.antt =====
-- The errors that the handler throws (repository-index.ts), and what `onFailure` writes of them.
use ai_powered_github_pr_rev.Prelude.{
  ℕ, zero, suc, ◌≡◌, refl, String, Bool, true, false, Option, none, some, Bool-cases, inl, inr, ltb,
}
use ai_powered_github_pr_rev.Database.{Prisma}
use ai_powered_github_pr_rev.Github.Failure.{
  CommitResult, commit, no_commit, not_accessible, unavailable, unauthenticated,
}
use ai_powered_github_pr_rev.Indexing.Store.{
  IndexStore, IndexJob, RunError, pure, non_retriable, retriable, record_not_found,
  unique_violation, send_failed, Outcome, done, thrown, Step, continue, ◌>>=◌, ◌>>◌,
}
use ai_powered_github_pr_rev.Indexing.ErrorCode.{
  IndexErrorCode, repo_not_found, unsafe_archive, repo_too_large, access_revoked,
  tarball_download_failed, with_code, parse_code, known,
}
use ai_powered_github_pr_rev.Indexing.ErrorCode.Laws.{parse_code-with_code}
use ai_powered_github_pr_rev.Indexing.Counts
use ai_powered_github_pr_rev.Indexing.Counts.{
  IndexAnswer, IndexResult, completed, stopped_not_found, stopped_unsafe_redirect, raised,
  github_rate_limit,
}
use ai_powered_github_pr_rev.Indexing.Jobs.{
  create_index_job, update_job, updated, created, increment_attempts, update_progress,
  mark_succeeded, mark_succeeded_no_op,
}
use ai_powered_github_pr_rev.Indexing.Lock.{
  IndexTarget, update_repository, written, acquire_indexing_lock, find_index_target, mark_indexed,
}
use ai_powered_github_pr_rev.Webhook.Emit.{SendResult, acknowledged, refused, timed_out}
use ai_powered_github_pr_rev.Indexing.Send.{outcome_of_send}
use ai_powered_github_pr_rev.Indexing.Run.Results.{announce_lem}
use ai_powered_github_pr_rev.Indexing.Run.{
  index_completed, Run, RunResult, already_indexed, FetchExtractOutcome, rate_limited, fetched,
  run_fetch_extract_persist, fetch, sleep_until, wait_out_rate_limit, download, announce,
  settle_job, settle_repository, persist_result, index_commit, is_commit, after_commit,
  after_target, record_attempt, resolve_target, after_job, after_lock, repository_index,
}

-- An error that Inngest does not retry has a message of `withCode`.
CodedError : RunError → Type 0
CodedError (non_retriable message) =
    (c : IndexErrorCode) × (rest : String) × (message ≡ with_code c rest)
CodedError (retriable message) = Unit
CodedError record_not_found = Unit
CodedError unique_violation = Unit
CodedError send_failed = Unit

Coded : {A : Type 0} → IndexStore × Outcome A → Type 0
Coded (s, done a) = Unit
Coded (s, thrown e) = CodedError e

bind-Coded :
    {A B : Type 0} (x : IndexStore × Outcome A) (f : A → Step B)
    → Coded x
    → ((a : A) (s : IndexStore) → Coded (f a s))
    → Coded (continue f x)
unfolding Coded
bind-Coded (s, done a) f c rest = rest a s
bind-Coded (s, thrown e) f c rest = c

written-Coded : (s : IndexStore) (rows : Option _) → Coded (written s rows)
unfolding Coded CodedError
written-Coded s none = tt
written-Coded s (some rows) = tt

updated-Coded : (s : IndexStore) (jobs : Option _) → Coded (updated s jobs)
unfolding Coded CodedError
updated-Coded s none = tt
updated-Coded s (some jobs) = tt

created-Coded : (job : IndexJob) (s : IndexStore) (jobs : Option _) → Coded (created job s jobs)
unfolding Coded CodedError
created-Coded job s none = tt
created-Coded job s (some jobs) = tt

run_fetch-Coded : (a : IndexAnswer) (s : IndexStore) → Coded (run_fetch_extract_persist a s)
unfolding Coded CodedError run_fetch_extract_persist
run_fetch-Coded (completed r) s = tt
run_fetch-Coded stopped_not_found s = (repo_not_found, _, refl)
run_fetch-Coded stopped_unsafe_redirect s = (unsafe_archive, _, refl)
run_fetch-Coded (raised (github_rate_limit seconds)) s = tt
run_fetch-Coded (raised Counts.unsafe_archive) s = (unsafe_archive, _, refl)
run_fetch-Coded (raised Counts.archive_too_large) s = (repo_too_large, _, refl)
run_fetch-Coded (raised Counts.access_revoked) s = (access_revoked, _, refl)
run_fetch-Coded (raised (Counts.other message)) s = tt

module _ (db : Prisma) where
  update_job-Coded :
      (id : String) (data' : IndexJob → IndexJob) (s : IndexStore)
      → Coded (update_job db id data' s)
  unfolding update_job
  update_job-Coded id data' s = updated-Coded s _

  module _ (run : Run) where
    wait-Coded :
        (left n : ℕ) (o : FetchExtractOutcome) (s : IndexStore)
        → Coded (wait_out_rate_limit db run left n o s)
    unfolding wait_out_rate_limit fetch sleep_until Coded CodedError
    wait-Coded left n (fetched r) s = tt
    wait-Coded zero n (rate_limited seconds) s = (tarball_download_failed, _, refl)
    wait-Coded (suc left) n (rate_limited seconds) s =
        bind-Coded _ (wait_out_rate_limit db run left (suc n)) (run_fetch-Coded _ _)
          (λ o. wait-Coded left (suc n) o)

    download-Coded : (s : IndexStore) → Coded (download db run s)
    unfolding download fetch
    download-Coded s =
        bind-Coded _ (wait_out_rate_limit db run 5 0) (run_fetch-Coded _ s) (wait-Coded 5 0)

    outcome_of_send-Coded :
        {A : Type 0} (answer : SendResult) (s : IndexStore) (a : A)
        → Coded (s, outcome_of_send answer a)
    unfolding Coded CodedError
    outcome_of_send-Coded acknowledged s a = tt
    outcome_of_send-Coded refused s a = tt
    outcome_of_send-Coded timed_out s a = tt

    announce-Coded :
        (sha : String) (r : IndexResult) (s : IndexStore) → Coded (announce db run sha r s)
    announce-Coded sha r s =
        rw (announce_lem db run sha r s) (outcome_of_send-Coded _ _ (index_completed sha r))

    settle_job-Coded :
        (job_id sha : String) (r : IndexResult) (s : IndexStore)
        → Coded (settle_job db run job_id sha r s)
    unfolding settle_job mark_succeeded
    settle_job-Coded job_id sha r s =
        bind-Coded _ (λ _. announce db run sha r) (update_job-Coded job_id _ s)
          λ _. announce-Coded sha r

    settle_repository-Coded :
        (job_id sha : String) (r : IndexResult) (s : IndexStore)
        → Coded (settle_repository db run job_id sha r s)
    unfolding settle_repository mark_indexed update_repository
    settle_repository-Coded job_id sha r s =
        bind-Coded _ (λ _. settle_job db run job_id sha r) (written-Coded s _)
          λ _. settle_job-Coded job_id sha r

    persist-Coded :
        (job_id sha : String) (r : IndexResult) (s : IndexStore)
        → Coded (persist_result db run job_id sha r s)
    unfolding persist_result update_progress
    persist-Coded job_id sha r s =
        bind-Coded _ (λ _. settle_repository db run job_id sha r) (update_job-Coded job_id _ s)
          λ _. settle_repository-Coded job_id sha r

    index_commit-Coded :
        (job_id sha : String) (s : IndexStore) → Coded (index_commit db run job_id sha s)
    unfolding index_commit update_progress
    index_commit-Coded job_id sha s =
        bind-Coded _ (λ _. download db run >>= persist_result db run job_id sha)
          (update_job-Coded job_id _ s)
          λ _ s'.
            bind-Coded (download db run s') (persist_result db run job_id sha) (download-Coded s')
              (persist-Coded job_id sha)

    no_op-Coded :
        (job_id : String) (now : ℕ) (result : RunResult) (s : IndexStore)
        → Coded ((mark_succeeded_no_op db now job_id >> pure result) s)
    unfolding mark_succeeded_no_op Coded
    no_op-Coded job_id now result s =
        bind-Coded _ (λ _. pure result) (update_job-Coded job_id _ s) λ _ s1. tt

    after_commit-Coded :
        (job_id : String) (target : IndexTarget) (r : CommitResult) (s : IndexStore)
        → Coded (after_commit db run job_id target r s)
    unfolding after_commit Coded CodedError
    after_commit-Coded job_id target (no_commit not_accessible) s = (repo_not_found, _, refl)
    after_commit-Coded job_id target (no_commit unavailable) s = tt
    after_commit-Coded job_id target (no_commit unauthenticated) s = tt
    after_commit-Coded job_id target (commit sha) s =
        elim (Bool-cases (is_commit target.indexed_commit_sha sha)) [
          | inl e ↦ rw e (no_op-Coded job_id (run.now 4) (already_indexed sha) s)
          | inr e ↦ rw e (index_commit-Coded job_id sha s)
        ]

    after_target-Coded :
        (job_id : String) (target : Option IndexTarget) (s : IndexStore)
        → Coded (after_target db run job_id target s)
    unfolding after_target Coded CodedError
    after_target-Coded job_id none s = (repo_not_found, _, refl)
    after_target-Coded job_id (some target) s = after_commit-Coded job_id target _ s

    record_attempt-Coded :
        (job_id : String) (s : IndexStore) → Coded (record_attempt db run job_id s)
    unfolding record_attempt increment_attempts Coded
    record_attempt-Coded job_id s = elim (Bool-cases (ltb 0 run.attempt)) [
      | inl e ↦ rw e (update_job-Coded job_id _ s)
      | inr e ↦ rw e tt
    ]

    resolve_target-Coded :
        (job_id : String) (s : IndexStore) → Coded (resolve_target db run job_id s)
    unfolding resolve_target find_index_target
    resolve_target-Coded job_id s = after_target-Coded job_id _ s

    after_job-Coded : (job : IndexJob) (s : IndexStore) → Coded (after_job db run job s)
    unfolding after_job
    after_job-Coded job s =
        bind-Coded _ (λ _. resolve_target db run job.id) (record_attempt-Coded job.id s)
          λ _. resolve_target-Coded job.id

    after_lock-Coded : (acquired : Bool) (s : IndexStore) → Coded (after_lock db run acquired s)
    unfolding after_lock create_index_job Coded
    after_lock-Coded false s = tt
    after_lock-Coded true s = bind-Coded _ (after_job db run) (created-Coded _ s _) after_job-Coded

    repository_index-Coded : (s : IndexStore) → Coded (repository_index db run s)
    unfolding repository_index acquire_indexing_lock Coded
    repository_index-Coded s =
        bind-Coded (acquire_indexing_lock db (run.now 0) run.repository_id s) (after_lock db run) tt
          after_lock-Coded

of_error :
    (message : String)
    → CodedError (non_retriable message)
    → (c : IndexErrorCode) × ((parse_code message).code ≡ known c)
unfolding CodedError
of_error message (c, rest, e) = (c, rw (e, parse_code-with_code c rest) refl)

of_outcome :
    {A : Type 0} (x : IndexStore × Outcome A) (message : String)
    → Coded x
    → x.1 ≡ thrown (non_retriable message)
    → CodedError (non_retriable message)
unfolding Coded
of_outcome (s, done a) message c h = cc
of_outcome (s, thrown e) message c h = let same : e ≡ non_retriable message = cc in rw (← same) c

-- Whatever the database holds and the outside answers, the message of an error with which a run
-- ends and that Inngest does not retry is parsed to one of the known error codes, never to
-- UNKNOWN.
pub terminal_error-code :
    (db : Prisma) (run : Run) (s : IndexStore) (message : String)
    → (repository_index db run s).1 ≡ thrown (non_retriable message)
    → (c : IndexErrorCode) × ((parse_code message).code ≡ known c)
terminal_error-code db run s message h =
    of_error message (of_outcome _ message (repository_index-Coded db run s) h)
