-- ===== src/Indexing/Run.antt =====
-- `runFetchExtractPersist` and the handler of apps/worker/src/inngest/functions/repository-index.ts.
-- One pass through the handler, in which every `step.run` executes.
pub mod Waits
pub mod Codes
pub mod Results
pub mod Begin
pub mod Endings
use ai_powered_github_pr_rev.Prelude.{
  ℕ, zero, suc, ◌+◌, ◌*◌, String, Bool, true, false, Option, none, some, List, [], ◌∷◌, ◌++◌,
  if◌then◌else◌, ltb,
}
use ai_powered_github_pr_rev.Prelude.Equality.{◌==◌, text_equality}
use ai_powered_github_pr_rev.Prelude.Int.{ℤ, pos, negsuc}
use ai_powered_github_pr_rev.Database.{Prisma}
use ai_powered_github_pr_rev.Github.Failure.{
  CommitResponse, CommitResult, commit, no_commit, not_accessible, unavailable, unauthenticated,
  get_head_commit,
}
use ai_powered_github_pr_rev.Indexing.Store.{
  IndexJobMode, IndexJob, IndexEvent, repository_indexed, IndexStore, non_retriable, retriable,
  Step, ◌>>=◌, ◌>>◌, pure, throw, done,
}
use ai_powered_github_pr_rev.Webhook.Emit.{SendResult}
use ai_powered_github_pr_rev.Indexing.Send.{send_events}
use ai_powered_github_pr_rev.Indexing.ErrorCode.{
  IndexErrorCode, repo_not_found, tarball_download_failed, unsafe_archive, repo_too_large,
  access_revoked, with_code,
}
use ai_powered_github_pr_rev.Indexing.Counts
use ai_powered_github_pr_rev.Indexing.Counts.{
  IndexResult, TarballFetch, Extraction, IndexAnswer, completed, stopped_not_found,
  stopped_unsafe_redirect, raised, Raised, index_repository,
}
use ai_powered_github_pr_rev.Indexing.Jobs.{
  CreateIndexJobInput, create_index_job, increment_attempts, update_progress, mark_succeeded,
  mark_succeeded_no_op,
}
use ai_powered_github_pr_rev.Indexing.Lock.{
  IndexTarget, acquire_indexing_lock, find_index_target, mark_indexed,
}

pub data FetchExtractOutcome : Type 0 where
  rate_limited : ℕ → FetchExtractOutcome
  fetched : IndexResult → FetchExtractOutcome

abbrev pub fail : {A : Type 0} → IndexErrorCode → String → Step A
fail code message = throw (non_retriable (with_code code message))

unfoldable pub retry_after_seconds : Option ℤ → ℕ
retry_after_seconds none = 60
retry_after_seconds (some (pos n)) = n
retry_after_seconds (some (negsuc n)) = 60

unfoldable pub run_fetch_extract_persist : IndexAnswer → Step FetchExtractOutcome
unfolding retry_after_seconds
run_fetch_extract_persist (completed r) = pure (fetched r)
run_fetch_extract_persist stopped_not_found =
    fail repo_not_found "The repository tarball could not be found"
run_fetch_extract_persist stopped_unsafe_redirect =
    fail unsafe_archive "The tarball download did not pass validation"
run_fetch_extract_persist (raised (Counts.github_rate_limit seconds)) =
    pure (rate_limited (retry_after_seconds seconds))
run_fetch_extract_persist (raised Counts.unsafe_archive) =
    fail unsafe_archive "The archive failed a safety check"
run_fetch_extract_persist (raised Counts.archive_too_large) =
    fail repo_too_large "The repository exceeds the current size limit"
run_fetch_extract_persist (raised Counts.access_revoked) =
    fail access_revoked "GitHub access was revoked for this installation"
run_fetch_extract_persist (raised (Counts.other message)) = throw (retriable message)

-- The event, the run that it starts, and what is outside the handler: the clock at each of its
-- steps, a new identifier, GitHub's answer about the branch, and the tarball and its extraction at
-- each call of `indexRepository`, and Inngest's answer to a send.
pub record Run : Type 0 where
  pub project_id : String
  pub repository_id : String
  pub mode : IndexJobMode
  pub index_job_id : Option String
  pub run_id : String
  pub attempt : ℕ
  pub fresh_id : String
  pub now : ℕ → ℕ
  pub head : ℤ → String → String → String → CommitResponse
  pub tarball : ℕ → TarballFetch
  pub extraction : ℕ → Extraction
  pub inngest : List IndexEvent → SendResult

pub data RunResult : Type 0 where
  already_indexing : RunResult
  already_indexed : String → RunResult
  index_completed : String → IndexResult → RunResult

abbrev pub max_rate_limit_sleeps : ℕ
max_rate_limit_sleeps = 5

-- `step.sleepUntil`.
unfoldable pub sleep_until : ℕ → Step (Unit {0})
sleep_until reset_at s = (record s { sleeps = s.sleeps ++ reset_at ∷ [] }, done tt)

abbrev pub is_commit : Option String → String → Bool
is_commit none sha = false
is_commit (some indexed_sha) sha = indexed_sha == sha

abbrev pub job_input : Run → CreateIndexJobInput
job_input run = record {
  repository_id = run.repository_id;
  mode = run.mode;
  inngest_run_id = run.run_id;
  id = run.index_job_id;
}

module _ (db : Prisma) (run : Run) where
  -- The `n`-th call.
  unfoldable pub fetch : ℕ → Step FetchExtractOutcome
  unfolding run_fetch_extract_persist
  fetch n = run_fetch_extract_persist (index_repository (run.tarball n) (run.extraction n))

  -- The `while` loop after `sleeps` sleeps, `left` less than the limit.
  unfoldable pub wait_out_rate_limit : (left sleeps : ℕ) → FetchExtractOutcome → Step IndexResult
  unfolding sleep_until fetch
  wait_out_rate_limit left sleeps (fetched r) = pure r
  wait_out_rate_limit zero sleeps (rate_limited seconds) =
      fail tarball_download_failed "exceeded the maximum number of rate-limit waits"
  wait_out_rate_limit (suc left) sleeps (rate_limited seconds) = do
    sleep_until (run.now (10 + sleeps) + seconds * 1000)
    outcome ← fetch (suc sleeps)
    wait_out_rate_limit left (suc sleeps) outcome

  -- The fetch, and the sleeps and further fetches that a rate limit makes of it.
  unfoldable pub download : Step IndexResult
  unfolding wait_out_rate_limit fetch
  download = do first ← fetch 0; wait_out_rate_limit max_rate_limit_sleeps 0 first

  unfoldable pub send_event : IndexEvent → Step (Unit {0})
  unfolding send_events
  send_event event = send_events run.inngest (event ∷ [])

  unfoldable pub announce : String → IndexResult → Step RunResult
  unfolding send_event
  announce sha r = do
    send_event (repository_indexed run.project_id run.repository_id sha r.files_indexed 0)
    pure (index_completed sha r)

  unfoldable pub settle_job : String → String → IndexResult → Step RunResult
  unfolding announce
  settle_job job_id sha r = do
    mark_succeeded db (run.now 3) job_id (record {
      files_total = r.files_total;
      files_processed = r.files_processed;
      files_skipped = r.files_skipped;
      symbols_created = some r.symbols_created;
      edges_created = some r.edges_created;
    })
    announce sha r

  unfoldable pub settle_repository : String → String → IndexResult → Step RunResult
  unfolding settle_job
  settle_repository job_id sha r = do
    mark_indexed db (run.now 2) (record {
      repository_id = run.repository_id;
      commit_sha = sha;
      indexed_file_count = r.files_indexed;
      skipped_file_count = r.files_skipped;
    })
    settle_job job_id sha r

  unfoldable pub persist_result : String → String → IndexResult → Step RunResult
  unfolding settle_repository
  persist_result job_id sha r = do
    update_progress db job_id (record {
      current_step = "persisted";
      progress_percent = 90;
      target_commit_sha = none;
      previous_commit_sha = none;
      files_total = some r.files_total;
      files_processed = some r.files_processed;
      files_skipped = some r.files_skipped;
    })
    settle_repository job_id sha r

  unfoldable pub index_commit : String → String → Step RunResult
  unfolding download persist_result
  index_commit job_id sha = do
    update_progress db job_id (record {
      current_step = "resolve-sha";
      progress_percent = 10;
      target_commit_sha = some sha;
      previous_commit_sha = none;
      files_total = none;
      files_processed = none;
      files_skipped = none;
    })
    download >>= persist_result job_id sha

  unfoldable pub after_commit : String → IndexTarget → CommitResult → Step RunResult
  unfolding index_commit
  after_commit job_id target (no_commit not_accessible) =
      fail repo_not_found "The repository or its default branch could not be found"
  after_commit job_id target (no_commit unavailable) =
      throw
        (retriable "transient failure resolving the repository's head commit (reason: UNAVAILABLE)")
  after_commit job_id target (no_commit unauthenticated) = throw (
      retriable
        "transient failure resolving the repository's head commit (reason: UNAUTHENTICATED)")
  after_commit job_id target (commit sha) =
      let no_op = mark_succeeded_no_op db (run.now 4) job_id >> pure (already_indexed sha) in
      let work = index_commit job_id sha in
      if is_commit target.indexed_commit_sha sha then no_op else work

  unfoldable pub after_target : String → Option IndexTarget → Step RunResult
  unfolding after_commit
  after_target job_id none = fail repo_not_found "The repository record no longer exists"
  after_target job_id (some target) = after_commit job_id target (
      get_head_commit
        (run.head target.installation_id target.owner target.name target.default_branch))

  unfoldable pub record_attempt : String → Step (Unit {0})
  record_attempt job_id =
      let again = increment_attempts db job_id in if ltb 0 run.attempt then again else pure tt

  unfoldable pub resolve_target : String → Step RunResult
  unfolding after_target
  resolve_target job_id = do
    target ← find_index_target db run.repository_id
    after_target job_id target

  unfoldable pub after_job : IndexJob → Step RunResult
  unfolding record_attempt resolve_target
  after_job job = do record_attempt job.id; resolve_target job.id

  unfoldable pub after_lock : Bool → Step RunResult
  unfolding after_job
  after_lock false = pure already_indexing
  after_lock true = create_index_job db (run.now 1) run.fresh_id (job_input run) >>= after_job

  unfoldable pub repository_index : Step RunResult
  unfolding after_lock
  repository_index = do
    acquired ← acquire_indexing_lock db (run.now 0) run.repository_id
    after_lock acquired
