-- ===== src/Tests/Indexing.antt =====
-- Indexing runs of one repository: one that waits for two rate limits, one with nothing to do, one at
-- a taken lock, one that fails, and the sweeper.
use ai_powered_github_pr_rev.Prelude.{
  ℕ, zero, suc, ◌≡◌, ◌≤◌, ◌<◌, refl, String, true, false, none, some, [], ◌∷◌, length, arith,
}
use ai_powered_github_pr_rev.Prelude.Int.{pos}
use ai_powered_github_pr_rev.Database.{in_memory}
use ai_powered_github_pr_rev.Github.Failure.{CommitResponse, body, get_head_commit, raised}
use ai_powered_github_pr_rev.Indexing.Store.{
  IndexStatus, Repository, IndexJob, IndexStore, full, non_retriable, done, thrown,
}
use ai_powered_github_pr_rev.Indexing.ErrorCode.{
  unsafe_archive, repo_not_found, known, with_code, parse_code, IndexErrorCode,
}
use ai_powered_github_pr_rev.Indexing.ErrorCode.Laws.{parse_code-with_code}
use ai_powered_github_pr_rev.Indexing.Counts.{
  indexed, skipped, failed, Extracted, TarballFetch, stream, fetch_raised, github_rate_limit,
  Extraction, extracted, index_repository, result_of, index_repository-counts, IsTally,
}
use ai_powered_github_pr_rev.Indexing.Jobs.{
  create_index_job, increment_attempts, update_job, new_job, failed_with, succeeded_no_op,
}
use ai_powered_github_pr_rev.Indexing.Jobs.Writes.{job_of}
use ai_powered_github_pr_rev.Indexing.Lock.{
  find_index_target, acquire_indexing_lock, mark_indexed, mark_failed, is_lockable, locked_at,
  failed_as, MarkIndexedInput, MarkFailedInput,
}
use ai_powered_github_pr_rev.Indexing.Lock.Writes.{row_of}
use ai_powered_github_pr_rev.Indexing.Lock.Refinement.{free, take, lock_of, lock_refinement}
use ai_powered_github_pr_rev.Indexing.Lock.Exclusion.{
  Runs, wins, loses, Reach, start, later, mutual_exclusion,
}
use ai_powered_github_pr_rev.Indexing.Run.{
  Run, already_indexing, already_indexed, job_input, repository_index, download,
  max_rate_limit_sleeps,
}
use ai_powered_github_pr_rev.Indexing.Run.Waits.{is_rate_limited, answer, Waited, download-Waited}
use ai_powered_github_pr_rev.Indexing.Run.Codes.{terminal_error-code}
use ai_powered_github_pr_rev.Indexing.Run.Begin.{job_of_run, attempted}
use ai_powered_github_pr_rev.Indexing.Run.Endings.{
  Indexed, repository_index-Indexed, repository_index-up_to_date, repository_index-busy,
}
use ai_powered_github_pr_rev.Indexing.Failure.{on_failure}
use ai_powered_github_pr_rev.Indexing.Failure.Laws.{on_failure-with_code, failure_input, job_error}
use ai_powered_github_pr_rev.Webhook.Emit.{acknowledged, refused}
use ai_powered_github_pr_rev.Indexing.Sweep.{stale_index_sweeper}
use ai_powered_github_pr_rev.Indexing.Sweep.Laws.{Swept, stale_index_sweeper-Swept}

abbrev repository : Repository
repository = record {
  id = "r1";
  project_id = "p1";
  installation_id = pos 42;
  owner = "octo";
  name = "app";
  default_branch = "main";
  index_status = IndexStatus.pending;
  indexed_commit_sha = some "beef";
  indexed_file_count = 0;
  skipped_file_count = 0;
  last_indexed_at = none;
  index_error = none;
  updated_at = 1000;
}

abbrev idle : IndexStore
idle = record { repositories = repository ∷ []; jobs = []; sent = []; sleeps = [] }

abbrev busy : IndexStore
busy = record idle { repositories = locked_at 2000 repository ∷ [] }

abbrev walk : Extracted
walk = record {
  files =
      record { path = "a.ts"; index_state = indexed }
      ∷ record { path = "b.png"; index_state = skipped }
      ∷ record { path = "c.ts"; index_state = failed }
      ∷ [];
  hard_ignored_count = 4;
  stale_rows_removed = 0;
  symbols_created = 7;
  edges_created = 9;
  parse_failure_count = 0;
}

-- GitHub refuses the tarball twice.
abbrev tarball : ℕ → TarballFetch
tarball zero = fetch_raised (github_rate_limit (some (pos 30)))
tarball (suc zero) = fetch_raised (github_rate_limit none)
tarball (suc (suc n)) = stream

abbrev run_at : CommitResponse → Run
run_at response = record {
  project_id = "p1";
  repository_id = "r1";
  mode = full;
  index_job_id = some "j1";
  run_id = "run1";
  attempt = 1;
  fresh_id = "j0";
  now = λ n. n;
  head = λ _ _ _ _. response;
  tarball = tarball;
  extraction = λ _. extracted walk;
  inngest = λ _. acknowledged;
}

abbrev run : Run
run = run_at (body (some "c0ffee"))

two_limits : (i : ℕ) → i < 2 → is_rate_limited (answer run i) ≡ true
unfolding index_repository
two_limits zero h = refl
two_limits (suc zero) h = refl
two_limits (suc (suc n)) h = absurd (omega arith)

repository_index-Indexed_example :
    Indexed run "c0ffee"
      (result_of walk)
      2
      "j1"
      (locked_at 0 repository)
      (attempted run (job_of_run run))
      idle
      (repository_index in_memory run idle)
unfolding is_lockable get_head_commit index_repository
repository_index-Indexed_example =
    repository_index-Indexed in_memory run idle repository refl refl "c0ffee" refl refl refl 2
      (result_of walk) refl (omega arith) two_limits refl

-- The branch is at the commit that is indexed.
abbrev repeated : Run
repeated = run_at (body (some "beef"))

repository_index-up_to_date_example :
    ((repository_index in_memory repeated idle).1 ≡ done (already_indexed "beef"))
    × (job_of "j1" (repository_index in_memory repeated idle).0.jobs
        ≡ some (succeeded_no_op 4 (attempted repeated (job_of_run repeated))))
    × (row_of "r1" (repository_index in_memory repeated idle).0.repositories
        ≡ some (locked_at 0 repository))
    × ((repository_index in_memory repeated idle).0.sent ≡ [])
    × ((acquire_indexing_lock in_memory 9 "r1" (repository_index in_memory repeated idle).0).1
        ≡ done false)
unfolding is_lockable get_head_commit
repository_index-up_to_date_example =
    repository_index-up_to_date in_memory repeated idle repository refl refl "beef" refl refl refl 9
      refl

repository_index-busy_example : repository_index in_memory run busy ≡ (busy, done already_indexing)
unfolding is_lockable
repository_index-busy_example =
    repository_index-busy in_memory run busy (locked_at 2000 repository) refl refl refl

download-Waited_example : Waited run max_rate_limit_sleeps 0 idle (download in_memory run idle)
download-Waited_example = download-Waited in_memory run idle

-- A branch that GitHub does not know.
abbrev lost : Run
lost = run_at (raised (record { status = some 404; headers = none }))

abbrev lost_message : String
lost_message = "REPO_NOT_FOUND: The repository or its default branch could not be found"

repository_index-lost :
    (repository_index in_memory lost idle).1 ≡ thrown (non_retriable lost_message)
unfolding repository_index with_code is_lockable get_head_commit acquire_indexing_lock
    create_index_job increment_attempts update_job find_index_target
repository_index-lost = refl

terminal_error-code_example : (c : IndexErrorCode) × ((parse_code lost_message).code ≡ known c)
terminal_error-code_example =
    terminal_error-code in_memory lost idle lost_message repository_index-lost

parse_code-with_code_example :
    parse_code (with_code unsafe_archive "The archive: unsafe")
    ≡ record { code = known unsafe_archive; message = "The archive: unsafe" }
parse_code-with_code_example = parse_code-with_code unsafe_archive "The archive: unsafe"

abbrev running : IndexJob
running = new_job 5 "j0" (job_input run)

abbrev interrupted : IndexStore
interrupted = record busy { jobs = running ∷ [] }

on_failure-with_code_example :
    ((on_failure in_memory 7 "r1" "run1" (with_code repo_not_found "gone") interrupted).1 ≡ done tt)
    × (row_of "r1"
          (on_failure in_memory 7 "r1" "run1"
            (with_code repo_not_found "gone")
            interrupted).0.repositories
        ≡ some (failed_as 7 (failure_input "r1" repo_not_found "gone") (locked_at 2000 repository)))
    × (job_of "j1"
          (on_failure in_memory 7 "r1" "run1" (with_code repo_not_found "gone") interrupted).0.jobs
        ≡ some (failed_with 7 (job_error repo_not_found "gone") running))
on_failure-with_code_example =
    on_failure-with_code in_memory 7 "r1" "run1" "gone" repo_not_found interrupted
      (locked_at 2000 repository) running refl refl refl

index_repository-counts_example :
    (e : Extracted) × (◌≡◌ {A = Extraction} (extracted walk) (extracted e))
    × IsTally e.files (result_of walk)
unfolding index_repository
index_repository-counts_example =
    index_repository-counts stream (extracted walk) (result_of walk) refl

stale_index_sweeper-Swept_example :
    Swept
      (λ _. refused)
      2000000
      idle
      (stale_index_sweeper in_memory (λ _. refused) (λ _. "uuid") 2000000 idle)
stale_index_sweeper-Swept_example =
    stale_index_sweeper-Swept in_memory (λ _. refused) (λ _. "uuid") 2000000 idle

abbrev indexed_input : MarkIndexedInput
indexed_input = record {
  repository_id = "";
  commit_sha = "c0ffee";
  indexed_file_count = 1;
  skipped_file_count = 1;
}

abbrev failed_input : MarkFailedInput
failed_input = record { repository_id = ""; code = "UNKNOWN"; message = "down" }

lock_refinement_example :
    (lock_of "r1" (acquire_indexing_lock in_memory 9 "r1" idle).0 ≡ (take (lock_of "r1" idle)).0)
    × ((acquire_indexing_lock in_memory 9 "r1" idle).1 ≡ done (take (lock_of "r1" idle)).1)
    × ((mark_indexed in_memory 9 (record indexed_input { repository_id = "r1" }) idle).1 ≡ done tt)
    × (lock_of "r1"
          (mark_indexed in_memory 9 (record indexed_input { repository_id = "r1" }) idle).0
        ≡ free)
    × ((mark_failed in_memory 9 (record failed_input { repository_id = "r1" }) idle).1 ≡ done tt)
    × (lock_of "r1" (mark_failed in_memory 9 (record failed_input { repository_id = "r1" }) idle).0
        ≡ free)
lock_refinement_example =
    lock_refinement in_memory 9 "r1" idle repository refl refl indexed_input failed_input

-- The first run wins the lock, the second is refused.
abbrev contended : Runs
contended = record {
  store =
      (acquire_indexing_lock in_memory 2 "r1" (acquire_indexing_lock in_memory 1 "r1" idle).0).0;
  holders = "run1" ∷ [];
}

contended-reached : Reach in_memory "r1" idle contended
unfolding acquire_indexing_lock is_lockable
contended-reached = later (later start (wins "run1" 1 refl)) (loses 2 refl)

mutual_exclusion_example : length contended.holders ≤ 1
mutual_exclusion_example = mutual_exclusion in_memory "r1" contended-reached
