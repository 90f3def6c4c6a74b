-- ===== src/Indexing/Counts.antt =====
-- `countByBucket` and the result of `indexRepository` (apps/worker/src/indexing/indexer.service.ts).
-- The tarball's answer, and what extracting it, walking the tree and building the graph give, are
-- arguments.
use ai_powered_github_pr_rev.Prelude.{
  ℕ, ◌+◌, ◌≡◌, refl, String, Bool, true, false, Option, List, [], ◌∷◌, length, count, arith,
}
use ai_powered_github_pr_rev.Prelude.Int.{ℤ}

pub data IndexState : Type 0 where
  indexed skipped failed : IndexState

pub record WalkedFile : Type 0 where
  pub path : String
  pub index_state : IndexState

pub record Buckets : Type 0 where
  pub files_indexed : ℕ
  pub files_failed : ℕ
  pub files_skipped : ℕ

abbrev pub add_file : IndexState → Buckets → Buckets
add_file skipped b = record b { files_skipped = b.files_skipped + 1 }
add_file failed b = record b { files_failed = b.files_failed + 1 }
add_file indexed b = record b { files_indexed = b.files_indexed + 1 }

-- The loop, from the counts so far.
abbrev pub count_files : List WalkedFile → Buckets → Buckets
count_files [] b = b
count_files (file ∷ files) b = count_files files (add_file file.index_state b)

unfoldable pub count_by_bucket : List WalkedFile → Buckets
count_by_bucket files =
    count_files files (record { files_indexed = 0; files_failed = 0; files_skipped = 0 })

-- The integral members of the result: the two ratios are only logged.
pub record IndexResult : Type 0 where
  pub files_total : ℕ
  pub files_indexed : ℕ
  pub files_processed : ℕ
  pub files_failed : ℕ
  pub files_skipped : ℕ
  pub hard_ignored_count : ℕ
  pub stale_rows_removed : ℕ
  pub symbols_created : ℕ
  pub edges_created : ℕ
  pub parse_failure_count : ℕ

-- What `extractRepositoryArchive` returns: `walkSummary`, `staleRowsRemoved` and `graphResult`.
pub record Extracted : Type 0 where
  pub files : List WalkedFile
  pub hard_ignored_count : ℕ
  pub stale_rows_removed : ℕ
  pub symbols_created : ℕ
  pub edges_created : ℕ
  pub parse_failure_count : ℕ

-- The errors that `runFetchExtractPersist` tells apart; the rate limit has `retryAfterSeconds` when
-- that is a number.
pub data Raised : Type 0 where
  github_rate_limit : Option ℤ → Raised
  unsafe_archive archive_too_large access_revoked : Raised
  other : String → Raised

pub data TarballFetch : Type 0 where
  stream repo_not_found unsafe_redirect : TarballFetch
  fetch_raised : Raised → TarballFetch

pub data Extraction : Type 0 where
  extracted : Extracted → Extraction
  extraction_raised : Raised → Extraction

-- What `indexRepository` returns, or throws.
pub data IndexAnswer : Type 0 where
  completed : IndexResult → IndexAnswer
  stopped_not_found stopped_unsafe_redirect : IndexAnswer
  raised : Raised → IndexAnswer

unfoldable pub result_of : Extracted → IndexResult
unfolding count_by_bucket
result_of e =
    let buckets = count_by_bucket e.files in
    record {
      files_total = length e.files;
      files_indexed = buckets.files_indexed;
      files_processed = buckets.files_indexed + buckets.files_failed;
      files_failed = buckets.files_failed;
      files_skipped = buckets.files_skipped;
      hard_ignored_count = e.hard_ignored_count;
      stale_rows_removed = e.stale_rows_removed;
      symbols_created = e.symbols_created;
      edges_created = e.edges_created;
      parse_failure_count = e.parse_failure_count;
    }

unfoldable pub index_repository : TarballFetch → Extraction → IndexAnswer
unfolding result_of
index_repository repo_not_found e = stopped_not_found
index_repository unsafe_redirect e = stopped_unsafe_redirect
index_repository (fetch_raised r) e = raised r
index_repository stream (extraction_raised r) = raised r
index_repository stream (extracted e) = completed (result_of e)

abbrev pub is_indexed : IndexState → Bool
is_indexed indexed = true
is_indexed skipped = false
is_indexed failed = false

abbrev pub is_skipped : IndexState → Bool
is_skipped skipped = true
is_skipped indexed = false
is_skipped failed = false

count_files_lem :
    (files : List WalkedFile) (b : Buckets)
    → let r = count_files files b in
      (r.files_indexed ≡ count (λ f. is_indexed f.index_state) files + b.files_indexed)
      × (r.files_skipped ≡ count (λ f. is_skipped f.index_state) files + b.files_skipped)
      × (r.files_indexed + r.files_failed + r.files_skipped
          ≡ length files + b.files_indexed + b.files_failed + b.files_skipped)
count_files_lem [] b = ground arith
count_files_lem (file ∷ files) b =
    ground (arith, count_files_lem files (add_file file.index_state b))

-- The counts of a result against the files that were walked.
pub record IsTally (files : List WalkedFile) (r : IndexResult) : Type 0 where
  pub indexed_are_counted : r.files_indexed ≡ count (λ f. is_indexed f.index_state) files
  pub skipped_are_counted : r.files_skipped ≡ count (λ f. is_skipped f.index_state) files
  pub processed_were_tried : r.files_processed ≡ r.files_indexed + r.files_failed
  pub total_is_length : r.files_total ≡ length files
  pub reconciled : r.files_processed + r.files_skipped ≡ r.files_total

result_of-IsTally : (e : Extracted) → IsTally e.files (result_of e)
unfolding result_of count_by_bucket
result_of-IsTally e =
    let (a, b, c) =
      count_files_lem e.files (record { files_indexed = 0; files_failed = 0; files_skipped = 0 }) in
    record {
      indexed_are_counted = omega (arith, a);
      skipped_are_counted = omega (arith, b);
      processed_were_tried = refl;
      total_is_length = refl;
      reconciled = omega (arith, c);
    }

-- A result of indexRepository comes from a tree that was extracted, and counts its files: those
-- that are indexed and those that are skipped, the processed ones are the indexed and the failed
-- ones, and the processed and the skipped ones together are all.
pub index_repository-counts :
    (tarball : TarballFetch) (extraction : Extraction) (r : IndexResult)
    → index_repository tarball extraction ≡ completed r
    → (e : Extracted) × (extraction ≡ extracted e) × IsTally e.files r
unfolding index_repository
index_repository-counts repo_not_found e r h = cc
index_repository-counts unsafe_redirect e r h = cc
index_repository-counts (fetch_raised x) e r h = cc
index_repository-counts stream (extraction_raised x) r h = cc
index_repository-counts stream (extracted e) r h =
    let same : result_of e ≡ r = cc in (e, refl, rw (← same) (result_of-IsTally e))
