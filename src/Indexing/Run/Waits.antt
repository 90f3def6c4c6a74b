-- ===== src/Indexing/Run/Waits.antt =====
-- The rate-limit loop of the handler (repository-index.ts).
use ai_powered_github_pr_rev.Prelude.{
  ℕ, zero, suc, ◌+◌, ◌*◌, ◌≡◌, ◌≤◌, ◌<◌, ◌⊎◌, inl, inr, refl, Bool, true, false, List, [], ◌∷◌,
  ◌++◌, length, arith, Bool-cases, ap, ◌∙◌,
}
use mathlib.Core.List.{append-nil, append_assoc}
use ai_powered_github_pr_rev.Database.{Prisma}
use ai_powered_github_pr_rev.Indexing.Store.{
  IndexStore, Outcome, done, thrown, non_retriable, continue,
}
use ai_powered_github_pr_rev.Indexing.ErrorCode.{tarball_download_failed, with_code}
use ai_powered_github_pr_rev.Indexing.Counts
use ai_powered_github_pr_rev.Indexing.Counts.{
  IndexResult, IndexAnswer, completed, stopped_not_found, stopped_unsafe_redirect, raised,
  github_rate_limit, index_repository,
}
use ai_powered_github_pr_rev.Indexing.Run.{
  Run, FetchExtractOutcome, rate_limited, fetched, run_fetch_extract_persist, fetch, sleep_until,
  wait_out_rate_limit, download, max_rate_limit_sleeps,
}

abbrev pub is_rate_limited : IndexAnswer → Bool
is_rate_limited (raised (github_rate_limit seconds)) = true
is_rate_limited (raised Counts.unsafe_archive) = false
is_rate_limited (raised Counts.archive_too_large) = false
is_rate_limited (raised Counts.access_revoked) = false
is_rate_limited (raised (Counts.other message)) = false
is_rate_limited (completed r) = false
is_rate_limited stopped_not_found = false
is_rate_limited stopped_unsafe_redirect = false

-- What the `n`-th call of `indexRepository` gives.
abbrev pub answer : Run → ℕ → IndexAnswer
answer run n = index_repository (run.tarball n) (run.extraction n)

-- The result of an answer that is no rate limit.
abbrev pub settled_by : FetchExtractOutcome → Outcome IndexResult
settled_by (fetched r) = done r
settled_by (rate_limited n) = thrown (
    non_retriable
      (with_code tarball_download_failed "exceeded the maximum number of rate-limit waits"))

abbrev pub settled : Outcome FetchExtractOutcome → Outcome IndexResult
settled (done o) = settled_by o
settled (thrown e) = thrown e

-- How the loop ends, begun at the `n`-th call with `left` sleeps allowed.
pub record Waited (run : Run) (left n : ℕ) (s : IndexStore) (end : IndexStore × Outcome IndexResult)
    : Type 0 where
  pub slept : List ℕ
  -- The call that the loop ends at.
  pub final : ℕ
  pub final_lem : final ≡ n + length slept
  pub few : length slept ≤ left
  pub only_sleeps : end.0 ≡ record s { sleeps = s.sleeps ++ slept }
  pub limited : (i : ℕ) → n ≤ i → i < final → is_rate_limited (answer run i) ≡ true
  pub verdict : end.1 ≡ settled (run_fetch_extract_persist (answer run final) s).1
  pub last : (is_rate_limited (answer run final) ≡ false) ⊎ (length slept ≡ left)

same_verdict :
    (a : IndexAnswer) (s s' : IndexStore)
    → (run_fetch_extract_persist a s).1 ≡ (run_fetch_extract_persist a s').1
unfolding run_fetch_extract_persist
same_verdict (completed r) s s' = refl
same_verdict stopped_not_found s s' = refl
same_verdict stopped_unsafe_redirect s s' = refl
same_verdict (raised (github_rate_limit seconds)) s s' = refl
same_verdict (raised Counts.unsafe_archive) s s' = refl
same_verdict (raised Counts.archive_too_large) s s' = refl
same_verdict (raised Counts.access_revoked) s s' = refl
same_verdict (raised (Counts.other message)) s s' = refl

-- An answer that is no rate limit settles the run and changes nothing.
settles :
    (db : Prisma) (run : Run) (left n : ℕ) (a : IndexAnswer) (s : IndexStore)
    → is_rate_limited a ≡ false
    → continue (wait_out_rate_limit db run left n) (run_fetch_extract_persist a s)
      ≡ (s, settled (run_fetch_extract_persist a s).1)
unfolding run_fetch_extract_persist wait_out_rate_limit
settles db run left n (completed r) s h = refl
settles db run left n stopped_not_found s h = refl
settles db run left n stopped_unsafe_redirect s h = refl
settles db run left n (raised (github_rate_limit seconds)) s h = cc
settles db run left n (raised Counts.unsafe_archive) s h = refl
settles db run left n (raised Counts.archive_too_large) s h = refl
settles db run left n (raised Counts.access_revoked) s h = refl
settles db run left n (raised (Counts.other message)) s h = refl

-- A rate limit has a time to wait.
limited_for :
    (a : IndexAnswer) (s : IndexStore)
    → is_rate_limited a ≡ true
    → (n : ℕ) × (run_fetch_extract_persist a s ≡ (s, done (rate_limited n)))
unfolding run_fetch_extract_persist
limited_for (raised (github_rate_limit seconds)) s h = (_, refl)
limited_for (completed r) s h = cc
limited_for stopped_not_found s h = cc
limited_for stopped_unsafe_redirect s h = cc
limited_for (raised Counts.unsafe_archive) s h = cc
limited_for (raised Counts.archive_too_large) s h = cc
limited_for (raised Counts.access_revoked) s h = cc
limited_for (raised (Counts.other message)) s h = cc

module _ (db : Prisma) (run : Run) where
  begin : ℕ → ℕ → IndexStore → IndexStore × Outcome IndexResult
  begin left n s = continue (wait_out_rate_limit db run left n) (fetch db run n s)

  stop :
      (left n : ℕ) (s : IndexStore)
      → is_rate_limited (answer run n) ≡ false
      → Waited run left n s (begin left n s)
  unfolding fetch begin
  stop left n s h = rw (settles db run left n (answer run n) s h) (record {
    slept = [];
    final = n;
    final_lem = omega arith;
    few = omega arith;
    only_sleeps = rw (append-nil s.sleeps) refl;
    limited = λ i low high. absurd (omega arith);
    verdict = refl;
    last = inl h;
  })

  give_up :
      (n : ℕ) (s : IndexStore)
      → is_rate_limited (answer run n) ≡ true
      → Waited run 0 n s (begin 0 n s)
  unfolding fetch wait_out_rate_limit begin
  give_up n s h =
      let (seconds, e) = limited_for (answer run n) s h in
      rw e (record {
        slept = [];
        final = n;
        final_lem = omega arith;
        few = omega arith;
        only_sleeps = rw (append-nil s.sleeps) refl;
        limited = λ i low high. absurd (omega arith);
        verdict = rw e refl;
        last = inr refl;
      })

  sleep_then :
      (left n t : ℕ) (s : IndexStore) (end : IndexStore × Outcome IndexResult)
      → is_rate_limited (answer run n) ≡ true
      → Waited run left (suc n) (record s { sleeps = s.sleeps ++ t ∷ [] }) end
      → Waited run (suc left) n s end
  sleep_then left n t s end h w = record {
    slept = t ∷ w.slept;
    final = w.final;
    final_lem = omega (arith, w.final_lem);
    few = omega (arith, w.few);
    only_sleeps = rw (w.only_sleeps, append_assoc s.sleeps (t ∷ []) w.slept) refl;
    limited = λ i low high. ground (arith, h, w.limited i);
    verdict = w.verdict ∙ ap settled (same_verdict (answer run w.final) _ s);
    last = ground (arith, w.last);
  }

  sleep :
      (left n : ℕ) (s : IndexStore)
      → is_rate_limited (answer run n) ≡ true
      → ((s' : IndexStore) → Waited run left (suc n) s' (begin left (suc n) s'))
      → Waited run (suc left) n s (begin (suc left) n s)
  unfolding fetch wait_out_rate_limit sleep_until begin
  sleep left n s h rest =
      let (seconds, e) = limited_for (answer run n) s h in
      rw e (sleep_then left n (run.now (10 + n) + seconds * 1000) s _ h (rest _))

  wait : (left n : ℕ) (s : IndexStore) → Waited run left n s (begin left n s)
  wait zero n s = elim (Bool-cases (is_rate_limited (answer run n))) [
    | inl h ↦ give_up n s h
    | inr h ↦ stop zero n s h
  ]
  wait (suc left) n s = elim (Bool-cases (is_rate_limited (answer run n))) [
    | inl h ↦ sleep left n s h (λ s'. wait left (suc n) s')
    | inr h ↦ stop (suc left) n s h
  ]

  -- The rate-limit loop ends, with at most five sleeps: every fetch before the last one met a
  -- rate limit, the last one did not or is the sixth, and the loop's result is that of the last
  -- fetch, or TARBALL_DOWNLOAD_FAILED when that met a rate limit too. Nothing but the sleeps is
  -- changed.
  pub download-Waited : (s : IndexStore) → Waited run max_rate_limit_sleeps 0 s (download db run s)
  unfolding download begin
  download-Waited s = wait max_rate_limit_sleeps 0 s

  -- The number of rate limits before the first other answer decides how long the loop sleeps.
  pub downloaded :
      (s : IndexStore) (k : ℕ) (r : IndexResult)
      → k ≤ max_rate_limit_sleeps
      → ((i : ℕ) → i < k → is_rate_limited (answer run i) ≡ true)
      → answer run k ≡ completed r
      → (slept : List ℕ) × (length slept ≡ k)
        × (download db run s ≡ (record s { sleeps = s.sleeps ++ slept }, done r))
  unfolding run_fetch_extract_persist
  downloaded s k r few limited e =
      let w = download-Waited s in
      let here : w.final ≡ k =
        ground (arith, w.final_lem, w.few, w.last, limited w.final, w.limited k) in
      let verdict : (download db run s).1 ≡ done r = w.verdict ∙ rw (here, e) refl in
      (w.slept, omega (arith, here, w.final_lem), λ i. (w.only_sleeps i, verdict i))
