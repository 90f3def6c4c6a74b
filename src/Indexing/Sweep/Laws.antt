-- ===== src/Indexing/Sweep/Laws.antt =====
-- What the stale-index sweeper (stale-index-sweeper.ts) sends.
use ai_powered_github_pr_rev.Prelude.{
  ℕ, suc, ◌≡◌, refl, ap, ◌∙◌, String, List, [], ◌∷◌, ◌++◌, map, length, filter,
}
use mathlib.Core.List.{append-nil}
use ai_powered_github_pr_rev.Prelude.ListLaws.{length-map}
use ai_powered_github_pr_rev.Database.{Prisma}
use ai_powered_github_pr_rev.Indexing.Store.{
  full, IndexEvent, repository_index_requested, Repository, IndexStore, Outcome,
}
use ai_powered_github_pr_rev.Webhook.Emit.{SendResult, acknowledged}
use ai_powered_github_pr_rev.Indexing.Send.{
  taken_events, outcome_of_send, send_events_lem, continue-pure,
}
use ai_powered_github_pr_rev.Indexing.Lock.{stale_test, to_stale, find_stale_pending}
use ai_powered_github_pr_rev.Indexing.Sweep.{
  stale_threshold_ms, build_sweep_events, sweep_found, stale_index_sweeper,
}

-- A request to index a row.
pub IsRequestFor : Repository → IndexEvent → Type 0
IsRequestFor row event =
    (job_id : String) × (event
      ≡ repository_index_requested row.project_id row.id full "sweep" job_id)

-- The events are requests for the rows, in order.
pub data Requests : List Repository → List IndexEvent → Type 0 where
  no_more : Requests [] []
  one_more :
      {row : Repository} {event : IndexEvent} {rows : List Repository} {events : List IndexEvent}
      → IsRequestFor row event
      → Requests rows events
      → Requests (row ∷ rows) (event ∷ events)

-- Inngest is not asked about no event.
abbrev pub sweep_answer : (List IndexEvent → SendResult) → List IndexEvent → SendResult
sweep_answer inngest [] = acknowledged
sweep_answer inngest (event ∷ events) = inngest (event ∷ events)

pub record Swept (inngest : List IndexEvent → SendResult) (now : ℕ) (s : IndexStore)
    (end : IndexStore × Outcome ℕ) : Type 0 where
  pub events : List IndexEvent
  pub requests : Requests (filter (stale_test now stale_threshold_ms) s.repositories) events
  pub only_sends :
      end.0 ≡ record s { sent = s.sent ++ taken_events (sweep_answer inngest events) events }
  pub swept :
      end.1
      ≡ outcome_of_send
          (sweep_answer inngest events)
          (length (filter (stale_test now stale_threshold_ms) s.repositories))

build_sweep_events-Requests :
    (uuid : ℕ → String) (n : ℕ) (rows : List Repository)
    → Requests rows (build_sweep_events uuid n (map to_stale rows))
unfolding build_sweep_events IsRequestFor
build_sweep_events-Requests uuid n [] = no_more
build_sweep_events-Requests uuid n (row ∷ rows) =
    one_more (uuid n, refl) (build_sweep_events-Requests uuid (suc n) rows)

module _ (db : Prisma) (inngest : List IndexEvent → SendResult) (uuid : ℕ → String) (now : ℕ) where
  abbrev requests_for : List Repository → List IndexEvent
  requests_for rows = build_sweep_events uuid 0 (map to_stale rows)

  found_more :
      (s : IndexStore) (row : Repository) (rows : List Repository)
      → sweep_found db inngest uuid now (map to_stale (row ∷ rows)) s ≡ (
        record s {
          sent =
              s.sent
              ++ taken_events (inngest (requests_for (row ∷ rows))) (requests_for (row ∷ rows));
        },
        outcome_of_send (inngest (requests_for (row ∷ rows))) (length (map to_stale (row ∷ rows))),
      )
  unfolding sweep_found
  found_more s row rows = rw (send_events_lem inngest (requests_for (row ∷ rows)) s) (
      continue-pure (inngest (requests_for (row ∷ rows)))
        (record s {
          sent =
              s.sent
              ++ taken_events (inngest (requests_for (row ∷ rows))) (requests_for (row ∷ rows));
        })
        (length (map to_stale (row ∷ rows))))

  found-Swept :
      (s : IndexStore) (rows : List Repository)
      → rows ≡ filter (stale_test now stale_threshold_ms) s.repositories
      → Swept inngest now s (sweep_found db inngest uuid now (map to_stale rows) s)
  unfolding sweep_found build_sweep_events
  found-Swept s [] e = record {
    events = [];
    requests = rw (← e) no_more;
    only_sends = rw (append-nil s.sent) refl;
    swept = rw (← e) refl;
  }
  found-Swept s (row ∷ rows) e = record {
    events = build_sweep_events uuid 0 (map to_stale (row ∷ rows));
    requests = rw (← e) (build_sweep_events-Requests uuid 0 (row ∷ rows));
    only_sends = ap (λ end. end.0) (found_more s row rows);
    swept = rw (← e) (
        ap (λ end. end.1) (found_more s row rows)
        ∙ ap (outcome_of_send (inngest (requests_for (row ∷ rows))))
            (length-map to_stale (row ∷ rows)));
  }

  -- The sweeper asks Inngest to take one request for each repository that has been PENDING and
  -- not updated for the threshold, in the table's order, and for no other. If there is none, or
  -- Inngest acknowledges them, it returns their number; else it throws an error that is retried,
  -- with the requests sent only where the answer came too late. It changes nothing else.
  pub stale_index_sweeper-Swept :
      (s : IndexStore) → Swept inngest now s (stale_index_sweeper db inngest uuid now s)
  unfolding stale_index_sweeper find_stale_pending
  stale_index_sweeper-Swept s =
      rw (db.find_many_lem Repository (stale_test now stale_threshold_ms) s.repositories)
        (found-Swept s (filter (stale_test now stale_threshold_ms) s.repositories) refl)
