-- ===== src/Indexing/Sweep.antt =====
-- apps/worker/src/inngest/functions/stale-index-sweeper.ts
pub mod Laws
use ai_powered_github_pr_rev.Prelude.{
  ℕ, zero, suc, ◌+◌, ◌*◌, String, Bool, List, [], ◌∷◌, ◌++◌, length, is_empty, if◌then◌else◌,
}
use ai_powered_github_pr_rev.Database.{Prisma}
use ai_powered_github_pr_rev.Indexing.Store.{
  full, IndexEvent, repository_index_requested, Step, ◌>>=◌, ◌>>◌, pure, done,
}
use ai_powered_github_pr_rev.Webhook.Emit.{SendResult}
use ai_powered_github_pr_rev.Indexing.Send.{send_events}
use ai_powered_github_pr_rev.Indexing.Lock.{StalePendingRepository, find_stale_pending}

abbrev pub stale_threshold_ms : ℕ
stale_threshold_ms = 15 * 60 * 1000

-- `randomUUID()`, at the rows in turn.
unfoldable pub build_sweep_events : (ℕ → String) → ℕ → List StalePendingRepository → List IndexEvent
build_sweep_events uuid n [] = []
build_sweep_events uuid n (r ∷ rs) =
    repository_index_requested r.project_id r.id full "sweep" (uuid n)
    ∷ build_sweep_events uuid (suc n) rs

module _ (db : Prisma) (inngest : List IndexEvent → SendResult) (uuid : ℕ → String) (now : ℕ) where
  -- It returns `swept`.
  unfoldable pub sweep_found : List StalePendingRepository → Step ℕ
  unfolding build_sweep_events send_events
  sweep_found stale =
      let send = send_events inngest (build_sweep_events uuid 0 stale) >> pure (length stale) in
      if is_empty stale then pure 0 else send

  unfoldable pub stale_index_sweeper : Step ℕ
  unfolding sweep_found
  stale_index_sweeper = do stale ← find_stale_pending db now stale_threshold_ms; sweep_found stale
