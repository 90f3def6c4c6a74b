-- ===== src/Webhook/Sweeper/Status.antt =====
-- The rows that `findPendingOlderThan` finds, and the statuses that the sweeper (webhook-sweeper.ts)
-- gives.
use ai_powered_github_pr_rev.Prelude.{
  ℕ, String, ◌≡◌, refl, Bool, not, ◌&&◌, List, [], ◌∷◌, map, any, All, arith, if◌then◌else◌, filter,
  eq_iff, leb, Bool-cases, inl, inr,
}
use ai_powered_github_pr_rev.Prelude.ListLaws.{All-weaken, All-filter, All-take}
use ai_powered_github_pr_rev.Prelude.Equality.{◌==◌, text_equality}
use ai_powered_github_pr_rev.Database.{Prisma, insert_by, sort_by}
use ai_powered_github_pr_rev.Store.{WebhookEvent, WebhookEventStatus, dispatched, failed, Store}
use ai_powered_github_pr_rev.Webhook.Ledger.{find_pending_older_than}
use ai_powered_github_pr_rev.Webhook.Sweeper.{
  SweepSkip, pending_threshold_ms, sweep_batch_limit, send_of, skip_of,
}
use ai_powered_github_pr_rev.Webhook.Sweeper.Plan.{is_replayable}
use ai_powered_github_pr_rev.Webhook.Sweeper.Laws.{failed_by, IsListed, fails_row}

module _ {A : Type 0} where
  All-insert_by :
      (P : A → Type 0) (key : A → ℕ) (r : A) (xs : List A)
      → P r
      → All P xs
      → All P (insert_by key r xs)
  All-insert_by P key r [] h a = (h, tt)
  All-insert_by P key r (x ∷ xs) h (a, as') = elim (Bool-cases (leb (key r) (key x))) [
    | inl e ↦ rw e (h, (a, as'))
    | inr e ↦ rw e (a, All-insert_by P key r xs h as')
  ]

  All-sort_by : (P : A → Type 0) (key : A → ℕ) (xs : List A) → All P xs → All P (sort_by key xs)
  All-sort_by P key [] a = tt
  All-sort_by P key (x ∷ xs) (a, as') =
      All-insert_by P key x (sort_by key xs) a (All-sort_by P key xs as')

IsListed-self : (rows : List WebhookEvent) → All (λ row. IsListed rows row.id) rows
IsListed-self [] = tt
IsListed-self (row ∷ rows) = (
  ground (arith, eq_iff row.id row.id),
  All-weaken (λ r. IsListed rows r.id) (λ r. IsListed (row ∷ rows) r.id) rows
      (λ r h. ground (arith, h)) (IsListed-self rows),
)

-- The rows that a sweep takes up are rows of the table.
pub IsListed-found :
    (db : Prisma) (now : ℕ) (s : Store)
    → All
        (λ row. IsListed s.events row.id)
        (find_pending_older_than db pending_threshold_ms sweep_batch_limit now s)
unfolding find_pending_older_than
IsListed-found db now s = rw (db.find_oldest_lem WebhookEvent _ _ sweep_batch_limit s.events) (
    All-take (λ row. IsListed s.events row.id) sweep_batch_limit _
      (All-sort_by (λ row. IsListed s.events row.id) (λ row. row.created_at) _
        (All-filter (λ row. IsListed s.events row.id) _ s.events (IsListed-self s.events))))

-- The rows with one of these ids, among those that can be sent again or among the others.
abbrev pub is_sent_again : List WebhookEvent → String → Bool
is_sent_again rows id = any (λ r. is_replayable r && id == r.id) rows

abbrev pub is_given_up : List WebhookEvent → String → Bool
is_given_up rows id = any (λ r. not (is_replayable r) && id == r.id) rows

-- A row's status after the rows found have been worked off.
abbrev pub status_after : List WebhookEvent → WebhookEvent → WebhookEventStatus
status_after rows row =
    if is_given_up rows row.id
    then failed
    else if is_sent_again rows row.id
    then dispatched
    else row.status

pub any-send_of :
    (rows : List WebhookEvent) (id : String)
    → any (λ x. id == x.row_id) (map send_of (filter is_replayable rows)) ≡ is_sent_again rows id
any-send_of [] id = refl
any-send_of (r ∷ rows) id = ground (arith, any-send_of rows id)

abbrev failed_by_if : Bool → WebhookEventStatus → WebhookEventStatus
failed_by_if b status = if b then failed else status

pub failed_by_status :
    (skips : List SweepSkip) (row : WebhookEvent)
    → (failed_by skips row).status ≡ failed_by_if (any (λ x. row.id == x.row_id) skips) row.status
failed_by_status [] row = refl
failed_by_status (x ∷ skips) row = ground (arith, failed_by_status skips (fails_row x row))

pub any-skip_of :
    (rows : List WebhookEvent) (id : String)
    → any (λ x. id == x.row_id) (map skip_of (filter (λ row. not (is_replayable row)) rows))
      ≡ is_given_up rows id
any-skip_of [] id = refl
any-skip_of (r ∷ rows) id = ground (arith, any-skip_of rows id)
