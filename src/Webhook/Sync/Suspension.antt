-- ===== src/Webhook/Sync/Suspension.antt =====
-- The connection statuses of an installation's repositories through a suspension and its end.
use ai_powered_github_pr_rev.Prelude.{
  ℕ, String, ◌≡◌, refl, Bool, not, ◌&&◌, Option, List, [], ◌∷◌, arith, if◌then◌else◌,
}
use ai_powered_github_pr_rev.Prelude.Equality.{◌==◌, text_equality, integer_equality}
use ai_powered_github_pr_rev.Prelude.Int.{ℤ}
use ai_powered_github_pr_rev.Database.{Prisma, change}
use ai_powered_github_pr_rev.Store.{
  active, access_lost, is_active, is_access_lost, is_disconnected, Repository, Store,
}
use ai_powered_github_pr_rev.Repositories.{
  with_status, set_installation_suspended_at, mark_access_lost_by_installation,
  restore_active_by_installation,
}
use ai_powered_github_pr_rev.Repositories.Changes.{update_repositories_lem}
use ai_powered_github_pr_rev.Webhook.Payload.{InstallationEvent}
use ai_powered_github_pr_rev.Webhook.Sync.{sync_installation_event}

-- The rows of an installation that the user has not disconnected.
abbrev pub in_use : ℤ → Repository → Bool
in_use id row = row.installation_id == id && not (is_disconnected row.connection_status)

change_congr :
    (test test' : Repository → Bool) (data' : Repository → Repository) (rows : List Repository)
    → ((row : Repository)
        → (if test row then data' row else row) ≡ (if test' row then data' row else row))
    → change test data' rows ≡ change test' data' rows
change_congr test test' data' [] h = refl
change_congr test test' data' (row ∷ rows) h = cc (h row, change_congr test test' data' rows h)

-- Marking the rows that are active marks all that are in use: the others are marked already.
lost_rows :
    (id : ℤ) (rows : List Repository)
    → change
        (λ row. row.installation_id == id && is_active row.connection_status)
        (with_status access_lost)
        rows
      ≡ change (in_use id) (with_status access_lost) rows
unfolding is_active is_disconnected
lost_rows id rows = change_congr _ _ (with_status access_lost) rows (λ row. ground arith)

restored_rows :
    (id : ℤ) (rows : List Repository)
    → change
        (λ row. row.installation_id == id && is_access_lost row.connection_status)
        (with_status active)
        rows
      ≡ change (in_use id) (with_status active) rows
unfolding is_access_lost is_disconnected
restored_rows id rows = change_congr _ _ (with_status active) rows (λ row. ground arith)

change-change :
    (id : ℤ) (rows : List Repository)
    → change (in_use id) (with_status active) (change (in_use id) (with_status access_lost) rows)
      ≡ change (in_use id) (with_status active) rows
unfolding is_disconnected
change-change id [] = refl
change-change id (row ∷ rows) = ground (arith, change-change id rows)

module _ (db : Prisma) (parse_date : String → Option ℕ) where
  -- A suspension takes access from every repository of the installation that is not disconnected,
  -- and leaves the others as they are.
  pub suspend_lem :
      (now : ℕ) (e : InstallationEvent) (s : Store)
      → e.action ≡ "suspend"
      → (sync_installation_event db parse_date now e s).0.repositories
        ≡ change (in_use e.installation_id) (with_status access_lost) s.repositories
  unfolding sync_installation_event set_installation_suspended_at mark_access_lost_by_installation
  suspend_lem now e s h =
      rw (h, update_repositories_lem db) (lost_rows e.installation_id s.repositories)

  pub unsuspend_lem :
      (now : ℕ) (e : InstallationEvent) (s : Store)
      → e.action ≡ "unsuspend"
      → (sync_installation_event db parse_date now e s).0.repositories
        ≡ change (in_use e.installation_id) (with_status active) s.repositories
  unfolding sync_installation_event set_installation_suspended_at restore_active_by_installation
  unsuspend_lem now e s h =
      rw (h, update_repositories_lem db) (restored_rows e.installation_id s.repositories)

  -- After a suspension and its end every repository of the installation that is not disconnected
  -- is active, also one that had lost access before the suspension; no other has changed.
  pub unsuspend-suspend :
      (now now' : ℕ) (e e' : InstallationEvent) (s : Store)
      → e.action ≡ "suspend"
      → e'.action ≡ "unsuspend"
      → e'.installation_id ≡ e.installation_id
      → let s' = (sync_installation_event db parse_date now e s).0 in
        (sync_installation_event db parse_date now' e' s').0.repositories
        ≡ change (in_use e.installation_id) (with_status active) s.repositories
  unsuspend-suspend now now' e e' s h h' same =
      rw
        (
          unsuspend_lem now' e' (sync_installation_event db parse_date now e s).0 h',
          suspend_lem now e s h,
          same,
        )
        (change-change e.installation_id s.repositories)
