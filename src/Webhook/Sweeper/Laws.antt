-- ===== src/Webhook/Sweeper/Laws.antt =====
-- The two loops of updates of the sweeper (webhook-sweeper.ts), as maps on the table.
use ai_powered_github_pr_rev.Prelude.{
  ℕ, String, ◌≡◌, refl, ap, ◌∙◌, true, some, List, [], ◌∷◌, map, any, All, arith, if◌then◌else◌,
}
use ai_powered_github_pr_rev.Prelude.Equality.{◌==◌, text_equality}
use ai_powered_github_pr_rev.Database.{Prisma, change}
use ai_powered_github_pr_rev.Store.{
  WebhookEvent, dispatched, failed, code_message, Message, Store, ok,
}
use ai_powered_github_pr_rev.Webhook.Ledger.{update_event, mark_failed, has_id}
use ai_powered_github_pr_rev.Webhook.Emit.{SendResult}
use ai_powered_github_pr_rev.Webhook.Sweeper.{
  SweepSend, SweepSkip, mark_dispatched, mark_sends, mark_skips,
}

-- A row after the two loops of updates.
abbrev pub dispatched_if : ℕ → List SweepSend → WebhookEvent → WebhookEvent
dispatched_if now sends row =
    if any (λ x. row.id == x.row_id) sends
    then record row { status = dispatched; dispatched_at = some now }
    else row

abbrev pub fail_row : SweepSkip → WebhookEvent → WebhookEvent
fail_row skip row = record row {
  status = failed;
  error = some (code_message skip.code skip.message);
}

abbrev pub fails_row : SweepSkip → WebhookEvent → WebhookEvent
fails_row skip row = if has_id skip.row_id row then fail_row skip row else row

abbrev pub failed_by : List SweepSkip → WebhookEvent → WebhookEvent
failed_by [] row = row
failed_by (skip ∷ skips) row = failed_by skips (fails_row skip row)

abbrev pub IsListed : List WebhookEvent → String → Type 0
IsListed rows id = any (has_id id) rows ≡ true

any-has_id-change :
    (id x : String) (data' : WebhookEvent → WebhookEvent) (rows : List WebhookEvent)
    → ((row : WebhookEvent) → (data' row).id ≡ row.id)
    → any (has_id x) (change (has_id id) data' rows) ≡ any (has_id x) rows
any-has_id-change id x data' [] h = refl
any-has_id-change id x data' (row ∷ rows) h =
    ground (arith, h row, any-has_id-change id x data' rows h)

All-IsListed-change :
    {A : Type 0} (key : A → String) (xs : List A) (id : String)
    (data' : WebhookEvent → WebhookEvent) (rows : List WebhookEvent)
    → ((row : WebhookEvent) → (data' row).id ≡ row.id)
    → All (λ x. IsListed rows (key x)) xs
    → All (λ x. IsListed (change (has_id id) data' rows) (key x)) xs
All-IsListed-change key [] id data' rows h a = tt
All-IsListed-change key (x ∷ xs) id data' rows h (a, as') =
    (any-has_id-change id (key x) data' rows h ∙ a, All-IsListed-change key xs id data' rows h as')

update_event_listed :
    (db : Prisma) (id : String) (data' : WebhookEvent → WebhookEvent) (s : Store)
    → IsListed s.events id
    → update_event db id data' s ≡ (record s { events = change (has_id id) data' s.events }, ok tt)
unfolding update_event
update_event_listed db id data' s h =
    ground (arith, db.update_lem WebhookEvent (has_id id) data' s.events)

pub map-map {ℓ} :
    {A : Type ℓ} (f g h : A → A) (xs : List A)
    → ((x : A) → f (g x) ≡ h x)
    → map f (map g xs) ≡ map h xs
map-map f g h [] e = refl
map-map f g h (x ∷ xs) e = cc (e x, map-map f g h xs e)

map_same {ℓ} : {A : Type ℓ} (xs : List A) → xs ≡ map (λ x. x) xs
map_same [] = refl
map_same (x ∷ xs) = ap (◌∷◌ x) (map_same xs)

module _ (db : Prisma) (inngest : List Message → SendResult) (now : ℕ) where
  dispatch_row : WebhookEvent → WebhookEvent
  dispatch_row row = record row { status = dispatched; dispatched_at = some now }

  pub mark_sends_lem :
      (sends : List SweepSend) (s : Store)
      → All (λ x. IsListed s.events x.row_id) sends
      → mark_sends db inngest now sends s
        ≡ (record s { events = map (dispatched_if now sends) s.events }, ok tt)
  unfolding mark_sends mark_dispatched dispatch_row
  mark_sends_lem [] s a = ap (λ rows. (record s { events = rows }, ok tt)) (map_same s.events)
  mark_sends_lem (x ∷ sends) s (a, as') = rw (
    update_event_listed db x.row_id dispatch_row s a,
    mark_sends_lem sends (record s { events = change (has_id x.row_id) dispatch_row s.events })
        (All-IsListed-change (λ y. y.row_id) sends x.row_id dispatch_row s.events (λ row. refl)
          as'),
    map-map (dispatched_if now sends) (λ row. if has_id x.row_id row then dispatch_row row else row)
        (dispatched_if now (x ∷ sends)) s.events (λ row. ground arith),
  )

  pub mark_skips_lem :
      (skips : List SweepSkip) (s : Store)
      → All (λ x. IsListed s.events x.row_id) skips
      → mark_skips db inngest now skips s
        ≡ (record s { events = map (failed_by skips) s.events }, ok tt)
  unfolding mark_skips mark_failed
  mark_skips_lem [] s a = ap (λ rows. (record s { events = rows }, ok tt)) (map_same s.events)
  mark_skips_lem (x ∷ skips) s (a, as') = rw (
    update_event_listed db x.row_id (fail_row x) s a,
    mark_skips_lem skips (record s { events = change (has_id x.row_id) (fail_row x) s.events })
        (All-IsListed-change (λ y. y.row_id) skips x.row_id (fail_row x) s.events (λ row. refl)
          as'),
    map-map (failed_by skips) (fails_row x) (failed_by (x ∷ skips)) s.events (λ row. refl),
  )

  -- The sends' rows and the skips' rows stay in the table.
  pub IsListed-map :
      (g : WebhookEvent → WebhookEvent) (id : String) (rows : List WebhookEvent)
      → ((row : WebhookEvent) → (g row).id ≡ row.id)
      → any (has_id id) (map g rows) ≡ any (has_id id) rows
  IsListed-map g id [] h = refl
  IsListed-map g id (row ∷ rows) h = ground (arith, h row, IsListed-map g id rows h)
