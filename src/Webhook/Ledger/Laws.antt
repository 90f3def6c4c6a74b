-- ===== src/Webhook/Ledger/Laws.antt =====
-- What the ledger's writes do to the table, as equations.
use ai_powered_github_pr_rev.Prelude.{
  String, ◌≡◌, true, false, List, [], ◌∷◌, ◌++◌, arith, any, eq_iff,
}
use ai_powered_github_pr_rev.Database.{Prisma, change}
use ai_powered_github_pr_rev.Store.{WebhookEvent, Store, ok}
use ai_powered_github_pr_rev.Webhook.Ledger.{
  NewWebhookEvent, inserted, duplicate_delivery, Moment, new_row, clashes, has_id, insert_pending,
  update_event,
}

change-append_new :
    (at : Moment) (input : NewWebhookEvent) (data' : WebhookEvent → WebhookEvent)
    (row : WebhookEvent) (rows : List WebhookEvent)
    → row.id ≡ at.new_id
    → any (clashes at input) rows ≡ false
    → change (has_id at.new_id) data' (rows ++ row ∷ []) ≡ rows ++ data' row ∷ []
change-append_new at input data' row [] e h = ground (arith, eq_iff row.id at.new_id)
change-append_new at input data' row (x ∷ xs) e h =
    ground (arith, change-append_new at input data' row xs e)

any-has_id-append :
    (id : String) (row : WebhookEvent) (rows : List WebhookEvent)
    → row.id ≡ id
    → any (has_id id) (rows ++ row ∷ []) ≡ true
any-has_id-append id row [] e = ground (arith, eq_iff row.id id)
any-has_id-append id row (x ∷ xs) e = ground (arith, any-has_id-append id row xs e)

module _ (db : Prisma) (at : Moment) (input : NewWebhookEvent) (s : Store) where
  pub insert_pending_taken :
      any (clashes at input) s.events ≡ true
      → insert_pending db at input s ≡ (s, ok duplicate_delivery)
  unfolding insert_pending
  insert_pending_taken h =
      ground (arith, db.create_lem WebhookEvent (clashes at input) (new_row at input) s.events)

  pub insert_pending_new :
      any (clashes at input) s.events ≡ false
      → insert_pending db at input s
        ≡ (record s { events = s.events ++ new_row at input ∷ [] }, ok (inserted at.new_id))
  unfolding insert_pending
  insert_pending_new h =
      ground (arith, db.create_lem WebhookEvent (clashes at input) (new_row at input) s.events)

  -- An update of the row just inserted reaches that row alone.
  pub update_event_new :
      (s' : Store) (row : WebhookEvent) (data' : WebhookEvent → WebhookEvent)
      → any (clashes at input) s.events ≡ false
      → row.id ≡ at.new_id
      → s'.events ≡ s.events ++ row ∷ []
      → update_event db at.new_id data' s'
        ≡ (record s' { events = s.events ++ data' row ∷ [] }, ok tt)
  unfolding update_event
  update_event_new s' row data' h e es = ground (
    arith,
    db.update_lem WebhookEvent (has_id at.new_id) data' s'.events,
    any-has_id-append at.new_id row s.events e,
    change-append_new at input data' row s.events e h,
  )
