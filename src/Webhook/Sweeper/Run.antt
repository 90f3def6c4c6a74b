-- ===== src/Webhook/Sweeper/Run.antt =====
-- A run of the sweeper: what becomes of the ledger and what is sent.
use ai_powered_github_pr_rev.Prelude.{
  ℕ, ◌≡◌, refl, ap, ◌∙◌, sym, not, List, [], ◌∷◌, ◌++◌, map, All, arith, if◌then◌else◌, filter,
  is_empty, length, inl, inr, ◌≢◌,
}
use mathlib.Core.List.{append-nil}
use ai_powered_github_pr_rev.Prelude.ListLaws.{
  All-weaken, All-filter, All-map, length-map, List-cases,
}
use ai_powered_github_pr_rev.Prelude.Equality.{text_equality}
use ai_powered_github_pr_rev.Database.{Prisma}
use ai_powered_github_pr_rev.Store.{WebhookEvent, Message, Store, Result, ok, err, internal}
use ai_powered_github_pr_rev.Webhook.Ledger.{find_pending_older_than}
use ai_powered_github_pr_rev.Webhook.Emit.{SendResult, acknowledged, refused}
use ai_powered_github_pr_rev.Webhook.Sweeper.{
  SweepSend, SweepReport, send_event, webhook_sweeper, send_if_any, sweep_rows, build_sweep_sends,
  sent_messages, pending_threshold_ms, sweep_batch_limit, send_of, skip_of,
}
use ai_powered_github_pr_rev.Webhook.Sweeper.Plan.{is_replayable, build_sweep_sends_lem}
use ai_powered_github_pr_rev.Webhook.Sweeper.Laws.{
  dispatched_if, failed_by, IsListed, mark_sends_lem, mark_skips_lem, IsListed-map, map-map,
}
use ai_powered_github_pr_rev.Webhook.Sweeper.Status.{
  IsListed-found, status_after, any-send_of, failed_by_status, any-skip_of,
}

module _ (db : Prisma) (inngest : List Message → SendResult) (now : ℕ) where
  abbrev pub found_rows : Store → List WebhookEvent
  found_rows s = find_pending_older_than db pending_threshold_ms sweep_batch_limit now s

  send_if_any_acknowledged :
      (sends : List SweepSend) (s : Store)
      → inngest (sent_messages sends) ≡ acknowledged
      → send_if_any db inngest now sends s
        ≡ (record s { sent = s.sent ++ sent_messages sends }, ok tt)
  unfolding send_if_any send_event
  send_if_any_acknowledged [] s h = rw (append-nil s.sent) refl
  send_if_any_acknowledged (x ∷ sends) s h = ground (arith, h)

  abbrev settle : List WebhookEvent → WebhookEvent → WebhookEvent
  settle rows row =
      failed_by (build_sweep_sends rows).skips
        (dispatched_if now (build_sweep_sends rows).sends row)

  abbrev report : List WebhookEvent → SweepReport
  report rows = record {
    found = length rows;
    dispatched_count = length (build_sweep_sends rows).sends;
    failed_count = length (build_sweep_sends rows).skips;
  }

  IsListed-sends :
      (events rows : List WebhookEvent)
      → All (λ row. IsListed events row.id) rows
      → All (λ x. IsListed events x.row_id) (build_sweep_sends rows).sends
  IsListed-sends events rows a = rw ((build_sweep_sends_lem rows).0) (
      All-map (λ x. IsListed events x.row_id) send_of _
        (All-filter (λ row. IsListed events row.id) is_replayable rows a))

  IsListed-skips :
      (events rows : List WebhookEvent)
      → All (λ row. IsListed events row.id) rows
      → All (λ x. IsListed events x.row_id) (build_sweep_sends rows).skips
  IsListed-skips events rows a = rw ((build_sweep_sends_lem rows).1) (
      All-map (λ x. IsListed events x.row_id) skip_of _
        (All-filter (λ row. IsListed events row.id) (λ row. not (is_replayable row)) rows a))

  sweep_rows_lem :
      (rows : List WebhookEvent) (s : Store)
      → All (λ row. IsListed s.events row.id) rows
      → inngest (sent_messages (build_sweep_sends rows).sends) ≡ acknowledged
      → sweep_rows db inngest now rows s ≡ (
        record s {
          events = map (settle rows) s.events;
          sent = s.sent ++ sent_messages (build_sweep_sends rows).sends;
        },
        ok (report rows),
      )
  unfolding sweep_rows
  sweep_rows_lem rows s a h =
      let sends = (build_sweep_sends rows).sends in
      let skips = (build_sweep_sends rows).skips in
      let s1 : Store = record s { sent = s.sent ++ sent_messages sends } in
      let s2 : Store = record s1 { events = map (dispatched_if now sends) s.events } in
      rw
        (
          send_if_any_acknowledged sends s h,
          mark_sends_lem db inngest now sends s1 (IsListed-sends s.events rows a),
          mark_skips_lem db inngest now skips s2 (
              All-weaken (λ x. IsListed s.events x.row_id) (λ x. IsListed s2.events x.row_id) skips
                (λ x l.
                  IsListed-map db inngest now (dispatched_if now sends) x.row_id s.events
                    (λ row. ground arith)
                  ∙ l)
                (IsListed-skips s.events rows a)),
          map-map (failed_by skips) (dispatched_if now sends) (settle rows) s.events (λ row. refl),
        )
        refl

  -- The messages that make up a sweep, of the replayable rows in the order found.
  abbrev pub sweep_messages : List WebhookEvent → List Message
  sweep_messages rows = sent_messages (map send_of (filter is_replayable rows))

  status_settle :
      (rows : List WebhookEvent) (row : WebhookEvent)
      → (settle rows row).status ≡ status_after rows row
  status_settle rows row = ground (
    arith,
    failed_by_status (build_sweep_sends rows).skips
        (dispatched_if now (build_sweep_sends rows).sends row),
    (build_sweep_sends_lem rows).0,
    (build_sweep_sends_lem rows).1,
    any-send_of rows row.id,
    any-skip_of rows row.id,
  )

  map-status_settle :
      (rows events : List WebhookEvent)
      → map (λ row. row.status) (map (settle rows) events) ≡ map (status_after rows) events
  map-status_settle rows [] = refl
  map-status_settle rows (row ∷ events) = cc (status_settle rows row, map-status_settle rows events)

  status_after-nil :
      (events : List WebhookEvent) → map (λ row. row.status) events ≡ map (status_after []) events
  status_after-nil [] = refl
  status_after-nil (row ∷ events) = ap (◌∷◌ row.status) (status_after-nil events)

  -- What a sweep that sends its messages leaves: each row's status, the messages, and the counts
  -- that it returns.
  abbrev pub IsSwept : List WebhookEvent → Store → Store × Result SweepReport → Type 0
  IsSwept rows s swept =
      (map (λ row. row.status) swept.0.events ≡ map (status_after rows) s.events)
      × (swept.0.sent ≡ s.sent ++ sweep_messages rows)
      × (swept.1
          ≡ ok (record {
            found = length rows;
            dispatched_count = length (filter is_replayable rows);
            failed_count = length (filter (λ row. not (is_replayable row)) rows);
          }))

  sweep_rows-IsSwept :
      (rows : List WebhookEvent) (s : Store)
      → All (λ row. IsListed s.events row.id) rows
      → inngest (sweep_messages rows) ≡ acknowledged
      → IsSwept rows s (sweep_rows db inngest now rows s)
  sweep_rows-IsSwept rows s a h =
      rw
        (sweep_rows_lem rows s a
          (ap (λ sends. inngest (sent_messages sends)) ((build_sweep_sends_lem rows).0) ∙ h))
        (
          map-status_settle rows s.events,
          ap (λ sends. s.sent ++ sent_messages sends) ((build_sweep_sends_lem rows).0),
          cc (
            (build_sweep_sends_lem rows).0,
            (build_sweep_sends_lem rows).1,
            length-map send_of (filter is_replayable rows),
            length-map skip_of (filter (λ row. not (is_replayable row)) rows),
          ),
        )

  sweep_found-IsSwept :
      (rows : List WebhookEvent) (s : Store)
      → All (λ row. IsListed s.events row.id) rows
      → inngest (sweep_messages rows) ≡ acknowledged
      → IsSwept rows s (
          if is_empty rows
          then (s, ok (record { found = 0; dispatched_count = 0; failed_count = 0 }))
          else sweep_rows db inngest now rows s)
  sweep_found-IsSwept [] s a h = (status_after-nil s.events, sym (append-nil s.sent), refl)
  sweep_found-IsSwept (row ∷ rows) s a h = sweep_rows-IsSwept (row ∷ rows) s a h

  -- Where Inngest acknowledges the messages, the sweep returns; of the rows found, a replayable
  -- one is then dispatched and any other one failed; every other row has the status it had; the
  -- messages of the replayable rows, in the order found, are sent, and the counts are those of
  -- the rows.
  pub webhook_sweeper-IsSwept :
      (s : Store)
      → inngest (sweep_messages (found_rows s)) ≡ acknowledged
      → IsSwept (found_rows s) s (webhook_sweeper db inngest now s)
  unfolding webhook_sweeper
  webhook_sweeper-IsSwept s h = sweep_found-IsSwept (found_rows s) s (IsListed-found db now s) h

  refused_rows :
      (rows : List WebhookEvent) (s : Store)
      → filter is_replayable rows ≢ []
      → inngest (sweep_messages rows) ≡ refused
      → sweep_rows db inngest now rows s ≡ (s, err internal)
  unfolding sweep_rows send_if_any send_event
  refused_rows rows s ne h = elim (List-cases (filter is_replayable rows)) [
    | inl e ↦ absurd (ne e)
    | inr (r, rs, e) ↦ ground (arith, (build_sweep_sends_lem rows).0, e, h)
  ]

  refused_found :
      (rows : List WebhookEvent) (s : Store)
      → filter is_replayable rows ≢ []
      → inngest (sweep_messages rows) ≡ refused
      → (if is_empty rows
          then (s, ok (record { found = 0; dispatched_count = 0; failed_count = 0 }))
          else sweep_rows db inngest now rows s)
        ≡ (s, err internal)
  refused_found [] s ne h = absurd (ne refl)
  refused_found (row ∷ rows) s ne h = refused_rows (row ∷ rows) s ne h

  -- Where a replayable row is found and Inngest refuses the messages, the sweep throws and
  -- changes nothing: every row found stays pending for the next sweep, the ones to be given up
  -- included.
  pub webhook_sweeper-refused :
      (s : Store)
      → filter is_replayable (found_rows s) ≢ []
      → inngest (sweep_messages (found_rows s)) ≡ refused
      → webhook_sweeper db inngest now s ≡ (s, err internal)
  unfolding webhook_sweeper
  webhook_sweeper-refused s ne h = refused_found (found_rows s) s ne h
