-- ===== src/Indexing/Lock/Exclusion.antt =====
-- Runs of `repository-index` on one repository, interleaved: each takes the lock by
-- `acquireIndexingLock` and gives it back by `markIndexed` or `markFailed` (repository.repository.ts).
use ai_powered_github_pr_rev.Prelude.{
  ℕ, ◌≡◌, ◌≤◌, ◌⊎◌, inl, inr, refl, String, Bool, true, false, not, List, [], ◌∷◌, length, any,
  filter, count, arith,
}
use ai_powered_github_pr_rev.Prelude.Equality.{◌==◌, text_equality}
use ai_powered_github_pr_rev.Database.{Prisma}
use ai_powered_github_pr_rev.Database.Rows.{count-change}
use ai_powered_github_pr_rev.Indexing.Store.{IndexStore, done}
use ai_powered_github_pr_rev.Indexing.Lock.{
  MarkIndexedInput, MarkFailedInput, lock_test, locked_at, is_lockable, acquire_indexing_lock,
  mark_indexed, mark_failed,
}
use ai_powered_github_pr_rev.Indexing.Lock.Writes.{acquire_indexing_lock_lem}

-- The store, and the runs whose `acquireIndexingLock` said `acquired` and that have not ended.
pub record Runs : Type 0 where
  pub store : IndexStore
  pub holders : List String

abbrev pub is_holder : String → List String → Bool
is_holder run holders = any (λ h. h == run) holders

abbrev pub without : String → List String → List String
without run holders = filter (λ h. not (h == run)) holders

pub data Move (db : Prisma) (id : String) (t : Runs) : Runs → Type 0 where
  wins :
      (run : String) (now : ℕ)
      → (acquire_indexing_lock db now id t.store).1 ≡ done true
      → Move db id t (record {
        store = (acquire_indexing_lock db now id t.store).0;
        holders = run ∷ t.holders;
      })
  loses :
      (now : ℕ)
      → (acquire_indexing_lock db now id t.store).1 ≡ done false
      → Move db id t (record t { store = (acquire_indexing_lock db now id t.store).0 })
  -- Writes of jobs, events that are sent, and sleeps.
  works :
      (s : IndexStore)
      → s.repositories ≡ t.store.repositories
      → Move db id t (record t { store = s })
  completes :
      (run : String) (now : ℕ) (input : MarkIndexedInput)
      → is_holder run t.holders ≡ true
      → Move db id t (record {
        store = (mark_indexed db now input t.store).0;
        holders = without run t.holders;
      })
  fails :
      (run : String) (now : ℕ) (input : MarkFailedInput)
      → is_holder run t.holders ≡ true
      → Move db id t
          (record { store = (mark_failed db now input t.store).0; holders = without run t.holders })

pub data Reach (db : Prisma) (id : String) (s : IndexStore) : Runs → Type 0 where
  start : Reach db id s (record { store = s; holders = [] })
  later : {t t' : Runs} → Reach db id s t → Move db id t t' → Reach db id s t'

-- Whoever has the lock is alone, and leaves no row that the lock's `where` finds.
Exclusive : String → Runs → Type 0
Exclusive id t =
    (t.holders ≡ [])
    ⊎ ((run : String) × (t.holders ≡ run ∷ []) × (count (lock_test id) t.store.repositories ≡ 0))

module _ (db : Prisma) (id : String) where
  none_left :
      (now : ℕ) (s : IndexStore)
      → count (lock_test id) (acquire_indexing_lock db now id s).0.repositories ≡ 0
  unfolding is_lockable
  none_left now s = rw (acquire_indexing_lock_lem db now id s) (
      count-change (lock_test id) (lock_test id) (locked_at now) (λ r. ground arith) s.repositories)

  won :
      (now : ℕ) (s : IndexStore)
      → (acquire_indexing_lock db now id s).1 ≡ done true
      → count (lock_test id) s.repositories ≡ 1
  won now s = rw (acquire_indexing_lock_lem db now id s) (λ h. ground arith)

  emptied :
      (run : String) (t : Runs)
      → Exclusive id t
      → is_holder run t.holders ≡ true
      → without run t.holders ≡ []
  unfolding Exclusive
  emptied run t (inl e) h = ground arith
  emptied run t (inr (run', e, c)) h = ground arith

  Move-Exclusive : {t t' : Runs} → Exclusive id t → Move db id t t' → Exclusive id t'
  unfolding Exclusive
  Move-Exclusive {t} (inl e) (wins run now h) = inr (run, rw e refl, none_left now t.store)
  Move-Exclusive {t} (inr (r, e, c)) (wins run now h) =
      let one = won now t.store h in absurd (omega arith)
  Move-Exclusive (inl e) (loses now h) = inl e
  Move-Exclusive {t} (inr (r, e, c)) (loses now h) = inr (r, e, none_left now t.store)
  Move-Exclusive (inl e) (works s same) = inl e
  Move-Exclusive (inr (r, e, c)) (works s same) = inr (r, e, rw same c)
  Move-Exclusive {t} x (completes run now input h) = inl (emptied run t x h)
  Move-Exclusive {t} x (fails run now input h) = inl (emptied run t x h)

  Reach-Exclusive : {s : IndexStore} {t : Runs} → Reach db id s t → Exclusive id t
  unfolding Exclusive
  Reach-Exclusive start = inl refl
  Reach-Exclusive (later r m) = Move-Exclusive (Reach-Exclusive r) m

-- Runs on one repository may take its lock, be refused it, write to other tables, complete and
-- fail in any order; if only runs that have taken the lock and have not ended complete or fail,
-- then at no time do two runs have the lock.
pub mutual_exclusion :
    (db : Prisma) (id : String) {s : IndexStore} {t : Runs} → Reach db id s t → length t.holders ≤ 1
unfolding Exclusive
mutual_exclusion db id r = elim (Reach-Exclusive db id r) [
  | inl e ↦ rw e (omega arith)
  | inr x ↦ rw x.1 (omega arith)
]
