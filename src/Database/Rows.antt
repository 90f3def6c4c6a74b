-- ===== src/Database/Rows.antt =====
-- Reading a table of packages/db/prisma/schema.prisma after rows of it are changed or added.
use ai_powered_github_pr_rev.Prelude.{
  ◌≡◌, refl, Bool, true, false, ◌&&◌, Option, none, some, List, [], ◌∷◌, ◌++◌, any, find, count,
  if◌then◌else◌, arith, Bool-cases, inl, inr,
}
use ai_powered_github_pr_rev.Database.{change}

module _ {Row : Type 0} where
  abbrev pub change_one : (Row → Bool) → (Row → Row) → Row → Row
  change_one test data' r = if test r then data' r else r

  abbrev pub change_some : (Row → Bool) → (Row → Row) → Option Row → Option Row
  change_some test data' none = none
  change_some test data' (some r) = some (change_one test data' r)

  -- A change that leaves the key alone.
  pub find-change :
      (key test : Row → Bool) (data' : Row → Row)
      → ((r : Row) → key (change_one test data' r) ≡ key r)
      → (rows : List Row)
      → find key (change test data' rows) ≡ change_some test data' (find key rows)
  find-change key test data' keep [] = refl
  find-change key test data' keep (x ∷ xs) = elim (Bool-cases (key x)) [
    | inl e ↦ rw (keep x, e) refl
    | inr e ↦ rw (keep x, e) (find-change key test data' keep xs)
  ]

  pub any-find :
      (key : Row → Bool) (rows : List Row) (r : Row) → find key rows ≡ some r → any key rows ≡ true
  any-find key [] r h = cc
  any-find key (x ∷ xs) r h = ground (arith, any-find key xs r)

  pub find-append :
      (key : Row → Bool) (rows : List Row) (r : Row)
      → any key rows ≡ false
      → key r ≡ true
      → find key (rows ++ r ∷ []) ≡ some r
  find-append key [] r h k = rw k refl
  find-append key (x ∷ xs) r h k = ground (arith, find-append key xs r)

  count_zero :
      (key test : Row → Bool) (rows : List Row)
      → count key rows ≡ 0
      → count (λ r. key r && test r) rows ≡ 0
  count_zero key test [] h = refl
  count_zero key test (x ∷ xs) h = ground (arith, count_zero key test xs)

  -- Of the rows with a unique key, those that meet a test besides.
  pub count_unique :
      (key test : Row → Bool) (rows : List Row) (r : Row)
      → count key rows ≡ 1
      → find key rows ≡ some r
      → count (λ r'. key r' && test r') rows ≡ (if test r then 1 else 0)
  count_unique key test [] r h f = cc
  count_unique key test (x ∷ xs) r h f =
      ground (arith, count_zero key test xs, count_unique key test xs r)

  pub change-none :
      (test : Row → Bool) (data' : Row → Row) (rows : List Row)
      → count test rows ≡ 0
      → change test data' rows ≡ rows
  change-none test data' [] h = refl
  change-none test data' (x ∷ xs) h = ground (arith, change-none test data' xs)

  -- A second query whose test no row meets after the change finds none.
  pub count-change :
      (test later : Row → Bool) (data' : Row → Row)
      → ((r : Row) → later (change_one test data' r) ≡ false)
      → (rows : List Row) → count later (change test data' rows) ≡ 0
  count-change test later data' never [] = refl
  count-change test later data' never (x ∷ xs) =
      rw (never x) (count-change test later data' never xs)
