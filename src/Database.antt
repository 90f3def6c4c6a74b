-- ===== src/Database.antt =====
-- Prisma, the database client that the repository modules call. It is third-party code, so its
-- query methods are fields of a record, with the documented behaviour that the source relies on.
-- A table is the list of its rows; a `where` object is a Boolean test on a row.
pub mod Rows
use ai_powered_github_pr_rev.Prelude.{
  ℕ, ◌≡◌, refl, Bool, Option, none, some, List, [], ◌∷◌, ◌++◌, map, if◌then◌else◌, any, filter,
  find, count, take, leb, ltb,
}

module _ {Row : Type 0} where
  -- The rows with those that meet the test changed.
  abbrev pub change : (Row → Bool) → (Row → Row) → List Row → List Row
  change test data' = map (λ r. if test r then data' r else r)

  -- Ascending by a key, rows with equal keys in table order.
  abbrev pub insert_by : (Row → ℕ) → Row → List Row → List Row
  insert_by key r [] = r ∷ []
  insert_by key r (x ∷ xs) = if leb (key r) (key x) then r ∷ x ∷ xs else x ∷ insert_by key r xs

  abbrev pub sort_by : (Row → ℕ) → List Row → List Row
  sort_by key [] = []
  sort_by key (x ∷ xs) = insert_by key x (sort_by key xs)

  -- The row with the largest key, of several the first in table order.
  abbrev pub newer : (Row → ℕ) → Row → Option Row → Option Row
  newer key r none = some r
  newer key r (some best) = if ltb (key r) (key best) then some best else some r

  abbrev pub newest : (Row → ℕ) → List Row → Option Row
  newest key [] = none
  newest key (x ∷ xs) = newer key x (newest key xs)

pub record Prisma : Type 1 where
  -- `none` is the error P2002, a unique column that some row has at the same value already.
  pub create : (Row : Type 0) → (Row → Bool) → Row → List Row → Option (List Row)
  -- `none` is the error P2025, no row for a unique `where`.
  pub update : (Row : Type 0) → (Row → Bool) → (Row → Row) → List Row → Option (List Row)
  pub update_many : (Row : Type 0) → (Row → Bool) → (Row → Row) → List Row → List Row
  pub update_count : (Row : Type 0) → (Row → Bool) → List Row → ℕ
  pub upsert : (Row : Type 0) → (Row → Bool) → Row → (Row → Row) → List Row → List Row
  pub find_many : (Row : Type 0) → (Row → Bool) → List Row → List Row
  -- `orderBy` ascending with `take`.
  pub find_oldest : (Row : Type 0) → (Row → Bool) → (Row → ℕ) → ℕ → List Row → List Row
  pub find_unique : (Row : Type 0) → (Row → Bool) → List Row → Option Row
  -- `findFirst` with `orderBy` descending.
  pub find_newest : (Row : Type 0) → (Row → Bool) → (Row → ℕ) → List Row → Option Row
  pub create_lem :
      (Row : Type 0) (clash : Row → Bool) (row : Row) (rows : List Row)
      → create Row clash row rows ≡ (if any clash rows then none else some (rows ++ row ∷ []))
  pub update_lem :
      (Row : Type 0) (test : Row → Bool) (data' : Row → Row) (rows : List Row)
      → update Row test data' rows ≡ (if any test rows then some (change test data' rows) else none)
  pub update_many_lem :
      (Row : Type 0) (test : Row → Bool) (data' : Row → Row) (rows : List Row)
      → update_many Row test data' rows ≡ change test data' rows
  pub update_count_lem :
      (Row : Type 0) (test : Row → Bool) (rows : List Row)
      → update_count Row test rows ≡ count test rows
  pub upsert_lem :
      (Row : Type 0) (test : Row → Bool) (row : Row) (data' : Row → Row) (rows : List Row)
      → upsert Row test row data' rows
        ≡ (if any test rows then change test data' rows else rows ++ row ∷ [])
  pub find_many_lem :
      (Row : Type 0) (test : Row → Bool) (rows : List Row)
      → find_many Row test rows ≡ filter test rows
  pub find_oldest_lem :
      (Row : Type 0) (test : Row → Bool) (key : Row → ℕ) (limit : ℕ) (rows : List Row)
      → find_oldest Row test key limit rows ≡ take limit (sort_by key (filter test rows))
  pub find_unique_lem :
      (Row : Type 0) (test : Row → Bool) (rows : List Row)
      → find_unique Row test rows ≡ find test rows
  pub find_newest_lem :
      (Row : Type 0) (test : Row → Bool) (key : Row → ℕ) (rows : List Row)
      → find_newest Row test key rows ≡ newest key (filter test rows)

-- A database in memory, which meets all of it.
abbrev pub in_memory : Prisma
in_memory = record {
  create = λ Row clash row rows. if any clash rows then none else some (rows ++ row ∷ []);
  update = λ Row test data' rows. if any test rows then some (change test data' rows) else none;
  update_many = λ Row test data' rows. change test data' rows;
  update_count = λ Row test rows. count test rows;
  upsert =
      λ Row test row data' rows. if any test rows then change test data' rows else rows ++ row ∷ [];
  find_many = λ Row test rows. filter test rows;
  find_oldest = λ Row test key limit rows. take limit (sort_by key (filter test rows));
  find_unique = λ Row test rows. find test rows;
  find_newest = λ Row test key rows. newest key (filter test rows);
  create_lem = λ _ _ _ _. refl;
  update_lem = λ _ _ _ _. refl;
  update_many_lem = λ _ _ _ _. refl;
  update_count_lem = λ _ _ _. refl;
  upsert_lem = λ _ _ _ _ _. refl;
  find_many_lem = λ _ _ _. refl;
  find_oldest_lem = λ _ _ _ _ _. refl;
  find_unique_lem = λ _ _ _. refl;
  find_newest_lem = λ _ _ _ _. refl;
}
