-- ===== src/Prelude/ListLaws.antt =====
-- Predicates that hold of every element, and lengths, through the functions on lists.
use Prim.Native.Nat.{ℕ, zero, suc}
use mathlib.Core.Path.{◌≡◌, refl, ap}
use mathlib.Core.Logic.{◌⊎◌, inl, inr}
use mathlib.Core.Bool.{Bool, true}
use mathlib.Core.List.{List, [], ◌∷◌, ◌++◌, map}
use mathlib.Core.Option.{some}
use native.Mathlib.Omega.{arith}
use ai_powered_github_pr_rev.Prelude.Tests.{Bool-cases}
use ai_powered_github_pr_rev.Prelude.Lists.{All, filter, find, take, length}

module _ {A : Type 0} where
  pub All-weaken : (P Q : A → Type 0) (xs : List A) → ((x : A) → P x → Q x) → All P xs → All Q xs
  All-weaken P Q [] h a = tt
  All-weaken P Q (x ∷ xs) h (a, as') = (h x a, All-weaken P Q xs h as')

  pub All-filter : (P : A → Type 0) (p : A → Bool) (xs : List A) → All P xs → All P (filter p xs)
  All-filter P p [] a = tt
  All-filter P p (x ∷ xs) (a, as') = elim (Bool-cases (p x)) [
    | inl e ↦ rw e (a, All-filter P p xs as')
    | inr e ↦ rw e (All-filter P p xs as')
  ]

  pub All-take : (P : A → Type 0) (n : ℕ) (xs : List A) → All P xs → All P (take n xs)
  All-take P zero xs a = tt
  All-take P (suc n) [] a = tt
  All-take P (suc n) (x ∷ xs) (a, as') = (a, All-take P n xs as')

pub length-map : {A B : Type 0} (f : A → B) (xs : List A) → length (map f xs) ≡ length xs
length-map f [] = refl
length-map f (x ∷ xs) = ap suc (length-map f xs)

pub All-map :
    {A B : Type 0} (P : B → Type 0) (f : A → B) (xs : List A)
    → All (λ x. P (f x)) xs
    → All P (map f xs)
All-map P f [] a = tt
All-map P f (x ∷ xs) (a, as') = (a, All-map P f xs as')

pub List-cases :
    {A : Type 0} (xs : List A) → (xs ≡ []) ⊎ ((x : A) × (rest : List A) × (xs ≡ x ∷ rest))
List-cases [] = inl refl
List-cases (x ∷ xs) = inr (x, xs, refl)

pub All-append :
    {A : Type 0} (P : A → Type 0) (xs ys : List A) → All P xs → All P ys → All P (xs ++ ys)
All-append P [] ys a b = b
All-append P (x ∷ xs) ys (a, as') b = (a, All-append P xs ys as' b)

module _ {Row : Type 0} where
  -- `Array.prototype.find` returns an element that passes.
  pub find_holds :
      (key : Row → Bool) (rows : List Row) (r : Row) → find key rows ≡ some r → key r ≡ true
  find_holds key [] r h = cc
  find_holds key (x ∷ xs) r h = ground (arith, find_holds key xs r)
