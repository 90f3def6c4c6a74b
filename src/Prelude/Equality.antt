-- ===== src/Prelude/Equality.antt =====
-- `===` on texts, numbers, integers and optional values.
use Prim.Native.Nat.{ℕ}
use Prim.Native.String.{String}
use text.Mathlib.Text.{◌==◌ as str_eq}
use text.Mathlib.TextEquality.{eq_iff}
use mathlib.Core.Path.{◌≡◌, refl, sym, ◌∙◌}
use mathlib.Core.Logic.{◌↔◌, inl, inr}
use mathlib.Core.Bool.{Bool, true}
use ai_powered_github_pr_rev.Prelude.Tests.{nat_beq, nat_beq_iff, Bool-cases}
use ai_powered_github_pr_rev.Prelude.Int.{ℤ, int_beq, int_beq_iff}

-- A type whose values JavaScript compares by value.
pub record Comparable {ℓ} (A : Type ℓ) : Type ℓ where
  pub same : A → A → Bool
  pub same_iff : (x y : A) → (same x y ≡ true) ↔ (x ≡ y)

abbrev pub ◌==◌ {ℓ} : {A : Type ℓ} ⦃c : Comparable A⦄ → A → A → Bool

infix 50 ◌==◌
◌==◌ ⦃c⦄ x y = c.same x y

instance abbrev pub integer_equality : Comparable ℤ
integer_equality = record { same = int_beq; same_iff = int_beq_iff }

instance abbrev pub number_equality : Comparable ℕ
number_equality = record { same = nat_beq; same_iff = nat_beq_iff }

instance abbrev pub text_equality : Comparable String
text_equality = record { same = str_eq; same_iff = eq_iff }

pub beq_sym : (x y : String) → (x == y) ≡ (y == x)
beq_sym x y = elim (Bool-cases (x == y)) [
  | inl e ↦ rw ((eq_iff x y).0 e) refl
  | inr e ↦ elim (Bool-cases (y == x)) [ inl f ↦ rw ((eq_iff y x).0 f) refl | inr f ↦ e ∙ sym f ]
]
