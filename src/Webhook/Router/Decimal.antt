-- ===== src/Webhook/Router/Decimal.antt =====
-- `toString` of an integer.
use Prim.Native.String.{◌∷◌}
use Prim.Native.Char.{Char}
use ai_powered_github_pr_rev.Prelude.{ℕ, zero, suc, ◌/◌, ◌%◌, String, ltb, true, false}
use ai_powered_github_pr_rev.Prelude.Int.{ℤ, pos, negsuc}

digit : ℕ → Char
digit zero = "0"
digit (suc zero) = "1"
digit (suc (suc zero)) = "2"
digit (suc (suc (suc zero))) = "3"
digit (suc (suc (suc (suc zero)))) = "4"
digit (suc (suc (suc (suc (suc zero))))) = "5"
digit (suc (suc (suc (suc (suc (suc zero)))))) = "6"
digit (suc (suc (suc (suc (suc (suc (suc zero))))))) = "7"
digit (suc (suc (suc (suc (suc (suc (suc (suc zero)))))))) = "8"
digit (suc (suc (suc (suc (suc (suc (suc (suc (suc n))))))))) = "9"

-- The digits of `n` before those collected; the fuel is a number above `n`.
digits : ℕ → ℕ → String → String
digits zero n collected = collected
digits (suc fuel) n collected = elim (ltb n 10) [
  | true ↦ digit n ∷ collected
  | false ↦ digits fuel (n / 10) (digit (n % 10) ∷ collected)
]

unfoldable pub int_to_string : ℤ → String
unfolding digits digit
int_to_string (pos n) = digits (suc n) n ""
int_to_string (negsuc n) = "-" ∷ digits (suc (suc n)) (suc n) ""
