-- ===== src/Text/Decimal.antt =====
-- The decimal digits of a number, as %d of package fmt prints one that is not negative.
use vault_unsealer.Prelude.{
  ℕ, zero, suc, ◌+◌, ◌-◌, ◌*◌, ◌/◌, ◌%◌, ◌<◌, ◌≡◌, refl, ◌∙◌, [], ◌∷◌, ◌++◌, arith, ltb, Bool-cases,
  inl, inr,
}
use mathlib.Core.Bool.{true, false}
use vault_unsealer.Text.{Text, codes}

digit : ℕ → ℕ
digit d = b'0' + d

-- A number has at most as many digits as its successor says.
decimal_fuel : ℕ → ℕ → Text
decimal_fuel zero n = []
decimal_fuel (suc fuel) n = elim (ltb n 10) [
  | true ↦ digit n ∷ []
  | false ↦ decimal_fuel fuel (n / 10) ++ digit (n % 10) ∷ []
]

unfoldable pub decimal : ℕ → Text
unfolding decimal_fuel digit
decimal n = decimal_fuel (suc n) n

-- The number that a text of digits denotes.
abbrev pub value_from : ℕ → Text → ℕ
value_from acc [] = acc
value_from acc (c ∷ s) = value_from (acc * 10 + (c - b'0')) s

value_from-concat :
    (acc : ℕ) (s : Text) (c : ℕ) → value_from acc (s ++ c ∷ []) ≡ value_from acc s * 10 + (c - b'0')
value_from-concat acc [] c = refl
value_from-concat acc (d ∷ s) c = value_from-concat (acc * 10 + (d - b'0')) s c

value_from-decimal_fuel : (fuel n : ℕ) → n < fuel → value_from 0 (decimal_fuel fuel n) ≡ n
unfolding decimal_fuel digit
value_from-decimal_fuel zero n h = absurd (omega arith)
value_from-decimal_fuel (suc fuel) n h = elim (Bool-cases (ltb n 10)) [
  | inl small ↦ rw (small, decimal_fuel) (omega arith)
  | inr large ↦
      rw (large, decimal_fuel)
        (value_from-concat 0 (decimal_fuel fuel (n / 10)) (digit (n % 10))
          ∙ (omega (arith, value_from-decimal_fuel fuel (n / 10) (ground arith))))
]

-- The digits denote the number that was printed.
pub value_from-decimal : (n : ℕ) → value_from 0 (decimal n) ≡ n
unfolding decimal
value_from-decimal n = value_from-decimal_fuel (suc n) n (omega arith)

four_digits : decimal 1205 ≡ codes "1205"
unfolding decimal
four_digits = refl
