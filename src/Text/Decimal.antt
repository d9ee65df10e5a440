-- ===== src/Text/Decimal.antt =====
-- `to_string` of an unsigned integer: its decimal digits.
use docx_mcp.Base.{
  ℕ, zero, suc, ◌+◌, ◌-◌, ◌*◌, ◌/◌, ◌%◌, ◌<◌, [], ◌∷◌, ◌++◌, ◌≡◌, refl, ap, ◌∙◌, sym, arith, ltb,
  if◌then◌else◌,
}
use docx_mcp.Text.Trim.{Text, codes}

-- Fuel `n + 1` is enough for `n`, since each round divides by ten.
to_decimal_fuel : ℕ → ℕ → Text
to_decimal_fuel zero n = []
to_decimal_fuel (suc fuel) n =
    let rest = to_decimal_fuel fuel (n / 10) in
    if ltb n 10 then (b'0' + n) ∷ [] else rest ++ (b'0' + n % 10) ∷ []

unfoldable pub to_decimal : ℕ → Text
unfolding to_decimal_fuel
to_decimal n = to_decimal_fuel (suc n) n

-- The number that digits spell behind `n`.
abbrev value_from : ℕ → Text → ℕ
value_from n [] = n
value_from n (c ∷ s) = value_from (n * 10 + (c - b'0')) s

value_from-append :
    (s : Text) (n c : ℕ) → value_from n (s ++ c ∷ []) ≡ value_from n s * 10 + (c - b'0')
value_from-append [] n c = refl
value_from-append (d ∷ s) n c = value_from-append s (n * 10 + (d - b'0')) c

value-to_decimal_fuel : (fuel n : ℕ) → n < fuel → value_from 0 (to_decimal_fuel fuel n) ≡ n
unfolding to_decimal_fuel
value-to_decimal_fuel zero n h = absurd (omega arith)
value-to_decimal_fuel (suc fuel) n h = ground (
  arith,
  value-to_decimal_fuel fuel (n / 10),
  value_from-append (to_decimal_fuel fuel (n / 10)) 0 (b'0' + n % 10),
)

value-to_decimal : (n : ℕ) → value_from 0 (to_decimal n) ≡ n
unfolding to_decimal
value-to_decimal n = value-to_decimal_fuel (suc n) n (omega arith)

-- Two numbers with the same digits are equal.
pub to_decimal-injective : (m n : ℕ) → to_decimal m ≡ to_decimal n → m ≡ n
to_decimal-injective m n h = sym (value-to_decimal m) ∙ ap (value_from 0) h ∙ value-to_decimal n

to_decimal_runs : to_decimal 1203 ≡ codes "1203"
unfolding to_decimal
to_decimal_runs = refl
