-- ===== src/Decimal.antt =====
-- `%d` of a number that is not negative, and the value of decimal digits.
pub mod RoundTrip
use accord.Base.{
  ℕ, zero, suc, ◌+◌, ◌*◌, ◌-◌, ◌/◌, ◌%◌, leb, ltb, true, false, ◌&&◌, [], ◌∷◌, Bytes, Option, none,
  some, if◌then◌else◌,
}

-- The digits of `n` in front of `rest`; each round but the last divides `n` by ten.
unfoldable pub digits_before : ℕ → ℕ → Bytes → Bytes
digits_before zero n rest = rest
digits_before (suc fuel) n rest = elim (ltb n 10) [
  | true ↦ (48 + n) ∷ rest
  | false ↦ digits_before fuel (n / 10) ((48 + n % 10) ∷ rest)
]

unfoldable pub decimal : ℕ → Bytes
decimal n = digits_before (suc n) n []

-- The value of digits behind those with the value `acc`.
unfoldable pub digits_value : ℕ → Bytes → Option ℕ
digits_value acc [] = some acc
digits_value acc (c ∷ s) =
    let rest = digits_value (acc * 10 + (c - 48)) s in if leb 48 c && leb c 57 then rest else none
