-- ===== src/Decimal/RoundTrip.antt =====
-- A printed number is read back.
use accord.Base.{
  ℕ, zero, suc, ◌+◌, ◌*◌, ◌-◌, ◌/◌, ◌%◌, ◌<◌, ltb, true, false, [], ◌∷◌, Bytes, some, ◌≡◌, ◌≢◌, ◌∙◌,
  ap, arith, Bool-cases, inl, inr,
}
use accord.Decimal.{digits_before, decimal, digits_value}

back : (d : ℕ) → 48 + d - 48 ≡ d
back d = omega arith

-- A digit between the value of those before it and the rest.
value_of_digit :
    (acc d : ℕ) (rest : Bytes)
    → d < 10
    → digits_value acc ((48 + d) ∷ rest) ≡ digits_value (acc * 10 + d) rest
unfolding digits_value
value_of_digit acc d rest h = rw (back d) (ground arith)

last_digit :
    (fuel n : ℕ) (rest : Bytes)
    → ltb n 10 ≡ true
    → digits_before (suc fuel) n rest ≡ (48 + n) ∷ rest
unfolding digits_before
last_digit fuel n rest h = ground arith

next_digit :
    (fuel n : ℕ) (rest : Bytes)
    → ltb n 10 ≡ false
    → digits_before (suc fuel) n rest ≡ digits_before fuel (n / 10) ((48 + n % 10) ∷ rest)
unfolding digits_before
next_digit fuel n rest h = ground arith

none_before : (n : ℕ) → 0 * 10 + n ≡ n
none_before n = omega arith

div_mod : (n : ℕ) → n / 10 * 10 + n % 10 ≡ n
div_mod n = omega arith

smaller : (fuel n : ℕ) → ltb n 10 ≡ false → n < suc fuel → n / 10 < fuel
smaller fuel n h k = ground arith

value-digits_before :
    (fuel n : ℕ) (rest : Bytes)
    → n < fuel
    → digits_value 0 (digits_before fuel n rest) ≡ digits_value n rest
value-digits_before zero n rest h = absurd (omega (arith, h))
value-digits_before (suc fuel) n rest h = elim (Bool-cases (ltb n 10)) [
  | inl small ↦
      rw (last_digit fuel n rest small)
        (value_of_digit 0 n rest (ground arith) ∙ ap (λ m. digits_value m rest) (none_before n))
  | inr large ↦ rw (next_digit fuel n rest large) (
      value-digits_before fuel (n / 10) ((48 + n % 10) ∷ rest) (smaller fuel n large h)
      ∙ value_of_digit (n / 10) (n % 10) rest (omega arith)
      ∙ ap (λ m. digits_value m rest) (div_mod n))
]

-- The digits that are printed for a number are read as that number.
pub value-decimal : (n : ℕ) → digits_value 0 (decimal n) ≡ some n
unfolding decimal digits_value
value-decimal n = value-digits_before (suc n) n [] (omega arith)

digits_before_ne_nil : (fuel n c : ℕ) (rest : Bytes) → digits_before fuel n (c ∷ rest) ≢ []
unfolding digits_before
digits_before_ne_nil zero n c rest e = cc
digits_before_ne_nil (suc fuel) n c rest e =
    ground (arith, digits_before_ne_nil fuel (n / 10) (48 + n % 10) (c ∷ rest))

pub decimal_ne_nil : (n : ℕ) → decimal n ≢ []
unfolding decimal digits_before
decimal_ne_nil n e = ground (arith, digits_before_ne_nil n (n / 10) (48 + n % 10) [])
