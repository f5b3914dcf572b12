-- ===== src/Hex/RoundTrip.antt =====
-- Hexadecimal text is read back.
use accord.Base.{
  ℕ, ◌/◌, ◌%◌, ◌<◌, [], ◌∷◌, Option, some, sym, ap, ◌∙◌, ◌≡◌, refl, arith, Bytes, All,
}
use accord.Hex.{hex_digit, encode_hex, digit_value, decode_hex}

abbrev pub AreBytes : Bytes → Type 0
AreBytes = All (λ b. b < 256)

pub digit_value-hex_digit : (n : ℕ) → n < 16 → digit_value (hex_digit n) ≡ some n
unfolding digit_value hex_digit
digit_value-hex_digit n h = ground arith

some-injective : {s t : Bytes} → ◌≡◌ {A = Option Bytes} (some s) (some t) → s ≡ t
some-injective e = cc

pub decode_hex-encode_hex : (s : Bytes) → AreBytes s → decode_hex (encode_hex s) ≡ some s
unfolding decode_hex encode_hex
decode_hex-encode_hex [] h = refl
decode_hex-encode_hex (b ∷ s) (k, h) =
    rw
      (
        digit_value-hex_digit (b / 16) (omega arith),
        digit_value-hex_digit (b % 16) (omega arith),
        decode_hex-encode_hex s h,
      )
      (ground arith)

pub encode_hex_injective :
    (s t : Bytes) → AreBytes s → AreBytes t → encode_hex s ≡ encode_hex t → s ≡ t
encode_hex_injective s t hs ht e =
    some-injective (sym (decode_hex-encode_hex s hs) ∙ ap decode_hex e ∙ decode_hex-encode_hex t ht)
