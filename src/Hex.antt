-- ===== src/Hex.antt =====
-- Go's package `encoding/hex`.
pub mod RoundTrip
use accord.Base.{
  ℕ, ◌+◌, ◌-◌, ◌*◌, ◌/◌, ◌%◌, ◌&&◌, List, [], ◌∷◌, Option, none, some, Bytes, ltb, leb,
  if◌then◌else◌,
}

unfoldable pub hex_digit : ℕ → ℕ
hex_digit n = if ltb n 10 then b'0' + n else b'a' + (n - 10)

-- `hex.EncodeToString`
unfoldable pub encode_hex : Bytes → Bytes
encode_hex [] = []
encode_hex (b ∷ s) = hex_digit (b / 16) ∷ hex_digit (b % 16) ∷ encode_hex s

-- The value of a digit, in either case.
unfoldable pub digit_value : ℕ → Option ℕ
digit_value c =
    if leb b'0' c && leb c b'9'
    then some (c - b'0')
    else if leb b'a' c && leb c b'f'
    then some (c - b'a' + 10)
    else if leb b'A' c && leb c b'F'
    then some (c - b'A' + 10)
    else none

abbrev pub cons_pair : Option ℕ → Option ℕ → Option Bytes → Option Bytes
cons_pair (some hi) (some lo) (some s) = some ((hi * 16 + lo) ∷ s)
cons_pair (some hi) (some lo) none = none
cons_pair (some hi) none s = none
cons_pair none lo s = none

-- `hex.DecodeString`; `none` on a byte that is no digit and on an odd length.
unfoldable pub decode_hex : Bytes → Option Bytes
decode_hex [] = some []
decode_hex (c ∷ []) = none
decode_hex (c ∷ d ∷ s) = cons_pair (digit_value c) (digit_value d) (decode_hex s)
