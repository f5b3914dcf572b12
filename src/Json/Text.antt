-- ===== src/Json/Text.antt =====
-- Go's encoding/json for strings and for maps from strings to strings: `json.Marshal` escapes HTML,
-- replaces bytes that are no UTF-8, and writes a map in the order of its keys. Each function writes in
-- front of `rest`.
pub mod Reading
pub mod Runes
pub mod Injective
pub mod Sorted
use accord.Base.{
  ℕ, zero, suc, ◌+◌, ◌/◌, ◌%◌, Bool, true, false, ◌&&◌, ◌||◌, not, List, [], ◌∷◌, ◌++◌, Option,
  none, some, Bytes, codes, eqb, leb, ltb, if◌then◌else◌,
}
use accord.Hex.{hex_digit}
use accord.Dict.{Dict, lookup, keys}
use accord.Base.{lex_lt}
use accord.Dict.{dicts}
use accord.Collections.{sort_strings, insert_sorted}

abbrev pub quotation : ℕ
quotation = b'"'

abbrev pub backslash : ℕ
backslash = b'\\'

-- `htmlSafeSet`, below 128.
abbrev pub is_safe : ℕ → Bool
is_safe c =
    leb 32 c && not (eqb c quotation || eqb c backslash || eqb c b'&' || eqb c b'<' || eqb c b'>')

-- A byte below 128.
unfoldable pub append_byte : ℕ → Bytes → Bytes
append_byte c rest =
    if is_safe c
    then c ∷ rest
    else if eqb c quotation || eqb c backslash
    then backslash ∷ c ∷ rest
    else if eqb c 8
    then backslash ∷ b'b' ∷ rest
    else if eqb c 12
    then backslash ∷ b'f' ∷ rest
    else if eqb c 10
    then backslash ∷ b'n' ∷ rest
    else if eqb c 13
    then backslash ∷ b'r' ∷ rest
    else if eqb c 9
    then backslash ∷ b't' ∷ rest
    else backslash ∷ b'u' ∷ b'0' ∷ b'0' ∷ hex_digit (c / 16) ∷ hex_digit (c % 16) ∷ rest

abbrev is_between : ℕ → ℕ → ℕ → Bool
is_between lo hi c = leb lo c && leb c hi

abbrev is_tail : ℕ → Bool
is_tail c = is_between 0x80 0xBF c

-- Whether the second byte fits the first one, which takes three or four bytes.
abbrev second_of_3 : ℕ → ℕ → Bool
second_of_3 a b =
    if eqb a 0xE0
    then is_between 0xA0 0xBF b
    else if eqb a 0xED
    then is_between 0x80 0x9F b
    else is_tail b

abbrev second_of_4 : ℕ → ℕ → Bool
second_of_4 a b =
    if eqb a 0xF0
    then is_between 0x90 0xBF b
    else if eqb a 0xF4
    then is_between 0x80 0x8F b
    else is_tail b

-- How many bytes follow the first one of a rune above U+007F; `none` if no rune starts here.
unfoldable pub rune_tail : ℕ → Bytes → Option ℕ
rune_tail a [] = none
rune_tail a (b ∷ []) = if is_between 0xC2 0xDF a && is_tail b then some 1 else none
rune_tail a (b ∷ c ∷ []) =
    if is_between 0xC2 0xDF a && is_tail b
    then some 1
    else if is_between 0xE0 0xEF a && second_of_3 a b && is_tail c
    then some 2
    else none
rune_tail a (b ∷ c ∷ d ∷ s) =
    if is_between 0xC2 0xDF a && is_tail b
    then some 1
    else if is_between 0xE0 0xEF a && second_of_3 a b && is_tail c
    then some 2
    else if is_between 0xF0 0xF4 a && second_of_4 a b && is_tail c && is_tail d
    then some 3
    else none

-- U+2028 and U+2029 are E2 80 A8 and E2 80 A9.
abbrev pub is_separator : ℕ → Bytes → Bool
is_separator a (b ∷ c ∷ s) = eqb a 0xE2 && eqb b 0x80 && (eqb c 0xA8 || eqb c 0xA9)
is_separator a _ = false

abbrev pub last_digit : Bytes → ℕ
last_digit (b ∷ c ∷ s) = if eqb c 0xA8 then b'8' else b'9'
last_digit _ = b'9'

abbrev pub append_replacement : Bytes → Bytes
append_replacement rest = codes "\\ufffd" ++ rest

-- The runes of a string. The number counts the bytes that are left of a rune; they are copied or, behind
-- an escape, left out.
unfoldable pub append_runes : ℕ → Bool → Bytes → Bytes → Bytes
append_runes n copied [] rest = rest
append_runes (suc n) copied (c ∷ s) rest =
    let behind = append_runes n copied s rest in if copied then c ∷ behind else behind
append_runes zero copied (c ∷ s) rest =
    let plain = append_byte c (append_runes zero true s rest) in
    let broken = append_replacement (append_runes zero true s rest) in
    if ltb c 128 then plain else elim (rune_tail c s) [
      | none ↦ broken
      | some n ↦
          if is_separator c s
          then codes "\\u202" ++ last_digit s ∷ append_runes n false s rest
          else c ∷ append_runes n true s rest
    ]

unfoldable pub append_string : Bytes → Bytes → Bytes
append_string s rest = quotation ∷ append_runes zero true s (quotation ∷ rest)

abbrev pub append_pair : Bytes × Bytes → Bytes → Bytes
append_pair (k, v) rest = append_string k (b':' ∷ append_string v rest)

unfoldable pub append_more : Dict Bytes → Bytes → Bytes
append_more [] rest = b'}' ∷ rest
append_more (e ∷ entries) rest = b',' ∷ append_pair e (append_more entries rest)

abbrev pub append_object : Dict Bytes → Bytes → Bytes
append_object [] rest = b'{' ∷ b'}' ∷ rest
append_object (e ∷ entries) rest = b'{' ∷ append_pair e (append_more entries rest)

-- The entries of a map in the order of its keys.
unfoldable pub entries_at : Dict Bytes → List Bytes → Dict Bytes
entries_at m [] = []
entries_at m (k ∷ ks) = elim (lookup k m) [
  | none ↦ entries_at m ks
  | some v ↦ (k, v) ∷ entries_at m ks
]

unfoldable pub sorted_entries : Dict Bytes → Dict Bytes
sorted_entries m = entries_at m (sort_strings (keys m))

unfoldable pub append_map : Dict Bytes → Bytes → Bytes
append_map m rest = append_object (sorted_entries m) rest

unfoldable pub texts : Unit {0}
unfolding hex_digit append_byte rune_tail append_runes append_string append_more entries_at
    sorted_entries append_map sort_strings insert_sorted lex_lt dicts
texts = tt
