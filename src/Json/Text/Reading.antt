-- ===== src/Json/Text/Reading.antt =====
-- Reading a JSON string back: what `append_string` writes, `unquote` reads, up to the text behind it.
use accord.Base.{
  ℕ, zero, suc, ◌+◌, ◌*◌, ◌/◌, ◌%◌, ◌<◌, [], ◌∷◌, ◌++◌, Option, none, some, ◌≡◌, refl, ap, ◌∙◌,
  arith, Bytes, eqb, ltb, if◌then◌else◌,
}
use accord.Hex.{hex_digit, digit_value}
use accord.Hex.RoundTrip.{digit_value-hex_digit}
use accord.Json.Text.{quotation, backslash, append_byte}

-- Between runes, behind a backslash, or with some more digits of a code to come behind the next one.
pub data Mode : Type 0 where
  plain escaped : Mode
  digits : ℕ → ℕ → Mode

abbrev escaped_byte : ℕ → ℕ
escaped_byte c =
    if eqb c b'b'
    then 8
    else if eqb c b'f'
    then 12
    else if eqb c b'n'
    then 10
    else if eqb c b'r'
    then 13
    else if eqb c b't'
    then 9
    else c

abbrev utf8_of : ℕ → Bytes
utf8_of n =
    if ltb n 0x80
    then n ∷ []
    else if ltb n 0x800
    then (0xC0 + n / 64) ∷ (0x80 + n % 64) ∷ []
    else (0xE0 + n / 4096) ∷ (0x80 + n / 64 % 64) ∷ (0x80 + n % 64) ∷ []

abbrev pub behind : Bytes → Option (Bytes × Bytes) → Option (Bytes × Bytes)
behind front none = none
behind front (some (s, rest)) = some (front ++ s, rest)

-- The string up to its closing quotation mark, and the text behind it.
unfoldable pub unquote : Mode → Bytes → Option (Bytes × Bytes)
unquote mode [] = none
unquote plain (c ∷ s) =
    let copied = behind (c ∷ []) (unquote plain s) in
    let code = unquote escaped s in
    if eqb c quotation then some ([], s) else if eqb c backslash then code else copied
unquote escaped (c ∷ s) =
    let code = unquote (digits 3 0) s in
    let one = behind (escaped_byte c ∷ []) (unquote plain s) in if eqb c b'u' then code else one
unquote (digits zero n) (c ∷ s) =
    let more = unquote plain s in
    elim (digit_value c) [ none ↦ none | some v ↦ behind (utf8_of (n * 16 + v)) more ]
unquote (digits (suc k) n) (c ∷ s) = elim (digit_value c) [
  | none ↦ none
  | some v ↦ unquote (digits k (n * 16 + v)) s
]

digit_value-zero : digit_value b'0' ≡ some 0
unfolding digit_value
digit_value-zero = refl

utf8_of-ascii : (n c : ℕ) → n ≡ c → c < 128 → utf8_of n ≡ c ∷ []
utf8_of-ascii n c e h = ground arith

unquote-digit :
    (k n c v : ℕ) (s : Bytes)
    → digit_value c ≡ some v
    → unquote (digits (suc k) n) (c ∷ s) ≡ unquote (digits k (n * 16 + v)) s
unfolding unquote
unquote-digit k n c v s e = rw (unquote, e) refl

unquote-last_digit :
    (n c v : ℕ) (s : Bytes)
    → digit_value c ≡ some v
    → unquote (digits zero n) (c ∷ s) ≡ behind (utf8_of (n * 16 + v)) (unquote plain s)
unfolding unquote
unquote-last_digit n c v s e = rw (unquote, e) refl

-- A code of four digits.
pub unquote-code :
    (a b c d i j k l : ℕ) (s : Bytes)
    → digit_value a ≡ some i
    → digit_value b ≡ some j
    → digit_value c ≡ some k
    → digit_value d ≡ some l
    → unquote plain (backslash ∷ b'u' ∷ a ∷ b ∷ c ∷ d ∷ s)
      ≡ behind (utf8_of ((((0 * 16 + i) * 16 + j) * 16 + k) * 16 + l)) (unquote plain s)
unfolding unquote
unquote-code a b c d i j k l s p q r t =
    unquote-digit 2 0 a i (b ∷ c ∷ d ∷ s) p
    ∙ unquote-digit 1 (0 * 16 + i) b j (c ∷ d ∷ s) q
    ∙ unquote-digit 0 ((0 * 16 + i) * 16 + j) c k (d ∷ s) r
    ∙ unquote-last_digit (((0 * 16 + i) * 16 + j) * 16 + k) d l s t

unquote-code_byte :
    (c : ℕ) (s : Bytes)
    → c < 128
    → unquote plain (backslash ∷ b'u' ∷ b'0' ∷ b'0' ∷ hex_digit (c / 16) ∷ hex_digit (c % 16) ∷ s)
      ≡ behind (c ∷ []) (unquote plain s)
unquote-code_byte c s h =
    unquote-code b'0' b'0' (hex_digit (c / 16)) (hex_digit (c % 16)) 0 0 (c / 16) (c % 16) s
      digit_value-zero digit_value-zero (digit_value-hex_digit (c / 16) (omega arith))
      (digit_value-hex_digit (c % 16) (omega arith))
    ∙ ap (λ front. behind front (unquote plain s))
        (utf8_of-ascii ((((0 * 16 + 0) * 16 + 0) * 16 + c / 16) * 16 + c % 16) c (omega arith) h)

pub unquote-append_byte :
    (c : ℕ) (rest : Bytes)
    → c < 128
    → unquote plain (append_byte c rest) ≡ behind (c ∷ []) (unquote plain rest)
unfolding unquote append_byte
unquote-append_byte c rest h = ground (arith, unquote-code_byte c rest h)
