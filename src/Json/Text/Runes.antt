-- ===== src/Json/Text/Runes.antt =====
-- What the text of a string reads as, rune by rune, for a string that is UTF-8.
use accord.Base.{
  ℕ, zero, suc, Bool, true, false, ◌&&◌, [], ◌∷◌, ◌++◌, none, some, ◌≡◌, refl, ap, sym, ◌∙◌, arith,
  ◌⊎◌, inl, inr, Option-cases, Bool-cases, Bytes, codes, leb, ltb, if◌then◌else◌,
}
use accord.Hex.{digit_value}
use accord.Json.Text.{quotation, rune_tail, is_separator, append_runes}
use accord.Json.Text.Reading.{plain, behind, unquote, unquote-append_byte}

-- `utf8.Valid`: the number counts the bytes that are left of a rune.
unfoldable pub is_utf8 : ℕ → Bytes → Bool
is_utf8 zero [] = true
is_utf8 (suc n) [] = false
is_utf8 (suc n) (c ∷ s) = leb 128 c && is_utf8 n s
is_utf8 zero (c ∷ s) =
    let ascii = is_utf8 zero s in
    if ltb c 128 then ascii else elim (rune_tail c s) [ none ↦ false | some n ↦ is_utf8 n s ]

unquote-high :
    (c : ℕ) (rest : Bytes)
    → (leb 128 c) ≡ true
    → unquote plain (c ∷ rest) ≡ behind (c ∷ []) (unquote plain rest)
unfolding unquote
unquote-high c rest h = ground arith

unquote-quotation : (rest : Bytes) → unquote plain (quotation ∷ rest) ≡ some ([], rest)
unfolding unquote
unquote-quotation rest = refl

unquote-line_separator :
    (rest : Bytes)
    → unquote plain (codes "\\u2028" ++ rest)
      ≡ behind (0xE2 ∷ 0x80 ∷ 0xA8 ∷ []) (unquote plain rest)
unfolding unquote digit_value
unquote-line_separator rest = refl

unquote-paragraph_separator :
    (rest : Bytes)
    → unquote plain (codes "\\u2029" ++ rest)
      ≡ behind (0xE2 ∷ 0x80 ∷ 0xA9 ∷ []) (unquote plain rest)
unfolding unquote digit_value
unquote-paragraph_separator rest = refl

append_runes-skipped :
    (s rest : Bytes) → append_runes zero false s rest ≡ append_runes zero true s rest
unfolding append_runes
append_runes-skipped [] rest = refl
append_runes-skipped (c ∷ s) rest = refl

-- What the text of a string stands for.
abbrev Reads : ℕ → Bytes → Bytes → Type 0
Reads n s rest = unquote plain (append_runes n true s (quotation ∷ rest)) ≡ some (s, rest)

unquote-ascii : (c : ℕ) (s rest : Bytes) → ltb c 128 ≡ true → Reads 0 s rest → Reads 0 (c ∷ s) rest
unfolding append_runes
unquote-ascii c s rest h r =
    rw (append_runes, h)
      (unquote-append_byte c (append_runes 0 true s (quotation ∷ rest)) (ground arith)
        ∙ ap (behind (c ∷ [])) r)

rune_tail-line : (s : Bytes) → rune_tail 0xE2 (0x80 ∷ 0xA8 ∷ s) ≡ some 2
unfolding rune_tail
rune_tail-line [] = refl
rune_tail-line (d ∷ s) = refl

rune_tail-paragraph : (s : Bytes) → rune_tail 0xE2 (0x80 ∷ 0xA9 ∷ s) ≡ some 2
unfolding rune_tail
rune_tail-paragraph [] = refl
rune_tail-paragraph (d ∷ s) = refl

unquote-line : (s rest : Bytes) → Reads 0 s rest → Reads 0 (0xE2 ∷ 0x80 ∷ 0xA8 ∷ s) rest
unfolding append_runes
unquote-line s rest r =
    rw (append_runes, rune_tail-line s, append_runes-skipped s (quotation ∷ rest))
      (unquote-line_separator (append_runes 0 true s (quotation ∷ rest))
        ∙ ap (behind (0xE2 ∷ 0x80 ∷ 0xA8 ∷ [])) r)

unquote-paragraph : (s rest : Bytes) → Reads 0 s rest → Reads 0 (0xE2 ∷ 0x80 ∷ 0xA9 ∷ s) rest
unfolding append_runes
unquote-paragraph s rest r =
    rw (append_runes, rune_tail-paragraph s, append_runes-skipped s (quotation ∷ rest))
      (unquote-paragraph_separator (append_runes 0 true s (quotation ∷ rest))
        ∙ ap (behind (0xE2 ∷ 0x80 ∷ 0xA9 ∷ [])) r)

separator-cases :
    (a b c : ℕ) (s : Bytes)
    → is_separator a (b ∷ c ∷ s) ≡ true
    → (a ≡ 0xE2) × (b ≡ 0x80) × ((c ≡ 0xA8) ⊎ (c ≡ 0xA9))
separator-cases a b c s h = ground arith

unquote-separator :
    (a b c : ℕ) (s rest : Bytes)
    → is_separator a (b ∷ c ∷ s) ≡ true
    → Reads 0 s rest
    → Reads 0 (a ∷ b ∷ c ∷ s) rest
unquote-separator a b c s rest h r =
    let (ea, eb, which) = separator-cases a b c s h in
    elim which [
      | inl ec ↦ rw (ea, eb, ec) (unquote-line s rest r)
      | inr ec ↦ rw (ea, eb, ec) (unquote-paragraph s rest r)
    ]

unquote-rune :
    (c n : ℕ) (s rest : Bytes)
    → ltb c 128 ≡ false
    → rune_tail c s ≡ some n
    → is_separator c s ≡ false
    → Reads n s rest
    → Reads 0 (c ∷ s) rest
unfolding append_runes
unquote-rune c n s rest high tail other r =
    rw (append_runes, high, tail, other)
      (unquote-high c (append_runes n true s (quotation ∷ rest)) (ground arith)
        ∙ ap (behind (c ∷ [])) r)

is_utf8-line : (s : Bytes) → is_utf8 0 (0xE2 ∷ 0x80 ∷ 0xA8 ∷ s) ≡ is_utf8 0 s
unfolding is_utf8
is_utf8-line s = rw (is_utf8, rune_tail-line s) refl

is_utf8-paragraph : (s : Bytes) → is_utf8 0 (0xE2 ∷ 0x80 ∷ 0xA9 ∷ s) ≡ is_utf8 0 s
unfolding is_utf8
is_utf8-paragraph s = rw (is_utf8, rune_tail-paragraph s) refl

is_utf8-separator :
    (a b c : ℕ) (s : Bytes)
    → is_separator a (b ∷ c ∷ s) ≡ true
    → is_utf8 0 (a ∷ b ∷ c ∷ s) ≡ true
    → is_utf8 0 s ≡ true
is_utf8-separator a b c s h valid =
    let (ea, eb, which) = separator-cases a b c s h in
    elim which [
      | inl ec ↦ sym (is_utf8-line s) ∙ (rw (ea, eb, ec) at valid)
      | inr ec ↦ sym (is_utf8-paragraph s) ∙ (rw (ea, eb, ec) at valid)
    ]

unquote-high_rune :
    (c : ℕ) (s rest : Bytes)
    → ltb c 128 ≡ false
    → is_separator c s ≡ false
    → is_utf8 0 (c ∷ s) ≡ true
    → ((n : ℕ) → is_utf8 n s ≡ true → Reads n s rest)
    → Reads 0 (c ∷ s) rest
unfolding is_utf8
unquote-high_rune c s rest high other valid reads = elim (Option-cases (rune_tail c s)) [
  | inl broken ↦ absurd (ground arith)
  | inr (n, tail) ↦ unquote-rune c n s rest high tail other (reads n (ground arith))
]

is_utf8-ascii : (a : ℕ) (s : Bytes) → ltb a 128 ≡ true → is_utf8 0 (a ∷ s) ≡ is_utf8 0 s
unfolding is_utf8
is_utf8-ascii a s low = rw (is_utf8, low) refl

pub unquote-append_runes : (n : ℕ) (s rest : Bytes) → is_utf8 n s ≡ true → Reads n s rest
unfolding is_utf8 append_runes
unquote-append_runes zero [] rest h = unquote-quotation rest
unquote-append_runes (suc n) [] rest h = absurd (ground arith)
unquote-append_runes (suc n) (c ∷ s) rest h =
    unquote-high c (append_runes n true s (quotation ∷ rest)) (ground arith)
    ∙ ap (behind (c ∷ [])) (unquote-append_runes n s rest (ground arith))
unquote-append_runes zero (a ∷ []) rest h = elim (Bool-cases (ltb a 128)) [
  | inl low ↦ unquote-ascii a [] rest low (unquote-quotation rest)
  | inr high ↦ unquote-high_rune a [] rest high refl h (λ n. unquote-append_runes n [] rest)
]
unquote-append_runes zero (a ∷ b ∷ []) rest h = elim (Bool-cases (ltb a 128)) [
  | inl low ↦
      unquote-ascii a (b ∷ []) rest low
        (unquote-append_runes 0 (b ∷ []) rest (sym (is_utf8-ascii a (b ∷ []) low) ∙ h))
  | inr high ↦
      unquote-high_rune a (b ∷ []) rest high refl h (λ n. unquote-append_runes n (b ∷ []) rest)
]
unquote-append_runes zero (a ∷ b ∷ c ∷ s) rest h = elim (Bool-cases (ltb a 128)) [
  | inl low ↦
      unquote-ascii a (b ∷ c ∷ s) rest low
        (unquote-append_runes 0 (b ∷ c ∷ s) rest (sym (is_utf8-ascii a (b ∷ c ∷ s) low) ∙ h))
  | inr high ↦ elim (Bool-cases (is_separator a (b ∷ c ∷ s))) [
    | inl split ↦
        unquote-separator a b c s rest split
          (unquote-append_runes 0 s rest (is_utf8-separator a b c s split h))
    | inr other ↦
        unquote-high_rune a (b ∷ c ∷ s) rest high other h
          (λ n. unquote-append_runes n (b ∷ c ∷ s) rest)
  ]
]
