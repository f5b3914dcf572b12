-- ===== src/Base/Text.antt =====
-- Go strings and byte slices: lists of bytes, compared for equality and in Go's byte order.
use Prim.Native.Nat.{ℕ}
use Prim.Native.Char.{code}
use Prim.Native.String.{String}
use mathlib.Core.Path.{◌≡◌, refl}
use mathlib.Core.Logic.{◌↔◌}
use mathlib.Core.Bool.{Bool, true, false, ◌&&◌}
use mathlib.Core.List.{List, [], ◌∷◌}
use native.Mathlib.Omega.{arith}
use accord.Base.Tests.{ltb, eqb, if◌then◌else◌}

abbrev pub Bytes : Type 0
Bytes = List ℕ

-- The code points of a literal: its bytes, where the text is ASCII.
abbrev pub codes : String → Bytes
codes String.[] = []
codes (String.◌∷◌ c s) = code c ∷ codes s

-- Go's `==` on strings.
infix 50 ◌==◌
unfoldable pub ◌==◌ : Bytes → Bytes → Bool
[] == [] = true
[] == (b ∷ t) = false
(a ∷ s) == [] = false
(a ∷ s) == (b ∷ t) = eqb a b && s == t

pub eq_iff : (s t : Bytes) → ((s == t) ≡ true) ↔ (s ≡ t)
unfolding ◌==◌
eq_iff [] [] = ground arith
eq_iff [] (b ∷ t) = ground arith
eq_iff (a ∷ s) [] = ground arith
eq_iff (a ∷ s) (b ∷ t) = ground (arith, eq_iff s t)

pub eq_refl : (s : Bytes) → (s == s) ≡ true
eq_refl s = (eq_iff s s).1 refl

-- Go's `<` on strings: bytewise, a proper prefix first.
unfoldable pub lex_lt : Bytes → Bytes → Bool
lex_lt s [] = false
lex_lt [] (b ∷ t) = true
lex_lt (a ∷ s) (b ∷ t) = if eqb a b then lex_lt s t else ltb a b

pub lex_lt_irrefl : (s : Bytes) → lex_lt s s ≡ false
unfolding lex_lt
lex_lt_irrefl [] = refl
lex_lt_irrefl (a ∷ s) = ground (arith, lex_lt_irrefl s)

pub lex_lt_trans : (s t u : Bytes) → lex_lt s t ≡ true → lex_lt t u ≡ true → lex_lt s u ≡ true
unfolding lex_lt
lex_lt_trans s t [] h k = ground arith
lex_lt_trans s [] (c ∷ u) h k = ground arith
lex_lt_trans [] (b ∷ t) (c ∷ u) h k = refl
lex_lt_trans (a ∷ s) (b ∷ t) (c ∷ u) h k = ground (arith, lex_lt_trans s t u)

-- Two different strings are ordered one way or the other.
pub lex_lt_total : (s t : Bytes) → lex_lt s t ≡ false → (s == t) ≡ false → lex_lt t s ≡ true
unfolding lex_lt ◌==◌
lex_lt_total [] [] h k = ground arith
lex_lt_total [] (b ∷ t) h k = ground arith
lex_lt_total (a ∷ s) [] h k = refl
lex_lt_total (a ∷ s) (b ∷ t) h k = ground (arith, lex_lt_total s t)
