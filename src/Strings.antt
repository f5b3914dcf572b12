-- ===== src/Strings.antt =====
-- The functions of Go's packages `strings` and `path` that the program calls, over byte strings:
-- HasPrefix, TrimPrefix, HasSuffix, TrimSuffix, Split at a byte, TrimSpace, ToLower and path.Clean.
pub mod Affixes
pub mod Parts
pub mod Cleaning
pub mod Rooted
pub mod Trimming
use mathlib.Core.List.{reverse, foldl}
use accord.Base.{
  ℕ, zero, suc, ◌+◌, Bool, true, false, ◌&&◌, ◌||◌, List, [], ◌∷◌, ◌++◌, Option, none, some, Bytes,
  codes, ◌==◌, eqb, leb, length, if◌then◌else◌, ◌≡◌, refl,
}

-- What follows a prefix, if the text has it.
unfoldable pub cut_prefix : Bytes → Bytes → Option Bytes
cut_prefix s [] = some s
cut_prefix [] (b ∷ p) = none
cut_prefix (a ∷ s) (b ∷ p) = if eqb a b then cut_prefix s p else none

abbrev pub is_some {ℓ} : {A : Type ℓ} → Option A → Bool
is_some none = false
is_some (some a) = true

unfoldable pub has_prefix : Bytes → Bytes → Bool
unfolding cut_prefix
has_prefix s p = is_some (cut_prefix s p)

abbrev pub or_whole : Bytes → Option Bytes → Bytes
or_whole s none = s
or_whole s (some r) = r

unfoldable pub trim_prefix : Bytes → Bytes → Bytes
unfolding cut_prefix
trim_prefix s p = or_whole s (cut_prefix s p)

unfoldable pub has_suffix : Bytes → Bytes → Bool
unfolding has_prefix
has_suffix s p = has_prefix (reverse s) (reverse p)

unfoldable pub trim_suffix : Bytes → Bytes → Bytes
unfolding trim_prefix
trim_suffix s p = reverse (trim_prefix (reverse s) (reverse p))

-- `strings.Split` at a separator of one byte.
abbrev pub extend_first : ℕ → List Bytes → List Bytes
extend_first c [] = (c ∷ []) ∷ []
extend_first c (p ∷ ps) = (c ∷ p) ∷ ps

unfoldable pub split : Bytes → ℕ → List Bytes
split [] sep = [] ∷ []
split (c ∷ s) sep = let rest = split s sep in if eqb c sep then [] ∷ rest else extend_first c rest

unfoldable pub join : List Bytes → ℕ → Bytes
join [] sep = []
join (p ∷ []) sep = p
join (p ∷ q ∷ ps) sep = p ++ sep ∷ join (q ∷ ps) sep

-- The white space of Unicode in UTF-8: how many bytes such a rune at the start of a text takes,
-- from its first three bytes, and 0 if the text does not start with one.
is_space : ℕ → Bool
is_space a = leb 9 a && leb a 13 || eqb a 32

is_space_2 : ℕ → ℕ → Bool
is_space_2 a b = eqb a 0xC2 && (eqb b 0x85 || eqb b 0xA0)

is_space_3 : ℕ → ℕ → ℕ → Bool
is_space_3 a b c =
    eqb a 0xE1 && eqb b 0x9A && eqb c 0x80
    || eqb a 0xE2
      && eqb b 0x80
      && (leb 0x80 c && leb c 0x8A || eqb c 0xA8 || eqb c 0xA9 || eqb c 0xAF)
    || eqb a 0xE2 && eqb b 0x81 && eqb c 0x9F
    || eqb a 0xE3 && eqb b 0x80 && eqb c 0x80

-- A byte of the text, 0 behind its end.
byte_at : Bytes → ℕ → ℕ
byte_at [] i = 0
byte_at (c ∷ s) zero = c
byte_at (c ∷ s) (suc i) = byte_at s i

unfoldable pub width_at_start : Bytes → ℕ
unfolding is_space is_space_2 is_space_3 byte_at
width_at_start s =
    let a = byte_at s 0 in
    let b = byte_at s 1 in
    if is_space a
    then 1
    else if is_space_2 a b
    then 2
    else if is_space_3 a b (byte_at s 2)
    then 3
    else 0

-- The same at the end of a text, which is given backwards.
unfoldable pub width_at_end : Bytes → ℕ
unfolding is_space is_space_2 is_space_3 byte_at
width_at_end r =
    let a = byte_at r 0 in
    let b = byte_at r 1 in
    if is_space a
    then 1
    else if is_space_2 b a
    then 2
    else if is_space_3 (byte_at r 2) b a
    then 3
    else 0

unfoldable pub drop : ℕ → Bytes → Bytes
drop zero s = s
drop (suc n) [] = []
drop (suc n) (c ∷ s) = drop n s

-- Drops runes of white space from the front; there are at most as many as bytes.
unfoldable pub drop_spaces : ℕ → (Bytes → ℕ) → Bytes → Bytes
unfolding drop
drop_spaces zero width s = s
drop_spaces (suc fuel) width s = elim (width s) [
  | zero ↦ s
  | suc n ↦ drop_spaces fuel width (drop (suc n) s)
]

unfoldable pub trim_space : Bytes → Bytes
trim_space s =
    let s' = drop_spaces (length s) width_at_start s in
    reverse (drop_spaces (length s') width_at_end (reverse s'))

-- `strings.ToLower` on ASCII; the other bytes stay.
unfoldable pub to_lower : Bytes → Bytes
to_lower [] = []
to_lower (c ∷ s) = (if leb b'A' c && leb c b'Z' then c + 32 else c) ∷ to_lower s

abbrev pub slash : ℕ
slash = b'/'

abbrev pub dot : Bytes
dot = b'.' ∷ []

abbrev pub dot_dot : Bytes
dot_dot = b'.' ∷ b'.' ∷ []

-- `path.Clean`, element by element; the stack has the last element at its head. A ".." takes the
-- element before it away; it stays at the front of a relative path and is dropped at the root.
abbrev pub go_up : Bool → List Bytes → List Bytes
go_up rooted [] = if rooted then [] else dot_dot ∷ []
go_up rooted (top ∷ stack) = if top == dot_dot then dot_dot ∷ top ∷ stack else stack

unfoldable pub resolve : Bool → List Bytes → Bytes → List Bytes
unfolding ◌==◌
resolve rooted stack part =
    if part == [] || part == dot
    then stack
    else if part == dot_dot
    then go_up rooted stack
    else part ∷ stack

unfoldable pub resolve_all : Bool → List Bytes → List Bytes → List Bytes
resolve_all rooted stack [] = stack
resolve_all rooted stack (part ∷ parts) = resolve_all rooted (resolve rooted stack part) parts

-- The elements of the cleaned path.
unfoldable pub clean_parts : Bool → Bytes → List Bytes
clean_parts rooted s = reverse (resolve_all rooted [] (split s slash))

abbrev pub or_dot : Bytes → Bytes
or_dot [] = dot
or_dot (c ∷ s) = c ∷ s

unfoldable pub clean : Bytes → Bytes
clean s =
    let rooted = has_prefix s (slash ∷ []) in
    let rest = join (clean_parts rooted s) slash in if rooted then slash ∷ rest else or_dot rest

-- Unfolds all of the above in a test.
unfoldable pub strings : Unit {0}
unfolding ◌==◌ has_prefix trim_prefix has_suffix trim_suffix split join resolve_all resolve
    clean_parts clean drop_spaces width_at_start width_at_end trim_space to_lower
strings = tt

clean_tests :
    (clean (codes "a/./b//c/../d/") ≡ codes "a/b/d")
    × (clean (codes "../a/../../b") ≡ codes "../../b")
    × (clean (codes "/../a") ≡ codes "/a")
    × (clean [] ≡ codes ".")
    × (trim_space (codes " \ta b\n ") ≡ codes "a b")
    × (trim_suffix (codes "a.yaml.yaml") (codes ".yaml") ≡ codes "a.yaml")
unfolding strings
clean_tests = (refl, refl, refl, refl, refl, refl)
