-- ===== src/Strings/Affixes.antt =====
-- Prefixes and suffixes: what cutting one off leaves, and when there is one.
use mathlib.Core.List.{reverse, reverse-append, reverse-reverse}
use accord.Base.{
  true, false, [], ◌∷◌, ◌++◌, some, ◌≡◌, refl, sym, ap, ◌∙◌, ◌⊎◌, inl, inr, arith, Bytes,
  Option-cases,
}
use accord.Strings.{cut_prefix, has_prefix, trim_prefix, has_suffix, trim_suffix}

pub cut_prefix-append : (p s : Bytes) → cut_prefix (p ++ s) p ≡ some s
unfolding cut_prefix
cut_prefix-append [] s = refl
cut_prefix-append (b ∷ p) s = ground (arith, cut_prefix-append p s)

pub cut_prefix_sound : (s p : Bytes) {r : Bytes} → cut_prefix s p ≡ some r → s ≡ p ++ r
unfolding cut_prefix
cut_prefix_sound s [] h = ground arith
cut_prefix_sound [] (b ∷ p) h = ground arith
cut_prefix_sound (a ∷ s) (b ∷ p) {r} h = ground (arith, cut_prefix_sound s p {r = r})

pub trim_prefix-append : (p s : Bytes) → trim_prefix (p ++ s) p ≡ s
unfolding trim_prefix
trim_prefix-append p s = rw (cut_prefix-append p s)

pub has_prefix-append : (p s : Bytes) → has_prefix (p ++ s) p ≡ true
unfolding has_prefix
has_prefix-append p s = rw (cut_prefix-append p s)

-- A text either has the prefix, and cutting it off leaves the rest, or it has not and stays whole.
pub prefix_cases :
    (s p : Bytes)
    → ((has_prefix s p ≡ false) × (trim_prefix s p ≡ s))
      ⊎ ((r : Bytes) × (s ≡ p ++ r) × (has_prefix s p ≡ true) × (trim_prefix s p ≡ r))
unfolding has_prefix trim_prefix
prefix_cases s p = elim (Option-cases (cut_prefix s p)) [
  | inl missing ↦ inl (rw missing, rw missing)
  | inr (r, found) ↦ inr (r, cut_prefix_sound s p found, rw found, rw found)
]

pub trim_suffix-append : (s p : Bytes) → trim_suffix (s ++ p) p ≡ s
unfolding trim_suffix
trim_suffix-append s p =
    rw (reverse-append, trim_prefix-append (reverse p) (reverse s)) (reverse-reverse s)

pub has_suffix-append : (s p : Bytes) → has_suffix (s ++ p) p ≡ true
unfolding has_suffix
has_suffix-append s p = rw reverse-append (has_prefix-append (reverse p) (reverse s))

-- The same for suffixes.
pub suffix_cases :
    (s p : Bytes)
    → ((has_suffix s p ≡ false) × (trim_suffix s p ≡ s))
      ⊎ ((r : Bytes) × (s ≡ r ++ p) × (has_suffix s p ≡ true) × (trim_suffix s p ≡ r))
unfolding has_suffix trim_suffix
suffix_cases s p = elim (prefix_cases (reverse s) (reverse p)) [
  | inl (missing, whole) ↦ inl (missing, ap reverse whole ∙ reverse-reverse s)
  | inr (r, e, found, rest) ↦ inr (
    reverse r,
    sym (reverse-reverse s)
        ∙ ap reverse e
        ∙ reverse-append (reverse p) r
        ∙ ap (λ q. reverse r ++ q) (reverse-reverse p),
    found,
    ap reverse rest,
  )
]
