-- ===== src/Strings/Trimming.antt =====
-- `TrimSpace` keeps a text that neither starts nor ends with white space.
use mathlib.Core.List.{reverse, reverse_aux, reverse-reverse}
use accord.Base.{
  ℕ, zero, suc, ◌≤◌, ◌+◌, ◌≢◌, ◌≡◌, ◌⊎◌, inl, inr, [], ◌∷◌, ap, arith, refl, Bytes, length,
}
use accord.Strings.{drop, drop_spaces, width_at_start, width_at_end, trim_space}

drop_spaces_none :
    (fuel : ℕ) (width : Bytes → ℕ) (s : Bytes) → width s ≡ 0 → drop_spaces fuel width s ≡ s
unfolding drop_spaces
drop_spaces_none zero width s h = refl
drop_spaces_none (suc fuel) width s h = rw (h, drop_spaces)

pub trim_space_none :
    (s : Bytes) → width_at_start s ≡ 0 → width_at_end (reverse s) ≡ 0 → trim_space s ≡ s
unfolding trim_space
trim_space_none s h k =
    rw
      (
        drop_spaces_none (length s) width_at_start s h,
        drop_spaces_none (length s) width_at_end (reverse s) k,
      )
      (reverse-reverse s)

ℕ-cases : (n : ℕ) → (n ≡ 0) ⊎ ((m : ℕ) × (n ≡ suc m))
ℕ-cases zero = inl refl
ℕ-cases (suc m) = inr (m, refl)

length-drop : (n : ℕ) (s : Bytes) → length (drop n s) ≤ length s
unfolding drop
length-drop zero s = omega arith
length-drop (suc n) [] = omega arith
length-drop (suc n) (c ∷ s) = omega (arith, length-drop n s)

length-drop_some :
    (n fuel : ℕ) (s : Bytes) → s ≢ [] → length s ≤ suc fuel → length (drop (suc n) s) ≤ fuel
unfolding drop
length-drop_some n fuel [] some h = absurd (some refl)
length-drop_some n fuel (c ∷ s) some h = omega (arith, length-drop n s)

-- The length of the text is fuel enough: no white space is left where `drop_spaces` ends.
pub width-drop_spaces :
    (fuel : ℕ) (width : Bytes → ℕ) (s : Bytes)
    → width [] ≡ 0
    → length s ≤ fuel
    → width (drop_spaces fuel width s) ≡ 0
unfolding drop_spaces
width-drop_spaces zero width [] e h = e
width-drop_spaces zero width (c ∷ s) e h = absurd (omega (arith, h))
width-drop_spaces (suc fuel) width s e h = elim (ℕ-cases (width s)) [
  | inl none ↦ rw (drop_spaces, none) none
  | inr (n, some) ↦
      rw (drop_spaces, some)
        (width-drop_spaces fuel width (drop (suc n) s) e
          (length-drop_some n fuel s (λ empty. omega (arith, ap width empty, some, e)) h))
]

length-reverse_aux : (s t : Bytes) → length (reverse_aux s t) ≡ length s + length t
length-reverse_aux [] t = omega arith
length-reverse_aux (c ∷ s) t = omega (arith, length-reverse_aux s (c ∷ t))

-- A trimmed text does not end in white space.
pub width_at_end-trim_space : (s : Bytes) → width_at_end (reverse (trim_space s)) ≡ 0
unfolding trim_space width_at_end
width_at_end-trim_space s =
    let t = drop_spaces (length s) width_at_start s in
    rw (reverse-reverse (drop_spaces (length t) width_at_end (reverse t))) (
      width-drop_spaces (length t) width_at_end (reverse t) refl
        (omega (arith, length-reverse_aux t [])))
