-- ===== src/Strings/Parts.antt =====
-- Splitting a path at its slashes and joining the parts again.
use accord.Base.{
  ℕ, Bool, true, false, List, [], ◌∷◌, ◌++◌, ◌≡◌, ◌≢◌, refl, ap, ◌∙◌, arith, Bytes, eqb, eqb_self,
  if◌then◌else◌, All,
}
use accord.Strings.{extend_first, split, join}

-- The text does not hold the byte.
abbrev pub Lacks : ℕ → Bytes → Type 0
Lacks sep = All (λ c. c ≢ sep)

pub split_of_Lacks : (sep : ℕ) (s : Bytes) → Lacks sep s → split s sep ≡ s ∷ []
unfolding split
split_of_Lacks sep [] h = refl
split_of_Lacks sep (c ∷ s) h = rw (split_of_Lacks sep s h.1) (ground arith)

pub split-append :
    (sep : ℕ) (p s : Bytes) → Lacks sep p → split (p ++ sep ∷ s) sep ≡ p ∷ split s sep
unfolding split
split-append sep [] s h = rw (eqb_self sep)
split-append sep (c ∷ p) s h = rw (split-append sep p s h.1) (ground arith)

pub split-ne-nil : (s : Bytes) (sep : ℕ) → split s sep ≢ []
unfolding split
split-ne-nil [] sep = cc
split-ne-nil (c ∷ s) sep = go (split s sep) (eqb c sep)
  where
    go : (ps : List Bytes) (b : Bool) → (if b then [] ∷ ps else extend_first c ps) ≢ []
    go [] true = cc
    go [] false = cc
    go (p ∷ ps) true = cc
    go (p ∷ ps) false = cc

extend_first-Lacks :
    (sep c : ℕ) (ps : List Bytes)
    → c ≢ sep
    → All (Lacks sep) ps
    → All (Lacks sep) (extend_first c ps)
extend_first-Lacks sep c [] h _ = ((h, tt), tt)
extend_first-Lacks sep c (p ∷ ps) h (k, ks) = ((h, k), ks)

-- No part holds the separator.
pub split-Lacks : (s : Bytes) (sep : ℕ) → All (Lacks sep) (split s sep)
unfolding split
split-Lacks [] sep = (tt, tt)
split-Lacks (c ∷ s) sep = ground (arith, split-Lacks s sep, extend_first-Lacks sep c (split s sep))

pub split-join :
    (sep : ℕ) (p : Bytes) (ps : List Bytes)
    → All (Lacks sep) (p ∷ ps)
    → split (join (p ∷ ps) sep) sep ≡ p ∷ ps
unfolding join
split-join sep p [] h = split_of_Lacks sep p h.0
split-join sep p (q ∷ ps) (h, hs) =
    split-append sep p (join (q ∷ ps) sep) h ∙ ap (λ l. p ∷ l) (split-join sep q ps hs)

join-cons :
    (sep : ℕ) (p : Bytes) (ps : List Bytes) → ps ≢ [] → join (p ∷ ps) sep ≡ p ++ sep ∷ join ps sep
unfolding join
join-cons sep p [] h = absurd (h refl)
join-cons sep p (q ∷ ps) h = refl

join-extend_first :
    (sep c : ℕ) (ps : List Bytes) → ps ≢ [] → join (extend_first c ps) sep ≡ c ∷ join ps sep
unfolding join
join-extend_first sep c [] h = absurd (h refl)
join-extend_first sep c (p ∷ []) h = refl
join-extend_first sep c (p ∷ q ∷ ps) h = refl

-- Joining the parts of a split gives the text back.
pub join-split : (s : Bytes) (sep : ℕ) → join (split s sep) sep ≡ s
unfolding split
join-split [] sep = unfold join in refl
join-split (c ∷ s) sep = ground (
  arith,
  join-split s sep,
  join-cons sep [] (split s sep) (split-ne-nil s sep),
  join-extend_first sep c (split s sep) (split-ne-nil s sep),
)
