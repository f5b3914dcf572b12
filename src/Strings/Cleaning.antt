-- ===== src/Strings/Cleaning.antt =====
-- `path.Clean`: it keeps a path of plain parts, and what it leaves is settled: no empty part, no
-- ".", and ".." only before every other part.
use mathlib.Core.List.{reverse, reverse_aux, reverse-reverse, reverse-cons}
use accord.Base.{
  Bool, true, false, ◌||◌, List, [], ◌∷◌, ◌++◌, ◌≡◌, ◌≢◌, refl, sym, ap, ◌∙◌, arith, Bytes, ◌==◌,
  eq_iff, eq_refl, All, append-nil, append_assoc, Bool-cases, inl, inr,
}
use accord.Strings.{
  split, join, slash, dot, dot_dot, go_up, resolve, resolve_all, clean_parts, or_dot, clean,
  has_prefix, trim_prefix,
}
use accord.Strings.Parts.{Lacks, split-Lacks, split-join, split-append}
use accord.Strings.Affixes.{trim_prefix-append}

-- An element of a path that names something: not empty, not "." and with no slash.
abbrev pub IsElement : Bytes → Type 0
IsElement part = (part ≢ []) × (part ≢ dot) × Lacks slash part

-- An element that does not lead upwards either.
abbrev pub IsPlain : Bytes → Type 0
IsPlain part = IsElement part × (part ≢ dot_dot)

-- Read from the last element: behind a ".." there are only more of them.
abbrev pub Settled : List Bytes → Type 0
Settled [] = Unit
Settled (top ∷ stack) =
    IsElement top × (top ≡ dot_dot → All (λ p. p ≡ dot_dot) stack) × Settled stack

go_up-Settled : (rooted : Bool) (stack : List Bytes) → Settled stack → Settled (go_up rooted stack)
go_up-Settled true [] h = tt
go_up-Settled false [] h = ((ground arith, ground arith, ground arith), (λ _. tt), tt)
go_up-Settled rooted (top ∷ stack) (e, up, h) = elim (Bool-cases (top == dot_dot)) [
  | inl same ↦
      let is_up = (eq_iff top dot_dot).0 same in
      rw same ((ground arith, ground arith, ground arith), (λ _. (is_up, up is_up)), (e, up, h))
  | inr other ↦ rw other h
]

resolve-Settled :
    (rooted : Bool) (stack : List Bytes) (part : Bytes)
    → Lacks slash part
    → Settled stack
    → Settled (resolve rooted stack part)
unfolding resolve
resolve-Settled rooted stack part k h = elim (Bool-cases (part == [] || part == dot)) [
  | inl skipped ↦ rw skipped h
  | inr named ↦ elim (Bool-cases (part == dot_dot)) [
    | inl up ↦ rw (named, up) (go_up-Settled rooted stack h)
    | inr plain ↦
        rw (named, plain)
          (
            (ground (arith, eq_refl part), ground (arith, eq_refl part), k),
            (λ e. absurd (ground (arith, eq_iff part dot_dot))),
            h,
          )
  ]
]

resolve_all-Settled :
    (rooted : Bool) (stack parts : List Bytes)
    → All (Lacks slash) parts
    → Settled stack
    → Settled (resolve_all rooted stack parts)
unfolding resolve_all
resolve_all-Settled rooted stack [] _ h = h
resolve_all-Settled rooted stack (part ∷ parts) (k, ks) h =
    resolve_all-Settled rooted (resolve rooted stack part) parts ks
      (resolve-Settled rooted stack part k h)

-- The cleaned elements of any path, read from the last.
pub clean_parts-Settled : (rooted : Bool) (s : Bytes) → Settled (reverse (clean_parts rooted s))
unfolding clean_parts
clean_parts-Settled rooted s =
    rw reverse-reverse (resolve_all-Settled rooted [] (split s slash) (split-Lacks s slash) tt)

resolve_of_IsPlain :
    (rooted : Bool) (stack : List Bytes) (part : Bytes)
    → IsPlain part
    → resolve rooted stack part ≡ part ∷ stack
unfolding resolve
resolve_of_IsPlain rooted stack part h =
    ground (arith, eq_iff part [], eq_iff part dot, eq_iff part dot_dot)

resolve_all_of_IsPlain :
    (rooted : Bool) (stack parts : List Bytes)
    → All IsPlain parts
    → resolve_all rooted stack parts ≡ reverse parts ++ stack
unfolding resolve_all
resolve_all_of_IsPlain rooted stack [] h = refl
resolve_all_of_IsPlain rooted stack (part ∷ parts) (k, h) =
    rw
      (resolve_of_IsPlain rooted stack part k, resolve_all_of_IsPlain rooted (part ∷ stack) parts h)
      (simp (reverse-cons, append_assoc))

pub Lacks-of_IsPlain : (parts : List Bytes) → All IsPlain parts → All (Lacks slash) parts
Lacks-of_IsPlain [] h = tt
Lacks-of_IsPlain (part ∷ parts) (k, h) = (k.0.2, Lacks-of_IsPlain parts h)

-- A joined list of plain parts is cut into these parts again.
pub clean_parts_of_IsPlain :
    (rooted : Bool) (p : Bytes) (ps : List Bytes)
    → All IsPlain (p ∷ ps)
    → clean_parts rooted (join (p ∷ ps) slash) ≡ p ∷ ps
unfolding clean_parts
clean_parts_of_IsPlain rooted p ps h =
    rw
      (
        split-join slash p ps (Lacks-of_IsPlain (p ∷ ps) h),
        resolve_all_of_IsPlain rooted [] (p ∷ ps) h,
        append-nil,
      )
      (reverse-reverse (p ∷ ps))

module _ {ℓ} {A : Type 0} (P : A → Type ℓ) where
  All-reverse_aux : (xs ys : List A) → All P xs → All P ys → All P (reverse_aux xs ys)
  All-reverse_aux [] ys _ k = k
  All-reverse_aux (x ∷ xs) ys (p, h) k = All-reverse_aux xs (x ∷ ys) h (p, k)

elements : (stack : List Bytes) → Settled stack → All IsElement stack
elements [] h = tt
elements (top ∷ stack) (e, _, h) = (e, elements stack h)

clean_parts-IsElement : (rooted : Bool) (s : Bytes) → All IsElement (clean_parts rooted s)
clean_parts-IsElement rooted s =
    let backwards = reverse (clean_parts rooted s) in
    rw (← reverse-reverse (clean_parts rooted s)) (
      All-reverse_aux IsElement backwards [] (elements backwards (clean_parts-Settled rooted s)) tt)

Lacks-of_elements : (parts : List Bytes) → All IsElement parts → All (Lacks slash) parts
Lacks-of_elements [] h = tt
Lacks-of_elements (part ∷ parts) (k, h) = (k.2, Lacks-of_elements parts h)

-- A path that starts with an element does not start with a slash.
trim_slash_of_element :
    (p : Bytes) (ps : List Bytes)
    → IsElement p
    → trim_prefix (or_dot (join (p ∷ ps) slash)) (slash ∷ []) ≡ join (p ∷ ps) slash
unfolding join trim_prefix
trim_slash_of_element [] ps h = absurd (h.0 refl)
trim_slash_of_element (c ∷ p) [] h = ground arith
trim_slash_of_element (c ∷ p) (q ∷ ps) h = ground arith

module _ (first rest : Bytes) (k : Lacks slash first) where
  ne_nil : (f : Bytes) → [] ≢ f ++ slash ∷ rest
  ne_nil [] = cc
  ne_nil (c ∷ f) = cc

  ne_dot : (f : Bytes) → dot ≢ f ++ slash ∷ rest
  ne_dot [] e = ground arith
  ne_dot (c ∷ f) e = ne_nil f (ground arith)

  parts_of_joined :
      (parts : List Bytes)
      → All IsElement parts
      → join parts slash ≡ first ++ slash ∷ rest
      → parts ≡ first ∷ split rest slash
  unfolding join
  parts_of_joined [] h e = absurd (ne_nil first e)
  parts_of_joined (p ∷ ps) h e =
      sym (split-join slash p ps (Lacks-of_elements (p ∷ ps) h))
      ∙ ap (λ t. split t slash) e
      ∙ split-append slash first rest k

  parts_of_trimmed :
      (parts : List Bytes)
      → All IsElement parts
      → trim_prefix (or_dot (join parts slash)) (slash ∷ []) ≡ first ++ slash ∷ rest
      → parts ≡ first ∷ split rest slash
  unfolding join trim_prefix
  parts_of_trimmed [] h e = absurd (ne_dot first e)
  parts_of_trimmed (p ∷ ps) h e =
      parts_of_joined (p ∷ ps) h (sym (trim_slash_of_element p ps h.0) ∙ e)

  -- Where a cleaned path, less a slash in front, has a first part and more behind it, these parts
  -- are settled.
  pub clean-Settled :
      (s : Bytes)
      → trim_prefix (clean s) (slash ∷ []) ≡ first ++ slash ∷ rest
      → Settled (reverse (first ∷ split rest slash))
  unfolding clean
  clean-Settled s e = elim (Bool-cases (has_prefix s (slash ∷ []))) [
    | inl rooted ↦
        rw
          (← parts_of_joined (clean_parts true s) (clean_parts-IsElement true s)
            (sym (trim_prefix-append (slash ∷ []) _) ∙ (rw rooted at e)))
          (clean_parts-Settled true s)
    | inr relative ↦
        rw
          (← parts_of_trimmed (clean_parts false s) (clean_parts-IsElement false s)
            (rw relative at e))
          (clean_parts-Settled false s)
  ]

relative_of_element :
    (p : Bytes) (ps : List Bytes)
    → IsElement p
    → (has_prefix (join (p ∷ ps) slash) (slash ∷ []) ≡ false)
      × (or_dot (join (p ∷ ps) slash) ≡ join (p ∷ ps) slash)
unfolding join has_prefix
relative_of_element [] ps h = absurd (h.0 refl)
relative_of_element (c ∷ p) [] h = ground arith
relative_of_element (c ∷ p) (q ∷ ps) h = ground arith

-- A joined list of plain parts is already clean.
pub clean_of_IsPlain :
    (p : Bytes) (ps : List Bytes)
    → All IsPlain (p ∷ ps)
    → clean (join (p ∷ ps) slash) ≡ join (p ∷ ps) slash
unfolding clean
clean_of_IsPlain p ps h =
    let (relative, named) = relative_of_element p ps h.0.0 in
    rw (relative, clean_parts_of_IsPlain false p ps h) named
