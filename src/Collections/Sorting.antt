-- ===== src/Collections/Sorting.antt =====
-- Sets have each key once; sorting keeps the keys and orders them strictly.
use mathlib.Core.Path.{subst}
use accord.Base.{
  sym, ap, ◌&&◌, ◌||◌, not, true, false, List, [], ◌∷◌, ◌++◌, ◌≡◌, refl, ◌∙◌, arith, Bytes, ◌==◌,
  eq_iff, lex_lt, lex_lt_irrefl, eq_refl, lex_lt_trans, lex_lt_total, contains, contains-append,
  All,
}
use accord.Collections.{add, delete, insert_sorted, sort_strings}

-- No string stands twice in the list.
abbrev pub Distinct : List Bytes → Type 0
Distinct [] = Unit
Distinct (p ∷ l) = (contains l p ≡ false) × Distinct l

-- Each string is smaller than all behind it.
abbrev pub IsSorted : List Bytes → Type 0
IsSorted [] = Unit
IsSorted (p ∷ l) = All (λ q. lex_lt p q ≡ true) l × IsSorted l

pub contains-add : (p q : Bytes) (l : List Bytes) → contains (add p l) q ≡ (contains l q || p == q)
unfolding add
contains-add p q l = ground (arith, contains-append l (p ∷ []) q, eq_iff p q)

Distinct-concat :
    (l : List Bytes) (p : Bytes) → contains l p ≡ false → Distinct l → Distinct (l ++ (p ∷ []))
Distinct-concat [] p h d = (refl, tt)
Distinct-concat (q ∷ l) p h (k, d) = (
  ground (arith, contains-append l (p ∷ []) q, eq_iff p q, eq_iff q p),
  Distinct-concat l p (ground arith) d,
)

pub add-Distinct : (p : Bytes) (l : List Bytes) → Distinct l → Distinct (add p l)
unfolding add
add-Distinct p l d = ground (arith, Distinct-concat l p)

pub contains-delete :
    (p q : Bytes) (l : List Bytes) → contains (delete p l) q ≡ (contains l q && not (p == q))
unfolding delete
contains-delete p q [] = refl
contains-delete p q (r ∷ l) =
    ground (arith, contains-delete p q l, eq_iff p q, eq_iff r p, eq_iff r q)

pub delete-Distinct : (p : Bytes) (l : List Bytes) → Distinct l → Distinct (delete p l)
unfolding delete
delete-Distinct p [] d = tt
delete-Distinct p (r ∷ l) (k, d) = ground (arith, contains-delete p r l, delete-Distinct p l d)

contains-insert_sorted :
    (p q : Bytes) (l : List Bytes) → contains (insert_sorted p l) q ≡ (p == q || contains l q)
unfolding insert_sorted
contains-insert_sorted p q [] = refl
contains-insert_sorted p q (r ∷ l) = ground (arith, contains-insert_sorted p q l)

pub contains-sort_strings :
    (l : List Bytes) (q : Bytes) → contains (sort_strings l) q ≡ contains l q
unfolding sort_strings
contains-sort_strings [] q = refl
contains-sort_strings (p ∷ l) q =
    ground (arith, contains-insert_sorted p q (sort_strings l), contains-sort_strings l q)

All-lt-insert_sorted :
    (b p : Bytes) (l : List Bytes)
    → lex_lt b p ≡ true
    → All (λ q. lex_lt b q ≡ true) l
    → All (λ q. lex_lt b q ≡ true) (insert_sorted p l)
unfolding insert_sorted
All-lt-insert_sorted b p [] h a = (h, tt)
All-lt-insert_sorted b p (q ∷ l) h (k, a) = ground (arith, All-lt-insert_sorted b p l h a)

All-lt_trans :
    (p q : Bytes) (l : List Bytes)
    → lex_lt p q ≡ true
    → All (λ r. lex_lt q r ≡ true) l
    → All (λ r. lex_lt p r ≡ true) l
All-lt_trans p q [] h a = tt
All-lt_trans p q (r ∷ l) h (k, a) = (lex_lt_trans p q r h k, All-lt_trans p q l h a)

insert_sorted-IsSorted :
    (p : Bytes) (l : List Bytes) → contains l p ≡ false → IsSorted l → IsSorted (insert_sorted p l)
unfolding insert_sorted
insert_sorted-IsSorted p [] h s = (tt, tt)
insert_sorted-IsSorted p (q ∷ l) h (a, s) = ground (
  arith,
  insert_sorted-IsSorted p l,
  All-lt-insert_sorted q p l,
  lex_lt_total q p,
  All-lt_trans p q l,
)

-- Sorting the keys of a set yields them in strictly ascending order.
pub sort_strings-IsSorted : (l : List Bytes) → Distinct l → IsSorted (sort_strings l)
unfolding sort_strings
sort_strings-IsSorted [] d = tt
sort_strings-IsSorted (p ∷ l) (h, d) =
    insert_sorted-IsSorted p (sort_strings l) (contains-sort_strings l p ∙ h)
      (sort_strings-IsSorted l d)

lt_of_contains :
    (p q : Bytes) (l : List Bytes)
    → All (λ r. lex_lt p r ≡ true) l
    → contains l q ≡ true
    → lex_lt p q ≡ true
lt_of_contains p q [] h k = absurd (ground arith)
lt_of_contains p q (r ∷ l) (h, hs) k = ground (arith, lt_of_contains p q l hs, eq_iff r q)

first_only : (p : Bytes) (l : List Bytes) → All (λ r. lex_lt p r ≡ true) l → contains l p ≡ false
first_only p l h = ground (arith, lt_of_contains p p l h, lex_lt_irrefl p)

-- Strictly ascending lists with the same elements have the same first one.
same_first :
    (p q : Bytes) (l m : List Bytes)
    → IsSorted (p ∷ l)
    → IsSorted (q ∷ m)
    → ((r : Bytes) → contains (p ∷ l) r ≡ contains (q ∷ m) r)
    → p ≡ q
same_first p q l m (h, hs) (k, ks) same = ground (
  arith,
  same p,
  same q,
  eq_iff p q,
  eq_iff q p,
  eq_refl p,
  eq_refl q,
  lt_of_contains p q l h,
  lt_of_contains q p m k,
  lex_lt_trans p q p,
  lex_lt_irrefl p,
)

same_rest :
    (p : Bytes) (l m : List Bytes)
    → IsSorted (p ∷ l)
    → IsSorted (p ∷ m)
    → ((r : Bytes) → contains (p ∷ l) r ≡ contains (p ∷ m) r)
    → (r : Bytes) → contains l r ≡ contains m r
same_rest p l m (h, hs) (k, ks) same r =
    ground (arith, same r, eq_iff p r, first_only p l h, first_only p m k)

-- Only one strictly ascending list has given elements.
pub IsSorted-unique :
    (l m : List Bytes)
    → IsSorted l
    → IsSorted m
    → ((q : Bytes) → contains l q ≡ contains m q)
    → l ≡ m
IsSorted-unique [] [] h k same = refl
IsSorted-unique [] (q ∷ m) h k same = absurd (ground (arith, same q, eq_refl q))
IsSorted-unique (p ∷ l) [] h k same = absurd (ground (arith, same p, eq_refl p))
IsSorted-unique (p ∷ l) (q ∷ m) h k same =
    let e = same_first p q l m h k same in
    let k' = subst (λ x. IsSorted (x ∷ m)) (sym e) k in
    let same' : (r : Bytes) → contains (p ∷ l) r ≡ contains (p ∷ m) r =
      λ r. same r ∙ ap (λ x. contains (x ∷ m) r) (sym e) in
    ap (λ rest. p ∷ rest) (IsSorted-unique l m h.1 k.1 (same_rest p l m h k' same'))
    ∙ ap (λ x. x ∷ m) e
