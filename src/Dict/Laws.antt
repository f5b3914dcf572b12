-- ===== src/Dict/Laws.antt =====
-- The laws of maps, in the form of a test on the keys.
use accord.Base.{
  ◌||◌, Bool, true, false, [], ◌∷◌, Option, none, some, Bytes, ◌==◌, eq_iff, if◌then◌else◌, ◌≡◌,
  refl, arith, contains, All,
}
use accord.Dict.{Dict, lookup, insert, erase, copy_into, keys}
use accord.Base.{sym, ap, ◌∙◌}
use accord.Collections.{sort_strings}
use accord.Collections.Sorting.{
  Distinct, contains-sort_strings, sort_strings-IsSorted, IsSorted-unique,
}

abbrev pub is_present {ℓ} : {V : Type ℓ} → Option V → Bool
is_present none = false
is_present (some v) = true

-- The second map where it has the key, the first elsewhere.
abbrev pub or_else {ℓ} : {V : Type ℓ} → Option V → Option V → Option V
or_else (some v) o = some v
or_else none o = o

module _ {ℓ} {V : Type ℓ} where
  pub lookup-insert :
      (j k : Bytes) (v : V) (m : Dict V)
      → lookup j (insert k v m) ≡ (if k == j then some v else lookup j m)
  unfolding lookup insert
  lookup-insert j k v [] = refl
  lookup-insert j k v ((i, w) ∷ m) =
      ground (arith, lookup-insert j k v m, eq_iff k j, eq_iff i k, eq_iff i j)

  pub lookup-erase :
      (j k : Bytes) (m : Dict V) → lookup j (erase k m) ≡ (if k == j then none else lookup j m)
  unfolding lookup erase
  lookup-erase j k [] = ground arith
  lookup-erase j k ((i, w) ∷ m) =
      ground (arith, lookup-erase j k m, eq_iff k j, eq_iff i k, eq_iff i j)

  pub contains-keys : (m : Dict V) (k : Bytes) → contains (keys m) k ≡ is_present (lookup k m)
  unfolding keys lookup
  contains-keys [] k = refl
  contains-keys ((j, v) ∷ m) k = ground (arith, contains-keys m k)

  -- A copy holds the entries of the source and, elsewhere, those that were there.
  pub lookup-copy_into :
      (j : Bytes) (from into : Dict V)
      → Distinct (keys from)
      → lookup j (copy_into from into) ≡ or_else (lookup j from) (lookup j into)
  unfolding copy_into lookup keys
  lookup-copy_into j [] into d = refl
  lookup-copy_into j ((k, v) ∷ from) into (h, d) = ground (
    arith,
    lookup-copy_into j from (insert k v into) d,
    lookup-insert j k v into,
    contains-keys from k,
    eq_iff k j,
  )

  keys-insert :
      (k q : Bytes) (v : V) (m : Dict V)
      → contains (keys (insert k v m)) q ≡ (k == q || contains (keys m) q)
  unfolding keys insert
  keys-insert k q v [] = refl
  keys-insert k q v ((j, w) ∷ m) = ground (arith, keys-insert k q v m, eq_iff j k)

  pub insert-Distinct :
      (k : Bytes) (v : V) (m : Dict V) → Distinct (keys m) → Distinct (keys (insert k v m))
  unfolding keys insert
  insert-Distinct k v [] d = (refl, tt)
  insert-Distinct k v ((j, w) ∷ m) (h, d) =
      ground (arith, insert-Distinct k v m d, keys-insert k j v m, eq_iff j k, eq_iff k j)

  pub copy_into-Distinct :
      (from into : Dict V) → Distinct (keys into) → Distinct (keys (copy_into from into))
  unfolding copy_into
  copy_into-Distinct [] into d = d
  copy_into-Distinct ((k, v) ∷ from) into d =
      copy_into-Distinct from (insert k v into) (insert-Distinct k v into d)

  pub erase-Distinct : (k : Bytes) (m : Dict V) → Distinct (keys m) → Distinct (keys (erase k m))
  unfolding keys erase
  erase-Distinct k [] d = tt
  erase-Distinct k ((j, w) ∷ m) (h, d) = ground (
    arith,
    erase-Distinct k m d,
    contains-keys m j,
    contains-keys (erase k m) j,
    lookup-erase j k m,
  )

  pub erase-All : (P : Bytes × V → Type 0) (k : Bytes) (m : Dict V) → All P m → All P (erase k m)
  unfolding erase
  erase-All P k [] h = tt
  erase-All P k ((j, w) ∷ m) (h, hs) = ground (arith, erase-All P k m hs)

-- Two maps with the same keys have the same list of sorted keys.
module _ {ℓ} {V : Type ℓ} (m n : Dict V) (same : (k : Bytes) → lookup k m ≡ lookup k n) where
  pub sorted_keys-same :
      Distinct (keys m) → Distinct (keys n) → sort_strings (keys m) ≡ sort_strings (keys n)
  sorted_keys-same d d' =
      IsSorted-unique (sort_strings (keys m)) (sort_strings (keys n))
        (sort_strings-IsSorted (keys m) d) (sort_strings-IsSorted (keys n) d')
        (λ q.
          contains-sort_strings (keys m) q
          ∙ contains-keys m q
          ∙ ap is_present (same q)
          ∙ sym (contains-keys n q)
          ∙ sym (contains-sort_strings (keys n) q))
