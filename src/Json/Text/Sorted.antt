-- ===== src/Json/Text/Sorted.antt =====
-- The entries of a map in the order of its keys: the map itself, in one order only.
use accord.Base.{
  true, [], ◌∷◌, none, some, ◌≡◌, refl, arith, inl, inr, Option-cases, Bool-cases, Bytes,
  if◌then◌else◌,
}
use accord.Base.{List, ◌==◌, eq_iff, contains}
use accord.Collections.{sort_strings}
use accord.Collections.Sorting.{Distinct, contains-sort_strings}
use accord.Dict.{Dict, lookup, keys}
use accord.Dict.Laws.{contains-keys}
use accord.Json.Text.{entries_at, sorted_entries}
use accord.Json.Text.Runes.{is_utf8}
use accord.Dict.Laws.{sorted_keys-same}
use accord.Json.Text.Injective.{IsText}

lookup-IsText :
    (k v : Bytes) (m : Dict Bytes)
    → IsText m
    → lookup k m ≡ some v
    → (is_utf8 0 k ≡ true) × (is_utf8 0 v ≡ true)
unfolding lookup
lookup-IsText k v [] h e = absurd (ground arith)
lookup-IsText k v ((j, w) ∷ m) ((hj, hw), h) e = elim (Bool-cases (j == k)) [
  | inl same ↦ (rw ((eq_iff j k).0 same) at hj, ground arith)
  | inr other ↦ lookup-IsText k v m h (ground arith)
]

IsText-entries_at : (m : Dict Bytes) (ks : List Bytes) → IsText m → IsText (entries_at m ks)
unfolding entries_at
IsText-entries_at m [] h = tt
IsText-entries_at m (k ∷ ks) h = elim (Option-cases (lookup k m)) [
  | inl missing ↦ rw (entries_at, missing) (IsText-entries_at m ks h)
  | inr (v, found) ↦ rw (entries_at, found) (lookup-IsText k v m h found, IsText-entries_at m ks h)
]

pub IsText-sorted_entries : (m : Dict Bytes) → IsText m → IsText (sorted_entries m)
unfolding sorted_entries
IsText-sorted_entries m h = IsText-entries_at m (sort_strings (keys m)) h

lookup-entries_at :
    (k : Bytes) (m : Dict Bytes) (ks : List Bytes)
    → lookup k (entries_at m ks) ≡ (if contains ks k then lookup k m else none)
unfolding entries_at lookup
lookup-entries_at k m [] = refl
lookup-entries_at k m (j ∷ ks) = ground (arith, lookup-entries_at k m ks, eq_iff j k)

pub lookup-sorted_entries : (k : Bytes) (m : Dict Bytes) → lookup k (sorted_entries m) ≡ lookup k m
unfolding sorted_entries
lookup-sorted_entries k m = ground (
  arith,
  lookup-entries_at k m (sort_strings (keys m)),
  contains-sort_strings (keys m) k,
  contains-keys m k,
)

entries_at-same :
    (m n : Dict Bytes) (ks : List Bytes)
    → ((k : Bytes) → lookup k m ≡ lookup k n)
    → entries_at m ks ≡ entries_at n ks
unfolding entries_at
entries_at-same m n [] same = refl
entries_at-same m n (k ∷ ks) same = ground (arith, same k, entries_at-same m n ks same)

pub sorted_entries-same :
    (m n : Dict Bytes)
    → Distinct (keys m)
    → Distinct (keys n)
    → ((k : Bytes) → lookup k m ≡ lookup k n)
    → sorted_entries m ≡ sorted_entries n
unfolding sorted_entries
sorted_entries-same m n d d' same =
    rw (sorted_keys-same m n same d d') (entries_at-same m n (sort_strings (keys n)) same)
