-- ===== src/Inventory/Normalize/Nested.antt =====
-- Normalising a nested map: the map under a key is cleaned, and the key goes where nothing is left.
use accord.Base.{
  ◌≡◌, refl, ◌∙◌, ap, true, false, List, [], ◌∷◌, none, some, Bytes, ◌==◌, eq_iff, eq_refl, arith,
  if◌then◌else◌, contains, Bool-cases, Option-cases, inl, inr,
}
use accord.Json.{Json, object, Fields, get, delete, set, is_empty, as_object}
use accord.Json.Maps.{
  get-delete, get-set, delete-set, delete-set_ne, set-set, delete_comm, delete_idem,
}
use accord.Inventory.Normalize.{delete_keys}

unfoldable pub put_back : Bytes → Fields → Fields → Fields
put_back k left o = if is_empty left then delete k o else set k (object left) o

unfoldable pub nested : (Fields → Fields) → Bytes → Fields → Fields
unfolding put_back
nested f k o = elim (as_object (get k o)) [ none ↦ o | some m ↦ put_back k (f m) o ]

pub put_back-set :
    (k : Bytes) (left : Fields) (v : Json) (o : Fields)
    → put_back k left (set k v o) ≡ put_back k left o
unfolding put_back
put_back-set k left v o = ground (arith, delete-set k v o, set-set k (object left) v o)

delete-put_back :
    (j k : Bytes) (left o : Fields)
    → (j == k) ≡ false
    → delete j (put_back k left o) ≡ put_back k left (delete j o)
unfolding put_back
delete-put_back j k left o h = ground (arith, delete_comm j k o, delete-set_ne j k (object left) o)

get-put_back :
    (j k : Bytes) (left o : Fields) → (k == j) ≡ false → get j (put_back k left o) ≡ get j o
unfolding put_back
get-put_back j k left o h = ground (arith, get-delete j k o, get-set j k (object left) o)

delete-delete_keys :
    (k : Bytes) (ks : List Bytes) (o : Fields)
    → delete k (delete_keys ks o) ≡ delete_keys ks (delete k o)
unfolding delete_keys
delete-delete_keys k [] o = refl
delete-delete_keys k (j ∷ ks) o =
    delete-delete_keys k ks (delete j o) ∙ ap (delete_keys ks) (delete_comm k j o)

module _ (f : Fields → Fields) (k : Bytes) where
  pub nested-some :
      (m o : Fields) → as_object (get k o) ≡ some m → nested f k o ≡ put_back k (f m) o
  unfolding nested
  nested-some m o h = rw (h, nested)

  pub nested-none : (o : Fields) → as_object (get k o) ≡ none → nested f k o ≡ o
  unfolding nested
  nested-none o h = rw (h, nested)

  pub nested-set : (m o : Fields) → nested f k (set k (object m) o) ≡ put_back k (f m) o
  nested-set m o =
      nested-some m (set k (object m) o) (rw (get-set k k (object m) o, eq_refl k))
      ∙ put_back-set k (f m) (object m) o

  nested-put_back :
      ((m : Fields) → f (f m) ≡ f m)
      → (m o : Fields) → nested f k (put_back k (f m) o) ≡ put_back k (f m) o
  unfolding put_back
  nested-put_back idem m o = elim (Bool-cases (is_empty (f m))) [
    | inl gone ↦ rw gone (nested-none (delete k o) (rw (get-delete k k o, eq_refl k)))
    | inr left ↦ rw left (nested-set (f m) o ∙ rw (idem m, put_back, left))
  ]

  pub nested_idem :
      ((m : Fields) → f (f m) ≡ f m) → (o : Fields) → nested f k (nested f k o) ≡ nested f k o
  nested_idem idem o = elim (Option-cases (as_object (get k o))) [
    | inl missing ↦ rw (nested-none o missing) (nested-none o missing)
    | inr (m, found) ↦ rw (nested-some m o found) (nested-put_back idem m o)
  ]

  pub delete-nested :
      (j : Bytes) (o : Fields)
      → (j == k) ≡ false
      → delete j (nested f k o) ≡ nested f k (delete j o)
  delete-nested j o h =
      let same : as_object (get k (delete j o)) ≡ as_object (get k o) = rw (get-delete k j o, h) in
      elim (Option-cases (as_object (get k o))) [
        | inl missing ↦ rw (nested-none o missing, nested-none (delete j o) (same ∙ missing))
        | inr (m, found) ↦
            rw (nested-some m o found, nested-some m (delete j o) (same ∙ found))
              (delete-put_back j k (f m) o h)
      ]

  -- Other keys keep their values.
  pub get-nested : (j : Bytes) (o : Fields) → (k == j) ≡ false → get j (nested f k o) ≡ get j o
  get-nested j o h = elim (Option-cases (as_object (get k o))) [
    | inl missing ↦ rw (nested-none o missing)
    | inr (m, found) ↦ rw (nested-some m o found) (get-put_back j k (f m) o h)
  ]

-- Deleting a list of keys.
pub delete_keys_idem :
    (ks : List Bytes) (o : Fields) → delete_keys ks (delete_keys ks o) ≡ delete_keys ks o
unfolding delete_keys
delete_keys_idem [] o = refl
delete_keys_idem (k ∷ ks) o =
    rw (delete-delete_keys k ks (delete k o), delete_idem k o) (delete_keys_idem ks (delete k o))

pub delete_keys-nested :
    (ks : List Bytes) (f : Fields → Fields) (k : Bytes) (o : Fields)
    → contains ks k ≡ false
    → delete_keys ks (nested f k o) ≡ nested f k (delete_keys ks o)
unfolding delete_keys
delete_keys-nested [] f k o h = refl
delete_keys-nested (j ∷ ks) f k o h =
    rw (delete-nested f k j o (ground arith))
      (delete_keys-nested ks f k (delete j o) (ground arith))

-- A key of the list may be set before: it goes anyhow.
pub delete_keys-set :
    (ks : List Bytes) (k : Bytes) (v : Json) (o : Fields)
    → contains ks k ≡ true
    → delete_keys ks (set k v o) ≡ delete_keys ks o
unfolding delete_keys
delete_keys-set [] k v o h = cc
delete_keys-set (j ∷ ks) k v o h = elim (Bool-cases (j == k)) [
  | inl same ↦ rw ((eq_iff j k).0 same, delete-set k v o)
  | inr other ↦
      rw (delete-set_ne j k v o other) (delete_keys-set ks k v (delete j o) (ground arith))
]

pub delete_keys-set_ne :
    (ks : List Bytes) (k : Bytes) (v : Json) (o : Fields)
    → contains ks k ≡ false
    → delete_keys ks (set k v o) ≡ set k v (delete_keys ks o)
unfolding delete_keys
delete_keys-set_ne [] k v o h = refl
delete_keys-set_ne (j ∷ ks) k v o h =
    rw (delete-set_ne j k v o (ground arith))
      (delete_keys-set_ne ks k v (delete j o) (ground arith))

pub get-delete_keys :
    (ks : List Bytes) (k : Bytes) (o : Fields)
    → contains ks k ≡ false
    → get k (delete_keys ks o) ≡ get k o
unfolding delete_keys
get-delete_keys [] k o h = refl
get-delete_keys (j ∷ ks) k o h =
    get-delete_keys ks k (delete j o) (ground arith) ∙ ground (arith, get-delete k j o)
