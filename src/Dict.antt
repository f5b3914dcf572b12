-- ===== src/Dict.antt =====
-- Go maps with string keys: a list of entries in the order in which a `range` meets them.
pub mod Laws
use accord.Base.{
  ◌||◌, Bool, true, false, List, [], ◌∷◌, Option, none, some, Bytes, ◌==◌, if◌then◌else◌,
}

abbrev pub Dict {ℓ} : Type ℓ → Type ℓ
Dict V = List (Bytes × V)

module _ {ℓ} {V : Type ℓ} where
  -- `v, ok := m[k]`
  unfoldable pub lookup : Bytes → Dict V → Option V
  lookup k [] = none
  lookup k ((j, v) ∷ m) = if j == k then some v else lookup k m

  -- `m[k] = v`
  unfoldable pub insert : Bytes → V → Dict V → Dict V
  insert k v [] = (k, v) ∷ []
  insert k v ((j, w) ∷ m) = if j == k then (k, v) ∷ m else (j, w) ∷ insert k v m

  -- `delete(m, k)`
  unfoldable pub erase : Bytes → Dict V → Dict V
  erase k [] = []
  erase k ((j, w) ∷ m) = let rest = erase k m in if j == k then rest else (j, w) ∷ rest

  -- `for k, v := range from { into[k] = v }`
  unfoldable pub copy_into : Dict V → Dict V → Dict V
  copy_into [] into = into
  copy_into ((k, v) ∷ from) into = copy_into from (insert k v into)

  unfoldable pub keys : Dict V → List Bytes
  keys [] = []
  keys ((k, v) ∷ m) = k ∷ keys m

unfoldable pub dicts : Unit {0}
unfolding ◌==◌ lookup insert erase copy_into keys
dicts = tt
