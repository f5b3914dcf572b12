-- ===== src/Git/ArchivePath.antt =====
-- internal/git/archive_path.go: where an archived file goes, and the name of a resource's file.
pub mod Laws
use mathlib.Core.List.{reverse}
use accord.Base.{[], ◌∷◌, ◌++◌, List, Bytes, codes, ◌==◌, eqb, if◌then◌else◌, Outcome, ok, err}
use accord.Strings.{has_prefix, trim_prefix, trim_suffix, split, slash, dot}

abbrev pub inventory_prefix : Bytes
inventory_prefix = codes "inventory/"

pub data ArchiveError : Type 0 where
  outside_inventory : Bytes → ArchiveError

unfoldable pub archive_relative_path : Bytes → Outcome ArchiveError Bytes
archive_relative_path inventory_rel =
    if has_prefix inventory_rel inventory_prefix
    then ok (inventory_prefix ++ (codes "archive/" ++ trim_prefix inventory_rel inventory_prefix))
    else err (outside_inventory inventory_rel)

-- The trailing slashes of a text that is given backwards.
unfoldable pub drop_slashes : Bytes → Bytes
drop_slashes [] = []
drop_slashes (c ∷ s) = let rest = drop_slashes s in if eqb c slash then rest else c ∷ s

abbrev pub last_part : Bytes → List Bytes → Bytes
last_part p [] = p
last_part p (q ∷ ps) = last_part q ps

abbrev pub or_slash : Bytes → Bytes
or_slash [] = slash ∷ []
or_slash (c ∷ s) = c ∷ s

-- `path.Base`
unfoldable pub base : Bytes → Bytes
base s =
    if s == []
    then dot
    else or_slash (last_part [] (split (reverse (drop_slashes (reverse s))) slash))

unfoldable pub resource_name_from_inventory_path : Bytes → Bytes
resource_name_from_inventory_path inventory_rel = trim_suffix (base inventory_rel) (codes ".yaml")
