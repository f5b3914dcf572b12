-- ===== src/Sync/Path.antt =====
-- internal/sync/path.go: which files of the repository the sync-operator manages, and the kind of
-- the resource that a directory stands for. `("", false)` results are `none`.
pub mod RoundTrip
pub mod Soundness
pub mod Endings
use accord.Base.{
  ◌||◌, List, [], ◌∷◌, Option, none, some, Bytes, codes, ◌==◌, if◌then◌else◌, Outcome, ok, err, not,
  ◌&&◌, Bool,
}
use accord.Strings.{
  has_prefix, trim_prefix, has_suffix, trim_suffix, split, trim_space, clean, slash, dot,
}

pub record ParsedInventoryPath : Type 0 where
  pub plural_kind : Bytes
  pub namespace : Bytes
  pub name : Bytes

abbrev pub webhook_path : Bytes
webhook_path = codes "/api/v1/webhook"

abbrev pub inventory_prefix : Bytes
inventory_prefix = codes "inventory/"

abbrev pub applications : Bytes
applications = codes "applications"

abbrev pub applicationsets : Bytes
applicationsets = codes "applicationsets"

abbrev pub yaml : Bytes
yaml = codes ".yaml"

abbrev pub yml : Bytes
yml = codes ".yml"

-- `strings.TrimSuffix(strings.TrimSuffix(file, ".yaml"), ".yml")`
unfoldable pub file_stem : Bytes → Bytes
file_stem file = trim_suffix (trim_suffix file yaml) yml

-- The tests on the three parts below inventory/.
unfoldable pub check_parts : Bytes → Bytes → Bytes → Option ParsedInventoryPath
check_parts plural ns file =
    let name = file_stem file in
    if not (plural == applications) && not (plural == applicationsets)
    then none
    else if not (has_suffix file yaml) && not (has_suffix file yml)
    then none
    else if ns == [] || name == [] || name == dot || ns == dot
    then none
    else some (record { plural_kind = plural; namespace = ns; name = name })

-- `len(parts) != 3`
unfoldable pub three_parts : List Bytes → Option ParsedInventoryPath
three_parts (plural ∷ ns ∷ file ∷ []) = check_parts plural ns file
three_parts _ = none

unfoldable pub parse_inventory_export_path : Bytes → Option ParsedInventoryPath
parse_inventory_export_path git_path =
    let p = trim_prefix (clean (trim_space git_path)) (slash ∷ []) in
    if has_prefix p inventory_prefix
    then three_parts (split (trim_prefix p inventory_prefix) slash)
    else none

pub data KindError : Type 0 where
  unsupported_plural : Bytes → KindError

unfoldable pub argo_kind_from_plural : Bytes → Outcome KindError Bytes
argo_kind_from_plural plural =
    if plural == applications
    then ok (codes "Application")
    else if plural == applicationsets
    then ok (codes "ApplicationSet")
    else err (unsupported_plural plural)
