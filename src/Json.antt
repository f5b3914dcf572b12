-- ===== src/Json.antt =====
-- Decoded JSON: `interface{}` values, with `map[string]interface{}` as a list of fields in which
-- each key stands once. The text formats, JSON and YAML, and SHA-256 are parameters.
pub mod Maps
pub mod Text
use accord.Base.{◌||◌, Bool, true, false, Option, none, some, Bytes, ◌==◌, if◌then◌else◌}

mutual
  pub data Json : Type 0 where
    null : Json
    bool : Bool → Json
    number : Bytes → Json
    text : Bytes → Json
    array : Items → Json
    object : Fields → Json

  pub data Items : Type 0 where
    no_items : Items
    item : Json → Items → Items

  pub data Fields : Type 0 where
    no_fields : Fields
    field : Bytes → Json → Fields → Fields

-- `m[k]`; `none` where the key is missing.
unfoldable pub get : Bytes → Fields → Option Json
get k no_fields = none
get k (field j v fs) = if j == k then some v else get k fs

-- `delete(m, k)`
unfoldable pub delete : Bytes → Fields → Fields
delete k no_fields = no_fields
delete k (field j v fs) = let rest = delete k fs in if j == k then rest else field j v rest

-- `m[k] = v`
unfoldable pub set : Bytes → Json → Fields → Fields
set k v no_fields = field k v no_fields
set k v (field j w fs) = if j == k then field k v fs else field j w (set k v fs)

-- `len(m) == 0`
abbrev pub is_empty : Fields → Bool
is_empty no_fields = true
is_empty (field k v fs) = false

-- A type assertion `v.(map[string]interface{})` on the value of a key.
abbrev pub as_object : Option Json → Option Fields
as_object (some (object fs)) = some fs
as_object _ = none

-- `encoding/json`, `sigs.k8s.io/yaml` and `crypto/sha256`. A result `none` is an error.
-- `unmarshal_object` decodes into a map: its result is an object, or `null` for the nil map.
pub record Codec : Type 0 where
  pub yaml_to_json : Bytes → Option Bytes
  pub json_to_yaml : Bytes → Option Bytes
  pub unmarshal_object : Bytes → Option Json
  pub marshal : Json → Option Bytes
  pub sha256 : Bytes → Bytes
