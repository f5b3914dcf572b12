-- ===== src/ConfigMapMaterial.antt =====
-- internal/configmapmaterial/material.go: the material of a ConfigMap, its JSON and its hash.
-- `MaterialCanonicalJSON` marshals a struct of strings and maps, which cannot fail.
pub mod Text
pub mod Canonical
use accord.Base.{[], ◌∷◌, ◌++◌, Bytes, codes}
use accord.Dict.{Dict, erase}
use accord.Hex.{encode_hex}
use accord.Json.Text.{append_string, append_map}
use accord.Inventory.Normalize.{sync_content_hash_annotation_key}

-- The fields of a `corev1.ConfigMap` that the material has.
pub record ConfigMap : Type 0 where
  pub namespace : Bytes
  pub name : Bytes
  pub labels : Dict Bytes
  pub annotations : Dict Bytes
  pub data_entries : Dict Bytes

abbrev pub inventory_label_key : Bytes
inventory_label_key = codes "accord.io/inventory"

abbrev pub inventory_label_value : Bytes
inventory_label_value = codes "true"

abbrev pub material_view : ConfigMap → ConfigMap
material_view cm = record cm { annotations = erase sync_content_hash_annotation_key cm.annotations }

-- A field of the struct that is left out where its map is empty, in front of `rest`.
abbrev pub append_optional : Bytes → Dict Bytes → Bytes → Bytes
append_optional name [] rest = rest
append_optional name (e ∷ m) rest = codes ",\"" ++ name ++ codes "\":" ++ append_map (e ∷ m) rest

-- `json.Marshal` of a `configMapCanonical`.
abbrev pub append_tail : ConfigMap → Bytes
append_tail v = append_optional (codes "labels") v.labels (
    append_optional (codes "annotations") v.annotations
      (codes "}" ++ append_optional (codes "data") v.data_entries (codes "}")))

abbrev pub append_canonical : ConfigMap → Bytes
append_canonical v =
    codes "{\"apiVersion\":\"v1\",\"kind\":\"ConfigMap\",\"metadata\":{\"namespace\":"
    ++ append_string v.namespace (codes ",\"name\":" ++ append_string v.name (append_tail v))

unfoldable pub material_canonical_json : ConfigMap → Bytes
material_canonical_json cm = append_canonical (material_view cm)

-- `crypto/sha256` is a parameter.
unfoldable pub material_sha256_hex : (Bytes → Bytes) → ConfigMap → Bytes
material_sha256_hex sha256 cm = encode_hex (sha256 (material_canonical_json cm))
