-- ===== src/Inventory/Normalize.antt =====
-- internal/inventory/normalize.go: the first document of a YAML text, the normal form of a
-- Kubernetes object, and the hash of its material. The nested maps that the code changes in place
-- are written back into the object.
pub mod Nested
pub mod NormalForm
pub mod Exported
use accord.Base.{
  ◌||◌, Bool, true, false, List, [], ◌∷◌, ◌++◌, Option, none, some, Bytes, codes, ◌==◌,
  if◌then◌else◌, Outcome, ok, err, ◌>>=◌,
}
use accord.Strings.{has_prefix, trim_space}
use accord.Hex.{encode_hex}
use accord.Json.{
  Json, null, bool, number, text, array, object, Fields, get, delete, set, is_empty, as_object,
  Codec,
}

abbrev pub strip_metadata_keys : List Bytes
strip_metadata_keys =
    codes "uid"
    ∷ codes "resourceVersion"
    ∷ codes "creationTimestamp"
    ∷ codes "deletionTimestamp"
    ∷ codes "generation"
    ∷ codes "managedFields"
    ∷ codes "selfLink"
    ∷ []

abbrev pub last_applied_annotation : Bytes
last_applied_annotation = codes "kubectl.kubernetes.io/last-applied-configuration"

-- Of internal/configmapmaterial.
abbrev pub sync_content_hash_annotation_key : Bytes
sync_content_hash_annotation_key = codes "accord.io/sync-content-hash"

-- The first part of `strings.Split(s, sep)`: what stands before the first separator.
unfoldable pub first_part : Bytes → Bytes → Bytes
first_part [] sep = []
first_part (c ∷ s) sep =
    let rest = first_part s sep in if has_prefix (c ∷ s) sep then [] else c ∷ rest

abbrev pub document_separator : Bytes
document_separator = b'\n' ∷ codes "---"

unfoldable pub first_yaml_document : Bytes → Bytes
first_yaml_document src =
    let s = trim_space src in if s == [] then [] else trim_space (first_part s document_separator)

-- `for _, k := range stripMetadataKeys { delete(meta, k) }`
unfoldable pub delete_keys : List Bytes → Fields → Fields
delete_keys [] fs = fs
delete_keys (k ∷ ks) fs = delete_keys ks (delete k fs)

abbrev pub annotations : Bytes
annotations = codes "annotations"

abbrev pub metadata : Bytes
metadata = codes "metadata"

abbrev pub status : Bytes
status = codes "status"

-- The annotations without the two of the tools; without any left, the field goes.
unfoldable pub normalize_annotations : Fields → Fields
normalize_annotations meta = elim (as_object (get annotations meta)) [
  | none ↦ meta
  | some ann ↦
      let left = delete sync_content_hash_annotation_key (delete last_applied_annotation ann) in
      if is_empty left then delete annotations meta else set annotations (object left) meta
]

unfoldable pub normalize_metadata : Fields → Fields
normalize_metadata meta = normalize_annotations (delete_keys strip_metadata_keys meta)

unfoldable pub normalize_fields : Fields → Fields
normalize_fields obj = elim (as_object (get metadata obj)) [
  | none ↦ obj
  | some meta ↦
      let left = normalize_metadata meta in
      if is_empty left then delete metadata obj else set metadata (object left) obj
]

-- `normalizeKubernetesObject`; the nil map has nothing to delete.
unfoldable pub normalize_kubernetes_object : Json → Json
normalize_kubernetes_object (object obj) = object (normalize_fields (delete status obj))
normalize_kubernetes_object v = v

pub data NormalizeError : Type 0 where
  yaml_to_json_failed unmarshal_failed marshal_failed json_to_yaml_failed : NormalizeError

abbrev pub or_error {ℓ} : {A : Type ℓ} → Option A → NormalizeError → Outcome NormalizeError A
or_error none e = err e
or_error (some a) e = ok a

module _ (c : Codec) where
  unfoldable pub material_hash_from_normalized_yaml : Bytes → Outcome NormalizeError Bytes
  material_hash_from_normalized_yaml src = do
    json ← or_error (c.yaml_to_json (first_yaml_document src)) yaml_to_json_failed
    obj ← or_error (c.unmarshal_object json) unmarshal_failed
    out ← or_error (c.marshal (normalize_kubernetes_object obj)) marshal_failed
    ok (encode_hex (c.sha256 out))

  -- `normalizedMapFromRuntimeObject`, from the object's own JSON, which `json.Marshal` gives.
  unfoldable pub normalized_map_from_runtime_object : Option Bytes → Outcome NormalizeError Json
  normalized_map_from_runtime_object marshalled = do
    b ← or_error marshalled marshal_failed
    m ← or_error (c.unmarshal_object b) unmarshal_failed
    ok (normalize_kubernetes_object m)

  -- The export YAML and the hash.
  unfoldable pub normalized_yaml_and_material_hash :
      Option Bytes → Outcome NormalizeError (Bytes × Bytes)
  normalized_yaml_and_material_hash marshalled = do
    m ← normalized_map_from_runtime_object marshalled
    j ← or_error (c.marshal m) marshal_failed
    yb ← or_error (c.json_to_yaml j) json_to_yaml_failed
    ok (yb, encode_hex (c.sha256 j))
