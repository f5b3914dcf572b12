-- ===== src/Sync/Apply.antt =====
-- internal/sync/apply.go: a manifest from Git is applied to the cluster if it is the resource that
-- its path names. Kubernetes objects (`unstructured.Unstructured`) and the cluster are parameters.
pub mod Laws
use accord.Base.{
  [], ◌∷◌, Bool, true, false, Option, none, some, Bytes, codes, ◌==◌, if◌then◌else◌, Outcome, ok,
  err, not,
}
use accord.Dict.{Dict, insert, copy_into}
use accord.Json.{Codec}
use accord.Inventory.Normalize.{
  NormalizeError, first_yaml_document, material_hash_from_normalized_yaml,
  sync_content_hash_annotation_key,
}
use accord.Sync.Path.{ParsedInventoryPath, KindError, argo_kind_from_plural}

-- The methods of an object that the code calls. `annotations` of an object without any is [].
pub record Objects : Type 1 where
  pub Object : Type 0
  pub unmarshal_json : Bytes → Option Object
  pub api_version : Object → Bytes
  pub kind : Object → Bytes
  pub namespace : Object → Bytes
  pub name : Object → Bytes
  pub annotations : Object → Dict Bytes
  pub set_annotations : Object → Dict Bytes → Object

-- The object that a deletion names.
pub record Target : Type 0 where
  pub group : Bytes
  pub version : Bytes
  pub kind : Bytes
  pub namespace : Bytes
  pub name : Bytes

pub data DeleteAnswer : Type 0 where
  accepted not_found : DeleteAnswer
  refused : Bytes → DeleteAnswer

-- The API server: a server-side apply with forced ownership, whose error is a text, and a deletion.
pub record Cluster (O : Objects) : Type 1 where
  pub State : Type 0
  pub patch : State → O.Object → State × Option Bytes
  pub delete : State → Target → State × DeleteAnswer

abbrev pub argo_expected_api_version : Bytes
argo_expected_api_version = codes "argoproj.io/v1alpha1"

pub data MismatchField : Type 0 where
  api_version_field kind_field namespace_field name_field : MismatchField

pub record PathManifestMismatch : Type 0 where
  pub field : MismatchField
  pub path_expect : Bytes
  pub manifest_seen : Bytes

pub data ApplyError : Type 0 where
  hash_failed : NormalizeError → ApplyError
  convert_failed parse_failed : ApplyError
  kind_unresolved : KindError → ApplyError
  path_manifest_mismatch : PathManifestMismatch → ApplyError
  patch_failed : Bytes → ApplyError

-- `IsPathManifestMismatch`: no other error wraps a mismatch.
unfoldable pub is_path_manifest_mismatch : ApplyError → Bool
is_path_manifest_mismatch (path_manifest_mismatch m) = true
is_path_manifest_mismatch _ = false

abbrev pub mismatch : MismatchField → Bytes → Bytes → Outcome ApplyError (Unit {0})
mismatch field expect seen =
    err (
      path_manifest_mismatch (record { field = field; path_expect = expect; manifest_seen = seen }))

module _ (O : Objects) where
  -- The tests behind the one of the kind's name.
  unfoldable pub validate_names :
      ParsedInventoryPath → Bytes → O.Object → Outcome ApplyError (Unit {0})
  validate_names parsed expected_kind obj =
      if not (O.kind obj == expected_kind)
      then mismatch kind_field expected_kind (O.kind obj)
      else if not (O.namespace obj == parsed.namespace)
      then mismatch namespace_field parsed.namespace (O.namespace obj)
      else if not (O.name obj == parsed.name)
      then mismatch name_field parsed.name (O.name obj)
      else ok tt

  unfoldable pub validate_path_manifest_identity :
      ParsedInventoryPath → O.Object → Outcome ApplyError (Unit {0})
  validate_path_manifest_identity parsed obj =
      if not (O.api_version obj == argo_expected_api_version)
      then mismatch api_version_field argo_expected_api_version (O.api_version obj)
      else elim (argo_kind_from_plural parsed.plural_kind) [
        | err e ↦ err (kind_unresolved e)
        | ok expected_kind ↦ validate_names parsed expected_kind obj
      ]

  -- The object with the hash among its annotations, as it is sent.
  unfoldable pub with_hash : Bytes → O.Object → O.Object
  with_hash hash obj =
      O.set_annotations obj
        (insert sync_content_hash_annotation_key hash (copy_into (O.annotations obj) []))

  module _ (c : Codec) where
    abbrev pub or_apply_error {ℓ} : {A : Type ℓ} → Option A → ApplyError → Outcome ApplyError A
    or_apply_error none e = err e
    or_apply_error (some a) e = ok a

    -- Everything up to the call of the cluster: the object to send.
    unfoldable pub prepare : ParsedInventoryPath → Bytes → Outcome ApplyError O.Object
    prepare parsed git_yaml = elim (material_hash_from_normalized_yaml c git_yaml) [
      | err e ↦ err (hash_failed e)
      | ok hash ↦ elim (c.yaml_to_json (first_yaml_document git_yaml)) [
        | none ↦ err convert_failed
        | some json ↦ elim (O.unmarshal_json json) [
          | none ↦ err parse_failed
          | some obj ↦ elim (validate_path_manifest_identity parsed obj) [
            | err e ↦ err e
            | ok _ ↦ ok (with_hash hash obj)
          ]
        ]
      ]
    ]

    module _ (K : Cluster O) where
      -- `nil` is `none`.
      unfoldable pub send_patch : K.State → O.Object → K.State × Option ApplyError
      send_patch s obj =
          let (s', answer) = K.patch s obj in
          elim answer [ none ↦ (s', none) | some e ↦ (s', some (patch_failed e)) ]

      unfoldable pub apply_inventory_yaml :
          ParsedInventoryPath → Bytes → K.State → K.State × Option ApplyError
      apply_inventory_yaml parsed git_yaml s = elim (prepare parsed git_yaml) [
        | err e ↦ (s, some e)
        | ok obj ↦ send_patch s obj
      ]
