-- ===== src/Sync/Apply/Laws.antt =====
-- What is sent to the cluster: the manifest's own object, with the identity of its path and the hash
-- of its material.
use accord.Base.{
  [], Option, none, some, Bytes, ◌==◌, eq_iff, eq_refl, if◌then◌else◌, ok, ◌≡◌, ◌↔◌, refl, arith,
  ap, sym, ◌∙◌, Option-cases, Outcome-cases, inl, inr,
}
use accord.Dict.{Dict, lookup, copy_into, keys}
use accord.Dict.Laws.{lookup-insert, lookup-copy_into, or_else}
use accord.Collections.Sorting.{Distinct}
use accord.Json.{Codec}
use accord.Inventory.Normalize.{
  first_yaml_document, material_hash_from_normalized_yaml, sync_content_hash_annotation_key,
}
use accord.Sync.Path.{ParsedInventoryPath, argo_kind_from_plural}
use accord.Sync.Apply.{
  Objects, argo_expected_api_version, validate_names, validate_path_manifest_identity, with_hash,
  prepare,
}

module _ (O : Objects) where
  -- The object has the identity that the path declares.
  pub record IsPermitted (parsed : ParsedInventoryPath) (obj : O.Object) : Type 0 where
    pub api_version : O.api_version obj ≡ argo_expected_api_version
    pub kind : argo_kind_from_plural parsed.plural_kind ≡ ok (O.kind obj)
    pub namespace : O.namespace obj ≡ parsed.namespace
    pub name : O.name obj ≡ parsed.name

  module _ (parsed : ParsedInventoryPath) (obj : O.Object) where
    validate_names_iff :
        (expected : Bytes)
        → (validate_names O parsed expected obj ≡ ok tt) ↔ (
            (O.kind obj ≡ expected)
            × (O.namespace obj ≡ parsed.namespace)
            × (O.name obj ≡ parsed.name))
    unfolding validate_names
    validate_names_iff expected = ground (
      arith,
      eq_iff (O.kind obj) expected,
      eq_iff (O.namespace obj) parsed.namespace,
      eq_iff (O.name obj) parsed.name,
    )

    validate_head :
        validate_path_manifest_identity O parsed obj ≡ ok tt
        → (O.api_version obj ≡ argo_expected_api_version)
          × ((kind : Bytes) × (argo_kind_from_plural parsed.plural_kind ≡ ok kind)
              × (validate_names O parsed kind obj ≡ ok tt))
    unfolding validate_path_manifest_identity
    validate_head h =
        let version = eq_iff (O.api_version obj) argo_expected_api_version in
        elim (Outcome-cases (argo_kind_from_plural parsed.plural_kind)) [
          | inr (e, unknown) ↦ ground (arith, version)
          | inl (kind, known) ↦ (ground (arith, version), (kind, known, ground (arith, version)))
        ]

    validate_sound : validate_path_manifest_identity O parsed obj ≡ ok tt → IsPermitted parsed obj
    validate_sound h =
        let (version, (kind, known, names)) = validate_head h in
        let (same, namespace, name) = (validate_names_iff kind).0 names in
        record {
          api_version = version;
          kind = known ∙ ap ok (sym same);
          namespace = namespace;
          name = name;
        }

    validate_complete :
        IsPermitted parsed obj → validate_path_manifest_identity O parsed obj ≡ ok tt
    unfolding validate_path_manifest_identity
    validate_complete p =
        rw
          (
            p.api_version,
            eq_refl argo_expected_api_version,
            p.kind,
            validate_path_manifest_identity,
          )
          ((validate_names_iff (O.kind obj)).1 (refl, p.namespace, p.name))

    -- The validation passes exactly the objects whose API version is that of Argo CD, whose kind is
    -- that of the path's directory, and whose namespace and name are those of the path.
    pub validate_iff :
        (validate_path_manifest_identity O parsed obj ≡ ok tt) ↔ IsPermitted parsed obj
    validate_iff = (validate_sound, validate_complete)

  module _ (c : Codec) (parsed : ParsedInventoryPath) (git_yaml : Bytes) where
    -- The object that the first document of a file decodes to, which is sent for the path.
    pub record IsPrepared (sent : O.Object) : Type 0 where
      pub hash : Bytes
      pub json : Bytes
      pub manifest : O.Object
      pub hashed : material_hash_from_normalized_yaml c git_yaml ≡ ok hash
      pub converted : c.yaml_to_json (first_yaml_document git_yaml) ≡ some json
      pub decoded : O.unmarshal_json json ≡ some manifest
      pub permitted : IsPermitted parsed manifest
      pub tagged : sent ≡ with_hash O hash manifest

    prepare_sound : {sent : O.Object} → prepare O c parsed git_yaml ≡ ok sent → IsPrepared sent
    unfolding prepare
    prepare_sound h = elim (Outcome-cases (material_hash_from_normalized_yaml c git_yaml)) [
      | inr (e, bad) ↦ absurd (ground arith)
      | inl (hash, hashed) ↦ elim (Option-cases (c.yaml_to_json (first_yaml_document git_yaml))) [
        | inl bad ↦ absurd (ground arith)
        | inr (json, converted) ↦ elim (Option-cases (O.unmarshal_json json)) [
          | inl bad ↦ absurd (ground arith)
          | inr (manifest, decoded) ↦
              elim (Outcome-cases (validate_path_manifest_identity O parsed manifest)) [
                | inr (e, bad) ↦ absurd (ground arith)
                | inl (u, permitted) ↦ record {
                  hash = hash;
                  json = json;
                  manifest = manifest;
                  hashed = hashed;
                  converted = converted;
                  decoded = decoded;
                  permitted = validate_sound parsed manifest permitted;
                  tagged = ground arith;
                }
              ]
        ]
      ]
    ]

    prepare_complete : (sent : O.Object) → IsPrepared sent → prepare O c parsed git_yaml ≡ ok sent
    unfolding prepare
    prepare_complete sent p =
        rw
          (
            p.hashed,
            prepare,
            p.converted,
            p.decoded,
            validate_complete parsed p.manifest p.permitted,
          )
          (ap ok (sym p.tagged))

    -- An object is sent for a file exactly when the material of the file's first document can be
    -- hashed, that document decodes to an object that has the identity of the path, and the sent
    -- object is this one with the hash added to its annotations.
    pub prepare_iff : (sent : O.Object) → (prepare O c parsed git_yaml ≡ ok sent) ↔ IsPrepared sent
    prepare_iff sent = (prepare_sound, prepare_complete sent)

-- What is known of the setters and getters of an object: annotations are read as they were set, the
-- identity is not touched, and a map has each key once.
pub record IsLawful (O : Objects) : Type 0 where
  pub lookup-set_annotations :
      (o : O.Object) (a : Dict Bytes) (k : Bytes)
      → lookup k (O.annotations (O.set_annotations o a)) ≡ lookup k a
  pub api_version_kept :
      (o : O.Object) (a : Dict Bytes) → O.api_version (O.set_annotations o a) ≡ O.api_version o
  pub kind_kept : (o : O.Object) (a : Dict Bytes) → O.kind (O.set_annotations o a) ≡ O.kind o
  pub namespace_kept :
      (o : O.Object) (a : Dict Bytes) → O.namespace (O.set_annotations o a) ≡ O.namespace o
  pub name_kept : (o : O.Object) (a : Dict Bytes) → O.name (O.set_annotations o a) ≡ O.name o
  pub annotations-Distinct : (o : O.Object) → Distinct (keys (O.annotations o))

module _ (O : Objects) (L : IsLawful O) (hash : Bytes) (obj : O.Object) where
  lookup-with_hash :
      (k : Bytes)
      → lookup k (O.annotations (with_hash O hash obj)) ≡ (
          if sync_content_hash_annotation_key == k then some hash else lookup k (O.annotations obj))
  unfolding with_hash lookup
  lookup-with_hash k =
      L.lookup-set_annotations obj _ k
      ∙ lookup-insert k sync_content_hash_annotation_key hash (copy_into (O.annotations obj) [])
      ∙ ap (λ o. if sync_content_hash_annotation_key == k then some hash else o)
          (lookup-copy_into k (O.annotations obj) [] (L.annotations-Distinct obj) ∙ or_else_none _)
    where
      or_else_none : (o : Option Bytes) → or_else o none ≡ o
      or_else_none none = refl
      or_else_none (some v) = refl

  with_hash-IsPermitted :
      (parsed : ParsedInventoryPath)
      → IsPermitted O parsed obj
      → IsPermitted O parsed (with_hash O hash obj)
  unfolding with_hash
  with_hash-IsPermitted parsed p = record {
    api_version = L.api_version_kept obj _ ∙ p.api_version;
    kind = p.kind ∙ ap ok (sym (L.kind_kept obj _));
    namespace = L.namespace_kept obj _ ∙ p.namespace;
    name = L.name_kept obj _ ∙ p.name;
  }

-- What is sent for a file has the identity of the path. Under the sync operator's key it carries the
-- hash of the file's material, and every other annotation is that of the manifest, the object that the
-- file's first document decodes to. It rests on the documented behaviour of the object's getters and
-- setters.
pub prepare-IsPermitted :
    (O : Objects) (L : IsLawful O) (c : Codec) (parsed : ParsedInventoryPath) (git_yaml : Bytes)
    (sent : O.Object)
    → prepare O c parsed git_yaml ≡ ok sent
    → IsPermitted O parsed sent
      × ((hash json : Bytes) × (manifest : O.Object) × (material_hash_from_normalized_yaml c
              git_yaml
            ≡ ok hash)
          × (c.yaml_to_json (first_yaml_document git_yaml) ≡ some json)
          × (O.unmarshal_json json ≡ some manifest)
          × ((k : Bytes)
              → lookup k (O.annotations sent) ≡ (
                  if sync_content_hash_annotation_key == k
                  then some hash
                  else lookup k (O.annotations manifest))))
prepare-IsPermitted O L c parsed git_yaml sent h =
    let p = (prepare_iff O c parsed git_yaml sent).0 h in
    rw p.tagged (
      with_hash-IsPermitted O L p.hash p.manifest parsed p.permitted,
      (
        p.hash,
        p.json,
        p.manifest,
        p.hashed,
        p.converted,
        p.decoded,
        lookup-with_hash O L p.hash p.manifest,
      ),
    )
