-- ===== src/Inventory/Normalize/Exported.antt =====
-- The file that is exported for an object has the hash of the object.
use accord.Base.{
  Bytes, Option, none, some, ok, ◌≡◌, refl, sym, ap, ◌∙◌, Option-cases, ok-injective, inl, inr,
}
use accord.Hex.{encode_hex}
use accord.Json.{Json, Codec}
use accord.Inventory.Normalize.{
  first_yaml_document, normalize_kubernetes_object, material_hash_from_normalized_yaml,
  normalized_map_from_runtime_object, normalized_yaml_and_material_hash,
}
use accord.Inventory.Normalize.NormalForm.{normalize_idempotent}

-- The YAML text of a value, without white space around it, is one document and is read as that value.
abbrev pub ReadsBack : Codec → Json → Type 0
ReadsBack c v =
    (json yaml : Bytes)
    → c.marshal v ≡ some json
    → c.json_to_yaml json ≡ some yaml
    → (read : Bytes) × (c.yaml_to_json (first_yaml_document yaml) ≡ some read)
      × (c.unmarshal_object read ≡ some v)

module _ (c : Codec) where
  normalized_map-normal :
      (marshalled : Option Bytes) (m : Json)
      → normalized_map_from_runtime_object c marshalled ≡ ok m
      → normalize_kubernetes_object m ≡ m
  unfolding normalized_map_from_runtime_object
  normalized_map-normal none m h = cc
  normalized_map-normal (some b) m h = elim (Option-cases (c.unmarshal_object b)) [
    | inl bad ↦ absurd (cc (rw bad at h))
    | inr (v, read) ↦
        let e : normalize_kubernetes_object v ≡ m = ok-injective (rw read at h) in
        ap normalize_kubernetes_object (sym e) ∙ normalize_idempotent v ∙ e
  ]

  export_steps :
      (marshalled : Option Bytes) (m : Json) (yaml hash : Bytes)
      → normalized_map_from_runtime_object c marshalled ≡ ok m
      → normalized_yaml_and_material_hash c marshalled ≡ ok (yaml, hash)
      → (json : Bytes) × (c.marshal m ≡ some json)
        × (c.json_to_yaml json ≡ some yaml)
        × (hash ≡ encode_hex (c.sha256 json))
  unfolding normalized_yaml_and_material_hash
  export_steps marshalled m yaml hash n h = elim (Option-cases (c.marshal m)) [
    | inl bad ↦ absurd (cc (rw (n, bad) at h))
    | inr (json, marshals) ↦ elim (Option-cases (c.json_to_yaml json)) [
      | inl bad ↦ absurd (cc (rw (n, marshals, bad) at h))
      | inr (y, converts) ↦
          let e : ◌≡◌ {A = Bytes × Bytes} (y, encode_hex (c.sha256 json)) (yaml, hash) =
            ok-injective (rw (n, marshals, converts) at h) in
          (json, marshals, converts ∙ ap some (ap (λ x. x.0) e), sym (ap (λ x. x.1) e))
    ]
  ]

  hash_steps :
      (yaml read json : Bytes) (m : Json)
      → c.yaml_to_json (first_yaml_document yaml) ≡ some read
      → c.unmarshal_object read ≡ some m
      → normalize_kubernetes_object m ≡ m
      → c.marshal m ≡ some json
      → material_hash_from_normalized_yaml c yaml ≡ ok (encode_hex (c.sha256 json))
  unfolding material_hash_from_normalized_yaml
  hash_steps yaml read json m r u n e = rw (r, u, n, e) refl

  -- The hash that the inventory-controller takes of an object is the hash that the sync-operator takes
  -- of the file exported for it, where the text format reads back the normal form of the object.
  pub material_hash-export :
      (marshalled : Option Bytes) (m : Json) (yaml hash : Bytes)
      → normalized_map_from_runtime_object c marshalled ≡ ok m
      → ReadsBack c m
      → normalized_yaml_and_material_hash c marshalled ≡ ok (yaml, hash)
      → material_hash_from_normalized_yaml c yaml ≡ ok hash
  material_hash-export marshalled m yaml hash n back h =
      let (json, marshals, converts, same) = export_steps marshalled m yaml hash n h in
      let (read, reads, decodes) = back json yaml marshals converts in
      hash_steps yaml read json m reads decodes (normalized_map-normal marshalled m n) marshals
      ∙ ap ok (sym same)
