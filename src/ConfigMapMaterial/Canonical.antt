-- ===== src/ConfigMapMaterial/Canonical.antt =====
-- The canonical JSON of a ConfigMap stands for its material: two ConfigMaps have the same text exactly if
-- they have the same material.
use accord.Base.{
  true, [], ◌∷◌, ◌++◌, Bytes, codes, ◌≡◌, ◌≢◌, ◌↔◌, refl, ap, ◌∙◌, arith, eq_iff, eq_refl,
}
use accord.Dict.{Dict, lookup, erase, keys}
use accord.Dict.Laws.{lookup-erase, erase-Distinct, erase-All}
use accord.Collections.Sorting.{Distinct}
use accord.Json.Text.{append_string, append_object, append_map}
use accord.Json.Text.Runes.{is_utf8}
use accord.Json.Text.Sorted.{sorted_entries-same}
use accord.Hex.{encode_hex}
use accord.Hex.RoundTrip.{AreBytes, encode_hex_injective}
use accord.Inventory.Normalize.{sync_content_hash_annotation_key}
use accord.ConfigMapMaterial.{
  ConfigMap, material_view, append_optional, append_canonical, append_tail, material_canonical_json,
  material_sha256_hex,
}
use accord.ConfigMapMaterial.Text.{
  SameMap, IsWellFormed, append_canonical_injective, append_tail_injective,
}

-- The annotation that the sync operator writes does not count.
pub record SameMaterial (a b : ConfigMap) : Type 0 where
  pub same_namespace : a.namespace ≡ b.namespace
  pub same_name : a.name ≡ b.name
  pub same_labels : SameMap a.labels b.labels
  pub same_annotations :
      (k : Bytes)
      → k ≢ sync_content_hash_annotation_key
      → lookup k a.annotations ≡ lookup k b.annotations
  pub same_data : SameMap a.data_entries b.data_entries

material_view-IsWellFormed : (cm : ConfigMap) → IsWellFormed cm → IsWellFormed (material_view cm)
material_view-IsWellFormed cm h = record {
  namespace_text = h.namespace_text;
  name_text = h.name_text;
  labels_distinct = h.labels_distinct;
  labels_text = h.labels_text;
  annotations_distinct =
      erase-Distinct sync_content_hash_annotation_key cm.annotations h.annotations_distinct;
  annotations_text =
      erase-All (λ e. (is_utf8 0 e.0 ≡ true) × (is_utf8 0 e.1 ≡ true))
        sync_content_hash_annotation_key cm.annotations h.annotations_text;
  data_distinct = h.data_distinct;
  data_text = h.data_text;
}

-- The annotations but for the one that is left out.
erase-SameMap_iff :
    (j : Bytes) (m n : Dict Bytes)
    → SameMap (erase j m) (erase j n) ↔ ((k : Bytes) → k ≢ j → lookup k m ≡ lookup k n)
erase-SameMap_iff j m n = (
  λ same k other. ground (arith, same k, lookup-erase k j m, lookup-erase k j n, eq_iff j k),
  λ same k. ground (arith, same k, lookup-erase k j m, lookup-erase k j n, eq_iff j k),
)

append_optional-same :
    (name : Bytes) (m n : Dict Bytes) (rest : Bytes)
    → Distinct (keys m)
    → Distinct (keys n)
    → SameMap m n
    → append_optional name m rest ≡ append_optional name n rest
unfolding append_map lookup
append_optional-same name [] [] rest d d' same = refl
append_optional-same name [] ((k, v) ∷ n) rest d d' same =
    absurd (ground (arith, same k, eq_refl k))
append_optional-same name ((k, v) ∷ m) [] rest d d' same =
    absurd (ground (arith, same k, eq_refl k))
append_optional-same name (x ∷ m) (y ∷ n) rest d d' same =
    ap (λ entries. codes ",\"" ++ name ++ codes "\":" ++ append_object entries rest)
      (sorted_entries-same (x ∷ m) (y ∷ n) d d' same)

append_tail-same :
    (a b : ConfigMap)
    → IsWellFormed a
    → IsWellFormed b
    → SameMap a.labels b.labels
    → SameMap a.annotations b.annotations
    → SameMap a.data_entries b.data_entries
    → append_tail a ≡ append_tail b
append_tail-same a b ha hb labels annotations entries =
    append_optional-same (codes "labels") a.labels b.labels _ ha.labels_distinct hb.labels_distinct
      labels
    ∙ ap (append_optional (codes "labels") b.labels) (
        append_optional-same (codes "annotations") a.annotations b.annotations _
          ha.annotations_distinct hb.annotations_distinct annotations
        ∙ ap (λ rest. append_optional (codes "annotations") b.annotations (codes "}" ++ rest))
            (append_optional-same (codes "data") a.data_entries b.data_entries (codes "}")
              ha.data_distinct hb.data_distinct entries))

append_canonical-same :
    (a b : ConfigMap)
    → a.namespace ≡ b.namespace
    → a.name ≡ b.name
    → append_tail a ≡ append_tail b
    → append_canonical a ≡ append_canonical b
append_canonical-same a b namespace name tail =
    ap
      (λ text.
        codes "{\"apiVersion\":\"v1\",\"kind\":\"ConfigMap\",\"metadata\":{\"namespace\":" ++ text)
      (ap (λ s. append_string s (codes ",\"name\":" ++ append_string a.name (append_tail a)))
          namespace
        ∙ ap
            (λ s. append_string b.namespace (codes ",\"name\":" ++ append_string s (append_tail a)))
            name
        ∙ ap (λ rest. append_string b.namespace (codes ",\"name\":" ++ append_string b.name rest))
            tail)

material_canonical_json-same :
    (a b : ConfigMap)
    → IsWellFormed a
    → IsWellFormed b
    → SameMaterial a b
    → material_canonical_json a ≡ material_canonical_json b
unfolding material_canonical_json
material_canonical_json-same a b ha hb same =
    append_canonical-same (material_view a) (material_view b) same.same_namespace same.same_name (
      append_tail-same (material_view a) (material_view b) (material_view-IsWellFormed a ha)
        (material_view-IsWellFormed b hb) same.same_labels
        ((erase-SameMap_iff sync_content_hash_annotation_key a.annotations b.annotations).1
          same.same_annotations)
        same.same_data)

material_canonical_json-SameMaterial :
    (a b : ConfigMap)
    → IsWellFormed a
    → IsWellFormed b
    → material_canonical_json a ≡ material_canonical_json b
    → SameMaterial a b
unfolding material_canonical_json
material_canonical_json-SameMaterial a b ha hb e =
    let ha' = material_view-IsWellFormed a ha in
    let hb' = material_view-IsWellFormed b hb in
    let (namespace, name, tail) =
      append_canonical_injective (material_view a) (material_view b) ha' hb' e in
    let (labels, annotations, entries) =
      append_tail_injective (material_view a) (material_view b) ha' hb' tail in
    record {
      same_namespace = namespace;
      same_name = name;
      same_labels = labels;
      same_annotations =
          (erase-SameMap_iff sync_content_hash_annotation_key a.annotations b.annotations).0
            annotations;
      same_data = entries;
    }

-- Two ConfigMaps with UTF-8 text and no key twice have the same canonical JSON if and only if they have the same
-- namespace, name, labels, data and, but for the content hash of the sync operator, annotations, each
-- map in whatever order a range meets its keys.
pub material_canonical_json_iff :
    (a b : ConfigMap)
    → IsWellFormed a
    → IsWellFormed b
    → (material_canonical_json a ≡ material_canonical_json b) ↔ SameMaterial a b
material_canonical_json_iff a b ha hb =
    (material_canonical_json-SameMaterial a b ha hb, material_canonical_json-same a b ha hb)

-- Where SHA-256 does not send the canonical JSONs of the two to one sum, two ConfigMaps with UTF-8 text
-- have the same hash if and only if they have the same material.
pub material_sha256_hex_iff :
    (sha256 : Bytes → Bytes) (a b : ConfigMap)
    → AreBytes (sha256 (material_canonical_json a))
    → AreBytes (sha256 (material_canonical_json b))
    → (sha256 (material_canonical_json a) ≡ sha256 (material_canonical_json b)
        → material_canonical_json a ≡ material_canonical_json b)
    → IsWellFormed a
    → IsWellFormed b
    → (material_sha256_hex sha256 a ≡ material_sha256_hex sha256 b) ↔ SameMaterial a b
unfolding material_sha256_hex
material_sha256_hex_iff sha256 a b bytes_a bytes_b apart ha hb = (
  λ e. (material_canonical_json_iff a b ha hb).0 (
      apart (
        encode_hex_injective (sha256 (material_canonical_json a))
          (sha256 (material_canonical_json b)) bytes_a bytes_b e)),
  λ same. ap (λ text. encode_hex (sha256 text)) ((material_canonical_json_iff a b ha hb).1 same),
)
