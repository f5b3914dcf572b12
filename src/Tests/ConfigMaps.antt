-- ===== src/Tests/ConfigMaps.antt =====
-- A ConfigMap before and after the sync operator has stamped it, its labels met in another order.
use accord.Base.{refl, [], ◌∷◌, Bytes, codes, length, ◌≡◌, ◌↔◌, ◌%◌, ◌<◌, arith}
use accord.Dict.{dicts}
use accord.Inventory.Normalize.{sync_content_hash_annotation_key}
use accord.Json.Text.{texts}
use accord.Json.Text.Runes.{is_utf8}
use accord.ConfigMapMaterial.{ConfigMap, material_canonical_json, material_sha256_hex}
use accord.ConfigMapMaterial.Text.{IsWellFormed}
use accord.ConfigMapMaterial.Canonical.{
  SameMaterial, material_canonical_json_iff, material_sha256_hex_iff,
}

abbrev applied : ConfigMap
applied = record {
  namespace = codes "ns-a";
  name = codes "cm-1";
  labels = (codes "app", codes "demo") ∷ (codes "tier", codes "a<b") ∷ [];
  annotations = (codes "note", codes "x") ∷ [];
  data_entries = (codes "k", codes "v") ∷ [];
}

abbrev stamped : ConfigMap
stamped = record applied {
  labels = (codes "tier", codes "a<b") ∷ (codes "app", codes "demo") ∷ [];
  annotations = (sync_content_hash_annotation_key, codes "dead") ∷ (codes "note", codes "x") ∷ [];
}

applied-IsWellFormed : IsWellFormed applied
unfolding is_utf8 dicts
applied-IsWellFormed = record {
  namespace_text = refl;
  name_text = refl;
  labels_distinct = (refl, (refl, tt));
  labels_text = ((refl, refl), ((refl, refl), tt));
  annotations_distinct = (refl, tt);
  annotations_text = ((refl, refl), tt);
  data_distinct = (refl, tt);
  data_text = ((refl, refl), tt);
}

stamped-IsWellFormed : IsWellFormed stamped
unfolding is_utf8 dicts
stamped-IsWellFormed = record {
  namespace_text = refl;
  name_text = refl;
  labels_distinct = (refl, (refl, tt));
  labels_text = ((refl, refl), ((refl, refl), tt));
  annotations_distinct = (refl, (refl, tt));
  annotations_text = ((refl, refl), ((refl, refl), tt));
  data_distinct = (refl, tt);
  data_text = ((refl, refl), tt);
}

canonical_text :
    material_canonical_json stamped
    ≡ codes
        "{\"apiVersion\":\"v1\",\"kind\":\"ConfigMap\",\"metadata\":{\"namespace\":\"ns-a\",\"name\":\"cm-1\",\"labels\":{\"app\":\"demo\",\"tier\":\"a\\u003cb\"},\"annotations\":{\"note\":\"x\"}},\"data\":{\"k\":\"v\"}}"
unfolding material_canonical_json texts
canonical_text = refl

material_canonical_json_iff_example :
    (material_canonical_json applied ≡ material_canonical_json stamped)
    ↔ SameMaterial applied stamped
material_canonical_json_iff_example =
    material_canonical_json_iff applied stamped applied-IsWellFormed stamped-IsWellFormed

same_text : material_canonical_json applied ≡ material_canonical_json stamped
unfolding material_canonical_json texts
same_text = refl

-- A checksum in place of SHA-256.
abbrev checksum : Bytes → Bytes
checksum s = length s % 256 ∷ []

checksum_lt : (cm : ConfigMap) → length (material_canonical_json cm) % 256 < 256
checksum_lt cm = omega arith

material_sha256_hex_iff_example :
    (material_sha256_hex checksum applied ≡ material_sha256_hex checksum stamped)
    ↔ SameMaterial applied stamped
material_sha256_hex_iff_example =
    material_sha256_hex_iff checksum applied stamped (checksum_lt applied, tt)
      (checksum_lt stamped, tt) (λ e. same_text) applied-IsWellFormed stamped-IsWellFormed
