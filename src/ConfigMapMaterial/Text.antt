-- ===== src/ConfigMapMaterial/Text.antt =====
-- The text of a material tells its parts: nothing of one field can be taken for another.
use accord.Base.{true, [], ◌∷◌, ◌++◌, Bytes, codes, ◌≡◌, ◌≢◌, refl, ap, sym, ◌∙◌, arith}
use accord.Dict.{Dict, lookup, keys}
use accord.Collections.Sorting.{Distinct}
use accord.Json.Text.{append_map, sorted_entries}
use accord.Json.Text.Runes.{is_utf8}
use accord.Json.Text.Injective.{
  IsText, cons_rest, cons_first, append_string_injective, append_object_injective,
}
use accord.Json.Text.Sorted.{IsText-sorted_entries, lookup-sorted_entries}
use accord.ConfigMapMaterial.{ConfigMap, append_optional, append_canonical, append_tail}

-- The same entries, in any order.
abbrev pub SameMap : Dict Bytes → Dict Bytes → Type 0
SameMap m n = (k : Bytes) → lookup k m ≡ lookup k n

-- What the API server lets through: each key of a map stands once, and all text is UTF-8.
pub record IsWellFormed (cm : ConfigMap) : Type 0 where
  pub namespace_text : is_utf8 0 cm.namespace ≡ true
  pub name_text : is_utf8 0 cm.name ≡ true
  pub labels_distinct : Distinct (keys cm.labels)
  pub labels_text : IsText cm.labels
  pub annotations_distinct : Distinct (keys cm.annotations)
  pub annotations_text : IsText cm.annotations
  pub data_distinct : Distinct (keys cm.data_entries)
  pub data_text : IsText cm.data_entries

-- One optional field. The text behind it does not look like the field.
abbrev pub Lacks : Bytes → Bytes → Type 0
Lacks name rest = (more : Bytes) → rest ≢ codes ",\"" ++ name ++ codes "\":" ++ more

append_left_injective : (p r q : Bytes) → p ++ r ≡ p ++ q → r ≡ q
append_left_injective [] r q e = e
append_left_injective (c ∷ p) r q e = append_left_injective p r q (cons_rest e)

append_map_injective :
    (m n : Dict Bytes) (r q : Bytes)
    → IsText m
    → IsText n
    → append_map m r ≡ append_map n q
    → SameMap m n × (r ≡ q)
unfolding append_map
append_map_injective m n r q hm hn e =
    let (same, behind_it) =
      append_object_injective (sorted_entries m) (sorted_entries n) r q (IsText-sorted_entries m hm)
        (IsText-sorted_entries n hn) e in
    (
      λ k. sym (lookup-sorted_entries k m) ∙ ap (lookup k) same ∙ lookup-sorted_entries k n,
      behind_it,
    )

append_optional_injective :
    (name : Bytes) (m n : Dict Bytes) (r q : Bytes)
    → IsText m
    → IsText n
    → Lacks name r
    → Lacks name q
    → append_optional name m r ≡ append_optional name n q
    → SameMap m n × (r ≡ q)
append_optional_injective name [] [] r q hm hn lr lq e = (λ k. refl, e)
append_optional_injective name [] (y ∷ n) r q hm hn lr lq e = absurd (lr (append_map (y ∷ n) q) e)
append_optional_injective name (x ∷ m) [] r q hm hn lr lq e =
    absurd (lq (append_map (x ∷ m) r) (sym e))
append_optional_injective name (x ∷ m) (y ∷ n) r q hm hn lr lq e =
    append_map_injective (x ∷ m) (y ∷ n) r q hm hn (
      append_left_injective (codes ",\"" ++ name ++ codes "\":") (append_map (x ∷ m) r)
        (append_map (y ∷ n) q) e)

-- What the text does not look like: behind the data nothing follows, behind the labels the annotations
-- or the end of the metadata.
end-Lacks : (name rest : Bytes) → Lacks name (b'}' ∷ rest)
end-Lacks name rest more e = omega (arith, cons_first e)

annotations-Lacks :
    (m : Dict Bytes) (rest : Bytes)
    → Lacks (codes "labels") (append_optional (codes "annotations") m (b'}' ∷ rest))
annotations-Lacks [] rest = end-Lacks (codes "labels") rest
annotations-Lacks (x ∷ m) rest = λ more e. omega (arith, cons_first (cons_rest (cons_rest e)))

pub append_tail_injective :
    (a b : ConfigMap)
    → IsWellFormed a
    → IsWellFormed b
    → append_tail a ≡ append_tail b
    → SameMap a.labels b.labels
      × SameMap a.annotations b.annotations
      × SameMap a.data_entries b.data_entries
append_tail_injective a b ha hb e =
    let (labels, more) =
      append_optional_injective (codes "labels") a.labels b.labels _ _ ha.labels_text hb.labels_text
        (annotations-Lacks a.annotations _) (annotations-Lacks b.annotations _) e in
    let (annotations, data_of) =
      append_optional_injective (codes "annotations") a.annotations b.annotations _ _
        ha.annotations_text hb.annotations_text (end-Lacks (codes "annotations") _)
        (end-Lacks (codes "annotations") _) more in
    let (entries, end) =
      append_optional_injective (codes "data") a.data_entries b.data_entries _ _ ha.data_text
        hb.data_text (end-Lacks (codes "data") []) (end-Lacks (codes "data") [])
        (cons_rest data_of) in
    (labels, annotations, entries)

pub append_canonical_injective :
    (a b : ConfigMap)
    → IsWellFormed a
    → IsWellFormed b
    → append_canonical a ≡ append_canonical b
    → (a.namespace ≡ b.namespace) × (a.name ≡ b.name) × (append_tail a ≡ append_tail b)
append_canonical_injective a b ha hb e =
    let (namespace, more) =
      append_string_injective a.namespace b.namespace _ _ ha.namespace_text hb.namespace_text (
        append_left_injective
          (codes "{\"apiVersion\":\"v1\",\"kind\":\"ConfigMap\",\"metadata\":{\"namespace\":") _ _
          e) in
    let (name, tail) =
      append_string_injective a.name b.name (append_tail a) (append_tail b) ha.name_text
        hb.name_text (append_left_injective (codes ",\"name\":") _ _ more) in
    (namespace, name, tail)
