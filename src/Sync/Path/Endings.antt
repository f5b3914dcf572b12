-- ===== src/Sync/Path/Endings.antt =====
-- Two files for one resource: a path that ends in ".yml" names what the one with ".yaml" names.
use mathlib.Core.List.{reverse, reverse-append}
use accord.Base.{
  [], ◌∷◌, ◌++◌, some, ◌≡◌, ◌≢◌, refl, sym, ap, ◌∙◌, inl, inr, arith, Bytes, eq_iff, All-append,
  length, length-append, ◌<◌, append_assoc,
}
use accord.Strings.{trim_suffix, slash, dot, dot_dot, join, width_at_end}
use accord.Strings.Affixes.{trim_suffix-append, has_suffix-append, suffix_cases}
use accord.Strings.Parts.{Lacks}
use accord.Strings.Cleaning.{IsPlain}
use accord.Sync.Path.{
  inventory_prefix, applications, applicationsets, yaml, yml, file_stem, check_parts, three_parts,
  parse_inventory_export_path,
}
use accord.Sync.Path.RoundTrip.{inventory, IsPlural, IsPlural-IsPlain, parse_of_parts}

unfoldable pub yml_path : Bytes → Bytes → Bytes → Bytes
yml_path plural ns name = inventory_prefix ++ (plural ++ slash ∷ (ns ++ slash ∷ (name ++ yml)))

yml-IsPlain : (name : Bytes) → Lacks slash name → IsPlain (name ++ yml)
yml-IsPlain name h = (
  (
    long [] (omega arith),
    long dot (omega arith),
    All-append (λ c. c ≢ slash) name yml h (ground arith),
  ),
  long dot_dot (omega arith),
)
  where
    long : (t : Bytes) → length t < 4 → name ++ yml ≢ t
    long t k e = omega (arith, ap length e, length-append name yml)

ends_in_yml : (s : Bytes) → width_at_end (reverse (s ++ yml)) ≡ 0
unfolding width_at_end
ends_in_yml s = rw reverse-append

yml_path-end : (plural ns name : Bytes) → width_at_end (reverse (yml_path plural ns name)) ≡ 0
unfolding yml_path
yml_path-end plural ns name =
    rw
      (
        ← append_assoc ns (slash ∷ name) yml,
        ← append_assoc plural (slash ∷ (ns ++ slash ∷ name)) yml,
      )
      (ends_in_yml (inventory_prefix ++ (plural ++ slash ∷ (ns ++ slash ∷ name))))

yml_path-join :
    (plural ns name : Bytes)
    → yml_path plural ns name ≡ join (inventory ∷ plural ∷ ns ∷ (name ++ yml) ∷ []) slash
unfolding yml_path join
yml_path-join plural ns name = refl

-- The two endings differ in the third byte from the end.
yml-ne-yaml : (s r : Bytes) → s ++ yml ≢ r ++ yaml
yml-ne-yaml s r e =
    let backwards = sym (reverse-append s yml) ∙ ap reverse e ∙ reverse-append r yaml in
    ground (arith, backwards)

yml-kept : (name : Bytes) → trim_suffix (name ++ yml) yaml ≡ name ++ yml
yml-kept name = elim (suffix_cases (name ++ yml) yaml) [
  | inl (_, whole) ↦ whole
  | inr (r, e, _, _) ↦ absurd (yml-ne-yaml name r e)
]

check_parts-yml :
    (plural ns name : Bytes)
    → IsPlural plural
    → IsPlain ns
    → name ≢ []
    → name ≢ dot
    → check_parts plural ns (name ++ yml)
      ≡ some (record { plural_kind = plural; namespace = ns; name = name })
unfolding check_parts file_stem
check_parts-yml plural ns name h k named undotted =
    rw (has_suffix-append name yml, yml-kept name, trim_suffix-append name yml)
      (ground (
        arith,
        eq_iff plural applications,
        eq_iff plural applicationsets,
        eq_iff ns [],
        eq_iff ns dot,
        eq_iff name [],
        eq_iff name dot,
      ))

-- A path with the ending ".yml" is accepted and names the resource.
pub parse-yml_path :
    (plural ns name : Bytes)
    → IsPlural plural
    → IsPlain ns
    → Lacks slash name
    → name ≢ []
    → name ≢ dot
    → parse_inventory_export_path (yml_path plural ns name)
      ≡ some (record { plural_kind = plural; namespace = ns; name = name })
unfolding three_parts
parse-yml_path plural ns name h k l named undotted =
    rw
      (
        yml_path-join plural ns name,
        parse_of_parts plural (ns ∷ (name ++ yml) ∷ [])
            (IsPlural-IsPlain plural h, (k, (yml-IsPlain name l, tt)))
            (rw (← yml_path-join plural ns name) (yml_path-end plural ns name)),
      )
      (check_parts-yml plural ns name h k named undotted)
