-- ===== src/Sync/Path/Soundness.antt =====
-- What an accepted path is.
use mathlib.Core.List.{reverse}
use mathlib.Core.Path.{subst}
use accord.Base.{
  true, List, [], ◌∷◌, ◌++◌, some, ◌≡◌, ◌≢◌, refl, sym, ap, ◌∙◌, ◌⊎◌, inl, inr, arith, Bytes,
  eq_iff, append_assoc,
}
use accord.Strings.{trim_prefix, has_suffix, split, trim_space, clean, slash, dot, join}
use accord.Strings.Affixes.{prefix_cases, suffix_cases}
use accord.Strings.Parts.{Lacks, join-split}
use accord.Strings.Cleaning.{IsPlain, Settled, clean-Settled}
use accord.Sync.Path.{
  ParsedInventoryPath, inventory_prefix, applications, applicationsets, yaml, yml, file_stem,
  check_parts, three_parts, parse_inventory_export_path,
}
use accord.Sync.Path.RoundTrip.{IsPlural, inventory}

-- What the parser promises of an accepted path: the three parts name a resource, and the cleaned
-- path is these parts with one of three endings.
pub record IsManaged (path : Bytes) (r : ParsedInventoryPath) : Type 0 where
  pub plural : IsPlural r.plural_kind
  pub namespace : IsPlain r.namespace
  pub named : r.name ≢ []
  pub undotted : r.name ≢ dot
  pub slashless : Lacks slash r.name
  pub ending : Bytes
  pub known : (ending ≡ yaml) ⊎ ((ending ≡ yml) ⊎ (ending ≡ yml ++ yaml))
  pub located :
      trim_prefix (clean (trim_space path)) (slash ∷ [])
      ≡ inventory_prefix ++ (r.plural_kind ++ slash ∷ (r.namespace ++ slash ∷ (r.name ++ ending)))

three_parts_sound :
    (parts : List Bytes) {r : ParsedInventoryPath}
    → three_parts parts ≡ some r
    → (plural : Bytes) × (ns : Bytes) × (file : Bytes) × (parts ≡ plural ∷ ns ∷ file ∷ [])
      × (check_parts plural ns file ≡ some r)
unfolding three_parts
three_parts_sound [] h = cc
three_parts_sound (a ∷ []) h = cc
three_parts_sound (a ∷ b ∷ []) h = cc
three_parts_sound (a ∷ b ∷ c ∷ []) h = (a, b, c, refl, h)
three_parts_sound (a ∷ b ∷ c ∷ d ∷ parts) h = cc

check_parts_sound :
    (plural ns file : Bytes) {r : ParsedInventoryPath}
    → check_parts plural ns file ≡ some r
    → IsPlural plural
      × (r ≡ record { plural_kind = plural; namespace = ns; name = file_stem file })
      × (file_stem file ≢ [])
      × (file_stem file ≢ dot)
      × ((has_suffix file yaml ≡ true) ⊎ (has_suffix file yml ≡ true))
unfolding check_parts
check_parts_sound plural ns file h = ground (
  arith,
  eq_iff plural applications,
  eq_iff plural applicationsets,
  eq_iff (file_stem file) [],
  eq_iff (file_stem file) dot,
)

abbrev IsEnding : Bytes → Type 0
IsEnding ending = (ending ≡ yaml) ⊎ ((ending ≡ yml) ⊎ (ending ≡ yml ++ yaml))

-- A file is its stem and one of the endings.
file_stem_sound :
    (file : Bytes)
    → (has_suffix file yaml ≡ true) ⊎ (has_suffix file yml ≡ true)
    → (ending : Bytes) × IsEnding ending × (file ≡ file_stem file ++ ending)
unfolding file_stem
file_stem_sound file h = elim (suffix_cases file yaml) [
  | inr (r, e, _, cut) ↦ elim (suffix_cases r yml) [
    | inr (q, e', _, cut') ↦
        (yml ++ yaml, inr (inr refl), rw (cut, cut', ← append_assoc q yml yaml, ← e') e)
    | inl (_, whole) ↦ (yaml, inl refl, rw (cut, whole) e)
  ]
  | inl (missing, whole) ↦ elim (suffix_cases file yml) [
    | inr (q, e, _, cut) ↦ (yml, inr (inl refl), rw (whole, cut) e)
    | inl (missing', _) ↦ ground arith
  ]
]

Lacks-left : (s t : Bytes) → Lacks slash (s ++ t) → Lacks slash s
Lacks-left [] t h = tt
Lacks-left (c ∷ s) t (k, h) = (k, Lacks-left s t h)

-- A namespace between the inventory directory and a file is no "..".
namespace-IsPlain :
    (plural ns file : Bytes) → Settled (file ∷ ns ∷ plural ∷ inventory ∷ []) → IsPlain ns
namespace-IsPlain plural ns file h = (h.2.0, λ up. ground (arith, (h.2.1 up).1.0))

module _ (path rest plural ns file : Bytes)
    (e : trim_prefix (clean (trim_space path)) (slash ∷ []) ≡ inventory_prefix ++ rest)
    (parts : split rest slash ≡ plural ∷ ns ∷ file ∷ []) where
  settled : Settled (file ∷ ns ∷ plural ∷ inventory ∷ [])
  settled =
      subst (λ l. Settled (reverse (inventory ∷ l))) parts
        (clean-Settled inventory rest (ground arith) (trim_space path) e)

  rest_of_parts : rest ≡ plural ++ slash ∷ (ns ++ slash ∷ file)
  unfolding join
  rest_of_parts = sym (join-split rest slash) ∙ ap (λ l. join l slash) parts

  parts_sound : {r : ParsedInventoryPath} → check_parts plural ns file ≡ some r → IsManaged path r
  parts_sound {r} h =
      let (is_plural, shape, named, undotted, ends) = check_parts_sound plural ns file h in
      let (ending, known, whole) = file_stem_sound file ends in
      subst (IsManaged path) (sym shape) (record {
        plural = is_plural;
        namespace = namespace-IsPlain plural ns file settled;
        named = named;
        undotted = undotted;
        slashless = Lacks-left (file_stem file) ending (subst (Lacks slash) whole settled.0.2);
        ending = ending;
        known = known;
        located =
            e
            ∙ ap (λ t. inventory_prefix ++ t) rest_of_parts
            ∙ ap (λ t. inventory_prefix ++ (plural ++ slash ∷ (ns ++ slash ∷ t))) whole;
      })

-- Every accepted path names a resource of one of the two kinds, in a namespace that is a plain path
-- element (so not "." or ".."), under a name that is not empty or "." and holds no slash; and the
-- cleaned path is inventory/<plural>/<namespace>/<name> with the ending ".yaml", ".yml" or
-- ".yml.yaml".
pub parse_sound :
    (path : Bytes) {r : ParsedInventoryPath}
    → parse_inventory_export_path path ≡ some r
    → IsManaged path r
unfolding parse_inventory_export_path
parse_sound path h =
    elim (prefix_cases (trim_prefix (clean (trim_space path)) (slash ∷ [])) inventory_prefix) [
      | inl (missing, _) ↦ cc
      | inr (rest, e, found, cut) ↦
          let (plural, ns, file, parts, accepted) =
            three_parts_sound (split rest slash) (rw (found, cut) at h) in
          parts_sound path rest plural ns file e parts accepted
    ]
