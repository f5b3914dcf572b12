-- ===== src/Sync/Path/RoundTrip.antt =====
-- Exported paths are read back, archived paths are not managed, and a name that ends in ".yml" is
-- read back as another name.
use mathlib.Core.List.{reverse, reverse-append}
use accord.Base.{
  sym, true, ◌⊎◌, ◌∙◌, Bool-cases, false, List, [], ◌∷◌, ◌++◌, some, ◌≡◌, ◌≢◌, refl, ap, ◌⊎◌, inl,
  inr, arith, Bytes, codes, eq_iff, All, All-append, length, length-append, ◌<◌, append_assoc,
}
use accord.Strings.{
  trim_prefix, has_suffix, trim_suffix, slash, dot, dot_dot, join, width_at_start, width_at_end,
}
use accord.Strings.Affixes.{
  trim_prefix-append, has_prefix-append, trim_suffix-append, has_suffix-append, suffix_cases,
}
use accord.Strings.Parts.{Lacks, split-join}
use accord.Strings.Cleaning.{IsPlain, clean_of_IsPlain}
use accord.Strings.Trimming.{trim_space_none}
use accord.Sync.Path.{
  inventory_prefix, applications, applicationsets, yaml, yml, file_stem, check_parts, three_parts,
  parse_inventory_export_path,
}

-- The directory inventory/ as an element of a path.
abbrev pub inventory : Bytes
inventory = codes "inventory"

pub inventory-IsPlain : IsPlain inventory
inventory-IsPlain = ground arith

pub Lacks-of_plain : (parts : List Bytes) → All IsPlain parts → All (Lacks slash) parts
Lacks-of_plain [] h = tt
Lacks-of_plain (part ∷ parts) (k, h) = (k.0.2, Lacks-of_plain parts h)

module _ (p : Bytes) (ps : List Bytes) where
  below-start : width_at_start (join (inventory ∷ p ∷ ps) slash) ≡ 0
  unfolding join width_at_start
  below-start = refl

  below-relative :
      trim_prefix (join (inventory ∷ p ∷ ps) slash) (slash ∷ [])
      ≡ inventory_prefix ++ join (p ∷ ps) slash
  unfolding join trim_prefix
  below-relative = refl

-- Below inventory/, a path of plain parts that does not end in white space is judged by its parts.
pub parse_of_parts :
    (p : Bytes) (ps : List Bytes)
    → All IsPlain (p ∷ ps)
    → width_at_end (reverse (join (inventory ∷ p ∷ ps) slash)) ≡ 0
    → parse_inventory_export_path (join (inventory ∷ p ∷ ps) slash) ≡ three_parts (p ∷ ps)
unfolding parse_inventory_export_path
parse_of_parts p ps h w =
    rw
      (
        trim_space_none (join (inventory ∷ p ∷ ps) slash) (below-start p ps) w,
        clean_of_IsPlain inventory (p ∷ ps) (inventory-IsPlain, h),
        below-relative p ps,
        has_prefix-append inventory_prefix (join (p ∷ ps) slash),
        trim_prefix-append inventory_prefix (join (p ∷ ps) slash),
      )
      (ap three_parts (split-join slash p ps (Lacks-of_plain (p ∷ ps) h)))

-- Where a resource is exported to, by the default template of the inventory-controller.
unfoldable pub live_path : Bytes → Bytes → Bytes → Bytes
live_path plural ns name = inventory_prefix ++ (plural ++ slash ∷ (ns ++ slash ∷ (name ++ yaml)))

abbrev pub IsPlural : Bytes → Type 0
IsPlural plural = (plural ≡ applications) ⊎ (plural ≡ applicationsets)

pub IsPlural-IsPlain : (plural : Bytes) → IsPlural plural → IsPlain plural
IsPlural-IsPlain plural (inl e) = rw e (ground arith)
IsPlural-IsPlain plural (inr e) = rw e (ground arith)

Lacks-append : (s t : Bytes) → Lacks slash s → Lacks slash t → Lacks slash (s ++ t)
Lacks-append = All-append (λ c. c ≢ slash)

pub file-IsPlain : (name : Bytes) → Lacks slash name → IsPlain (name ++ yaml)
file-IsPlain name h = (
  (long [] (omega arith), long dot (omega arith), Lacks-append name yaml h (ground arith)),
  long dot_dot (omega arith),
)
  where
    long : (t : Bytes) → length t < 5 → name ++ yaml ≢ t
    long t k e = omega (arith, ap length e, length-append name yaml)

pub ends_in_yaml : (s : Bytes) → width_at_end (reverse (s ++ yaml)) ≡ 0
unfolding width_at_end
ends_in_yaml s = rw reverse-append

pub live_path-join :
    (plural ns name : Bytes)
    → live_path plural ns name ≡ join (inventory ∷ plural ∷ ns ∷ (name ++ yaml) ∷ []) slash
unfolding live_path join
live_path-join plural ns name = refl

pub live_path-end : (plural ns name : Bytes) → width_at_end (reverse (live_path plural ns name)) ≡ 0
unfolding live_path
live_path-end plural ns name =
    rw
      (
        ← append_assoc ns (slash ∷ name) yaml,
        ← append_assoc plural (slash ∷ (ns ++ slash ∷ name)) yaml,
      )
      (ends_in_yaml (inventory_prefix ++ (plural ++ slash ∷ (ns ++ slash ∷ name))))

check_parts_stem :
    (plural ns name stem : Bytes)
    → IsPlural plural
    → IsPlain ns
    → trim_suffix name yml ≡ stem
    → stem ≢ []
    → stem ≢ dot
    → check_parts plural ns (name ++ yaml)
      ≡ some (record { plural_kind = plural; namespace = ns; name = stem })
unfolding check_parts file_stem
check_parts_stem plural ns name stem h k e named undotted =
    rw (has_suffix-append name yaml, trim_suffix-append name yaml, e)
      (ground (
        arith,
        eq_iff plural applications,
        eq_iff plural applicationsets,
        eq_iff ns [],
        eq_iff ns dot,
        eq_iff stem [],
        eq_iff stem dot,
      ))

-- The exported path of any resource is read back with the name less an ending ".yml".
parse-live_path_stem :
    (plural ns name stem : Bytes)
    → IsPlural plural
    → IsPlain ns
    → Lacks slash name
    → trim_suffix name yml ≡ stem
    → stem ≢ []
    → stem ≢ dot
    → parse_inventory_export_path (live_path plural ns name)
      ≡ some (record { plural_kind = plural; namespace = ns; name = stem })
unfolding three_parts
parse-live_path_stem plural ns name stem h k l e named undotted =
    rw
      (
        live_path-join plural ns name,
        parse_of_parts plural (ns ∷ (name ++ yaml) ∷ [])
            (IsPlural-IsPlain plural h, (k, (file-IsPlain name l, tt)))
            (rw (← live_path-join plural ns name) (live_path-end plural ns name)),
      )
      (check_parts_stem plural ns name stem h k e named undotted)

-- The path that a resource is exported to by default is accepted and names that resource: its plural
-- kind, its namespace and its name. It holds where the namespace is a plain path element and the
-- name is not empty, is not ".", holds no slash and does not end in ".yml".
pub parse-live_path :
    (plural ns name : Bytes)
    → IsPlural plural
    → IsPlain ns
    → Lacks slash name
    → name ≢ []
    → name ≢ dot
    → has_suffix name yml ≡ false
    → parse_inventory_export_path (live_path plural ns name)
      ≡ some (record { plural_kind = plural; namespace = ns; name = name })
parse-live_path plural ns name h k l named undotted other = elim (suffix_cases name yml) [
  | inl (_, whole) ↦ parse-live_path_stem plural ns name name h k l whole named undotted
  | inr (r, _, ends, _) ↦ cc
]

-- A resource whose name ends in ".yml" is read back under the name without that ending, so its exported
-- path names another resource. Where the shorter name does not end in ".yml" itself, the path of the
-- resource of that name is read back as the same one. The namespace is a plain path element, and the
-- shorter name holds no slash and is neither empty nor ".".
pub parse-live_path-yml :
    (plural ns stem : Bytes)
    → IsPlural plural
    → IsPlain ns
    → Lacks slash stem
    → stem ≢ []
    → stem ≢ dot
    → (stem ++ yml ≢ stem)
      × (parse_inventory_export_path (live_path plural ns (stem ++ yml))
          ≡ some (record { plural_kind = plural; namespace = ns; name = stem }))
      × ((has_suffix stem yml ≡ true)
          ⊎ (parse_inventory_export_path (live_path plural ns stem)
              ≡ parse_inventory_export_path (live_path plural ns (stem ++ yml))))
parse-live_path-yml plural ns stem h k l named undotted =
    let longer =
      parse-live_path_stem plural ns (stem ++ yml) stem h k (Lacks-append stem yml l (ground arith))
        (trim_suffix-append stem yml) named undotted in
    (
      (λ e. omega (arith, ap length e, length-append stem yml)),
      longer,
      elim (Bool-cases (has_suffix stem yml)) [
        | inl ending ↦ inl ending
        | inr other ↦ inr (parse-live_path plural ns stem h k l named undotted other ∙ sym longer)
      ],
    )
