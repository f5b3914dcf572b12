-- ===== src/Git/ArchivePath/Laws.antt =====
-- Archive paths, against the paths that resources are exported to and that the webhook manages.
use mathlib.Core.List.{reverse, reverse-append, reverse-reverse}
use accord.Base.{
  [], ◌∷◌, ◌++◌, none, Bytes, codes, ◌==◌, ok, ◌≡◌, ◌≢◌, ◌↔◌, refl, sym, ap, ◌∙◌, arith, inl, inr,
  false, append_assoc, ok-injective,
}
use accord.Strings.{trim_prefix, split, slash, join, width_at_end}
use accord.Strings.Affixes.{prefix_cases, has_prefix-append, trim_prefix-append, trim_suffix-append}
use accord.Strings.Parts.{Lacks, split-join}
use accord.Strings.Cleaning.{IsPlain}
use accord.Sync.Path.{yaml, parse_inventory_export_path, three_parts}
use accord.Sync.Path.RoundTrip.{
  live_path, IsPlural, inventory, IsPlural-IsPlain, file-IsPlain, parse_of_parts, ends_in_yaml,
  inventory-IsPlain, Lacks-of_plain, live_path-join,
}
use accord.Git.ArchivePath.{
  inventory_prefix, or_slash, archive_relative_path, drop_slashes, base,
  resource_name_from_inventory_path,
}

abbrev pub archive : Bytes
archive = codes "archive"

pub archive-IsPlain : IsPlain archive
archive-IsPlain = ground arith

archive_sound :
    (path dest : Bytes)
    → archive_relative_path path ≡ ok dest
    → (rest : Bytes) × (path ≡ inventory_prefix ++ rest)
      × (dest ≡ inventory_prefix ++ (codes "archive/" ++ rest))
unfolding archive_relative_path
archive_sound path dest h = elim (prefix_cases path inventory_prefix) [
  | inl (missing, _) ↦ absurd (cc (rw missing at h))
  | inr (rest, e, found, cut) ↦ (rest, e, sym (ok-injective (rw (found, cut) at h)))
]

archive_complete :
    (rest : Bytes)
    → archive_relative_path (inventory_prefix ++ rest)
      ≡ ok (inventory_prefix ++ (codes "archive/" ++ rest))
unfolding archive_relative_path
archive_complete rest =
    rw (has_prefix-append inventory_prefix rest, trim_prefix-append inventory_prefix rest)

-- The archive has a path exactly for the files below inventory/: the same path below
-- inventory/archive/.
pub archive_relative_path_iff :
    (path dest : Bytes)
    → (archive_relative_path path ≡ ok dest) ↔ (
        (rest : Bytes) × (path ≡ inventory_prefix ++ rest)
        × (dest ≡ inventory_prefix ++ (codes "archive/" ++ rest)))
archive_relative_path_iff path dest = (
  archive_sound path dest,
  λ (rest, e, d). ap archive_relative_path e ∙ archive_complete rest ∙ ap ok (sym d),
)

-- Two files are never archived to one path.
pub archive_relative_path_injective :
    (a b dest : Bytes)
    → archive_relative_path a ≡ ok dest
    → archive_relative_path b ≡ ok dest
    → a ≡ b
archive_relative_path_injective a b dest h k =
    let (rest, e, d) = archive_sound a dest h in
    let (rest', e', d') = archive_sound b dest k in
    let shared = ap (λ t. trim_prefix t (inventory_prefix ++ codes "archive/")) (sym d ∙ d') in
    e
    ∙ ap (λ t. inventory_prefix ++ t)
        (sym (trim_prefix-append (inventory_prefix ++ codes "archive/") rest)
          ∙ shared
          ∙ trim_prefix-append (inventory_prefix ++ codes "archive/") rest')
    ∙ sym e'

unfoldable pub archive_path : Bytes → Bytes → Bytes → Bytes
archive_path plural ns name = join (inventory ∷ archive ∷ plural ∷ ns ∷ (name ++ yaml) ∷ []) slash

pub archive-live_path :
    (plural ns name : Bytes)
    → archive_relative_path (live_path plural ns name) ≡ ok (archive_path plural ns name)
unfolding live_path archive_path join
archive-live_path plural ns name =
    archive_complete (plural ++ slash ∷ (ns ++ slash ∷ (name ++ yaml)))

archive_path-end :
    (plural ns name : Bytes) → width_at_end (reverse (archive_path plural ns name)) ≡ 0
unfolding archive_path join
archive_path-end plural ns name =
    rw
      (
        ← append_assoc ns (slash ∷ name) yaml,
        ← append_assoc plural (slash ∷ (ns ++ slash ∷ name)) yaml,
      )
      (ends_in_yaml
        (inventory_prefix ++ (codes "archive/" ++ (plural ++ slash ∷ (ns ++ slash ∷ name)))))

parse-archive_path :
    (plural ns name : Bytes)
    → IsPlural plural
    → IsPlain ns
    → Lacks slash name
    → parse_inventory_export_path (archive_path plural ns name) ≡ none
unfolding three_parts archive_path
parse-archive_path plural ns name p n l =
    parse_of_parts archive (plural ∷ ns ∷ (name ++ yaml) ∷ [])
      (archive-IsPlain, (IsPlural-IsPlain plural p, (n, (file-IsPlain name l, tt))))
      (archive_path-end plural ns name)

-- The archive path of an exported resource is not managed by the webhook: neither adding the archived
-- file nor removing it touches the cluster. The namespace is a plain path element and the name holds
-- no slash.
pub parse-archive :
    (plural ns name dest : Bytes)
    → IsPlural plural
    → IsPlain ns
    → Lacks slash name
    → archive_relative_path (live_path plural ns name) ≡ ok dest
    → parse_inventory_export_path dest ≡ none
parse-archive plural ns name dest p n l h =
    rw (ok-injective (sym h ∙ archive-live_path plural ns name))
      (parse-archive_path plural ns name p n l)

or_slash_of_ne : (s : Bytes) → s ≢ [] → or_slash s ≡ s
or_slash_of_ne [] h = absurd (h refl)
or_slash_of_ne (c ∷ s) h = refl

no_trailing_slash : (s : Bytes) → drop_slashes (reverse (s ++ yaml)) ≡ reverse (s ++ yaml)
unfolding drop_slashes
no_trailing_slash s = rw reverse-append

live_path-trailing :
    (plural ns name : Bytes)
    → drop_slashes (reverse (live_path plural ns name)) ≡ reverse (live_path plural ns name)
unfolding live_path
live_path-trailing plural ns name =
    rw
      (
        ← append_assoc ns (slash ∷ name) yaml,
        ← append_assoc plural (slash ∷ (ns ++ slash ∷ name)) yaml,
      )
      (no_trailing_slash (inventory_prefix ++ (plural ++ slash ∷ (ns ++ slash ∷ name))))

live_path-ne-nil : (plural ns name : Bytes) → (live_path plural ns name == []) ≡ false
unfolding live_path ◌==◌
live_path-ne-nil plural ns name = refl

split-live_path :
    (plural ns name : Bytes)
    → IsPlural plural
    → IsPlain ns
    → Lacks slash name
    → split (live_path plural ns name) slash ≡ inventory ∷ plural ∷ ns ∷ (name ++ yaml) ∷ []
split-live_path plural ns name p n l = rw (live_path-join plural ns name) (
    split-join slash inventory (plural ∷ ns ∷ (name ++ yaml) ∷ []) (
      Lacks-of_plain (inventory ∷ plural ∷ ns ∷ (name ++ yaml) ∷ [])
        (inventory-IsPlain, (IsPlural-IsPlain plural p, (n, (file-IsPlain name l, tt))))))

base-live_path :
    (plural ns name : Bytes)
    → IsPlural plural
    → IsPlain ns
    → Lacks slash name
    → base (live_path plural ns name) ≡ name ++ yaml
unfolding base
base-live_path plural ns name p n l =
    rw
      (
        live_path-ne-nil plural ns name,
        live_path-trailing plural ns name,
        reverse-reverse (live_path plural ns name),
        split-live_path plural ns name p n l,
      )
      (or_slash_of_ne (name ++ yaml) (file-IsPlain name l).0.0)

-- The commit message for a single archived resource names that resource: the name is read back from
-- the path that it was exported to.
pub resource_name-live_path :
    (plural ns name : Bytes)
    → IsPlural plural
    → IsPlain ns
    → Lacks slash name
    → resource_name_from_inventory_path (live_path plural ns name) ≡ name
unfolding resource_name_from_inventory_path
resource_name-live_path plural ns name p n l =
    rw (base-live_path plural ns name p n l) (trim_suffix-append name yaml)
