-- ===== src/Git/Export/Places.antt =====
-- Where in the clone the files of exported resources are: no two resources share a file, and no live file
-- is one of the archive.
use mathlib.Core.List.{append_cancel_left}
use accord.Base.{List, [], ◌∷◌, ◌++◌, ◌≡◌, ◌≢◌, sym, ap, ◌∙◌, Bytes, All, All-append, ok}
use accord.Strings.{join, slash, clean}
use accord.Strings.Parts.{Lacks}
use accord.Strings.Cleaning.{IsPlain}
use accord.Strings.Rooted.{directory, join-append, clean-rooted, join_injective}
use accord.Sync.Path.{yaml}
use accord.Sync.Path.RoundTrip.{
  inventory, IsPlural, live_path, live_path-join, IsPlural-IsPlain, file-IsPlain, inventory-IsPlain,
}
use accord.Git.ArchivePath.{archive_relative_path}
use accord.Git.ArchivePath.Laws.{archive, archive-IsPlain, archive_path, archive-live_path}
use accord.Git.Export.{join_path}

-- The path that a resource of Argo CD is exported to.
pub record IsLive (path : Bytes) : Type 0 where
  pub plural : Bytes
  pub namespace : Bytes
  pub name : Bytes
  pub plural_known : IsPlural plural
  pub namespace_plain : IsPlain namespace
  pub name_plain : Lacks slash name
  pub written : path ≡ live_path plural namespace name

abbrev pub live_parts : {path : Bytes} → IsLive path → List Bytes
live_parts l = inventory ∷ l.plural ∷ l.namespace ∷ (l.name ++ yaml) ∷ []

abbrev pub archived_parts : {path : Bytes} → IsLive path → List Bytes
archived_parts l = inventory ∷ archive ∷ l.plural ∷ l.namespace ∷ (l.name ++ yaml) ∷ []

live_parts-IsPlain : {path : Bytes} (l : IsLive path) → All IsPlain (live_parts l)
live_parts-IsPlain l = (
  inventory-IsPlain,
  (
    IsPlural-IsPlain l.plural l.plural_known,
    (l.namespace_plain, (file-IsPlain l.name l.name_plain, tt)),
  ),
)

archived_parts-IsPlain : {path : Bytes} (l : IsLive path) → All IsPlain (archived_parts l)
archived_parts-IsPlain l =
    let (first, rest) = live_parts-IsPlain l in (first, (archive-IsPlain, rest))

pub path-join : {path : Bytes} (l : IsLive path) → path ≡ join (live_parts l) slash
path-join l = l.written ∙ live_path-join l.plural l.namespace l.name

pub archive_of_live :
    {path : Bytes} (l : IsLive path)
    → archive_relative_path path ≡ ok (join (archived_parts l) slash)
unfolding archive_path
archive_of_live l =
    ap archive_relative_path l.written ∙ archive-live_path l.plural l.namespace l.name

-- The elements of a directory, which is not the root.
module _ (d : Bytes) (ds : List Bytes) (plain : All IsPlain (d ∷ ds)) where
  in_directory :
      (p : Bytes) (ps : List Bytes)
      → All IsPlain (p ∷ ps)
      → join_path (directory (d ∷ ds)) (join (p ∷ ps) slash) ≡ directory ((d ∷ ds) ++ (p ∷ ps))
  unfolding join_path
  in_directory p ps h =
      ap (λ t. clean (slash ∷ t)) (join-append d p ds ps)
      ∙ clean-rooted d (ds ++ (p ∷ ps)) (All-append IsPlain (d ∷ ds) (p ∷ ps) plain h)

  apart_in_directory :
      (p q : Bytes) (ps qs : List Bytes)
      → All IsPlain (p ∷ ps)
      → All IsPlain (q ∷ qs)
      → join_path (directory (d ∷ ds)) (join (p ∷ ps) slash)
        ≡ join_path (directory (d ∷ ds)) (join (q ∷ qs) slash)
      → p ∷ ps ≡ q ∷ qs
  apart_in_directory p q ps qs h k e =
      let same : directory ((d ∷ ds) ++ (p ∷ ps)) ≡ directory ((d ∷ ds) ++ (q ∷ qs)) =
        sym (in_directory p ps h) ∙ e ∙ in_directory q qs k in
      append_cancel_left (d ∷ ds) (p ∷ ps) (q ∷ qs) (
        join_injective ((d ∷ ds) ++ (p ∷ ps)) ((d ∷ ds) ++ (q ∷ qs)) (cc) (cc)
          (All-append IsPlain (d ∷ ds) (p ∷ ps) plain h)
          (All-append IsPlain (d ∷ ds) (q ∷ qs) plain k) (cc same))

  -- The file of a resource, and the file that it is archived to.
  abbrev pub live_file : Bytes → Bytes
  live_file path = join_path (directory (d ∷ ds)) path

  abbrev pub archived_file : {path : Bytes} → IsLive path → Bytes
  archived_file l = join_path (directory (d ∷ ds)) (join (archived_parts l) slash)

  live_file-join :
      {path : Bytes} (l : IsLive path)
      → live_file path ≡ join_path (directory (d ∷ ds)) (join (live_parts l) slash)
  live_file-join l = ap live_file (path-join l)

  pub live_file_injective : {p q : Bytes} → IsLive p → IsLive q → live_file p ≡ live_file q → p ≡ q
  live_file_injective l k e =
      let same : live_parts l ≡ live_parts k =
        apart_in_directory _ _ _ _ (live_parts-IsPlain l) (live_parts-IsPlain k)
          (sym (live_file-join l) ∙ e ∙ live_file-join k) in
      path-join l ∙ ap (λ parts. join parts slash) same ∙ sym (path-join k)

  pub live_file-ne-archived_file :
      {p q : Bytes} → IsLive p → (k : IsLive q) → live_file p ≢ archived_file k
  live_file-ne-archived_file l k e =
      let same : live_parts l ≡ archived_parts k =
        apart_in_directory _ _ _ _ (live_parts-IsPlain l) (archived_parts-IsPlain k)
          (sym (live_file-join l) ∙ e) in
      cc same

  pub archived_file_injective :
      {p q : Bytes} (l : IsLive p) (k : IsLive q) → archived_file l ≡ archived_file k → p ≡ q
  archived_file_injective l k e =
      let same : archived_parts l ≡ archived_parts k =
        apart_in_directory _ _ _ _ (archived_parts-IsPlain l) (archived_parts-IsPlain k) e in
      let parts : live_parts l ≡ live_parts k = cc same in
      path-join l ∙ ap (λ ps. join ps slash) parts ∙ sym (path-join k)
