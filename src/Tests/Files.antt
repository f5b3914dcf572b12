-- ===== src/Tests/Files.antt =====
-- A host whose state is its files.
use accord.Base.{
  ◌⊎◌, inl, inr, Bool, true, false, none, some, ok, [], ◌∷◌, Option, Bytes, codes, contains, All,
  ◌==◌, ◌≡◌, refl, arith, if◌then◌else◌, ◌∙◌,
}
use accord.Strings.{strings}
use accord.Collections.Sorting.{Distinct}
use accord.Dict.{Dict, lookup, insert, erase, dicts}
use accord.Dict.Laws.{lookup-insert, lookup-erase, is_present}
use accord.Git.ArchivePath.{archive_relative_path}
use accord.Git.Export.{
  StatAnswer, Host, file, missing, join_path, export_batch, in_clone, publish, commit_and_push,
  clone_options, export_ops, export_op, archive_inventory_file_in_clone, move_file,
}
use accord.Git.Export.Content.{IsFileSystem}
use accord.Git.Export.Files.{touched_by, Holds}
use accord.Git.Export.Committed.{export_batch-Holds}
use accord.Git.Export.Ready.{CanExport}
use accord.Git.Queue.{PendingExport}
use accord.Tests.Commits.{batch, config, guestbook}

abbrev stat_of : Option Bytes → StatAnswer
stat_of none = missing
stat_of (some c) = file

abbrev renamed : Option Bytes → Bytes → Bytes → Dict Bytes → Dict Bytes × Bool
renamed none src dest s = (s, false)
renamed (some c) src dest s = (insert dest c (erase src s), true)

abbrev pub dir : Bytes
dir = codes "/tmp/clone"

abbrev repository : Dict Bytes
repository =
    (join_path dir guestbook, codes "old")
    ∷ (codes "/tmp/clone/inventory/archive/applications/argocd/guestbook.yaml", codes "v0")
    ∷ (codes "/tmp/clone/README.md", codes "hello")
    ∷ []

abbrev pub disk : Host
disk = record {
  State = Dict Bytes;
  mkdir_temp = λ s. (s, some (codes "/tmp/clone"));
  clone = λ s o d. (repository, true);
  mkdir_all = λ s p. (s, true);
  write_file = λ s p c. (insert p c s, true);
  stat = λ s p. stat_of (lookup p s);
  remove = λ s p. erase p s;
  rename = λ s src dest. renamed (lookup src s) src dest s;
  opened = λ s d. true;
  has_worktree = λ s d. true;
  add_all = λ s d. (s, true);
  is_clean = λ s d. some false;
  commit = λ s d m. (s, true);
  push = λ s d auth. (s, true);
  remove_all = λ s d. s;
}

pub renamed-content :
    (s : Dict Bytes) (src dest q : Bytes) (o : Option Bytes)
    → lookup src s ≡ o
    → (renamed o src dest s).1 ≡ true
    → lookup q (renamed o src dest s).0
      ≡ (if dest == q then lookup src s else if src == q then none else lookup q s)
renamed-content s src dest q none e h = cc
renamed-content s src dest q (some c) e h =
    ground (arith, e, lookup-insert q dest c (erase src s), lookup-erase q src s)

pub found_file : (o : Option Bytes) → stat_of o ≡ file → is_present o ≡ true
found_file none h = cc
found_file (some c) h = refl

pub missing_file : (o : Option Bytes) → stat_of o ≡ missing → o ≡ none
missing_file none h = refl
missing_file (some c) h = cc

pub erased-other :
    (s : Dict Bytes) (p q : Bytes) → (p == q) ≡ false → lookup q (erase p s) ≡ lookup q s
erased-other s p q other = lookup-erase q p s ∙ rw other refl

abbrev pub disk-IsFileSystem : IsFileSystem disk
disk-IsFileSystem = record {
  content = λ s p. lookup p s;
  write_file = λ s p c q h. lookup-insert q p c s;
  mkdir_all = λ s p q h. refl;
  remove = λ s p q other. erased-other s p q other;
  rename = λ s src dest q apart h. renamed-content s src dest q (lookup src s) refl h;
  stat_file = λ s p h. found_file (lookup p s) h;
  stat_missing = λ s p h. missing_file (lookup p s) h;
}

batch_files-Distinct : Distinct (touched_by dir batch)
unfolding archive_relative_path join_path dicts strings
batch_files-Distinct = (refl, (refl, (refl, tt)))

batch_exported : (export_batch disk config batch []).1 ≡ ok tt
unfolding export_batch in_clone publish commit_and_push export_ops export_op
    archive_inventory_file_in_clone move_file archive_relative_path join_path dicts strings
batch_exported = refl

export_batch-Holds_example :
    (cloned filled : Dict Bytes) × (disk.clone [] (clone_options config) dir ≡ (cloned, true))
    × All (Holds dir (λ p. lookup p cloned) (λ p. lookup p filled)) batch
    × ((q : Bytes) → contains (touched_by dir batch) q ≡ false → lookup q filled ≡ lookup q cloned)
    × ((publish disk config batch dir filled).1 ≡ ok tt)
    × ((export_batch disk config batch []).0
        ≡ disk.remove_all (publish disk config batch dir filled).0 dir)
export_batch-Holds_example =
    export_batch-Holds disk disk-IsFileSystem dir config batch [] refl batch_files-Distinct
      batch_exported

pub found_or_missing : (o : Option Bytes) → (stat_of o ≡ file) ⊎ (stat_of o ≡ missing)
found_or_missing none = inr refl
found_or_missing (some c) = inl refl

pub renamed-ok :
    (o : Option Bytes) (src dest : Bytes) (s : Dict Bytes)
    → is_present o ≡ true
    → (renamed o src dest s).1 ≡ true
renamed-ok none src dest s m = cc
renamed-ok (some c) src dest s m = refl

abbrev pub disk-CanExport :
    (exported : Dict PendingExport) (s : Dict Bytes)
    → CanExport disk disk-IsFileSystem config exported s
disk-CanExport exported s = record {
  dir = dir;
  made = refl;
  IsReady = λ t. Unit;
  HasDir = λ t d. Unit;
  cloned = refl;
  ready = tt;
  stat = λ t q r m. found_or_missing (lookup q t);
  mkdir_all = λ t q r m. (refl, tt, tt);
  write_file = λ t q c r m has. (refl, tt);
  remove = λ t q d r m has. (tt, tt);
  rename = λ t src dest r m n there has. (renamed-ok (lookup src t) src dest t there, tt);
  opened = λ t r. refl;
  has_worktree = λ t r. refl;
  add_all = λ t r. (refl, tt);
  status_known = λ t r. (false, refl);
  commit = λ t r. (refl, tt);
  push = λ t r. refl;
}
