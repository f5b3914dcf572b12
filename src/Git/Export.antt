-- ===== src/Git/Export.antt =====
-- internal/git/worker.go: the export of a batch into a fresh clone of the repository. The operating
-- system and go-git are a parameter: each operation takes the state of both and says whether it
-- succeeded.
pub mod Remote
pub mod Ready
pub mod Success
pub mod Pushed
pub mod Content
pub mod Files
pub mod Committed
pub mod Places
pub mod Resources
use mathlib.Core.List.{reverse}
use accord.Base.{
  Bool, true, false, List, [], ◌∷◌, ◌++◌, Option, none, some, Bytes, codes, ◌==◌, eqb,
  if◌then◌else◌, Outcome, ok, err,
}
use accord.Strings.{clean, slash, trim_space}
use accord.Dict.{Dict}
use accord.Config.{InventoryControllerConfig, or_default, default_git_branch}
use accord.Git.ArchivePath.{ArchiveError, archive_relative_path}
use accord.Git.Queue.{PendingExport, write, archive, FlushEnd, dropped, published, failed}
use accord.Git.Message.{full_message}

pub record BasicAuth : Type 0 where
  pub username : Bytes
  pub password : Bytes

-- A clone has depth 1 and a single branch.
pub record CloneOptions : Type 0 where
  pub url : Bytes
  pub branch : Bytes
  pub auth : Option BasicAuth

pub data StatAnswer : Type 0 where
  file directory missing stat_failed : StatAnswer

-- `opened` is `git.PlainOpen`, `has_worktree` is `repo.Worktree`; `is_clean` is `none` where the status
-- fails. `remove` and `remove_all` are called for their effect only.
pub record Host : Type 1 where
  pub State : Type 0
  pub mkdir_temp : State → State × Option Bytes
  pub clone : State → CloneOptions → Bytes → State × Bool
  pub mkdir_all : State → Bytes → State × Bool
  pub write_file : State → Bytes → Bytes → State × Bool
  pub stat : State → Bytes → StatAnswer
  pub remove : State → Bytes → State
  pub rename : State → Bytes → Bytes → State × Bool
  pub opened : State → Bytes → Bool
  pub has_worktree : State → Bytes → Bool
  pub add_all : State → Bytes → State × Bool
  pub is_clean : State → Bytes → Option Bool
  pub commit : State → Bytes → Bytes → State × Bool
  pub push : State → Bytes → Option BasicAuth → State × Bool
  pub remove_all : State → Bytes → State

pub data ExportError : Type 0 where
  create_temp_failed clone_failed open_failed worktree_failed add_failed : ExportError
  status_failed commit_failed push_failed : ExportError
  mkdir_failed write_failed stat_of_file_failed not_a_file rename_failed : Bytes → ExportError
  archive_refused : ArchiveError → ExportError

unfoldable pub basic_auth : InventoryControllerConfig → Option BasicAuth
basic_auth cfg =
    if cfg.git_access_token == []
    then none
    else some (record {
      username = or_default cfg.git_username (codes "git");
      password = cfg.git_access_token;
    })

unfoldable pub clone_options : InventoryControllerConfig → CloneOptions
clone_options cfg = record {
  url = cfg.git_repo_url;
  branch = or_default cfg.git_branch default_git_branch;
  auth = basic_auth cfg;
}

-- `filepath.Join` of two elements; a path of the repository is one of the host.
unfoldable pub join_path : Bytes → Bytes → Bytes
join_path [] [] = []
join_path [] (c ∷ rel) = clean (c ∷ rel)
join_path (c ∷ root) rel = clean ((c ∷ root) ++ slash ∷ rel)

-- The text up to its last slash, given backwards.
unfoldable pub drop_file : Bytes → Bytes
drop_file [] = []
drop_file (c ∷ s) = let rest = drop_file s in if eqb c slash then c ∷ s else rest

-- `filepath.Dir`
unfoldable pub dir_name : Bytes → Bytes
dir_name path = clean (reverse (drop_file (reverse path)))

module _ (H : Host) where
  abbrev pub Reply : Type 0
  Reply = H.State × Outcome ExportError (Unit {0})

  -- `if err := …; err != nil { return … }`
  abbrev pub and_then : H.State × Bool → ExportError → (H.State → Reply) → Reply
  and_then (s, true) e next = next s
  and_then (s, false) e next = (s, err e)

  abbrev pub check : Bool → H.State → ExportError → Reply → Reply
  check true s e next = next
  check false s e next = (s, err e)

  -- `archiveInventoryFileInClone` behind the mapping of the path.
  unfoldable pub move_file : Bytes → Bytes → Bytes → StatAnswer → H.State → Reply
  move_file rel src dest missing s = (s, ok tt)
  move_file rel src dest stat_failed s = (s, err (stat_of_file_failed rel))
  move_file rel src dest directory s = (s, err (not_a_file rel))
  move_file rel src dest file s = and_then (H.mkdir_all s (dir_name dest)) (mkdir_failed rel) (λ s₁.
      and_then (H.rename (H.remove s₁ dest) src dest) (rename_failed rel) (λ s₂. (s₂, ok tt)))

  unfoldable pub archive_inventory_file_in_clone : Bytes → Bytes → H.State → Reply
  archive_inventory_file_in_clone root rel s = elim (archive_relative_path rel) [
    | err e ↦ (s, err (archive_refused e))
    | ok dest_rel ↦
        let src = join_path root rel in move_file rel src (join_path root dest_rel) (H.stat s src) s
  ]

  unfoldable pub export_op : Bytes → Bytes → PendingExport → H.State → Reply
  export_op dir rel (write content) s =
      let full = join_path dir rel in
      and_then (H.mkdir_all s (dir_name full)) (mkdir_failed rel)
        (λ s₁. and_then (H.write_file s₁ full content) (write_failed rel) (λ s₂. (s₂, ok tt)))
  export_op dir rel archive s = archive_inventory_file_in_clone dir rel s

  abbrev pub and_next : Reply → (H.State → Reply) → Reply
  and_next (s, ok u) next = next s
  and_next (s, err e) next = (s, err e)

  -- `for rel, op := range batch`
  unfoldable pub export_ops : Bytes → Dict PendingExport → H.State → Reply
  export_ops dir [] s = (s, ok tt)
  export_ops dir ((rel, op) ∷ batch) s = and_next (export_op dir rel op s) (export_ops dir batch)

  unfoldable pub commit_and_push :
      InventoryControllerConfig → Dict PendingExport → Bytes → Option Bool → H.State → Reply
  commit_and_push cfg batch dir none s = (s, err status_failed)
  commit_and_push cfg batch dir (some true) s = (s, ok tt)
  commit_and_push cfg batch dir (some false) s =
      and_then (H.commit s dir (full_message batch)) commit_failed
        (λ s₁. and_then (H.push s₁ dir (basic_auth cfg)) push_failed (λ s₂. (s₂, ok tt)))

  -- From `git.PlainOpen` on.
  unfoldable pub publish : InventoryControllerConfig → Dict PendingExport → Bytes → H.State → Reply
  publish cfg batch dir s = check (H.opened s dir) s open_failed (
      check (H.has_worktree s dir) s worktree_failed (
        and_then (H.add_all s dir) add_failed
          (λ s₁. commit_and_push cfg batch dir (H.is_clean s₁ dir) s₁)))

  -- What is done in the directory of the clone.
  unfoldable pub in_clone : InventoryControllerConfig → Dict PendingExport → Bytes → H.State → Reply
  in_clone cfg batch dir s =
      and_then (H.clone s (clone_options cfg) dir) clone_failed
        (λ s₁. and_next (export_ops dir batch s₁) (publish cfg batch dir))

  -- `defer os.RemoveAll(dir)`
  abbrev pub and_remove : Bytes → Reply → Reply
  and_remove dir (s, r) = (H.remove_all s dir, r)

  unfoldable pub export_batch : InventoryControllerConfig → Dict PendingExport → H.State → Reply
  export_batch cfg batch s =
      let (s₁, made) = H.mkdir_temp s in
      elim made [
        | none ↦ (s₁, err create_temp_failed)
        | some dir ↦ and_remove dir (in_clone cfg batch dir s₁)
      ]

  -- How `flush` ends for the batch that it has taken.
  abbrev pub end_of : Reply → H.State × FlushEnd
  end_of (s, ok u) = (s, published)
  end_of (s, err e) = (s, failed)

  unfoldable pub flush_batch :
      InventoryControllerConfig → Dict PendingExport → H.State → H.State × FlushEnd
  flush_batch cfg batch s =
      if trim_space cfg.git_repo_url == [] then (s, dropped) else end_of (export_batch cfg batch s)
