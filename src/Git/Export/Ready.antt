-- ===== src/Git/Export/Ready.antt =====
-- Where nothing hinders an export, the operations of its batch succeed.
use mathlib.Core.Path.{subst}
use accord.Base.{
  Bool, true, false, some, [], ◌∷◌, Bytes, All, ok, err, ◌≡◌, ◌⊎◌, ◌==◌, inl, inr, refl, ap, ◌∙◌,
  contains, contains-append, eq_refl, eq_iff, arith,
}
use accord.Collections.Sorting.{Distinct}
use accord.Dict.{Dict}
use accord.Dict.Laws.{is_present}
use accord.Config.{InventoryControllerConfig}
use accord.Git.ArchivePath.{archive_relative_path}
use accord.Git.Queue.{PendingExport, write, archive}
use accord.Git.Message.{full_message}
use accord.Git.Export.{
  StatAnswer, file, directory, missing, stat_failed, Host, ExportError, basic_auth, clone_options,
  join_path, dir_name, Reply, and_then, move_file, archive_inventory_file_in_clone, export_op,
  and_next, export_ops,
}
use accord.Git.Export.Content.{IsFileSystem, touched_at, touched}
use accord.Git.Export.Files.{touched_by, Distinct-append}

-- Every path of the batch is below inventory/.
abbrev pub AreArchivable : Dict PendingExport → Type 0
AreArchivable = All (λ entry. (dest : Bytes) × (archive_relative_path entry.0 ≡ ok dest))

-- Nothing hinders the export of the batch from the state: the clone is made, and it is ready then, which
-- it stays. In a ready clone the files that the batch names can be looked for, and are files or not
-- there; their directories can be made; a file can be written, and one that is there can be moved, to a
-- directory that was made; and git does what it is asked.
pub record CanExport (H : Host) (F : IsFileSystem H) (cfg : InventoryControllerConfig)
    (batch : Dict PendingExport) (s : H.State) : Type 1 where
  pub dir : Bytes
  pub made : (H.mkdir_temp s).1 ≡ some dir
  pub IsReady : H.State → Type 0
  pub HasDir : H.State → Bytes → Type 0
  pub cloned : (H.clone (H.mkdir_temp s).0 (clone_options cfg) dir).1 ≡ true
  pub ready : IsReady (H.clone (H.mkdir_temp s).0 (clone_options cfg) dir).0
  pub stat :
      (t : H.State) (q : Bytes)
      → IsReady t
      → contains (touched_by dir batch) q ≡ true
      → (H.stat t q ≡ file) ⊎ (H.stat t q ≡ missing)
  pub mkdir_all :
      (t : H.State) (q : Bytes)
      → IsReady t
      → contains (touched_by dir batch) q ≡ true
      → ((H.mkdir_all t (dir_name q)).1 ≡ true)
        × IsReady (H.mkdir_all t (dir_name q)).0
        × HasDir (H.mkdir_all t (dir_name q)).0 (dir_name q)
  pub write_file :
      (t : H.State) (q c : Bytes)
      → IsReady t
      → contains (touched_by dir batch) q ≡ true
      → HasDir t (dir_name q)
      → ((H.write_file t q c).1 ≡ true) × IsReady (H.write_file t q c).0
  pub remove :
      (t : H.State) (q d : Bytes)
      → IsReady t
      → contains (touched_by dir batch) q ≡ true
      → HasDir t d
      → IsReady (H.remove t q) × HasDir (H.remove t q) d
  pub rename :
      (t : H.State) (src dest : Bytes)
      → IsReady t
      → contains (touched_by dir batch) src ≡ true
      → contains (touched_by dir batch) dest ≡ true
      → is_present (F.content t src) ≡ true
      → HasDir t (dir_name dest)
      → ((H.rename t src dest).1 ≡ true) × IsReady (H.rename t src dest).0
  pub opened : (t : H.State) → IsReady t → H.opened t dir ≡ true
  pub has_worktree : (t : H.State) → IsReady t → H.has_worktree t dir ≡ true
  pub add_all :
      (t : H.State) → IsReady t → ((H.add_all t dir).1 ≡ true) × IsReady (H.add_all t dir).0
  pub status_known : (t : H.State) → IsReady t → (c : Bool) × (H.is_clean t dir ≡ some c)
  pub commit :
      (t : H.State)
      → IsReady t
      → ((H.commit t dir (full_message batch)).1 ≡ true)
        × IsReady (H.commit t dir (full_message batch)).0
  pub push : (t : H.State) → IsReady t → (H.push t dir (basic_auth cfg)).1 ≡ true

module _ (H : Host) (F : IsFileSystem H) (cfg : InventoryControllerConfig)
    (batch : Dict PendingExport) (s : H.State) (E : CanExport H F cfg batch s) where
  abbrev pub IsFine : Reply H → Type 0
  IsFine r = (r.1 ≡ ok tt) × E.IsReady r.0

  and_then-IsFine :
      (step : H.State × Bool) (e : ExportError) (next : H.State → Reply H)
      → step.1 ≡ true
      → IsFine (next step.0)
      → IsFine (and_then H step e next)
  and_then-IsFine (t, true) e next x k = k
  and_then-IsFine (t, false) e next x k = cc

  and_next-IsFine :
      (r : Reply H) (next : H.State → Reply H)
      → IsFine r
      → IsFine (next r.0)
      → IsFine (and_next H r next)
  and_next-IsFine (t, ok u) next x k = k
  and_next-IsFine (t, err e) next (x, y) k = cc

  move_file-IsFine :
      (rel src dest : Bytes) (a : StatAnswer) (t : H.State)
      → E.IsReady t
      → contains (touched_by E.dir batch) src ≡ true
      → contains (touched_by E.dir batch) dest ≡ true
      → (dest == src) ≡ false
      → H.stat t src ≡ a
      → (a ≡ file) ⊎ (a ≡ missing)
      → IsFine (move_file H rel src dest a t)
  unfolding move_file
  move_file-IsFine rel src dest missing t r m n apart e x = (refl, r)
  move_file-IsFine rel src dest stat_failed t r m n apart e (inl x) = cc
  move_file-IsFine rel src dest stat_failed t r m n apart e (inr x) = cc
  move_file-IsFine rel src dest directory t r m n apart e (inl x) = cc
  move_file-IsFine rel src dest directory t r m n apart e (inr x) = cc
  move_file-IsFine rel src dest file t r m n apart e x =
      let (made, r₁, has) = E.mkdir_all t dest r n in
      let t₁ = (H.mkdir_all t (dir_name dest)).0 in
      let (r₂, still) = E.remove t₁ dest (dir_name dest) r₁ n has in
      let same : F.content (H.remove t₁ dest) src ≡ F.content t src =
        F.remove t₁ dest src apart ∙ F.mkdir_all t (dir_name dest) src made in
      let there = ap is_present same ∙ F.stat_file t src e in
      let (moved, r₃) = E.rename (H.remove t₁ dest) src dest r₂ m n there still in
      and_then-IsFine (H.mkdir_all t (dir_name dest)) _ _ made (
        and_then-IsFine (H.rename (H.remove t₁ dest) src dest) _ (λ t₃. (t₃, ok tt)) moved
          (refl, r₃))

  -- The files are among those of the batch.
  abbrev AreOfBatch : Dict PendingExport → Type 0
  AreOfBatch part =
      (q : Bytes)
      → contains (touched_by E.dir part) q ≡ true
      → contains (touched_by E.dir batch) q ≡ true

  export_op-IsFine :
      (rel : Bytes) (op : PendingExport) (t : H.State)
      → E.IsReady t
      → (dest : Bytes) × (archive_relative_path rel ≡ ok dest)
      → ((q : Bytes)
          → contains (touched E.dir (rel, op)) q ≡ true
          → contains (touched_by E.dir batch) q ≡ true)
      → Distinct (touched E.dir (rel, op))
      → IsFine (export_op H E.dir rel op t)
  unfolding export_op archive_inventory_file_in_clone
  export_op-IsFine rel (write c) t r below own d =
      let full = join_path E.dir rel in
      let m = own full (ground (arith, eq_refl full)) in
      let (made, r₁, has) = E.mkdir_all t full r m in
      let t₁ = (H.mkdir_all t (dir_name full)).0 in
      let (wrote, r₂) = E.write_file t₁ full c r₁ m has in
      and_then-IsFine (H.mkdir_all t (dir_name full)) _ _ made
        (and_then-IsFine (H.write_file t₁ full c) _ (λ t₂. (t₂, ok tt)) wrote (refl, r₂))
  export_op-IsFine rel archive t r (to, known) own d =
      let src = join_path E.dir rel in
      let dest = join_path E.dir to in
      let apart : Distinct (src ∷ dest ∷ []) =
        subst (λ x. Distinct (touched_at E.dir rel x)) known d in
      let mine : (q : Bytes)
          → contains (src ∷ dest ∷ []) q ≡ true
          → contains (touched_by E.dir batch) q ≡ true =
        subst
          (λ x.
            (q : Bytes)
            → contains (touched_at E.dir rel x) q ≡ true
            → contains (touched_by E.dir batch) q ≡ true)
          known own in
      let m = mine src (ground (arith, eq_refl src)) in
      let n = mine dest (ground (arith, eq_refl dest)) in
      rw (archive_inventory_file_in_clone, known)
        (move_file-IsFine rel src dest (H.stat t src) t r m n
          (ground (arith, apart.0, eq_iff src dest, eq_iff dest src)) refl (E.stat t src r m))

  pub export_ops-IsFine :
      (part : Dict PendingExport) (t : H.State)
      → E.IsReady t
      → AreArchivable part
      → AreOfBatch part
      → Distinct (touched_by E.dir part)
      → IsFine (export_ops H E.dir part t)
  unfolding export_ops
  export_ops-IsFine [] t r a own d = (refl, r)
  export_ops-IsFine ((rel, op) ∷ part) t r (below, a) own d =
      let (first, others, _) =
        Distinct-append (touched E.dir (rel, op)) (touched_by E.dir part) d in
      let split = contains-append (touched E.dir (rel, op)) (touched_by E.dir part) in
      let done = export_op-IsFine rel op t r below (λ q m. own q (ground (arith, split q))) first in
      and_next-IsFine (export_op H E.dir rel op t) (export_ops H E.dir part) done (
        export_ops-IsFine part (export_op H E.dir rel op t).0 done.1 a
          (λ q m. own q (ground (arith, split q))) others)
