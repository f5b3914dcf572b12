-- ===== src/Git/Export/Content.antt =====
-- What the files of the clone hold when a batch has been exported to it.
use mathlib.Core.Path.{subst}
use accord.Base.{
  Bool, true, false, Option, none, some, [], ◌∷◌, Bytes, Outcome, ok, err, Outcome-cases, ◌==◌,
  eq_iff, ◌≡◌, inl, inr, refl, sym, List, ap, ◌∙◌, arith, if◌then◌else◌,
}
use accord.Collections.Sorting.{Distinct}
use accord.Dict.Laws.{or_else, is_present}
use accord.Git.ArchivePath.{ArchiveError, archive_relative_path}
use accord.Git.Queue.{PendingExport, write, archive}
use accord.Git.Export.{
  StatAnswer, file, directory, missing, stat_failed, Host, ExportError, rename_failed, write_failed,
  join_path, dir_name, Reply, and_then, move_file, archive_inventory_file_in_clone, export_op,
}

-- What the operating system promises of files: an operation that succeeds changes the files it names,
-- and no other.
pub record IsFileSystem (H : Host) : Type 0 where
  pub content : H.State → Bytes → Option Bytes
  pub write_file :
      (s : H.State) (p c q : Bytes)
      → (H.write_file s p c).1 ≡ true
      → content (H.write_file s p c).0 q ≡ (if p == q then some c else content s q)
  pub mkdir_all :
      (s : H.State) (p q : Bytes)
      → (H.mkdir_all s p).1 ≡ true
      → content (H.mkdir_all s p).0 q ≡ content s q
  pub remove :
      (s : H.State) (p q : Bytes) → (p == q) ≡ false → content (H.remove s p) q ≡ content s q
  pub rename :
      (s : H.State) (src dest q : Bytes)
      → (src == dest) ≡ false
      → (H.rename s src dest).1 ≡ true
      → content (H.rename s src dest).0 q
        ≡ (if dest == q then content s src else if src == q then none else content s q)
  pub stat_file : (s : H.State) (p : Bytes) → H.stat s p ≡ file → is_present (content s p) ≡ true
  pub stat_missing : (s : H.State) (p : Bytes) → H.stat s p ≡ missing → content s p ≡ none

module _ (dir : Bytes) where
  -- The files that an entry of the batch names.
  abbrev pub touched_at : Bytes → Outcome ArchiveError Bytes → List Bytes
  touched_at rel (err e) = []
  touched_at rel (ok to) = join_path dir rel ∷ join_path dir to ∷ []

  abbrev pub touched : Bytes × PendingExport → List Bytes
  touched (rel, write c) = join_path dir rel ∷ []
  touched (rel, archive) = touched_at rel (archive_relative_path rel)

  abbrev pub after_at :
      Bytes → Outcome ArchiveError Bytes → (Bytes → Option Bytes) → Bytes → Option Bytes
  after_at rel (err e) before q = before q
  after_at rel (ok to) before q =
      if join_path dir to == q
      then or_else (before (join_path dir rel)) (before (join_path dir to))
      else if join_path dir rel == q
      then none
      else before q

  -- What an entry makes of the files: a write sets its file, an archive moves its file if there is one.
  abbrev pub after_op : Bytes × PendingExport → (Bytes → Option Bytes) → Bytes → Option Bytes
  after_op (rel, write c) before q = if join_path dir rel == q then some c else before q
  after_op (rel, archive) before q = after_at rel (archive_relative_path rel) before q

module _ (H : Host) (F : IsFileSystem H) (dir : Bytes) where
  pub and_then_ok :
      (step : H.State × Bool) (e : ExportError) (next : H.State → Reply H)
      → (and_then H step e next).1 ≡ ok tt
      → (step.1 ≡ true) × (and_then H step e next ≡ next step.0)
  and_then_ok (s, true) e next h = (refl, refl)
  and_then_ok (s, false) e next h = cc

  -- A write leaves its content at its path.
  write-content :
      (rel c : Bytes) (s : H.State) (q : Bytes)
      → (export_op H dir rel (write c) s).1 ≡ ok tt
      → F.content (export_op H dir rel (write c) s).0 q
        ≡ (if join_path dir rel == q then some c else F.content s q)
  unfolding export_op
  write-content rel c s q h =
      let full = join_path dir rel in
      let s₁ = (H.mkdir_all s (dir_name full)).0 in
      let (made, e₁) = and_then_ok (H.mkdir_all s (dir_name full)) _ _ h in
      let (wrote, e₂) =
        and_then_ok (H.write_file s₁ full c) (write_failed rel) (λ s₂. (s₂, ok tt))
          (ap (λ r. r.1) (sym e₁) ∙ h) in
      ap (λ r. F.content r.0 q) (e₁ ∙ e₂)
      ∙ F.write_file s₁ full c q wrote
      ∙ ap (λ o. if full == q then some c else o) (F.mkdir_all s (dir_name full) q made)

  -- A file that is moved is where it is moved to, and no longer where it was.
  move_file-content :
      (rel src dest : Bytes) (a : StatAnswer) (s : H.State) (q : Bytes)
      → (src == dest) ≡ false
      → H.stat s src ≡ a
      → (move_file H rel src dest a s).1 ≡ ok tt
      → F.content (move_file H rel src dest a s).0 q ≡ (
          if dest == q
          then or_else (F.content s src) (F.content s dest)
          else if src == q
          then none
          else F.content s q)
  unfolding move_file
  move_file-content rel src dest missing s q apart e h =
      ground (arith, F.stat_missing s src e, eq_iff dest q, eq_iff src q)
  move_file-content rel src dest stat_failed s q apart e h = cc
  move_file-content rel src dest directory s q apart e h = cc
  move_file-content rel src dest file s q apart e h =
      let s₁ = (H.mkdir_all s (dir_name dest)).0 in
      let s₂ = H.remove s₁ dest in
      let (made, e₁) = and_then_ok (H.mkdir_all s (dir_name dest)) _ _ h in
      let (renamed, e₂) =
        and_then_ok (H.rename s₂ src dest) (rename_failed rel) (λ s₃. (s₃, ok tt))
          (ap (λ r. r.1) (sym e₁) ∙ h) in
      ap (λ r. F.content r.0 q) (e₁ ∙ e₂)
      ∙ F.rename s₂ src dest q apart renamed
      ∙ ground (
        arith,
        F.remove s₁ dest q,
        F.remove s₁ dest src,
        F.mkdir_all s (dir_name dest) q made,
        F.mkdir_all s (dir_name dest) src made,
        F.stat_file s src e,
        eq_iff dest q,
        eq_iff src q,
        eq_iff dest src,
        eq_iff src dest,
      )

  pub export_op-content :
      (rel : Bytes) (op : PendingExport) (s : H.State) (q : Bytes)
      → Distinct (touched dir (rel, op))
      → (export_op H dir rel op s).1 ≡ ok tt
      → F.content (export_op H dir rel op s).0 q ≡ after_op dir (rel, op) (F.content s) q
  unfolding export_op archive_inventory_file_in_clone
  export_op-content rel (write c) s q d h = write-content rel c s q h
  export_op-content rel archive s q d h = elim (Outcome-cases (archive_relative_path rel)) [
    | inr (e, refused) ↦ absurd (ground arith)
    | inl (to, known) ↦
        let (src, dest) : Bytes × Bytes = (join_path dir rel, join_path dir to) in
        let apart : Distinct (src ∷ dest ∷ []) =
          subst (λ r. Distinct (touched_at dir rel r)) known d in
        let moved : (move_file H rel src dest (H.stat s src) s).1 ≡ ok tt = ground arith in
        rw (after_op, export_op, archive_inventory_file_in_clone, known)
          (move_file-content rel src dest (H.stat s src) s q
            (ground (arith, apart.0, eq_iff src dest, eq_iff dest src)) refl moved)
  ]
