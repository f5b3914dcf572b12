-- ===== src/Git/Export/Committed.antt =====
-- What a commit of the clone is made of: the files as the batch has left them.
use mathlib.Core.Path.{fun_ext, subst}
use accord.Base.{
  some, true, false, [], ◌∷◌, Bytes, contains, All, Outcome-cases, ok, err, ◌≡◌, inl, inr, refl,
  sym, ap, ◌∙◌, arith,
}
use accord.Collections.Sorting.{Distinct}
use accord.Dict.{Dict}
use accord.Git.ArchivePath.{archive_relative_path}
use accord.Git.Queue.{PendingExport, write, archive}
use accord.Git.Export.{
  Host, Reply, export_op, archive_inventory_file_in_clone, and_next, export_ops, clone_options,
  publish, in_clone, export_batch,
}
use accord.Config.{InventoryControllerConfig}
use accord.Git.Export.Content.{IsFileSystem, and_then_ok, touched, after_op, export_op-content}
use accord.Git.Export.Files.{
  touched_by, Holds, IsMovable, Distinct-append, after_ops, after_ops-untouched, after_ops-Holds,
}

module _ (H : Host) (F : IsFileSystem H) (dir : Bytes) where
  and_next_ok :
      (r : Reply H) (next : H.State → Reply H)
      → (and_next H r next).1 ≡ ok tt
      → (r.1 ≡ ok tt) × (and_next H r next ≡ next r.0)
  and_next_ok (s, ok u) next h = (refl, refl)
  and_next_ok (s, err e) next h = cc

  export_op-IsMovable :
      (rel : Bytes) (op : PendingExport) (s : H.State)
      → (export_op H dir rel op s).1 ≡ ok tt
      → IsMovable dir (rel, op)
  unfolding export_op archive_inventory_file_in_clone
  export_op-IsMovable rel (write c) s h = tt
  export_op-IsMovable rel archive s h = elim (Outcome-cases (archive_relative_path rel)) [
    | inl (to, known) ↦ (to, known)
    | inr (e, refused) ↦ absurd (ground arith)
  ]

  export_ops-content :
      (batch : Dict PendingExport) (s : H.State)
      → Distinct (touched_by dir batch)
      → (export_ops H dir batch s).1 ≡ ok tt
      → All (IsMovable dir) batch
        × (F.content (export_ops H dir batch s).0 ≡ after_ops dir batch (F.content s))
  unfolding export_ops after_ops
  export_ops-content [] s d h = (tt, refl)
  export_ops-content ((rel, op) ∷ batch) s d h =
      let (own, others, apart) = Distinct-append (touched dir (rel, op)) (touched_by dir batch) d in
      let (done, e) = and_next_ok (export_op H dir rel op s) (export_ops H dir batch) h in
      let s₁ = (export_op H dir rel op s).0 in
      let (movable, rest) = export_ops-content batch s₁ others (ap (λ r. r.1) (sym e) ∙ h) in
      let first : F.content s₁ ≡ after_op dir (rel, op) (F.content s) =
        fun_ext (λ q. export_op-content H F dir rel op s q own done) in
      (
        (export_op-IsMovable rel op s done, movable),
        ap (λ r. F.content r.0) e ∙ rest ∙ ap (after_ops dir batch) first,
      )

  -- Each operation of a batch has its effect, whatever the order of the batch, and no other file changes.
  export_ops-Holds :
      (batch : Dict PendingExport) (s : H.State)
      → Distinct (touched_by dir batch)
      → (export_ops H dir batch s).1 ≡ ok tt
      → All (Holds dir (F.content s) (F.content (export_ops H dir batch s).0)) batch
        × ((q : Bytes)
            → contains (touched_by dir batch) q ≡ false
            → F.content (export_ops H dir batch s).0 q ≡ F.content s q)
  export_ops-Holds batch s d h =
      let (movable, same) = export_ops-content batch s d h in
      (
        subst (λ after. All (Holds dir (F.content s) after) batch) (sym same)
            (after_ops-Holds dir batch (F.content s) movable d),
        λ q other. ap (λ after. after q) same ∙ after_ops-untouched dir batch (F.content s) q other,
      )

  export_batch-result :
      (cfg : InventoryControllerConfig) (batch : Dict PendingExport) (s : H.State)
      → (H.mkdir_temp s).1 ≡ some dir
      → (export_batch H cfg batch s).1 ≡ (in_clone H cfg batch dir (H.mkdir_temp s).0).1
  unfolding export_batch
  export_batch-result cfg batch s made = rw (export_batch, made) refl

  export_batch-state :
      (cfg : InventoryControllerConfig) (batch : Dict PendingExport) (s : H.State)
      → (H.mkdir_temp s).1 ≡ some dir
      → (export_batch H cfg batch s).0
        ≡ H.remove_all (in_clone H cfg batch dir (H.mkdir_temp s).0).0 dir
  unfolding export_batch
  export_batch-state cfg batch s made = rw (export_batch, made) refl

  -- A successful export into the temporary directory `dir` has cloned the repository, has made in the
  -- clone the changes of the batch and no other (a written file holds its content, an archived file is
  -- gone and, if it was there, found at its path in the archive), has succeeded in publishing the clone
  -- as it is then, and has removed it. The operating system keeps what it promises of files, and no two
  -- operations of the batch name the same file.
  pub export_batch-Holds :
      (cfg : InventoryControllerConfig) (batch : Dict PendingExport) (s : H.State)
      → (H.mkdir_temp s).1 ≡ some dir
      → Distinct (touched_by dir batch)
      → (export_batch H cfg batch s).1 ≡ ok tt
      → (cloned filled : H.State) × (H.clone (H.mkdir_temp s).0 (clone_options cfg) dir
          ≡ (cloned, true))
        × All (Holds dir (F.content cloned) (F.content filled)) batch
        × ((q : Bytes)
            → contains (touched_by dir batch) q ≡ false
            → F.content filled q ≡ F.content cloned q)
        × ((publish H cfg batch dir filled).1 ≡ ok tt)
        × ((export_batch H cfg batch s).0 ≡ H.remove_all (publish H cfg batch dir filled).0 dir)
  unfolding export_batch in_clone
  export_batch-Holds cfg batch s made d h =
      let step = H.clone (H.mkdir_temp s).0 (clone_options cfg) dir in
      let in_dir : (in_clone H cfg batch dir (H.mkdir_temp s).0).1 ≡ ok tt =
        sym (export_batch-result cfg batch s made) ∙ h in
      let (went, e₁) = and_then_ok H F dir step _ _ in_dir in
      let (done, e₂) =
        and_next_ok (export_ops H dir batch step.0) (publish H cfg batch dir)
          (ap (λ r. r.1) (sym e₁) ∙ in_dir) in
      let (held, kept) = export_ops-Holds batch step.0 d done in
      (
        step.0,
        (export_ops H dir batch step.0).0,
        ap (λ b. (step.0, b)) went,
        held,
        kept,
        ap (λ r. r.1) (sym (e₁ ∙ e₂)) ∙ in_dir,
        export_batch-state cfg batch s made ∙ ap (λ r. H.remove_all r.0 dir) (e₁ ∙ e₂),
      )
