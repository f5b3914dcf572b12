-- ===== src/InventoryProcess/Published.antt =====
-- What the inventory controller publishes, in any run of its reconcilers and its worker.
use mathlib.Core.Path.{subst}
use accord.Base.{
  ◌∙◌, [], ◌∷◌, List, Bytes, true, false, ok, err, some, ◌≡◌, inl, inr, refl, ◌==◌, eq_iff, All,
  Bool-cases, contains, arith,
}
use accord.Collections.Sorting.{Distinct}
use accord.Dict.{Dict, keys}
use accord.Dict.Laws.{is_present, contains-keys}
use accord.Strings.{trim_space}
use accord.Strings.Cleaning.{IsPlain}
use accord.Strings.Rooted.{directory}
use accord.Config.{InventoryControllerConfig, default_export_path_template}
use accord.Inventory.ExportPath.Laws.{RendersDefault}
use accord.Inventory.Reconciler.{ReconcileDeps}
use accord.Git.Queue.{PendingExport, BatchWorker, published}
use accord.Git.Queue.Debounce.{Call, export_call, archive_call}
use accord.Git.Export.{Host, Reply, clone_options, export_batch, end_of, flush_batch}
use accord.Git.Export.Content.{IsFileSystem}
use accord.Git.Export.Files.{touched_by, Holds}
use accord.Git.Export.Pushed.{IsPushed, publish-IsPushed}
use accord.Git.Export.Committed.{export_batch-Holds}
use accord.Git.Export.Places.{IsLive}
use accord.Git.Export.Resources.{AreLive, touched_by-Distinct}
use accord.Git.Worker.History.{Log, newest, in_flight_of, Accounts}
use accord.Git.Worker.Runs.{Reach-Accounts}
use accord.InventoryProcess.{InventoryProcess, Run}
use accord.InventoryProcess.Asked.{path_of, Run-AsksLive}

newest_of_IsLive :
    (p : Bytes) (asked : List Call)
    → is_present (newest p asked) ≡ true
    → All (λ c. IsLive (path_of c)) asked
    → IsLive p
newest_of_IsLive p [] there live = cc
newest_of_IsLive p (export_call job ∷ asked) there (first, rest) =
    elim (Bool-cases (job.path == p)) [
      | inl same ↦ subst IsLive ((eq_iff job.path p).0 same) first
      | inr other ↦ newest_of_IsLive p asked (rw other at there) rest
    ]
newest_of_IsLive p (archive_call path ∷ asked) there (first, rest) = elim (Bool-cases (path == p)) [
  | inl same ↦ subst IsLive ((eq_iff path p).0 same) first
  | inr other ↦ newest_of_IsLive p asked (rw other at there) rest
]

-- What is in flight was asked for, so it has live paths, each once.
flight-AreLive :
    (l : Log) (pending batch : Dict PendingExport)
    → Accounts l pending batch
    → All (λ c. IsLive (path_of c)) l.asked
    → AreLive batch
flight-AreLive l pending batch a live p m =
    newest_of_IsLive p l.asked (ground (arith, a.located p, contains-keys batch p)) live

in_flight :
    (w : BatchWorker) (batch : Dict PendingExport)
    → w.in_flight ≡ some batch
    → in_flight_of w ≡ batch
in_flight w batch busy = rw busy refl

module _ (H : Host) (cfg : InventoryControllerConfig) where
  end_of-published : (r : Reply H) → (end_of H r).1 ≡ published → r.1 ≡ ok tt
  end_of-published (s, ok u) h = refl
  end_of-published (s, err e) h = cc

  -- Only an export can end as published.
  pub published-export :
      (batch : Dict PendingExport) (s : H.State)
      → (flush_batch H cfg batch s).1 ≡ published
      → ((trim_space cfg.git_repo_url == []) ≡ false) × ((export_batch H cfg batch s).1 ≡ ok tt)
  unfolding flush_batch
  published-export batch s h = elim (Bool-cases (trim_space cfg.git_repo_url == [])) [
    | inl blank ↦ absurd (ground arith)
    | inr set ↦ (set, end_of-published (export_batch H cfg batch s) (rw (flush_batch, set) at h))
  ]

  end_of-state : (r : Reply H) → (end_of H r).0 ≡ r.0
  end_of-state (s, ok u) = refl
  end_of-state (s, err e) = refl

  -- The flush leaves the host as the export does.
  flush_batch-state :
      (batch : Dict PendingExport) (s : H.State)
      → (trim_space cfg.git_repo_url == []) ≡ false
      → (flush_batch H cfg batch s).0 ≡ (export_batch H cfg batch s).0
  unfolding flush_batch
  flush_batch-state batch s set = rw (flush_batch, set) (end_of-state (export_batch H cfg batch s))

  -- The paths of a batch in flight are live ones, and each has one operation.
  pub flight-resources :
      (d : ReconcileDeps) (h : H.State) (s : InventoryProcess H cfg d) (batch : Dict PendingExport)
      → RendersDefault d.parse_template
      → d.export_path_tmpl ≡ default_export_path_template
      → Run H cfg d h s
      → (trim_space cfg.git_repo_url == []) ≡ false
      → s.git.worker.in_flight ≡ some batch
      → AreLive batch × Distinct (keys batch)
  flight-resources d h s batch renders usual run set busy =
      let (l, reached, live) = Run-AsksLive H cfg d renders usual h run in
      let a : Accounts l s.git.worker.pending batch =
        subst (Accounts l s.git.worker.pending) (in_flight s.git.worker batch busy)
          (Reach-Accounts H cfg h set reached) in
      (flight-AreLive l s.git.worker.pending batch a live, a.flight_distinct)

  -- Whatever events of resources of Argo CD there are, in whatever order with ticks and ends of flushes:
  -- a flush that ends as published has cloned the repository into its temporary directory, has made in
  -- the clone the changes of its batch and no other, each in a file of its own (the file of a resource
  -- that is exported holds its YAML; that of a deleted one is gone and, if it was there, found in the
  -- archive), has added the clone as it is then and has committed and pushed it, unless nothing had
  -- changed, and has removed it; that is the state of the host that the flush ends in. It holds for the default template, where the
  -- text engine fills in its fields, the operating system keeps what it promises of files, and the
  -- temporary directory is an absolute path of plain elements.
  pub published-Holds :
      (F : IsFileSystem H) (d : ReconcileDeps) (h : H.State) (s : InventoryProcess H cfg d)
      (batch : Dict PendingExport) (top : Bytes) (below : List Bytes)
      → RendersDefault d.parse_template
      → d.export_path_tmpl ≡ default_export_path_template
      → Run H cfg d h s
      → s.git.worker.in_flight ≡ some batch
      → (H.mkdir_temp s.git.host).1 ≡ some (directory (top ∷ below))
      → All IsPlain (top ∷ below)
      → (flush_batch H cfg batch s.git.host).1 ≡ published
      → (cloned filled : H.State) × (H.clone
            (H.mkdir_temp s.git.host).0
            (clone_options cfg)
            (directory (top ∷ below))
          ≡ (cloned, true))
        × All (Holds (directory (top ∷ below)) (F.content cloned) (F.content filled)) batch
        × ((q : Bytes)
            → contains (touched_by (directory (top ∷ below)) batch) q ≡ false
            → F.content filled q ≡ F.content cloned q)
        × IsPushed H cfg batch
            (directory (top ∷ below))
            filled
            (flush_batch H cfg batch s.git.host).0
  published-Holds F d h s batch top below renders usual run busy made plain done =
      let (set, exported) = published-export batch s.git.host done in
      let (live, each) = flight-resources d h s batch renders usual run set busy in
      let apart = touched_by-Distinct top below plain batch live each in
      let (cloned, filled, from, held, kept, out, final) =
        export_batch-Holds H F (directory (top ∷ below)) cfg batch s.git.host made apart exported in
      (
        cloned,
        filled,
        from,
        held,
        kept,
        publish-IsPushed H cfg batch (directory (top ∷ below)) filled _ out
            (flush_batch-state batch s.git.host set ∙ final),
      )
