-- ===== src/InventoryProcess/Asked.antt =====
-- What the reconcilers ask of the worker, at one event and along a run.
use mathlib.Core.Path.{subst}
use accord.Base.{
  ◌∷◌, Bytes, false, ok, err, ◌≡◌, ◌⊎◌, inl, inr, refl, sym, ap, ◌∙◌, All, Outcome, Outcome-cases,
  Bool-cases, ok-injective,
}
use accord.Config.{InventoryControllerConfig, default_export_path_template}
use accord.Inventory.Normalize.{normalized_yaml_and_material_hash}
use accord.Inventory.ExportPath.{RenderError, argo_plural_kind, render_export_path, cache_set}
use accord.Inventory.ExportPath.Laws.{
  RendersDefault, IsArgoKind, IsPlural-argo_plural_kind, render_default,
}
use accord.Inventory.Reconciler.{
  ReconcileDeps, ReconcileState, ObjectKey, Watched, GetAnswer, found, not_found, get_failed,
  cache_key, export_path, enqueue_export, enqueue_delete, handle, reconcile,
}
use accord.Inventory.Reconciler.Laws.{handle_if, is_skipped}
use accord.Dict.{Dict}
use accord.Git.Queue.{PendingExport, BatchWorker, FlushEnd, dropped, published, failed}
use accord.Git.Queue.Debounce.{Call, export_call, archive_call, run_call}
use accord.Git.Export.{Host, flush_batch}
use accord.Git.Export.Places.{IsLive}
use accord.Git.Worker.{Process, Step, call, tick, finish, stop}
use accord.Git.Worker.History.{Log, empty_log, log_end}
use accord.Git.Worker.Runs.{log_step, Reach, start, next}
use accord.InventoryProcess.{
  IsResourceKey, InventoryProcess, shared, is_call, Change, event, background, Run, fresh, later,
}

abbrev pub path_of : Call → Bytes
path_of (export_call job) = job.path
path_of (archive_call path) = path

module _ (d : ReconcileDeps) (req : ObjectKey) (kind : Bytes) where
  -- The worker is left alone, or it is called once, for the export path of the resource.
  abbrev pub AsksOnce : BatchWorker → BatchWorker → Type 0
  AsksOnce w w' =
      (w' ≡ w) ⊎ ((c : Call) × (w' ≡ run_call c w) × (export_path d req kind ≡ ok (path_of c)))

  export_asks :
      (r : Outcome RenderError Bytes) (yaml : Bytes) (st : ReconcileState)
      → export_path d req kind ≡ r
      → AsksOnce st.git_queue (enqueue_export d req kind r yaml st).1.git_queue
  unfolding run_call
  export_asks (err e) yaml st known = inl refl
  export_asks (ok path) yaml st known =
      inr (export_call (record { path = path; content = yaml }), refl, known)

  delete_asks :
      (r : Outcome RenderError Bytes) (st : ReconcileState)
      → export_path d req kind ≡ r
      → AsksOnce st.git_queue (enqueue_delete d req kind r st).1.git_queue
  unfolding run_call
  delete_asks (err e) st known = inl refl
  delete_asks (ok path) st known = inr (archive_call path, refl, known)

  handle_asks :
      (obj : Watched) (st : ReconcileState)
      → AsksOnce st.git_queue (handle d req kind obj st).1.git_queue
  handle_asks obj st =
      elim (Outcome-cases (normalized_yaml_and_material_hash d.codec obj.marshalled)) [
        | inr (e, refused) ↦ inl (unfold handle in rw (handle, refused) refl)
        | inl ((yaml, hash), normal) ↦ elim (Bool-cases (is_skipped d req kind obj hash st)) [
          | inl skipped ↦ rw (handle_if d req kind obj yaml hash st normal, skipped) (inl refl)
          | inr changed ↦
              rw (handle_if d req kind obj yaml hash st normal, changed)
                (export_asks (export_path d req kind) yaml
                  (record st { cache = cache_set (cache_key d req kind) hash st.cache }) refl)
        ]
      ]

  pub reconcile_asks :
      (answer : GetAnswer) (st : ReconcileState)
      → AsksOnce st.git_queue (reconcile d req kind answer st).1.git_queue
  unfolding reconcile
  reconcile_asks (found obj) st = handle_asks obj st
  reconcile_asks get_failed st = inl refl
  reconcile_asks not_found st = delete_asks (export_path d req kind) _ refl

-- With the default template the export path of a resource of Argo CD is a live path.
export_path-IsLive :
    (d : ReconcileDeps) (req : ObjectKey) (kind path : Bytes)
    → RendersDefault d.parse_template
    → d.export_path_tmpl ≡ default_export_path_template
    → IsArgoKind kind
    → IsResourceKey req
    → export_path d req kind ≡ ok path
    → IsLive path
unfolding export_path
export_path-IsLive d req kind path renders usual k key e = record {
  plural = argo_plural_kind kind;
  namespace = req.namespace;
  name = req.name;
  plural_known = IsPlural-argo_plural_kind kind k;
  namespace_plain = key.namespace_plain;
  name_plain = key.name_plain;
  written = ok-injective (
      sym e
      ∙ ap (λ t. render_export_path d.parse_template t kind req.namespace req.name) usual
      ∙ render_default d.parse_template kind req.namespace req.name renders);
}

module _ (H : Host) (cfg : InventoryControllerConfig) (d : ReconcileDeps) where
  log_end-asked :
      (how : FlushEnd) (batch : Dict PendingExport) (l : Log)
      → (log_end how batch l).asked ≡ l.asked
  log_end-asked dropped batch l = refl
  log_end-asked published batch l = refl
  log_end-asked failed batch l = refl

  log_step-asked :
      {s t : Process H cfg} (x : Step H cfg s t) (l : Log)
      → is_call H cfg d x ≡ false
      → (log_step H cfg x l).asked ≡ l.asked
  log_step-asked (call c e) l quiet = cc
  log_step-asked (tick running idle e) l quiet = refl
  log_step-asked {s} (finish batch busy e) l quiet =
      log_end-asked (flush_batch H cfg batch s.host).1 batch l
  log_step-asked (stop running idle e) l quiet = refl

  -- A run of the whole is one of the worker, in which all calls name live paths.
  abbrev pub AsksLive : H.State → Process H cfg → Type 0
  AsksLive h p = (l : Log) × Reach H cfg h l p × All (λ c. IsLive (path_of c)) l.asked

  module _ (renders : RendersDefault d.parse_template)
      (usual : d.export_path_tmpl ≡ default_export_path_template) where
    event_step :
        (h : H.State) (kind : Bytes) (req : ObjectKey) (s t : InventoryProcess H cfg d)
        → IsArgoKind kind
        → IsResourceKey req
        → t.git ≡ record s.git { worker = t.git.worker }
        → AsksOnce d req kind s.git.worker t.git.worker
        → AsksLive h s.git
        → AsksLive h t.git
    event_step h kind req s t k key rest (inl same) (l, r, live) = (
      l,
      subst (Reach H cfg h l) (sym (rest ∙ ap (λ w. record s.git { worker = w }) same)) r,
      live,
    )
    event_step h kind req s t k key rest (inr (c, called, path)) (l, r, live) = (
      record l { asked = c ∷ l.asked },
      next r (call c (rest ∙ ap (λ w. record s.git { worker = w }) called)),
      (export_path-IsLive d req kind (path_of c) renders usual k key path, live),
    )

    change_step :
        (h : H.State) {s t : InventoryProcess H cfg d}
        → Change H cfg d s t
        → AsksLive h s.git
        → AsksLive h t.git
    change_step h {s} {t} (event kind req answer k key e) a =
        event_step h kind req s t k key
          (ap (λ u. u.git) e
            ∙ ap (λ w. record s.git { worker = w }) (sym (ap (λ u. u.git.worker) e)))
          (subst (AsksOnce d req kind s.git.worker) (sym (ap (λ u. u.git.worker) e))
            (reconcile_asks d req kind answer (shared H cfg d s)))
          a
    change_step h (background x quiet same) (l, r, live) = (
      log_step H cfg x l,
      next r x,
      subst (All (λ c. IsLive (path_of c))) (sym (log_step-asked x l quiet)) live,
    )

    pub Run-AsksLive :
        (h : H.State) {s : InventoryProcess H cfg d} → Run H cfg d h s → AsksLive h s.git
    Run-AsksLive h fresh = (empty_log, start, tt)
    Run-AsksLive h (later r x) = change_step h x (Run-AsksLive h r)
