-- ===== src/Inventory/Reconciler/Laws.antt =====
-- What a sequence of events of one object does to the cache and to the queue.
use accord.Base.{
  Bool, true, false, ◌||◌, Bool-cases, inl, inr, Bytes, some, ◌==◌, eq_refl, if◌then◌else◌, Outcome,
  ok, err, ◌≡◌, refl, ◌∙◌, ap,
}
use accord.Dict.{lookup}
use accord.Dict.Laws.{lookup-insert, lookup-erase}
use accord.Inventory.Normalize.{normalized_yaml_and_material_hash, sync_content_hash_annotation_key}
use accord.Inventory.ExportPath.{RenderError, cache_get, cache_set, cache_delete}
use accord.Inventory.Reconciler.{
  ReconcileState, ReconcileDeps, ObjectKey, Watched, found, not_found, render_failed, matches,
  cache_key, export_path, handle_hash, handle, reconcile, Reply, enqueue_export,
}
use accord.Git.Queue.{write, archive, enqueue, enqueue_archive}

-- The annotation names the hash.
unfoldable pub is_annotated : Watched → Bytes → Bool
is_annotated obj hash = matches (lookup sync_content_hash_annotation_key obj.annotations) hash

if_or :
    {A : Type 0} (a b : Bool) (x y : A)
    → (if a then x else if b then x else y) ≡ (if a || b then x else y)
if_or true b x y = refl
if_or false b x y = refl

if_or_true : (a : Bool) → a || true ≡ true
if_or_true true = refl
if_or_true false = refl

get-set :
    (k h : Bytes) (st : ReconcileState) → matches (cache_get k (cache_set k h st.cache)) h ≡ true
unfolding cache_get cache_set matches
get-set k h st = rw (lookup-insert k k h st.cache, eq_refl k, matches, eq_refl h)

get-delete :
    (k h : Bytes) (st : ReconcileState) → matches (cache_get k (cache_delete k st.cache)) h ≡ false
unfolding cache_get cache_delete matches
get-delete k h st = rw (lookup-erase k k st.cache, eq_refl k)

module _ (d : ReconcileDeps) (req : ObjectKey) (kind : Bytes) where
  -- The cache names the hash.
  unfoldable pub is_cached : Bytes → ReconcileState → Bool
  is_cached hash st = matches (cache_get (cache_key d req kind) st.cache) hash

  abbrev pub Normalizes : Watched → Bytes → Bytes → Type 0
  Normalizes obj yaml hash =
      normalized_yaml_and_material_hash d.codec obj.marshalled ≡ ok (yaml, hash)

  handle_of :
      (obj : Watched) (yaml hash : Bytes) (st : ReconcileState)
      → Normalizes obj yaml hash
      → handle d req kind obj st ≡ handle_hash d req kind obj yaml hash st
  unfolding handle handle_hash
  handle_of obj yaml hash st n = rw (handle, n)

  -- What `handle` does for an object that it does not skip.
  abbrev pub exported : Bytes → Bytes → ReconcileState → Reply
  exported yaml hash st =
      enqueue_export d req kind (export_path d req kind) yaml
        (record st { cache = cache_set (cache_key d req kind) hash st.cache })

  unfoldable pub is_skipped : Watched → Bytes → ReconcileState → Bool
  is_skipped obj hash st = is_annotated obj hash || is_cached hash st

  handle_hash_if :
      (obj : Watched) (yaml hash : Bytes) (st : ReconcileState)
      → handle_hash d req kind obj yaml hash st
        ≡ (if is_skipped obj hash st then (ok tt, st) else exported yaml hash st)
  unfolding handle_hash is_skipped is_annotated is_cached
  handle_hash_if obj yaml hash st =
      if_or (is_annotated obj hash) (is_cached hash st) (ok tt, st) (exported yaml hash st)

  pub handle_if :
      (obj : Watched) (yaml hash : Bytes) (st : ReconcileState)
      → Normalizes obj yaml hash
      → handle d req kind obj st
        ≡ (if is_skipped obj hash st then (ok tt, st) else exported yaml hash st)
  handle_if obj yaml hash st n = handle_of obj yaml hash st n ∙ handle_hash_if obj yaml hash st

  enqueue_export-cache :
      (r : Outcome RenderError Bytes) (yaml : Bytes) (st : ReconcileState)
      → (enqueue_export d req kind r yaml st).1.cache ≡ st.cache
  enqueue_export-cache (err e) yaml st = refl
  enqueue_export-cache (ok path) yaml st = refl

  exported-is_cached :
      (yaml hash : Bytes) (st : ReconcileState) → is_cached hash (exported yaml hash st).1 ≡ true
  unfolding is_cached
  exported-is_cached yaml hash st =
      rw (enqueue_export-cache (export_path d req kind) yaml _)
        (get-set (cache_key d req kind) hash st)

  -- After an event, an object with the same hash is skipped.
  handle-is_cached :
      (obj : Watched) (yaml hash : Bytes) (st : ReconcileState)
      → Normalizes obj yaml hash
      → is_annotated obj hash ≡ false
      → is_cached hash (handle d req kind obj st).1 ≡ true
  unfolding is_skipped
  handle-is_cached obj yaml hash st n a = elim (Bool-cases (is_cached hash st)) [
    | inl c ↦ rw (handle_if obj yaml hash st n, a, c) c
    | inr c ↦ rw (handle_if obj yaml hash st n, a, c) (exported-is_cached yaml hash st)
  ]

  -- The content of the queue after an event of an object that normalizes, at every path, when the
  -- export path is rendered: an object whose annotation or cached hash is the current hash leaves the
  -- queue as it was, any other one has its YAML pending at its path and the other paths as they were.
  pub lookup-handle :
      (obj : Watched) (yaml hash path : Bytes) (st : ReconcileState) (p : Bytes)
      → Normalizes obj yaml hash
      → export_path d req kind ≡ ok path
      → lookup p (handle d req kind obj st).1.git_queue.pending ≡ (
          if is_annotated obj hash || is_cached hash st
          then lookup p st.git_queue.pending
          else if path == p
          then some (write yaml)
          else lookup p st.git_queue.pending)
  unfolding is_skipped enqueue
  lookup-handle obj yaml hash path st p n e = elim (Bool-cases (is_skipped obj hash st)) [
    | inl c ↦ rw (handle_if obj yaml hash st n, c) refl
    | inr c ↦
        rw (handle_if obj yaml hash st n, c, e)
          (lookup-insert p path (write yaml) st.git_queue.pending)
  ]

  pub handle-skipped :
      (obj : Watched) (yaml hash : Bytes) (st : ReconcileState)
      → Normalizes obj yaml hash
      → is_skipped obj hash st ≡ true
      → handle d req kind obj st ≡ (ok tt, st)
  handle-skipped obj yaml hash st n c = rw (handle_if obj yaml hash st n, c) refl

  -- A second event of an object that has not changed has no effect, and it is answered with success: a
  -- resync or an echo of the export enqueues nothing.
  pub handle-again :
      (obj : Watched) (yaml hash : Bytes) (st : ReconcileState)
      → Normalizes obj yaml hash
      → handle d req kind obj (handle d req kind obj st).1 ≡ (ok tt, (handle d req kind obj st).1)
  unfolding is_skipped
  handle-again obj yaml hash st n = elim (Bool-cases (is_annotated obj hash)) [
    | inl a ↦ handle-skipped obj yaml hash _ n (rw a refl)
    | inr a ↦ handle-skipped obj yaml hash _ n (rw (a, handle-is_cached obj yaml hash st n a) refl)
  ]

  -- The cache keeps the hash of the last export only. An event of an object without the annotation,
  -- then any event of an object whose annotation names its own hash, then an object with the first
  -- hash again: the last event is ignored, so a change back to what was last exported is not exported,
  -- whatever the repository holds by then.
  pub handle-stale :
      (first applied third : Watched) (yaml yaml' yaml'' hash hash' : Bytes) (st : ReconcileState)
      → Normalizes first yaml hash
      → is_annotated first hash ≡ false
      → Normalizes applied yaml' hash'
      → is_annotated applied hash' ≡ true
      → Normalizes third yaml'' hash
      → handle d req kind third (handle d req kind applied (handle d req kind first st).1).1
        ≡ (ok tt, (handle d req kind first st).1)
  unfolding is_skipped
  handle-stale first applied third yaml yaml' yaml'' hash hash' st n a n' a' n'' =
      rw (handle-skipped applied yaml' hash' (handle d req kind first st).1 n' (rw a' refl)) (
        handle-skipped third yaml'' hash _ n''
          (rw (handle-is_cached first yaml hash st n a) (if_or_true (is_annotated third hash))))

  -- When the export path cannot be rendered, the first event of a new content fails and the retry
  -- succeeds without an export, because the hash is cached before the path is rendered.
  pub handle-lost_retry :
      (obj : Watched) (yaml hash : Bytes) (e : RenderError) (st : ReconcileState)
      → Normalizes obj yaml hash
      → is_annotated obj hash || is_cached hash st ≡ false
      → export_path d req kind ≡ err e
      → ((handle d req kind obj st).0 ≡ err (render_failed e))
        × ((handle d req kind obj (handle d req kind obj st).1).0 ≡ ok tt)
        × ((handle d req kind obj (handle d req kind obj st).1).1.git_queue ≡ st.git_queue)
  unfolding is_skipped
  handle-lost_retry obj yaml hash e st n c r =
      let again = handle-again obj yaml hash st n in
      (
        rw (handle_if obj yaml hash st n, c, r) refl,
        ap (λ x. x.0) again,
        ap (λ x. x.1.git_queue) again ∙ rw (handle_if obj yaml hash st n, c, r) refl,
      )

  -- An object that is deleted and created again, with any content whose annotation does not name its
  -- hash, is exported again: the write replaces the pending archive.
  pub reconcile-recreated :
      (obj : Watched) (yaml hash path : Bytes) (st : ReconcileState)
      → Normalizes obj yaml hash
      → is_annotated obj hash ≡ false
      → export_path d req kind ≡ ok path
      → (lookup path (reconcile d req kind not_found st).1.git_queue.pending ≡ some archive)
        × (lookup path
              (reconcile d req kind
                (found obj)
                (reconcile d req kind not_found st).1).1.git_queue.pending
            ≡ some (write yaml))
  unfolding reconcile enqueue_archive is_cached
  reconcile-recreated obj yaml hash path st n a e = (
    rw e (lookup-insert path path archive st.git_queue.pending ∙ rw (eq_refl path) refl),
    lookup-handle obj yaml hash path _ path n e
        ∙ rw (a, e, get-delete (cache_key d req kind) hash st, eq_refl path) refl,
  )
