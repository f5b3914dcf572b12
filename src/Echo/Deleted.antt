-- ===== src/Echo/Deleted.antt =====
-- A deletion of a resource on its whole way: internal/inventory/reconciler.go has its file archived, and
-- internal/sync/webhook.go gets the push that archives it.
use accord.Base.{[], ◌∷◌, none, some, Bytes, codes, ok, ok-injective, ◌≡◌, refl, sym, ap, ◌∙◌}
use accord.Config.{default_export_path_template}
use accord.Inventory.ExportPath.{cache_delete, argo_plural_kind, render_export_path}
use accord.Inventory.ExportPath.Laws.{
  RendersDefault, IsArgoKind, IsPlural-argo_plural_kind, render_default,
}
use accord.Inventory.Reconciler.{
  ReconcileDeps, ReconcileState, ObjectKey, GetAnswer, cache_key, export_path, reconcile,
}
use accord.Git.ArchivePath.{archive_relative_path}
use accord.Git.ArchivePath.Laws.{archive_path, archive-live_path, parse-archive}
use accord.Git.Queue.{enqueue_archive}
use accord.Sync.Path.{ParsedInventoryPath, parse_inventory_export_path, argo_kind_from_plural}
use accord.Sync.Path.RoundTrip.{live_path}
use accord.Sync.Apply.{Objects, Cluster, Target, DeleteAnswer, accepted, refused}
use accord.Sync.Webhook.{
  WebhookHandler, WebhookResult, ignored, deleted, error, not_managed, already_gone, no_detail,
  delete_failed, result, apply_path, apply_paths, delete_target, delete_result, delete_managed,
  delete_path, delete_paths, process_push,
}
use accord.Echo.Loop.{IsReadable, read_back}

-- What the answer to a deletion is reported as.
abbrev pub answered : Bytes → DeleteAnswer → WebhookResult
answered p accepted = result p deleted no_detail
answered p DeleteAnswer.not_found = result p deleted already_gone
answered p (refused e) = result p error (delete_failed e)

module _ (d : ReconcileDeps) (req : ObjectKey) (kind : Bytes) where
  -- The resource as the API server is asked for it.
  abbrev pub resource : Target
  resource = record {
    group = codes "argoproj.io";
    version = codes "v1alpha1";
    kind = kind;
    namespace = req.namespace;
    name = req.name;
  }

  module _ (O : Objects) (K : Cluster O) (h : WebhookHandler) where
    deletes :
        (path : Bytes) (parsed : ParsedInventoryPath) (s : K.State)
        → parse_inventory_export_path path ≡ some parsed
        → argo_kind_from_plural parsed.plural_kind ≡ ok kind
        → parsed.namespace ≡ req.namespace
        → parsed.name ≡ req.name
        → delete_path O K h path s ≡ delete_result O K h path (K.delete s resource)
    unfolding delete_path delete_managed delete_target
    deletes path parsed s managed same_kind same_namespace same_name =
        rw (managed, delete_path, same_kind, delete_managed, same_namespace, same_name) refl

    reported :
        (p : Bytes) (s : K.State) (a : DeleteAnswer)
        → delete_result O K h p (s, a) ≡ (answered p a, s)
    unfolding delete_result
    reported p s accepted = refl
    reported p s DeleteAnswer.not_found = refl
    reported p s (refused e) = refl

    moved :
        (full_name sha path to : Bytes) (s : K.State)
        → parse_inventory_export_path to ≡ none
        → delete_path O K h path s ≡ delete_result O K h path (K.delete s resource)
        → process_push O K h
            (record {
              full_name = full_name;
              head_sha = sha;
              added_modified = to ∷ [];
              removed = path ∷ [];
            })
            s
          ≡ (
            result to ignored not_managed ∷ answered path (K.delete s resource).1 ∷ [],
            (K.delete s resource).0,
          )
    unfolding process_push apply_paths delete_paths apply_path
    moved full_name sha path to s unmanaged asked =
        let done : delete_path O K h path s
            ≡ (answered path (K.delete s resource).1, (K.delete s resource).0) =
          asked ∙ reported path (K.delete s resource).0 (K.delete s resource).1 in
        let kept : apply_path O K h full_name sha to s ≡ (result to ignored not_managed, s) =
          rw (unmanaged, apply_path) refl in
        rw kept (rw done refl)

    -- A deletion of a resource comes back to the cluster. Its event forgets the cached hash and enqueues
    -- the archiving of its export path; and a push that moves this path to its path in the archive is
    -- answered in full: the archived file is ignored, and the API server is asked once to delete the
    -- resource of this kind, namespace and name, whichever it has by then. "deleted" is reported where
    -- the server accepts, and so deletes a resource that was created again in the meantime, or has none.
    -- It holds for the default template and a name that its path can be read back to.
    pub deletion_returns :
        (full_name sha path : Bytes) (st : ReconcileState) (s : K.State)
        → RendersDefault d.parse_template
        → d.export_path_tmpl ≡ default_export_path_template
        → IsArgoKind kind
        → IsReadable req
        → export_path d req kind ≡ ok path
        → (reconcile d req kind GetAnswer.not_found st ≡ (
          ok tt,
          record {
            cache = cache_delete (cache_key d req kind) st.cache;
            git_queue = enqueue_archive path st.git_queue;
          },
        ))
          × ((to : Bytes) × (archive_relative_path path ≡ ok to)
              × (process_push O K h
                    (record {
                      full_name = full_name;
                      head_sha = sha;
                      added_modified = to ∷ [];
                      removed = path ∷ [];
                    })
                    s
                  ≡ (
                    result to ignored not_managed ∷ answered path (K.delete s resource).1 ∷ [],
                    (K.delete s resource).0,
                  )))
    unfolding reconcile export_path
    deletion_returns full_name sha path st s renders usual known r e =
        let (parsed, managed, same_kind, same_namespace, same_name) =
          read_back d req kind renders usual known r path e in
        let plural = argo_plural_kind kind in
        let same : path ≡ live_path plural req.namespace req.name = ok-injective (
          sym e
          ∙ ap (λ t. render_export_path d.parse_template t kind req.namespace req.name) usual
          ∙ render_default d.parse_template kind req.namespace req.name renders) in
        let shelf = archive-live_path plural req.namespace req.name in
        let unmanaged =
          parse-archive plural req.namespace req.name (archive_path plural req.namespace req.name)
            (IsPlural-argo_plural_kind kind known) r.namespace_plain r.name_plain shelf in
        let queued : reconcile d req kind GetAnswer.not_found st ≡ (
          ok tt,
          record {
            cache = cache_delete (cache_key d req kind) st.cache;
            git_queue = enqueue_archive path st.git_queue;
          },
        ) =
          rw (reconcile, e) refl in
        (
          queued,
          (
            archive_path plural req.namespace req.name,
            ap archive_relative_path same ∙ shelf,
            moved full_name sha path (archive_path plural req.namespace req.name) s unmanaged
                (deletes path parsed s managed same_kind same_namespace same_name),
          ),
        )
