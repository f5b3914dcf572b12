-- ===== src/Inventory/Reconciler.antt =====
-- internal/inventory/reconciler.go: an event of a watched resource. `client.Get` answers with the
-- object, with "not found" or with an error; it is a parameter of each event.
pub mod Laws
use accord.Base.{
  [], ◌∷◌, Bool, true, false, Bytes, codes, ◌==◌, Option, none, some, if◌then◌else◌, Outcome, ok,
  err,
}
use accord.Json.{Codec}
use accord.Dict.{Dict, lookup}
use accord.Inventory.Normalize.{
  NormalizeError, normalized_yaml_and_material_hash, sync_content_hash_annotation_key,
}
use accord.Inventory.ExportPath.{
  HashCache, TemplateParser, RenderError, render_export_path, cache_get, cache_set, cache_delete,
  export_object_cache_key,
}
use accord.Git.Queue.{BatchWorker, enqueue, enqueue_archive}

-- The shared state of the reconcilers that events change.
pub record ReconcileState : Type 0 where
  pub cache : HashCache
  pub git_queue : BatchWorker

-- The parts that do not change: the codec, the template engine and the template.
pub record ReconcileDeps : Type 0 where
  pub codec : Codec
  pub parse_template : TemplateParser
  pub export_path_tmpl : Bytes

pub record ObjectKey : Type 0 where
  pub namespace : Bytes
  pub name : Bytes

-- A fetched object: its annotations, and its own JSON, which can fail to be written.
pub record Watched : Type 0 where
  pub annotations : Dict Bytes
  pub marshalled : Option Bytes

pub data GetAnswer : Type 0 where
  found : Watched → GetAnswer
  not_found get_failed : GetAnswer

pub data ReconcileError : Type 0 where
  normalize_failed : NormalizeError → ReconcileError
  render_failed render_for_delete_failed : RenderError → ReconcileError
  get_object_failed : ReconcileError

abbrev pub application : Bytes
application = codes "Application"

abbrev pub application_set : Bytes
application_set = codes "ApplicationSet"

-- `v, ok := m[k]; ok && v == hash`
unfoldable pub matches : Option Bytes → Bytes → Bool
matches none hash = false
matches (some v) hash = v == hash

abbrev pub Reply : Type 0
Reply = Outcome ReconcileError (Unit {0}) × ReconcileState

module _ (d : ReconcileDeps) (req : ObjectKey) (kind : Bytes) where
  unfoldable pub cache_key : Bytes
  cache_key = export_object_cache_key kind req.namespace req.name

  unfoldable pub export_path : Outcome RenderError Bytes
  export_path = render_export_path d.parse_template d.export_path_tmpl kind req.namespace req.name

  abbrev pub enqueue_export : Outcome RenderError Bytes → Bytes → ReconcileState → Reply
  enqueue_export (err e) yaml st = (err (render_failed e), st)
  enqueue_export (ok path) yaml st = (
    ok tt,
    record st { git_queue = enqueue (record { path = path; content = yaml }) st.git_queue },
  )

  -- The part of `handle` behind the hash.
  unfoldable pub handle_hash : Watched → Bytes → Bytes → ReconcileState → Reply
  handle_hash obj yaml current_hash st =
      if matches (lookup sync_content_hash_annotation_key obj.annotations) current_hash
      then (ok tt, st)
      else if matches (cache_get cache_key st.cache) current_hash
      then (ok tt, st)
      else enqueue_export export_path yaml
          (record st { cache = cache_set cache_key current_hash st.cache })

  unfoldable pub handle : Watched → ReconcileState → Reply
  handle obj st = elim (normalized_yaml_and_material_hash d.codec obj.marshalled) [
    | err e ↦ (err (normalize_failed e), st)
    | ok (yaml, current_hash) ↦ handle_hash obj yaml current_hash st
  ]

  abbrev pub enqueue_delete : Outcome RenderError Bytes → ReconcileState → Reply
  enqueue_delete (err e) st = (err (render_for_delete_failed e), st)
  enqueue_delete (ok path) st = (ok tt, record st { git_queue = enqueue_archive path st.git_queue })

  -- `Reconcile`, which the two reconcilers have alike but for the kind.
  unfoldable pub reconcile : GetAnswer → ReconcileState → Reply
  reconcile not_found st =
      enqueue_delete export_path (record st { cache = cache_delete cache_key st.cache })
  reconcile get_failed st = (err get_object_failed, st)
  reconcile (found obj) st = handle obj st

unfoldable pub reconcile_application :
    ReconcileDeps → ObjectKey → GetAnswer → ReconcileState → Reply
reconcile_application d req answer st = reconcile d req application answer st

unfoldable pub reconcile_application_set :
    ReconcileDeps → ObjectKey → GetAnswer → ReconcileState → Reply
reconcile_application_set d req answer st = reconcile d req application_set answer st
