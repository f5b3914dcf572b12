-- ===== src/Tests/Events.antt =====
-- Events of the guestbook, and the file that is exported for it.
use accord.Base.{
  ap, [], ◌∷◌, Option, none, some, Bytes, codes, ◌==◌, true, false, ◌||◌, if◌then◌else◌, ok, err,
  ◌≡◌, refl,
}
use accord.Dict.{lookup, dicts}
use accord.Hex.{hex_digit, encode_hex}
use accord.Json.{Json, object, text, no_fields, field, get, delete, Codec}
use accord.Config.{default_export_path_template}
use accord.Inventory.Normalize.{
  sync_content_hash_annotation_key, normalize_fields, normalize_kubernetes_object,
  normalized_map_from_runtime_object, normalized_yaml_and_material_hash,
}
use accord.Sync.Path.{applications}
use accord.Sync.Path.RoundTrip.{live_path}
use accord.Inventory.ExportPath.{
  execute_template_failed, render_export_path, new_hash_cache, cache_get, argo_plural_kind,
}
use accord.Git.Queue.{write, new_batch_worker}
use accord.Inventory.Reconciler.{
  ReconcileState, ReconcileDeps, ObjectKey, Watched, render_failed, matches, application,
  export_path, handle,
}
use accord.Inventory.Reconciler.Laws.{
  is_annotated, is_cached, lookup-handle, handle-again, handle-stale, handle-lost_retry,
}
use accord.Strings.{strings}
use accord.Inventory.Normalize.{first_part, first_yaml_document, material_hash_from_normalized_yaml}
use accord.Inventory.Normalize.Exported.{ReadsBack, material_hash-export}

abbrev spec : Bytes
spec = codes "spec"

-- A format in which an object is written as the text of its field "spec".
abbrev text_of : Option Json → Option Bytes
text_of (some (text s)) = some s
text_of _ = none

unfoldable pub marshal_spec : Json → Option Bytes
unfolding get
marshal_spec (object fs) = text_of (get spec fs)
marshal_spec _ = none

abbrev pub spec_codec : Codec
spec_codec = record {
  yaml_to_json = λ s. some s;
  json_to_yaml = λ s. some s;
  unmarshal_object = λ s. some (object (field spec (text s) no_fields));
  marshal = marshal_spec;
  sha256 = λ s. s;
}

abbrev pub version : Bytes → Watched
version v = record { annotations = []; marshalled = some v }

abbrev pub synced : Bytes → Bytes → Watched
synced v hash = record {
  annotations = (sync_content_hash_annotation_key, hash) ∷ [];
  marshalled = some v;
}

abbrev pub deps : ReconcileDeps
deps = record {
  codec = spec_codec;
  parse_template = λ t. some (λ d. some (live_path d.plural_kind d.namespace d.name));
  export_path_tmpl = default_export_path_template;
}

abbrev broken_deps : ReconcileDeps
broken_deps = record {
  codec = spec_codec;
  parse_template = λ t. some (λ d. none);
  export_path_tmpl = default_export_path_template;
}

abbrev pub key : ObjectKey
key = record { namespace = codes "argocd"; name = codes "guestbook" }

abbrev pub idle : ReconcileState
idle = record { cache = new_hash_cache; git_queue = new_batch_worker }

abbrev pub path : Bytes
path = live_path applications (codes "argocd") (codes "guestbook")

pub v1 :
    normalized_yaml_and_material_hash spec_codec (some (codes "v1")) ≡ ok (codes "v1", codes "7631")
unfolding normalized_yaml_and_material_hash normalized_map_from_runtime_object
    normalize_kubernetes_object normalize_fields delete get marshal_spec encode_hex hex_digit dicts
v1 = refl

v2 :
    normalized_yaml_and_material_hash spec_codec (some (codes "v2")) ≡ ok (codes "v2", codes "7632")
unfolding normalized_yaml_and_material_hash normalized_map_from_runtime_object
    normalize_kubernetes_object normalize_fields delete get marshal_spec encode_hex hex_digit dicts
v2 = refl

pub rendered : export_path deps key application ≡ ok path
unfolding export_path render_export_path argo_plural_kind dicts
rendered = refl

broken : export_path broken_deps key application ≡ err execute_template_failed
unfolding export_path render_export_path
broken = refl

plain-is_annotated : is_annotated (version (codes "v1")) (codes "7631") ≡ false
unfolding is_annotated matches lookup
plain-is_annotated = refl

synced-is_annotated : is_annotated (synced (codes "v2") (codes "7632")) (codes "7632") ≡ true
unfolding is_annotated matches dicts
synced-is_annotated = refl

idle-new :
    is_annotated (version (codes "v1")) (codes "7631")
      || is_cached broken_deps key application (codes "7631") idle
    ≡ false
unfolding is_annotated is_cached cache_get matches lookup
idle-new = refl

lookup-handle_example :
    lookup path (handle deps key application (version (codes "v1")) idle).1.git_queue.pending ≡ (
      if is_annotated (version (codes "v1")) (codes "7631")
        || is_cached deps key application (codes "7631") idle
      then lookup path idle.git_queue.pending
      else if path == path
      then some (write (codes "v1"))
      else lookup path idle.git_queue.pending)
lookup-handle_example =
    lookup-handle deps key application (version (codes "v1")) (codes "v1") (codes "7631") path idle
      path v1 rendered

handle-again_example :
    handle deps key application
      (version (codes "v1"))
      (handle deps key application (version (codes "v1")) idle).1
    ≡ (ok tt, (handle deps key application (version (codes "v1")) idle).1)
handle-again_example =
    handle-again deps key application (version (codes "v1")) (codes "v1") (codes "7631") idle v1

handle-stale_example :
    handle deps key application
      (version (codes "v1"))
      (handle deps key application
        (synced (codes "v2") (codes "7632"))
        (handle deps key application (version (codes "v1")) idle).1).1
    ≡ (ok tt, (handle deps key application (version (codes "v1")) idle).1)
handle-stale_example =
    handle-stale deps key application (version (codes "v1")) (synced (codes "v2") (codes "7632"))
      (version (codes "v1")) (codes "v1") (codes "v2") (codes "v1") (codes "7631") (codes "7632")
      idle v1 plain-is_annotated v2 synced-is_annotated v1

handle-lost_retry_example :
    ((handle broken_deps key application (version (codes "v1")) idle).0
      ≡ err (render_failed execute_template_failed))
    × ((handle broken_deps key application
          (version (codes "v1"))
          (handle broken_deps key application (version (codes "v1")) idle).1).0
        ≡ ok tt)
    × ((handle broken_deps key application
          (version (codes "v1"))
          (handle broken_deps key application (version (codes "v1")) idle).1).1.git_queue
        ≡ idle.git_queue)
handle-lost_retry_example =
    handle-lost_retry broken_deps key application (version (codes "v1")) (codes "v1") (codes "7631")
      execute_template_failed idle v1 idle-new broken

abbrev pub v1_normal : Json
v1_normal = object (field spec (text (codes "v1")) no_fields)

pub v1-map : normalized_map_from_runtime_object spec_codec (some (codes "v1")) ≡ ok v1_normal
unfolding normalized_map_from_runtime_object normalize_kubernetes_object normalize_fields delete get
    dicts
v1-map = refl

v1-document : first_yaml_document (codes "v1") ≡ codes "v1"
unfolding first_yaml_document first_part strings
v1-document = refl

pub v1-ReadsBack : ReadsBack spec_codec v1_normal
unfolding marshal_spec get dicts
v1-ReadsBack json yaml e e' =
    let same : codes "v1" ≡ yaml = cc in (codes "v1", rw (← same) (ap some v1-document), refl)

material_hash-export_example :
    material_hash_from_normalized_yaml spec_codec (codes "v1") ≡ ok (codes "7631")
material_hash-export_example =
    material_hash-export spec_codec (some (codes "v1")) v1_normal (codes "v1") (codes "7631") v1-map
      v1-ReadsBack v1
