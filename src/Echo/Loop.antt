-- ===== src/Echo/Loop.antt =====
-- A change of a resource on its whole way: internal/inventory/reconciler.go exports it, internal/sync
-- applies the file, and internal/inventory/reconciler.go sees what was applied.
use accord.Base.{[], none, some, Bytes, false, ok, ok-injective, ◌≡◌, ◌≢◌, refl, sym, ap, ◌∙◌}
use accord.Strings.{slash, dot, has_suffix}
use accord.Strings.Parts.{Lacks}
use accord.Strings.Cleaning.{IsPlain}
use accord.Dict.{lookup}
use accord.Json.{Json, Codec}
use accord.Config.{default_export_path_template}
use accord.Inventory.Normalize.{
  sync_content_hash_annotation_key, first_yaml_document, normalized_map_from_runtime_object,
  normalized_yaml_and_material_hash,
}
use accord.Inventory.Normalize.Exported.{ReadsBack, material_hash-export}
use accord.Inventory.ExportPath.{cache_set, render_export_path}
use accord.Inventory.ExportPath.Laws.{RendersDefault, IsArgoKind, parse-render_default}
use accord.Inventory.Reconciler.{
  ReconcileDeps, ReconcileState, ObjectKey, Watched, cache_key, export_path, handle,
}
use accord.Inventory.Reconciler.Laws.{is_skipped, handle_if}
use accord.Git.Queue.{enqueue}
use accord.Sync.Path.{ParsedInventoryPath, yml, parse_inventory_export_path, argo_kind_from_plural}
use accord.Sync.Fetch.{fetch_github_raw_file}
use accord.Sync.Apply.{Objects, Cluster, argo_expected_api_version, with_hash, prepare}
use accord.Sync.Apply.Laws.{IsLawful, IsPrepared, prepare_iff}
use accord.Sync.Webhook.{WebhookHandler, applied, no_detail, result, apply_path}
use accord.Sync.Webhook.Renamed.{apply_path-taken}
use accord.Echo.{handle-prepare}

-- A name that the exported path can be read back to.
pub record IsReadable (req : ObjectKey) : Type 0 where
  pub namespace_plain : IsPlain req.namespace
  pub name_plain : Lacks slash req.name
  pub named : req.name ≢ []
  pub undotted : req.name ≢ dot
  pub other_ending : has_suffix req.name yml ≡ false

-- The first document of a file is read as an object, and this is the resource of Argo CD.
pub record Describes (O : Objects) (c : Codec) (req : ObjectKey) (kind yaml : Bytes)
    (manifest : O.Object) : Type 0 where
  pub json : Bytes
  pub converted : c.yaml_to_json (first_yaml_document yaml) ≡ some json
  pub decoded : O.unmarshal_json json ≡ some manifest
  pub api_version : O.api_version manifest ≡ argo_expected_api_version
  pub kind_same : O.kind manifest ≡ kind
  pub namespace : O.namespace manifest ≡ req.namespace
  pub name : O.name manifest ≡ req.name

module _ (d : ReconcileDeps) (req : ObjectKey) (kind : Bytes) where
  module _ (renders : RendersDefault d.parse_template)
      (usual : d.export_path_tmpl ≡ default_export_path_template) (known : IsArgoKind kind)
      (r : IsReadable req) where
    pub read_back :
        (path : Bytes)
        → export_path d req kind ≡ ok path
        → (parsed : ParsedInventoryPath) × (parse_inventory_export_path path ≡ some parsed)
          × (argo_kind_from_plural parsed.plural_kind ≡ ok kind)
          × (parsed.namespace ≡ req.namespace)
          × (parsed.name ≡ req.name)
    unfolding export_path
    read_back path e =
        let (p, parsed, rendered, managed, same_kind, same_namespace, same_name) =
          parse-render_default d.parse_template kind req.namespace req.name renders known
            r.namespace_plain r.name_plain r.named r.undotted r.other_ending in
        let same : p ≡ path = ok-injective (
          sym rendered
          ∙ ap (λ t. render_export_path d.parse_template t kind req.namespace req.name) (sym usual)
          ∙ e) in
        (
          parsed,
          ap parse_inventory_export_path (sym same) ∙ managed,
          same_kind,
          same_namespace,
          same_name,
        )

  -- The file of the resource is accepted for it.
  prepared :
      (O : Objects) (parsed : ParsedInventoryPath) (m : Json) (yaml hash : Bytes)
      (written : Watched) (manifest : O.Object)
      → argo_kind_from_plural parsed.plural_kind ≡ ok kind
      → parsed.namespace ≡ req.namespace
      → parsed.name ≡ req.name
      → normalized_map_from_runtime_object d.codec written.marshalled ≡ ok m
      → ReadsBack d.codec m
      → normalized_yaml_and_material_hash d.codec written.marshalled ≡ ok (yaml, hash)
      → Describes O d.codec req kind yaml manifest
      → prepare O d.codec parsed yaml ≡ ok (with_hash O hash manifest)
  prepared O parsed m yaml hash written manifest same_kind same_namespace same_name normal back
        exported f =
      let p : IsPrepared O d.codec parsed yaml (with_hash O hash manifest) = record {
        hash = hash;
        json = f.json;
        manifest = manifest;
        hashed = material_hash-export d.codec written.marshalled m yaml hash normal back exported;
        converted = f.converted;
        decoded = f.decoded;
        permitted = record {
          api_version = f.api_version;
          kind = same_kind ∙ ap ok (sym f.kind_same);
          namespace = f.namespace ∙ sym same_namespace;
          name = f.name ∙ sym same_name;
        };
        tagged = refl;
      } in
      (prepare_iff O d.codec parsed yaml (with_hash O hash manifest)).1 p

  module _ (O : Objects) (K : Cluster O) (h : WebhookHandler) (L : IsLawful O) where
    -- A change of a resource makes its whole way and comes to rest. Its first event enqueues its YAML at
    -- its export path; a push whose commit has this YAML at this path has the resource applied, with its
    -- identity and the hash of the exported content; and the event of an object that shows what was
    -- applied succeeds without any effect, whatever is cached and pending then. It holds for the default
    -- template and a name that its path can be read back to, where both operators have one codec, which
    -- reads back the normal form of the object, the exported file is read as the resource, the API
    -- server takes the patch, and the first event is of a content that is neither annotated nor cached.
    pub loop_closes :
        (written seen : Watched) (m : Json) (yaml hash path full_name sha : Bytes)
        (manifest : O.Object) (first later : ReconcileState) (s : K.State)
        → RendersDefault d.parse_template
        → d.export_path_tmpl ≡ default_export_path_template
        → IsArgoKind kind
        → IsReadable req
        → export_path d req kind ≡ ok path
        → normalized_map_from_runtime_object d.codec written.marshalled ≡ ok m
        → ReadsBack d.codec m
        → normalized_yaml_and_material_hash d.codec written.marshalled ≡ ok (yaml, hash)
        → is_skipped d req kind written hash first ≡ false
        → h.codec ≡ d.codec
        → fetch_github_raw_file h.http_client h.github_token full_name sha path ≡ ok yaml
        → Describes O d.codec req kind yaml manifest
        → (K.patch s (with_hash O hash manifest)).1 ≡ none
        → normalized_map_from_runtime_object d.codec seen.marshalled ≡ ok m
        → lookup sync_content_hash_annotation_key seen.annotations
          ≡ lookup sync_content_hash_annotation_key (O.annotations (with_hash O hash manifest))
        → (handle d req kind written first ≡ (
          ok tt,
          record {
            cache = cache_set (cache_key d req kind) hash first.cache;
            git_queue = enqueue (record { path = path; content = yaml }) first.git_queue;
          },
        ))
          × (apply_path O K h full_name sha path s
              ≡ (result path applied no_detail, (K.patch s (with_hash O hash manifest)).0))
          × (handle d req kind seen later ≡ (ok tt, later))
    loop_closes written seen m yaml hash path full_name sha manifest first later s renders usual
          known r rendered normal back exported fresh one_codec fetched f taken same_form
          same_stamp =
        let (parsed, managed, same_kind, same_namespace, same_name) =
          read_back renders usual known r path rendered in
        let sent = with_hash O hash manifest in
        let good : prepare O d.codec parsed yaml ≡ ok sent =
          prepared O parsed m yaml hash written manifest same_kind same_namespace same_name normal
            back exported f in
        (
          rw (handle_if d req kind written yaml hash first exported, fresh, rendered) refl,
          apply_path-taken O K h L full_name sha path yaml parsed sent s managed fetched
              (ap (λ c. prepare O c parsed yaml) one_codec ∙ good) taken,
          handle-prepare d req kind O L parsed written seen m yaml hash sent later normal back
              exported good same_form same_stamp,
        )
