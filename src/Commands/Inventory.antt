-- ===== src/Commands/Inventory.antt =====
-- What the inventory controller starts with.
use accord.Base.{
  [], Bytes, codes, ◌==◌, eq_iff, some, ok, err, ◌≡◌, ◌≢◌, refl, ap, ◌∙◌, arith, false, inl, inr,
  Outcome-cases,
}
use accord.Strings.{slash, dot, has_suffix}
use accord.Strings.Parts.{Lacks}
use accord.Strings.Cleaning.{IsPlain}
use accord.Sync.Path.{yml}
use accord.Inventory.ExportPath.{render_export_path}
use accord.Inventory.ExportPath.Laws.{RendersDefault, IsArgoKind, parse-render_default}
use accord.Config.{
  InventoryControllerConfig, ConfigError, load_inventory_controller_config,
  default_export_path_template,
}
use accord.Inventory.Reconciler.{ObjectKey, export_path}
use accord.Sync.Path.{ParsedInventoryPath, parse_inventory_export_path, argo_kind_from_plural}
use accord.Base.{◌⊎◌}
use accord.Bootstrap.{Runtime, new_manager, options_of}
use accord.Git.Queue.{new_batch_worker, need_leader_election}
use accord.Inventory.Controller.{application_controller, application_set_controller}
use accord.Commands.Startup.{IsAvailable, filled_scheme}
use accord.Commands.{
  Calls, Libraries, Flags, InventoryController, start_inventory_controller, deps_of, bad_config,
  inputs_of,
}

loaded_template :
    (env : Bytes → Bytes) (cfg : InventoryControllerConfig)
    → env (codes "EXPORT_PATH_TEMPLATE") ≡ []
    → load_inventory_controller_config env ≡ ok cfg
    → cfg.export_path_template ≡ default_export_path_template
unfolding load_inventory_controller_config ◌==◌
loaded_template env cfg unset h = ground (arith, eq_iff (env (codes "EXPORT_PATH_TEMPLATE")) [])

module _ (R : Runtime) (C : Calls R.Manager) (L : Libraries) (env : Bytes → Bytes)
    (flags : Flags) where
  started_deps :
      (op : InventoryController R C)
      → start_inventory_controller R C L env flags ≡ ok op
      → (cfg : InventoryControllerConfig) × (load_inventory_controller_config env ≡ ok cfg)
        × (op.deps ≡ deps_of L cfg)
  unfolding start_inventory_controller
  started_deps op h = elim (Outcome-cases (load_inventory_controller_config env)) [
    | inl (cfg, loaded) ↦ (cfg, loaded, ground arith)
    | inr (e, bad) ↦ absurd (ground arith)
  ]

  started_path :
      (op : InventoryController R C) (kind : Bytes) (key : ObjectKey)
      → start_inventory_controller R C L env flags ≡ ok op
      → env (codes "EXPORT_PATH_TEMPLATE") ≡ []
      → export_path op.deps key kind
        ≡ render_export_path L.parse_template default_export_path_template kind key.namespace
            key.name
  unfolding export_path
  started_path op kind key h unset =
      let (cfg, loaded, same) = started_deps op h in
      ap (λ d. render_export_path d.parse_template d.export_path_tmpl kind key.namespace key.name)
        same
      ∙ ap (λ t. render_export_path L.parse_template t kind key.namespace key.name)
          (loaded_template env cfg unset loaded)

  -- Where the manager can be created and takes what it is asked to run, the inventory controller ends
  -- with the error of its settings if these cannot be loaded. Otherwise it starts, its worker and its
  -- reconcilers with the loaded settings, and nothing cached or pending.
  pub start_inventory_controller-config :
      IsAvailable R C
      → ((e : ConfigError) × (load_inventory_controller_config env ≡ err e)
          × (start_inventory_controller R C L env flags ≡ err (bad_config e)))
        ⊎ ((op : InventoryController R C) × (start_inventory_controller R C L env flags ≡ ok op)
            × (load_inventory_controller_config env ≡ ok op.config)
            × (op.deps ≡ deps_of L op.config)
            × (op.shared ≡ record { cache = []; git_queue = new_batch_worker }))
  unfolding start_inventory_controller new_manager
  start_inventory_controller-config a =
      elim (Outcome-cases (load_inventory_controller_config env)) [
        | inr (e, bad) ↦ inl (e, bad, ground arith)
        | inl (cfg, loaded) ↦
            let d = deps_of L cfg in
            let (scheme, filled) = filled_scheme R C a in
            let (m1, created) =
              a.create
                (options_of R (inputs_of scheme (codes "accord-inventory.accord.io") flags)) in
            let (m2, added) =
              a.add cfg new_batch_worker (need_leader_election new_batch_worker) m1 in
            let (m3, first) = a.create_controller (application_controller d) m2 in
            let (m4, second) = a.create_controller (application_set_controller d) m3 in
            let (m5, healthy) = a.add_healthz_check (codes "healthz") m4 in
            let (m6, ready) = a.add_readyz_check (codes "readyz") m5 in
            inr (
              record {
                config = cfg;
                shared = record { cache = []; git_queue = new_batch_worker };
                deps = d;
                manager = m6;
              },
              rw
                  (
                    start_inventory_controller, loaded, filled, created, added, first, second,
                    healthy, ready,
                  )
                  refl,
              loaded,
              refl,
              refl,
            )
      ]

  -- An inventory controller that starts without EXPORT_PATH_TEMPLATE renders for a resource of Argo CD
  -- the path that the sync operator reads back as that resource: its kind, namespace and name. The
  -- template engine fills in the three fields, the namespace is a plain path element, and the name holds
  -- no slash, is neither empty nor ".", and does not end in ".yml".
  pub start_inventory_controller-path :
      (op : InventoryController R C) (kind : Bytes) (key : ObjectKey)
      → start_inventory_controller R C L env flags ≡ ok op
      → env (codes "EXPORT_PATH_TEMPLATE") ≡ []
      → RendersDefault L.parse_template
      → IsArgoKind kind
      → IsPlain key.namespace
      → Lacks slash key.name
      → key.name ≢ []
      → key.name ≢ dot
      → has_suffix key.name yml ≡ false
      → (path : Bytes) × (parsed : ParsedInventoryPath) × (export_path op.deps key kind ≡ ok path)
        × (parse_inventory_export_path path ≡ some parsed)
        × (argo_kind_from_plural parsed.plural_kind ≡ ok kind)
        × (parsed.namespace ≡ key.namespace)
        × (parsed.name ≡ key.name)
  start_inventory_controller-path op kind key h unset renders known plain lacks named undotted
        other =
      let (path, parsed, rendered, read, same_kind, same_namespace, same_name) =
        parse-render_default L.parse_template kind key.namespace key.name renders known plain lacks
          named undotted other in
      (
        path,
        parsed,
        started_path op kind key h unset ∙ rendered,
        read,
        same_kind,
        same_namespace,
        same_name,
      )
