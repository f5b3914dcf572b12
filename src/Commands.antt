-- ===== src/Commands.antt =====
-- cmd/sync-operator/main.go, cmd/inventory-controller/main.go and cmd/mirror-upgrader/main.go: what the
-- programs do before they run their manager, and the exit code that they end with. The environment, the
-- parsed flags and controller-runtime are parameters; every failure ends the program with exit code 1, and a panic with 2.
pub mod Startup
pub mod Inventory
use accord.Base.{
  if◌then◌else◌, [], Bool, true, false, ℕ, Bytes, codes, Option, none, some, Outcome, ok, err,
  ◌>>=◌,
}
use accord.Json.{Codec}
use accord.Config.{
  ConfigError, InventoryControllerConfig, SyncOperatorConfig, load_inventory_controller_config,
  load_sync_operator_config,
}
use accord.Inventory.ExportPath.{HashCache, TemplateParser}
use accord.Inventory.ExportPath.{new_hash_cache}
use accord.Inventory.Reconciler.{ReconcileDeps, ReconcileState, application, application_set}
use accord.Inventory.Controller.{Controller, application_controller, application_set_controller}
use accord.Git.Queue.{BatchWorker, new_batch_worker, need_leader_election}
use accord.Sync.Path.{webhook_path}
use accord.Sync.GitHub.{PushEvent}
use accord.Sync.Fetch.{HttpClient}
use accord.Sync.Webhook.{WebhookHandler}
use accord.MirrorUpgrader.{UpgradeController, upgrade_controller}
use accord.Schemes.{new_scheme, new_inventory_scheme}
use accord.Bootstrap.{ManagerInputs, Runtime, new_manager}

-- The flags that each program defines.
pub record Flags : Type 0 where
  pub metrics_addr : Bytes
  pub probe_addr : Bytes
  pub enable_leader_election : Bool
  pub secure_metrics : Bool
  pub enable_http2 : Bool
  pub metrics_cert_path : Bytes
  pub metrics_cert_name : Bytes
  pub metrics_cert_key : Bytes
  pub webhook_cert_path : Bytes
  pub webhook_cert_name : Bytes
  pub webhook_cert_key : Bytes

-- The flags of a command line that sets none.
abbrev pub default_flags : Flags
default_flags = record {
  metrics_addr = codes "0";
  probe_addr = codes ":8081";
  enable_leader_election = false;
  secure_metrics = true;
  enable_http2 = false;
  metrics_cert_path = [];
  metrics_cert_name = codes "tls.crt";
  metrics_cert_key = codes "tls.key";
  webhook_cert_path = [];
  webhook_cert_name = codes "tls.crt";
  webhook_cert_key = codes "tls.key";
}

abbrev pub inputs_of : {Scheme : Type 0} → Scheme → Bytes → Flags → ManagerInputs Scheme
inputs_of scheme id flags = record {
  scheme = scheme;
  leader_election_id = id;
  metrics_addr = flags.metrics_addr;
  probe_addr = flags.probe_addr;
  enable_leader_election = flags.enable_leader_election;
  secure_metrics = flags.secure_metrics;
  enable_http2 = flags.enable_http2;
  metrics_cert_path = flags.metrics_cert_path;
  metrics_cert_name = flags.metrics_cert_name;
  metrics_cert_key = flags.metrics_cert_key;
  webhook_cert_path = flags.webhook_cert_path;
  webhook_cert_name = flags.webhook_cert_name;
  webhook_cert_key = flags.webhook_cert_key;
}

-- The calls of a manager; a result `none` is an error. `run` is its Start, which returns at a signal,
-- false for an error. `add` is given the worker with its settings, and whether it runs in the elected
-- replica only. `create_controller` and `create_upgrade_controller` are the builder of controllers
-- that `SetupWithManager` runs, the latter for the type MirrorUpgradeRequest.
pub record Calls (Manager : Type 0) : Type 1 where
  pub register : Bytes → WebhookHandler → Manager → Manager
  pub add : InventoryControllerConfig → BatchWorker → Bool → Manager → Option Manager
  pub create_controller : Controller → Manager → Option Manager
  pub create_upgrade_controller : UpgradeController → Manager → Option Manager
  pub add_healthz_check : Bytes → Manager → Option Manager
  pub add_readyz_check : Bytes → Manager → Option Manager
  pub run : Manager → Bool

-- The libraries that the webhook handler and the reconcilers call.
pub record Libraries : Type 0 where
  pub http_client : HttpClient
  pub codec : Codec
  pub decode_push : Bytes → Option PushEvent
  pub hmac_sha256 : Bytes → Bytes → Bytes
  pub parse_template : TemplateParser

-- Why a program ends before it runs its manager; `panicked` is where a scheme could not be filled.
pub data StartError : Type 0 where
  bad_config : ConfigError → StartError
  panicked manager_failed worker_not_added health_check_failed ready_check_failed : StartError
  controller_failed : Bytes → StartError

abbrev pub or_bad_config : {A : Type 0} → Outcome ConfigError A → Outcome StartError A
or_bad_config (ok a) = ok a
or_bad_config (err e) = err (bad_config e)

abbrev pub or_exit : {A : Type 0} → StartError → Option A → Outcome StartError A
or_exit e (some a) = ok a
or_exit e none = err e

module _ (L : Libraries) where
  abbrev pub handler_of : SyncOperatorConfig → WebhookHandler
  handler_of cfg = record {
    github_token = cfg.git_access_token;
    webhook_secret = cfg.webhook_secret;
    http_client = L.http_client;
    codec = L.codec;
    decode_push = L.decode_push;
    hmac_sha256 = L.hmac_sha256;
  }

  abbrev pub deps_of : InventoryControllerConfig → ReconcileDeps
  deps_of cfg = record {
    codec = L.codec;
    parse_template = L.parse_template;
    export_path_tmpl = cfg.export_path_template;
  }

module _ (R : Runtime) (C : Calls R.Manager) where
  abbrev pub add_checks : R.Manager → Outcome StartError R.Manager
  add_checks mgr =
      or_exit health_check_failed (C.add_healthz_check (codes "healthz") mgr) >>= λ mgr'.
      or_exit ready_check_failed (C.add_readyz_check (codes "readyz") mgr')

  abbrev exit_code : {A : Type 0} → (A → R.Manager) → Outcome StartError A → ℕ
  exit_code manager (err panicked) = 2
  exit_code manager (err e) = 1
  exit_code manager (ok op) = if C.run (manager op) then 0 else 1

  -- The manager that the sync operator runs, and its handler at `webhook_path`.
  pub record SyncOperator : Type 0 where
    pub handler : WebhookHandler
    pub manager : R.Manager

  unfoldable pub start_sync_operator :
      Libraries → (Bytes → Bytes) → Flags → Outcome StartError SyncOperator
  start_sync_operator L env flags = or_bad_config (load_sync_operator_config env) >>= λ cfg.
      or_exit panicked (new_inventory_scheme R.schemes) >>= λ scheme.
      or_exit manager_failed
        (new_manager R (inputs_of scheme (codes "accord-sync-operator.accord.io") flags))
      >>= λ mgr. add_checks (C.register webhook_path (handler_of L cfg) mgr) >>= λ mgr'.
          ok (record { handler = handler_of L cfg; manager = mgr' })

  unfoldable pub sync_operator_main : Libraries → (Bytes → Bytes) → Flags → ℕ
  sync_operator_main L env flags = exit_code (λ op. op.manager) (start_sync_operator L env flags)

  -- The manager that the inventory controller runs, the settings of its worker, the cache and the worker
  -- that its two reconcilers share, and what does not change of these.
  pub record InventoryController : Type 0 where
    pub config : InventoryControllerConfig
    pub shared : ReconcileState
    pub deps : ReconcileDeps
    pub manager : R.Manager

  unfoldable pub start_inventory_controller :
      Libraries → (Bytes → Bytes) → Flags → Outcome StartError InventoryController
  start_inventory_controller L env flags =
      or_bad_config (load_inventory_controller_config env) >>= λ cfg.
      or_exit panicked (new_inventory_scheme R.schemes) >>= λ scheme.
      or_exit manager_failed
        (new_manager R (inputs_of scheme (codes "accord-inventory.accord.io") flags))
      >>= λ mgr.
          or_exit worker_not_added
            (C.add cfg new_batch_worker (need_leader_election new_batch_worker) mgr)
          >>= λ mgr'.
              or_exit (controller_failed application)
                (C.create_controller (application_controller (deps_of L cfg)) mgr')
              >>= λ mgr''.
                  or_exit (controller_failed application_set)
                    (C.create_controller (application_set_controller (deps_of L cfg)) mgr'')
                  >>= λ mgr3. add_checks mgr3 >>= λ mgr4. ok (record {
                    config = cfg;
                    shared = record { cache = new_hash_cache; git_queue = new_batch_worker };
                    deps = deps_of L cfg;
                    manager = mgr4;
                  })

  unfoldable pub inventory_controller_main : Libraries → (Bytes → Bytes) → Flags → ℕ
  inventory_controller_main L env flags =
      exit_code (λ op. op.manager) (start_inventory_controller L env flags)

  -- The mirror upgrader has no settings but its flags.
  unfoldable pub start_mirror_upgrader : Flags → Outcome StartError R.Manager
  start_mirror_upgrader flags = or_exit panicked (new_scheme R.schemes) >>= λ scheme.
      or_exit manager_failed (new_manager R (inputs_of scheme (codes "b858da39.accord.io") flags))
      >>= λ mgr.
          or_exit (controller_failed (codes "MirrorUpgradeRequest"))
            (C.create_upgrade_controller upgrade_controller mgr)
          >>= λ mgr'. add_checks mgr'

  unfoldable pub mirror_upgrader_main : Flags → ℕ
  mirror_upgrader_main flags = exit_code (λ mgr. mgr) (start_mirror_upgrader flags)
