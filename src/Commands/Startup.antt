-- ===== src/Commands/Startup.antt =====
-- The programs start, and what they start is guarded as configured.
use mathlib.Core.Path.{subst}
use accord.Base.{
  ◌⊎◌, [], ◌∷◌, Bool, Bytes, codes, ◌==◌, some, ok, err, ◌≡◌, ◌≢◌, refl, ap, ◌∙◌, arith, Bool-cases,
  true, false, inl, inr, Outcome-cases, if◌then◌else◌,
}
use accord.Strings.{trim_space}
use accord.Config.{
  webhook_secret_not_set, SyncOperatorConfig, InventoryControllerConfig, env_webhook_secret,
  load_sync_operator_config,
}
use accord.Sync.Hmac.Laws.{IsSignature}
use accord.Sync.Path.{webhook_path}
use accord.Sync.Fetch.{take}
use accord.Sync.Apply.{Objects, Cluster}
use accord.Sync.Webhook.{Request, body_limit, serve_http}
use accord.Sync.Webhook.Access.{serve_cases}
use accord.Schemes.{unstructured, argo_group_version, new_inventory_scheme}
use accord.Bootstrap.{Runtime, new_manager, options_of, Options}
use accord.Git.Queue.{BatchWorker}
use accord.Inventory.Controller.{Controller}
use accord.Commands.{
  Calls, Libraries, Flags, SyncOperator, inputs_of, sync_operator_main, start_sync_operator,
  handler_of, bad_config,
}

-- What the environment makes of the settings.
loaded_secret :
    (env : Bytes → Bytes) (cfg : SyncOperatorConfig)
    → load_sync_operator_config env ≡ ok cfg
    → ((trim_space (env env_webhook_secret) == []) ≡ false)
      × (cfg.webhook_secret ≡ env env_webhook_secret)
unfolding load_sync_operator_config
loaded_secret env cfg h = ground arith

load_with_secret :
    (env : Bytes → Bytes)
    → (trim_space (env env_webhook_secret) == []) ≡ false
    → (cfg : SyncOperatorConfig) × (load_sync_operator_config env ≡ ok cfg)
unfolding load_sync_operator_config
load_with_secret env set = (
  record {
    webhook_secret = env env_webhook_secret;
    git_access_token = env (codes "GIT_ACCESS_TOKEN");
  },
  rw set refl,
)

-- The scheme takes the types of client-go, and the manager is created and takes what it is asked to
-- run.
pub record IsAvailable (R : Runtime) (C : Calls R.Manager) : Type 0 where
  pub fill : (s : R.schemes.Scheme) × (R.schemes.add_client_go_to_scheme R.schemes.new ≡ some s)
  pub create :
      (o : Options R.schemes.Scheme R.Filter R.Server) → (m : R.Manager) × (R.create o ≡ some m)
  pub add :
      (cfg : InventoryControllerConfig) (w : BatchWorker) (b : Bool) (m : R.Manager)
      → (n : R.Manager) × (C.add cfg w b m ≡ some n)
  pub create_controller :
      (c : Controller) (m : R.Manager) → (n : R.Manager) × (C.create_controller c m ≡ some n)
  pub add_healthz_check :
      (name : Bytes) (m : R.Manager) → (n : R.Manager) × (C.add_healthz_check name m ≡ some n)
  pub add_readyz_check :
      (name : Bytes) (m : R.Manager) → (n : R.Manager) × (C.add_readyz_check name m ≡ some n)

pub filled_scheme :
    (R : Runtime) (C : Calls R.Manager)
    → IsAvailable R C
    → (s : R.schemes.Scheme) × (new_inventory_scheme R.schemes ≡ some s)
unfolding new_inventory_scheme
filled_scheme R C a =
    let (s, known) = a.fill in
    let told = R.schemes.add_known_types argo_group_version (unstructured ∷ []) s in
    let filled : new_inventory_scheme R.schemes
        ≡ some (R.schemes.add_to_group_version argo_group_version told) =
      rw (new_inventory_scheme, known) refl in
    (R.schemes.add_to_group_version argo_group_version told, filled)

module _ (R : Runtime) (C : Calls R.Manager) (L : Libraries) (env : Bytes → Bytes)
    (flags : Flags) where
  started_handler :
      (op : SyncOperator R C)
      → start_sync_operator R C L env flags ≡ ok op
      → (cfg : SyncOperatorConfig) × (load_sync_operator_config env ≡ ok cfg)
        × (op.handler ≡ handler_of L cfg)
  unfolding start_sync_operator
  started_handler op h = elim (Outcome-cases (load_sync_operator_config env)) [
    | inl (cfg, loaded) ↦ (cfg, loaded, ground arith)
    | inr (e, bad) ↦ absurd (ground arith)
  ]

  -- Where the manager can be created and takes its checks, the sync operator ends with the error
  -- that names WEBHOOK_SECRET, and exit code 1, if that is blank; else it starts, and its exit code
  -- tells whether the manager ran without an error.
  pub start_sync_operator-secret :
      IsAvailable R C
      → (((trim_space (env env_webhook_secret) == []) ≡ true)
          × (start_sync_operator R C L env flags ≡ err (bad_config webhook_secret_not_set))
          × (sync_operator_main R C L env flags ≡ 1))
        ⊎ (((trim_space (env env_webhook_secret) == []) ≡ false)
            × ((op : SyncOperator R C) × (start_sync_operator R C L env flags ≡ ok op)
                × (sync_operator_main R C L env flags ≡ (if C.run op.manager then 0 else 1))))
  unfolding sync_operator_main start_sync_operator load_sync_operator_config new_manager
  start_sync_operator-secret a = elim (Bool-cases (trim_space (env env_webhook_secret) == [])) [
    | inl blank ↦ inl (blank, ground arith, ground arith)
    | inr set ↦
        let (cfg, loaded) = load_with_secret env set in
        let (scheme, filled) = filled_scheme R C a in
        let (m1, created) =
          a.create
            (options_of R (inputs_of scheme (codes "accord-sync-operator.accord.io") flags)) in
        let (m2, healthy) =
          a.add_healthz_check (codes "healthz") (C.register webhook_path (handler_of L cfg) m1) in
        let (m3, ready) = a.add_readyz_check (codes "readyz") m2 in
        inr (
          set,
          (
            record { handler = handler_of L cfg; manager = m3 },
            rw (start_sync_operator, loaded, filled, created, healthy, ready) refl,
            rw (sync_operator_main, start_sync_operator, loaded, filled, created, healthy, ready)
                refl,
          ),
        )
  ]

  module _ (O : Objects) (K : Cluster O) (r : Request) (s : K.State) where
    -- Whatever the flags: if the sync operator starts, its handler changes the cluster only for a
    -- request whose body is signed under the value of WEBHOOK_SECRET, which is not blank then.
    pub start_sync_operator-signed :
        (op : SyncOperator R C)
        → start_sync_operator R C L env flags ≡ ok op
        → (serve_http O K op.handler r s).1 ≢ s
        → ((trim_space (env env_webhook_secret) == []) ≡ false)
          × ((body : Bytes) × (r.body ≡ some body)
              × IsSignature r.signature
                  (L.hmac_sha256 (env env_webhook_secret) (take body_limit body)))
    start_sync_operator-signed op h changed =
        let (cfg, loaded, same) = started_handler op h in
        let (set, secret) = loaded_secret env cfg loaded in
        elim (serve_cases O K op.handler r s) [
          | inl (e, kept) ↦ absurd (changed (ap (λ x. x.1) kept))
          | inr (push, accepted, done) ↦
              let tag : op.handler.hmac_sha256 op.handler.webhook_secret
                    (take body_limit accepted.body)
                  ≡ L.hmac_sha256 (env env_webhook_secret) (take body_limit accepted.body) =
                ap (λ x. x.hmac_sha256 x.webhook_secret (take body_limit accepted.body)) same
                ∙ ap (λ k. L.hmac_sha256 k (take body_limit accepted.body)) secret in
              (
                set,
                (
                  accepted.body,
                  accepted.readable,
                  subst (IsSignature r.signature) tag accepted.signed,
                ),
              )
        ]
