-- ===== src/Bootstrap.antt =====
-- internal/bootstrap/manager.go: the options of a manager. controller-runtime is a parameter: its
-- manager, its webhook server and its metrics filter.
pub mod Guards
use accord.Base.{
  [], ◌∷◌, ◌==◌, List, Bool, true, false, not, Bytes, codes, Option, none, some, if◌then◌else◌,
}
use accord.Schemes.{SchemeLibrary}

-- The field of a `tls.Config` that an option changes.
pub record TlsConfig : Type 0 where
  pub next_protos : List Bytes

abbrev pub TlsOption : Type 0
TlsOption = TlsConfig → TlsConfig

pub record ManagerInputs (Scheme : Type 0) : Type 0 where
  pub scheme : Scheme
  pub leader_election_id : Bytes
  pub metrics_addr : Bytes
  pub probe_addr : Bytes
  pub enable_leader_election : Bool
  pub secure_metrics : Bool
  pub enable_http2 : Bool
  pub metrics_cert_path : Bytes
  pub metrics_cert_name : Bytes
  pub metrics_cert_key : Bytes
  pub webhook_cert_path : Bytes
  pub webhook_cert_name : Bytes
  pub webhook_cert_key : Bytes

-- `webhook.Options`
pub record WebhookOptions : Type 0 where
  pub tls_opts : List TlsOption
  pub cert_dir : Bytes
  pub cert_name : Bytes
  pub key_name : Bytes

-- `metricsserver.Options`
pub record MetricsOptions (Filter : Type 0) : Type 0 where
  pub bind_address : Bytes
  pub secure_serving : Bool
  pub tls_opts : List TlsOption
  pub filter_provider : Option Filter
  pub cert_dir : Bytes
  pub cert_name : Bytes
  pub key_name : Bytes

-- `ctrl.Options`
pub record Options (Scheme Filter Server : Type 0) : Type 0 where
  pub scheme : Scheme
  pub metrics : MetricsOptions Filter
  pub webhook_server : Server
  pub health_probe_bind_address : Bytes
  pub leader_election : Bool
  pub leader_election_id : Bytes

-- What the code takes from controller-runtime. `create` is `ctrl.NewManager`, `none` an error.
pub record Runtime : Type 1 where
  pub schemes : SchemeLibrary
  pub Filter : Type 0
  pub Server : Type 0
  pub Manager : Type 0
  pub with_authentication_and_authorization : Filter
  pub new_server : WebhookOptions → Server
  pub create : Options schemes.Scheme Filter Server → Option Manager

abbrev pub disable_http2 : TlsOption
disable_http2 c = record c { next_protos = codes "http/1.1" ∷ [] }

module _ {Scheme : Type 0} where
  abbrev pub tls_opts_of : ManagerInputs Scheme → List TlsOption
  tls_opts_of inputs = if not inputs.enable_http2 then disable_http2 ∷ [] else []

  -- The three certificate fields stay empty where no directory is given.
  unfoldable pub webhook_server_options : ManagerInputs Scheme → WebhookOptions
  webhook_server_options inputs =
      let options : WebhookOptions = record {
        tls_opts = tls_opts_of inputs;
        cert_dir = [];
        cert_name = [];
        key_name = [];
      } in
      if inputs.webhook_cert_path == [] then options else record options {
        cert_dir = inputs.webhook_cert_path;
        cert_name = inputs.webhook_cert_name;
        key_name = inputs.webhook_cert_key;
      }

  unfoldable pub metrics_server_options :
      {Filter : Type 0} → Filter → ManagerInputs Scheme → MetricsOptions Filter
  metrics_server_options {Filter} filter inputs =
      let options : MetricsOptions Filter = record {
        bind_address = inputs.metrics_addr;
        secure_serving = inputs.secure_metrics;
        tls_opts = tls_opts_of inputs;
        filter_provider = if inputs.secure_metrics then some filter else none;
        cert_dir = [];
        cert_name = [];
        key_name = [];
      } in
      if inputs.metrics_cert_path == [] then options else record options {
        cert_dir = inputs.metrics_cert_path;
        cert_name = inputs.metrics_cert_name;
        key_name = inputs.metrics_cert_key;
      }

module _ (R : Runtime) where
  unfoldable pub options_of :
      ManagerInputs R.schemes.Scheme → Options R.schemes.Scheme R.Filter R.Server
  options_of inputs = record {
    scheme = inputs.scheme;
    metrics = metrics_server_options R.with_authentication_and_authorization inputs;
    webhook_server = R.new_server (webhook_server_options inputs);
    health_probe_bind_address = inputs.probe_addr;
    leader_election = inputs.enable_leader_election;
    leader_election_id = inputs.leader_election_id;
  }

  unfoldable pub new_manager : ManagerInputs R.schemes.Scheme → Option R.Manager
  new_manager inputs = R.create (options_of inputs)
