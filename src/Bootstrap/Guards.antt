-- ===== src/Bootstrap/Guards.antt =====
-- What the two servers of a manager are given.
use accord.Base.{[], ◌∷◌, eq_iff, List, true, false, codes, some, ◌≡◌, refl, arith}
use accord.Bootstrap.{
  TlsConfig, TlsOption, ManagerInputs, WebhookOptions, Options, Runtime, tls_opts_of,
  webhook_server_options, metrics_server_options, options_of, new_manager,
}

-- A server runs its options on its TLS settings, in order.
abbrev pub configured : List TlsOption → TlsConfig → TlsConfig
configured [] c = c
configured (f ∷ fs) c = configured fs (f c)

abbrev pub IsHttp1 : List TlsOption → Type 0
IsHttp1 opts = (c : TlsConfig) → (configured opts c).next_protos ≡ codes "http/1.1" ∷ []

module _ {Scheme : Type 0} (inputs : ManagerInputs Scheme) where
  tls_opts_of-IsHttp1 : inputs.enable_http2 ≡ false → IsHttp1 (tls_opts_of inputs)
  tls_opts_of-IsHttp1 off c = rw off refl

  tls_opts-webhook_server_options : (webhook_server_options inputs).tls_opts ≡ tls_opts_of inputs
  unfolding webhook_server_options
  tls_opts-webhook_server_options = ground arith

  cert_dir-webhook_server_options :
      (webhook_server_options inputs).cert_dir ≡ inputs.webhook_cert_path
  unfolding webhook_server_options
  cert_dir-webhook_server_options = ground (arith, eq_iff inputs.webhook_cert_path [])

  module _ {Filter : Type 0} (filter : Filter) where
    tls_opts-metrics_server_options :
        (metrics_server_options filter inputs).tls_opts ≡ tls_opts_of inputs
    unfolding metrics_server_options
    tls_opts-metrics_server_options = ground arith

    cert_dir-metrics_server_options :
        (metrics_server_options filter inputs).cert_dir ≡ inputs.metrics_cert_path
    unfolding metrics_server_options
    cert_dir-metrics_server_options = ground (arith, eq_iff inputs.metrics_cert_path [])

    filter-metrics_server_options :
        (metrics_server_options filter inputs).secure_serving ≡ true
        → (metrics_server_options filter inputs).filter_provider ≡ some filter
    unfolding metrics_server_options
    filter-metrics_server_options secure = ground arith

-- The options of a manager: the servers take HTTP/1.1 only where HTTP/2 is off, each has the
-- certificates of its own directory, and metrics that are served over TLS pass the filter.
pub record IsGuarded (R : Runtime) (inputs : ManagerInputs R.schemes.Scheme)
    (options : Options R.schemes.Scheme R.Filter R.Server) : Type 0 where
  pub webhook : WebhookOptions
  pub webhook_server : options.webhook_server ≡ R.new_server webhook
  pub http1 :
      inputs.enable_http2 ≡ false → IsHttp1 webhook.tls_opts × IsHttp1 options.metrics.tls_opts
  pub own_certificates :
      (webhook.cert_dir ≡ inputs.webhook_cert_path)
      × (options.metrics.cert_dir ≡ inputs.metrics_cert_path)
  pub filtered :
      options.metrics.secure_serving ≡ true
      → options.metrics.filter_provider ≡ some R.with_authentication_and_authorization

-- A manager is created from guarded options only: its webhook server and its metrics server take
-- HTTP/1.1 alone unless HTTP/2 is enabled, each uses its own directory of certificates, and metrics
-- that are served over TLS pass authentication and authorization.
pub new_manager-IsGuarded :
    (R : Runtime) (inputs : ManagerInputs R.schemes.Scheme)
    → (new_manager R inputs ≡ R.create (options_of R inputs))
      × IsGuarded R inputs (options_of R inputs)
unfolding new_manager options_of
new_manager-IsGuarded R inputs = (
  refl,
  record {
    webhook = webhook_server_options inputs;
    webhook_server = refl;
    http1 = λ off. (
      rw (tls_opts-webhook_server_options inputs) (tls_opts_of-IsHttp1 inputs off),
      rw (tls_opts-metrics_server_options inputs R.with_authentication_and_authorization)
          (tls_opts_of-IsHttp1 inputs off),
    );
    own_certificates = (
      cert_dir-webhook_server_options inputs,
      cert_dir-metrics_server_options inputs R.with_authentication_and_authorization,
    );
    filtered = filter-metrics_server_options inputs R.with_authentication_and_authorization;
  },
)
