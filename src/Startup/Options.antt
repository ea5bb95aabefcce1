-- ===== src/Startup/Options.antt =====
-- cmd/main.go, the first half of main: the flags, and the options that they give the webhook server,
-- the metrics server and the manager. The flags of the logger and the log lines are left out; a
-- server is what it is made of, its options. Of a tls.Config only NextProtos is touched.
use costguard_operator.Base.{
  String, Bool, true, false, not, List, [], ◌∷◌, ◌++◌, ◌==◌, if◌then◌else◌,
}

-- The local variables of main that the flags set.
pub record Flags : Type 0 where
  pub metrics_addr : String
  pub metrics_cert_path : String
  pub metrics_cert_name : String
  pub metrics_cert_key : String
  pub webhook_cert_path : String
  pub webhook_cert_name : String
  pub webhook_cert_key : String
  pub enable_leader_election : Bool
  pub probe_addr : String
  pub secure_metrics : Bool
  pub enable_http2 : Bool

abbrev pub default_flags : Flags
default_flags = record {
  metrics_addr = "0";
  metrics_cert_path = "";
  metrics_cert_name = "tls.crt";
  metrics_cert_key = "tls.key";
  webhook_cert_path = "";
  webhook_cert_name = "tls.crt";
  webhook_cert_key = "tls.key";
  enable_leader_election = false;
  probe_addr = ":8081";
  secure_metrics = true;
  enable_http2 = false;
}

-- crypto/tls.Config; an empty list of protocols leaves the choice to the library.
pub record TlsConfig : Type 0 where
  pub next_protos : List String

unfoldable pub disable_http2 : TlsConfig → TlsConfig
disable_http2 c = record c { next_protos = "http/1.1" ∷ [] }

-- tlsOpts, after the test of enableHTTP2
unfoldable pub tls_opts : Flags → List (TlsConfig → TlsConfig)
tls_opts flags = if not flags.enable_http2 then [] ++ disable_http2 ∷ [] else []

-- webhook.Options
pub record WebhookOptions : Type 0 where
  pub tls_opts : List (TlsConfig → TlsConfig)
  pub cert_dir : String
  pub cert_name : String
  pub key_name : String

abbrev initial_webhook_options : Flags → WebhookOptions
initial_webhook_options flags = record {
  tls_opts = tls_opts flags;
  cert_dir = "";
  cert_name = "";
  key_name = "";
}

unfoldable pub webhook_server_options : Flags → WebhookOptions
unfolding tls_opts
webhook_server_options flags =
    if not (flags.webhook_cert_path == "")
    then record (initial_webhook_options flags) {
      cert_dir = flags.webhook_cert_path;
      cert_name = flags.webhook_cert_name;
      key_name = flags.webhook_cert_key;
    }
    else initial_webhook_options flags

-- FilterProvider: nil, or filters.WithAuthenticationAndAuthorization
pub data FilterProvider : Type 0 where
  no_filter with_authentication_and_authorization : FilterProvider

-- metricsserver.Options
pub record MetricsOptions : Type 0 where
  pub bind_address : String
  pub secure_serving : Bool
  pub tls_opts : List (TlsConfig → TlsConfig)
  pub filter_provider : FilterProvider
  pub cert_dir : String
  pub cert_name : String
  pub key_name : String

abbrev initial_metrics_options : Flags → MetricsOptions
initial_metrics_options flags = record {
  bind_address = flags.metrics_addr;
  secure_serving = flags.secure_metrics;
  tls_opts = tls_opts flags;
  filter_provider = no_filter;
  cert_dir = "";
  cert_name = "";
  key_name = "";
}

-- `if secureMetrics`
unfoldable pub filtered_metrics_options : Flags → MetricsOptions
filtered_metrics_options flags =
    if flags.secure_metrics
    then record (initial_metrics_options flags) {
      filter_provider = with_authentication_and_authorization;
    }
    else initial_metrics_options flags

unfoldable pub metrics_server_options : Flags → MetricsOptions
unfolding tls_opts filtered_metrics_options
metrics_server_options flags =
    if not (flags.metrics_cert_path == "")
    then record (filtered_metrics_options flags) {
      cert_dir = flags.metrics_cert_path;
      cert_name = flags.metrics_cert_name;
      key_name = flags.metrics_cert_key;
    }
    else filtered_metrics_options flags

-- ctrl.Options, without the scheme
pub record ManagerOptions : Type 0 where
  pub metrics : MetricsOptions
  pub webhook_server : WebhookOptions
  pub health_probe_bind_address : String
  pub leader_election : Bool
  pub leader_election_id : String

unfoldable pub manager_options : Flags → ManagerOptions
unfolding webhook_server_options metrics_server_options
manager_options flags = record {
  metrics = metrics_server_options flags;
  webhook_server = webhook_server_options flags;
  health_probe_bind_address = flags.probe_addr;
  leader_election = flags.enable_leader_election;
  leader_election_id = "02cc9b92.ealebed.github.io";
}
