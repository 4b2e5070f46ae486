-- ===== src/Manager/Options.antt =====
-- The flags of cmd/main.go, and the options of the manager and of its two servers.
use netbox_herald.Base.{String, Bool, true, false, List, [], ◌∷◌, str_eq, if◌then◌else◌}

-- `crypto/tls.Config`, of which only the offered protocols are set
pub record ServerTls : Type 0 where
  pub next_protos : List String

-- The values of the flags.
pub record Flags : Type 0 where
  pub metrics_addr : String
  pub probe_addr : String
  pub enable_leader_election : Bool
  pub secure_metrics : Bool
  pub webhook_cert_path : String
  pub webhook_cert_name : String
  pub webhook_cert_key : String
  pub metrics_cert_path : String
  pub metrics_cert_name : String
  pub metrics_cert_key : String
  pub enable_http2 : Bool

-- Their values where the command line does not set them.
unfoldable pub default_flags : Flags
default_flags = record {
  metrics_addr = "0";
  probe_addr = ":8081";
  enable_leader_election = false;
  secure_metrics = true;
  webhook_cert_path = "";
  webhook_cert_name = "tls.crt";
  webhook_cert_key = "tls.key";
  metrics_cert_path = "";
  metrics_cert_name = "tls.crt";
  metrics_cert_key = "tls.key";
  enable_http2 = false;
}

unfoldable pub disable_http2 : ServerTls → ServerTls
disable_http2 c = record c { next_protos = "http/1.1" ∷ [] }

unfoldable pub tls_opts : Flags → List (ServerTls → ServerTls)
tls_opts flags = if flags.enable_http2 then [] else disable_http2 ∷ []

-- `webhook.Options`; the empty text is an unset field
pub record WebhookOptions : Type 0 where
  pub tls_opts : List (ServerTls → ServerTls)
  pub cert_dir : String
  pub cert_name : String
  pub key_name : String

unfoldable pub webhook_server_options : Flags → WebhookOptions
unfolding tls_opts
webhook_server_options flags =
    if str_eq flags.webhook_cert_path ""
    then record { tls_opts = tls_opts flags; cert_dir = ""; cert_name = ""; key_name = "" }
    else record {
      tls_opts = tls_opts flags;
      cert_dir = flags.webhook_cert_path;
      cert_name = flags.webhook_cert_name;
      key_name = flags.webhook_cert_key;
    }

-- `metricsserver.Options`; the filter is `WithAuthenticationAndAuthorization`, or none
pub record MetricsOptions : Type 0 where
  pub bind_address : String
  pub secure_serving : Bool
  pub tls_opts : List (ServerTls → ServerTls)
  pub filtered : Bool
  pub cert_dir : String
  pub cert_name : String
  pub key_name : String

unfoldable pub metrics_server_options : Flags → MetricsOptions
unfolding tls_opts
metrics_server_options flags =
    let options : MetricsOptions = record {
      bind_address = flags.metrics_addr;
      secure_serving = flags.secure_metrics;
      tls_opts = tls_opts flags;
      filtered = flags.secure_metrics;
      cert_dir = "";
      cert_name = "";
      key_name = "";
    } in
    if str_eq flags.metrics_cert_path "" then options else record options {
      cert_dir = flags.metrics_cert_path;
      cert_name = flags.metrics_cert_name;
      key_name = flags.metrics_cert_key;
    }

-- `ctrl.Options`, less the scheme
pub record ManagerOptions : Type 0 where
  pub metrics : MetricsOptions
  pub webhook_server : WebhookOptions
  pub health_probe_bind_address : String
  pub leader_election : Bool
  pub leader_election_id : String

unfoldable pub manager_options : Flags → ManagerOptions
unfolding metrics_server_options webhook_server_options
manager_options flags = record {
  metrics = metrics_server_options flags;
  webhook_server = webhook_server_options flags;
  health_probe_bind_address = flags.probe_addr;
  leader_election = flags.enable_leader_election;
  leader_election_id = "559b5e69.netbox-herald.io";
}

-- `if operatorNamespace == "" { operatorNamespace = "default" }`
unfoldable pub operator_namespace_or_default : String → String
operator_namespace_or_default namespace = if str_eq namespace "" then "default" else namespace
