-- ===== src/Tests/Controllers.antt =====
-- The reconcilers on a cluster without resources.
use netbox_herald.Base.{ℕ, ◌≡◌, refl, String, true, false, Option, none, some, [], ◌∷◌, ok}
use netbox_herald.Base.Int.{pos}
use netbox_herald.Api.Spec.{HeraldConfigSpec}
use netbox_herald.Api.Status.{HeraldConfig, ResourceSyncStatus}
use netbox_herald.Config.{Store, new_store}
use netbox_herald.NetBox.Connect.{Libraries}
use netbox_herald.Supernet.{IpNet}
use netbox_herald.Controller.Kube.{Node, Kube}
use netbox_herald.Controller.HeraldConfigController.{Herald, bootstrap, reconcile_found_config}
use netbox_herald.Controller.Laws.{published, reconcile_found_config_store}
use netbox_herald.Server.Tables.{Db}
use mathlib.Core.Option.{some-injective}
use mathlib.Core.Path.{subst}
use netbox_herald.Base.{arith}
use netbox_herald.Base.{◌+◌, ◌*◌, ◌^◌, str_eq, if◌then◌else◌}
use netbox_herald.Base.Triple.{Triple}
use netbox_herald.NetBox.Model.{NetBoxApi}
use netbox_herald.Controller.Kube.{Service}
use netbox_herald.Controller.Common.{resolve_managed_tag_slug}
use netbox_herald.Controller.ServiceController.{reconcile_live_service}
use netbox_herald.Server.Laws.{At, IsServer}
use netbox_herald.Sync.Owners.{Others}
use netbox_herald.Server.Tables.{ip_addresses_table}
use netbox_herald.Sync.Status.{IsApart}
use netbox_herald.Sync.Reconciles.{Ended, reconcile_live_service_synced}
use netbox_herald.Tests.Memory.{server_page, memory, memory-IsServer, fresh_db}

abbrev pub spec : HeraldConfigSpec
spec = record {
  netbox = record {
    url = "https://netbox.example";
    token_secret_ref = record { name = "netbox"; key = "" };
    tls = record { insecure_skip_verify = false; ca_bundle_secret_ref = none };
    request_timeout_seconds = pos 0;
    version_check = record { enabled = false };
    managed_tag = record { slug = "" };
  };
  resync = record { interval = pos 0 };
  resources = record {
    cluster = record {
      enabled = true;
      name = "production";
      cluster_type_name = "Kubernetes";
      cluster_group_name = "";
      site_name = "berlin";
    };
    nodes = record {
      enabled = true;
      mapping = "Device";
      retain_on_disable = false;
      device = record {
        device_role_name = "node";
        device_type_name = "server";
        site_name = "berlin";
      };
      virtual_machine = record { cluster_name = ""; platform_name = "" };
    };
    services = record { enabled = true; retain_on_disable = false };
    pod_cidrs = record {
      enabled = true;
      retain_on_disable = false;
      representation = "Prefix";
      rir_name = "";
    };
    additional = [];
  };
}

abbrev unset : ResourceSyncStatus
unset = record {
  enabled = false;
  last_sync_time = none;
  observed_generation = 0;
  object_count = pos 0;
  last_error = none;
}

abbrev pub config : HeraldConfig
config = record {
  generation = 1;
  spec = spec;
  status = record {
    conditions = [];
    netbox = record { connected = false; version = ""; last_checked_time = none };
    resources = record { cluster = unset; nodes = unset; services = unset; pod_cidrs = unset };
  };
}

-- a cluster with the HeraldConfig and its Secret, and nothing else
abbrev pub kube : Kube Db
kube = record {
  get_herald_config = λ name d. (ok (some config), d);
  update_status = λ cr d. (ok tt, d);
  get_node = λ name d. (ok none, d);
  list_nodes = λ d. (ok [], d);
  get_service = λ namespace name d. (ok none, d);
  list_services = λ d. (ok [], d);
  get_namespace_uid = λ name d. (ok (some "77c0"), d);
  get_secret = λ namespace name d. (ok (some (("token", "nbt_secret") ∷ [])), d);
  now = λ d. 1;
  set_status_condition = λ c cs. c ∷ cs;
}

abbrev pub libraries : Libraries Db
libraries = record {
  parse_url = λ url. ok (record { scheme = "https"; host = "netbox.example"; path = "/" });
  has_certs = λ pem. true;
  new_client = λ transport. ok memory;
  check_semver = λ range version. ok true;
}

abbrev pub parse_none : String → Option ℕ
parse_none ip = none

abbrev pub parse_no_cidr : String → Option IpNet
parse_no_cidr c = none

abbrev pub show_any : IpNet → String
show_any n = "10.244.0.0/23"

abbrev idle : Herald Db
idle = record { store = new_store; world = fresh_db }

reconcile_found_config_store_example :
    (reconcile_found_config kube libraries "herald" (some config) idle).1.store
    ≡ published kube libraries "herald" spec
        (bootstrap kube libraries "herald" spec fresh_db).0
        new_store
reconcile_found_config_store_example =
    reconcile_found_config_store kube libraries "herald" config idle

abbrev pub self : Db → Db
self d = d

pub kube-IsApart : IsApart self kube
kube-IsApart = record {
  get_herald_config_lem = λ name d. record { run = λ s h. h };
  update_status_lem = λ cr d. record { run = λ s h. h };
  get_service_lem = λ namespace name d. record { run = λ s h. h };
}

abbrev pub filled : Store Db
filled = record { spec = some spec; client = some memory }

pub stored-IsServer :
    (client : NetBoxApi Db) → filled.client ≡ some client → IsServer self client server_page
stored-IsServer client stored =
    subst (λ c. IsServer self c server_page) (some-injective memory client stored) memory-IsServer

abbrev pub web : Service
web = record {
  namespace = "default";
  name = "web";
  kind = "LoadBalancer";
  ingress_ips = "192.0.2.7" ∷ [];
}

-- ::ffff:192.0.2.7, the only address that it is asked for
abbrev parse_web : String → Option ℕ
parse_web ip = if str_eq ip "192.0.2.7" then some (0xffff * 2 ^ 32 + 3221225991) else none

reconcile_live_service_synced_example :
    Triple
      (At self fresh_db)
      (reconcile_live_service parse_web kube filled memory spec web)
      (λ r d.
        Ended self kube kube-IsApart filled parse_web server_page stored-IsServer memory
          memory-IsServer spec fresh_db web r d)
      (λ d. Others ip_addresses_table (resolve_managed_tag_slug spec) fresh_db d)
reconcile_live_service_synced_example =
    reconcile_live_service_synced self kube kube-IsApart filled parse_web server_page
      stored-IsServer memory memory-IsServer spec fresh_db web refl tt (omega arith)

abbrev pub worker : Node
worker = record { name = "worker-1"; uid = "8a1f"; pod_cidrs = [] }
