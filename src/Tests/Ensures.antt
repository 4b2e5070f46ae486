-- ===== src/Tests/Ensures.antt =====
-- The Ensure functions on a server in memory.
use netbox_herald.Base.{ℕ, ◌≡◌, refl, arith, ok, Exec}
use netbox_herald.Base.Triple.{Triple}
use netbox_herald.NetBox.Nodes.{ensure_device, ensure_virtual_machine}
use netbox_herald.NetBox.Cluster.{ensure_cluster}
use netbox_herald.NetBox.Services.{ensure_service_ip}
use netbox_herald.NetBox.PodCidrs.{ensure_pod_cidr_prefix, ensure_pod_cidr_aggregate}
use netbox_herald.Server.Tables.{Db}
use netbox_herald.Server.Laws.{At}
use netbox_herald.Server.Unique.{copies}
use netbox_herald.Sync.Runs.{
  IsSettled, ensure_service_ip_twice, ensure_pod_cidr_prefix_twice, ensure_pod_cidr_aggregate_twice,
  ensure_device_twice, ensure_cluster_twice, ensure_virtual_machine_twice,
}
use netbox_herald.Sync.Leaves.{
  ensure_service_ip_unique, ensure_service_ip_duplicates, ensure_device_unique,
}
use netbox_herald.Tests.Specs.{
  web_spec, prefix_spec, aggregate_spec, device_spec, cluster_spec, machine_spec,
}
use netbox_herald.Tests.Memory.{server_page, memory, memory-IsServer, fresh_db}

abbrev self : Db → Db
self d = d

abbrev after : Exec Db ℕ → Db → Db
after m d = (m d).1

ensure_service_ip_run :
    ensure_service_ip memory web_spec fresh_db
    ≡ (ok 1, after (ensure_service_ip memory web_spec) fresh_db)
unfolding ensure_service_ip
ensure_service_ip_run = refl

ensure_service_ip_twice_example :
    IsSettled self
      (ensure_service_ip memory web_spec)
      1
      (after (ensure_service_ip memory web_spec) fresh_db)
ensure_service_ip_twice_example =
    ensure_service_ip_twice self memory server_page memory-IsServer "netbox-herald-managed" fresh_db
      (after (ensure_service_ip memory web_spec) fresh_db) 1 web_spec refl (tt, omega arith)
      ensure_service_ip_run

ensure_pod_cidr_prefix_run :
    ensure_pod_cidr_prefix memory prefix_spec fresh_db
    ≡ (ok 1, after (ensure_pod_cidr_prefix memory prefix_spec) fresh_db)
unfolding ensure_pod_cidr_prefix
ensure_pod_cidr_prefix_run = refl

ensure_pod_cidr_prefix_twice_example :
    IsSettled self
      (ensure_pod_cidr_prefix memory prefix_spec)
      1
      (after (ensure_pod_cidr_prefix memory prefix_spec) fresh_db)
ensure_pod_cidr_prefix_twice_example =
    ensure_pod_cidr_prefix_twice self memory server_page memory-IsServer "netbox-herald-managed"
      fresh_db (after (ensure_pod_cidr_prefix memory prefix_spec) fresh_db) 1 prefix_spec refl
      (tt, omega arith) ensure_pod_cidr_prefix_run

ensure_pod_cidr_aggregate_run :
    ensure_pod_cidr_aggregate memory aggregate_spec fresh_db
    ≡ (ok 1, after (ensure_pod_cidr_aggregate memory aggregate_spec) fresh_db)
unfolding ensure_pod_cidr_aggregate
ensure_pod_cidr_aggregate_run = refl

ensure_pod_cidr_aggregate_twice_example :
    IsSettled self
      (ensure_pod_cidr_aggregate memory aggregate_spec)
      1
      (after (ensure_pod_cidr_aggregate memory aggregate_spec) fresh_db)
ensure_pod_cidr_aggregate_twice_example =
    ensure_pod_cidr_aggregate_twice self memory server_page memory-IsServer "netbox-herald-managed"
      fresh_db (after (ensure_pod_cidr_aggregate memory aggregate_spec) fresh_db) 1 aggregate_spec
      refl (tt, omega arith) ensure_pod_cidr_aggregate_run

ensure_device_run :
    ensure_device memory device_spec fresh_db
    ≡ (ok 1, after (ensure_device memory device_spec) fresh_db)
unfolding ensure_device
ensure_device_run = refl

ensure_device_twice_example :
    IsSettled self
      (ensure_device memory device_spec)
      1
      (after (ensure_device memory device_spec) fresh_db)
ensure_device_twice_example =
    ensure_device_twice self memory server_page memory-IsServer "netbox-herald-managed" fresh_db
      (after (ensure_device memory device_spec) fresh_db) 1 device_spec refl (tt, omega arith)
      ensure_device_run

ensure_cluster_run :
    ensure_cluster memory cluster_spec fresh_db
    ≡ (ok 1, after (ensure_cluster memory cluster_spec) fresh_db)
unfolding ensure_cluster
ensure_cluster_run = refl

ensure_cluster_twice_example :
    IsSettled self
      (ensure_cluster memory cluster_spec)
      1
      (after (ensure_cluster memory cluster_spec) fresh_db)
ensure_cluster_twice_example =
    ensure_cluster_twice self memory server_page memory-IsServer "netbox-herald-managed" fresh_db
      (after (ensure_cluster memory cluster_spec) fresh_db) 1 cluster_spec refl (tt, omega arith)
      ensure_cluster_run

-- the server after the cluster was written, which the machine needs
abbrev clustered : Db
clustered = after (ensure_cluster memory cluster_spec) fresh_db

ensure_virtual_machine_run :
    ensure_virtual_machine memory machine_spec clustered
    ≡ (ok 1, after (ensure_virtual_machine memory machine_spec) clustered)
unfolding ensure_virtual_machine ensure_cluster
ensure_virtual_machine_run = refl

ensure_virtual_machine_twice_example :
    IsSettled self
      (ensure_virtual_machine memory machine_spec)
      1
      (after (ensure_virtual_machine memory machine_spec) clustered)
unfolding ensure_cluster
ensure_virtual_machine_twice_example =
    ensure_virtual_machine_twice self memory server_page memory-IsServer "netbox-herald-managed"
      clustered (after (ensure_virtual_machine memory machine_spec) clustered) 1 machine_spec refl
      (tt, omega arith) ensure_virtual_machine_run

ensure_service_ip_unique_example :
    Triple
      (At self fresh_db)
      (ensure_service_ip memory web_spec)
      (λ _ d. copies "netbox-herald-managed" "default/web/192.0.2.1" d.ip_addresses ≡ 1)
      (At self fresh_db)
ensure_service_ip_unique_example =
    ensure_service_ip_unique self memory server_page memory-IsServer "netbox-herald-managed"
      fresh_db web_spec refl (tt, omega arith) (omega arith)

ensure_service_ip_duplicates_example :
    Triple
      (At self fresh_db)
      (ensure_service_ip memory web_spec)
      (λ _ d. copies "netbox-herald-managed" "default/web/192.0.2.1" d.ip_addresses ≡ 1)
      (At self fresh_db)
ensure_service_ip_duplicates_example =
    ensure_service_ip_duplicates self memory server_page memory-IsServer "netbox-herald-managed"
      fresh_db web_spec refl refl

ensure_device_unique_example :
    Triple
      (At self fresh_db)
      (ensure_device memory device_spec)
      (λ _ d. copies "netbox-herald-managed" "8a1f" d.devices ≡ 1)
      (At self fresh_db)
ensure_device_unique_example =
    ensure_device_unique self memory server_page memory-IsServer "netbox-herald-managed" fresh_db
      device_spec refl (tt, omega arith) (omega arith)
