-- ===== src/Tests/Removals.antt =====
-- The deletions on a server in memory that has one object of each kind.
use netbox_herald.Base.{ℕ, ◌≡◌, arith, not, none, some, [], ◌∷◌, filter, take}
use netbox_herald.Base.Triple.{Triple}
use netbox_herald.NetBox.ExternalId.{
  get_field, read_external_id, has_external_id, node_pod_cidr_external_id_prefix,
}
use netbox_herald.NetBox.Nodes.{device_body, virtual_machine_body, delete_device_by_external_id}
use netbox_herald.NetBox.Cluster.{cluster_body}
use netbox_herald.NetBox.PodCidrs.{prefix_body, aggregate_body, delete_node_pod_cidr_prefixes}
use netbox_herald.Server.Tables.{Db, has_tag, devices_table, virtual_machines_table}
use netbox_herald.Server.Laws.{At}
use netbox_herald.Server.Calls.{erase_all}
use netbox_herald.Server.Erase.{is_owned}
use netbox_herald.Base.{◌⊎◌}
use netbox_herald.Controller.NodeController.{delete_node_by_name}
use netbox_herald.Sync.Names.{WithoutName, delete_node_by_name_removes}
use netbox_herald.Sync.Removals.{
  Removes, delete_device_by_external_id-Removes, delete_node_pod_cidr_prefixes_exact,
}
use netbox_herald.Tests.Specs.{prefix_spec, aggregate_spec, device_spec, cluster_spec, machine_spec}
use netbox_herald.Tests.Memory.{server_page, memory, memory-IsServer, fresh_db}

abbrev self : Db → Db
self d = d

abbrev full_db : Db
full_db = record fresh_db {
  devices = record { id = 11; body = device_body device_spec 6 5 3 } ∷ [];
  virtual_machines = record { id = 12; body = virtual_machine_body machine_spec 13 none } ∷ [];
  clusters = record { id = 13; body = cluster_body cluster_spec 4 none (some 3) } ∷ [];
  prefixes = record { id = 14; body = prefix_body prefix_spec } ∷ [];
  aggregates = record { id = 15; body = aggregate_body aggregate_spec 7 } ∷ [];
}

delete_device_by_external_id-Removes_example :
    Removes self devices_table
      (delete_device_by_external_id memory "netbox-herald-managed" "8a1f")
      "netbox-herald-managed"
      "8a1f"
      full_db
unfolding has_tag has_external_id read_external_id get_field device_body
delete_device_by_external_id-Removes_example =
    delete_device_by_external_id-Removes self memory server_page memory-IsServer
      "netbox-herald-managed" "8a1f" full_db ((tt, tt), omega arith, omega arith)

delete_node_pod_cidr_prefixes_exact_example :
    Triple
      (At self full_db)
      (delete_node_pod_cidr_prefixes memory "netbox-herald-managed" "worker-1")
      (λ _ d. d ≡ record full_db {
        prefixes =
            filter
              (λ o.
                not (
                  is_owned "netbox-herald-managed" (node_pod_cidr_external_id_prefix "worker-1") o))
              full_db.prefixes;
      })
      (λ d.
        (n : ℕ) × (d ≡ record full_db {
          prefixes =
              erase_all
                (take n (
                  filter
                    (is_owned "netbox-herald-managed" (node_pod_cidr_external_id_prefix "worker-1"))
                    full_db.prefixes))
                full_db.prefixes;
        }))
unfolding has_tag prefix_body
delete_node_pod_cidr_prefixes_exact_example =
    delete_node_pod_cidr_prefixes_exact self memory server_page memory-IsServer
      "netbox-herald-managed" "worker-1" full_db (tt, tt) (omega arith)

delete_node_by_name_removes_example :
    Triple
      (At self full_db)
      (delete_node_by_name memory "netbox-herald-managed" "worker-1")
      (λ _ d.
        d
        ≡ WithoutName virtual_machines_table "netbox-herald-managed" "worker-1"
            (WithoutName devices_table "netbox-herald-managed" "worker-1" full_db))
      (λ d.
        (d ≡ full_db) ⊎ (d ≡ WithoutName devices_table "netbox-herald-managed" "worker-1" full_db))
unfolding has_tag device_body virtual_machine_body
delete_node_by_name_removes_example =
    delete_node_by_name_removes self memory server_page memory-IsServer "netbox-herald-managed"
      "worker-1" full_db (omega arith) ((tt, tt), omega arith) ((tt, tt), omega arith)
