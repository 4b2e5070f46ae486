-- ===== src/Tests/PodCidrs.antt =====
-- The syncs of pod CIDRs at concrete inputs.
use netbox_herald.Base.{refl, arith, String, true, Option, some, [], ◌∷◌, ok}
use netbox_herald.Base.Triple.{Triple}
use netbox_herald.NetBox.Model.{Object, PrefixData}
use netbox_herald.NetBox.PodCidrs.{prefix_body}
use netbox_herald.Supernet.{IpNet}
use netbox_herald.Controller.Kube.{Kube, Node}
use netbox_herald.Controller.Common.{
  requeue_after, resolve_managed_tag_slug, resolve_resync_interval,
}
use netbox_herald.Controller.PodCidrController.{sync_node_prefixes, reconcile_prefix_for_node}
use netbox_herald.Server.Tables.{Db, has_tag, prefixes_table}
use netbox_herald.Server.Laws.{At}
use netbox_herald.Sync.Owners.{Others}
use netbox_herald.Sync.NodePrefixes.{NodeSynced, sync_node_prefixes_exact}
use netbox_herald.Controller.ClusterController.{reconcile_found_cluster}
use netbox_herald.Server.Tables.{clusters_table}
use netbox_herald.Sync.ClusterReconciles.{ClusterSynced, reconcile_found_cluster-ClusterSynced}
use netbox_herald.Base.{◌≡◌}
use netbox_herald.Sync.Status.{IsApart}
use netbox_herald.Sync.Supernets.{OnlyPodCidrs}
use netbox_herald.Sync.PodCidrStates.{Ended, PrefixMode}
use netbox_herald.Sync.PodCidrReconciles.{reconcile_prefix_for_node_synced}
use netbox_herald.Tests.Specs.{prefix_spec}
use netbox_herald.Tests.Memory.{server_page, memory, memory-IsServer, fresh_db}
use netbox_herald.Tests.Controllers.{
  kube, config, spec, filled, self, stored-IsServer, kube-IsApart,
}

-- a Node whose pod CIDR has changed, and a server with the prefix of the old one
abbrev moved : Node
moved = record { name = "worker-1"; uid = "8a1f"; pod_cidrs = "10.244.7.0/24" ∷ [] }

abbrev old_prefix : Object PrefixData
old_prefix = record { id = 2; body = prefix_body prefix_spec }

abbrev old_db : Db
old_db = record fresh_db { prefixes = old_prefix ∷ [] }

sync_node_prefixes_exact_example :
    Triple
      (At self old_db)
      (sync_node_prefixes memory "netbox-herald-managed" moved)
      (λ _. NodeSynced "netbox-herald-managed" old_db moved)
      (λ d. Others prefixes_table "netbox-herald-managed" old_db d)
unfolding has_tag prefix_body
sync_node_prefixes_exact_example =
    sync_node_prefixes_exact self memory server_page memory-IsServer "netbox-herald-managed" old_db
      moved (tt, tt) (omega arith)

abbrev kube_moved : Kube Db
kube_moved = record kube {
  get_node = λ name d. (ok (some moved), d);
  list_nodes = λ d. (ok (moved ∷ []), d);
}

kube_moved-IsApart : IsApart self kube_moved
kube_moved-IsApart = record {
  get_herald_config_lem = λ name d. record { run = λ s h. h };
  update_status_lem = λ cr d. record { run = λ s h. h };
  get_service_lem = λ namespace name d. record { run = λ s h. h };
}

abbrev parse_block : String → Option IpNet
parse_block c = some (record { bits = 32; ip = 183764736; ones = 24 })

abbrev show_block : IpNet → String
show_block n = "10.244.7.0/24"

reconcile_prefix_for_node_synced_example :
    Triple
      (At self old_db)
      (reconcile_prefix_for_node parse_block show_block kube_moved filled memory spec "worker-1")
      (λ r d.
        Ended
          (resolve_managed_tag_slug spec)
          (requeue_after (resolve_resync_interval spec))
          old_db
          (PrefixMode (resolve_managed_tag_slug spec) old_db moved)
          r
          d)
      (λ d. OnlyPodCidrs (resolve_managed_tag_slug spec) old_db d)
unfolding has_tag prefix_body resolve_managed_tag_slug
reconcile_prefix_for_node_synced_example =
    reconcile_prefix_for_node_synced self kube_moved kube_moved-IsApart filled parse_block
      show_block server_page stored-IsServer memory memory-IsServer spec old_db "worker-1" moved
      (λ d. record { run = λ s h. (refl, h) }) refl (tt, tt) (omega arith)
      ((tt, λ e. omega arith), omega arith)

reconcile_found_cluster-ClusterSynced_example :
    Triple
      (At self fresh_db)
      (reconcile_found_cluster kube memory spec (some config))
      (λ r d.
        (r ≡ requeue_after (resolve_resync_interval spec))
        × ClusterSynced server_page spec "77c0" fresh_db true d)
      (λ d. Others clusters_table (resolve_managed_tag_slug spec) fresh_db d)
unfolding has_tag resolve_managed_tag_slug
reconcile_found_cluster-ClusterSynced_example =
    reconcile_found_cluster-ClusterSynced self kube kube-IsApart server_page memory memory-IsServer
      spec config "77c0" fresh_db ((tt, λ e. omega arith), omega arith)
      (record { run = λ s h. (refl, h) })
