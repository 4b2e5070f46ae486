-- ===== src/Tests/LiveNodes.antt =====
-- A reconcile of a Node that is mapped to a VirtualMachine, on a server in memory that has its
-- cluster and a Device of the same Node.
use netbox_herald.Base.{◌≤◌, arith, true, false, [], ◌∷◌, none}
use netbox_herald.Base.Triple.{Triple}
use netbox_herald.Api.Spec.{HeraldConfigSpec}
use netbox_herald.NetBox.Cluster.{cluster_body}
use netbox_herald.NetBox.Nodes.{device_body}
use netbox_herald.Controller.Common.{resolve_managed_tag_slug}
use netbox_herald.Controller.NodeController.{reconcile_live_node}
use netbox_herald.Server.Tables.{Db, has_tag}
use netbox_herald.Server.Unique.{is_managed}
use netbox_herald.Server.Laws.{At}
use netbox_herald.Base.{Bool, length, filter}
use netbox_herald.NetBox.Model.{Object, DeviceData}
use netbox_herald.Sync.Names.{length-filter}
use netbox_herald.Sync.Registers.{HasSpace}
use netbox_herald.Sync.NodeStates.{LiveSynced}
use netbox_herald.Sync.LiveNodes.{Ended, Stopped, reconcile_live_node-LiveSynced}
use netbox_herald.Tests.Specs.{cluster_spec, device_spec}
use netbox_herald.Tests.Memory.{server_page, memory, memory-IsServer, fresh_db}
use netbox_herald.Tests.Controllers.{
  kube, kube-IsApart, spec, filled, self, stored-IsServer, worker,
}

abbrev machines_spec : HeraldConfigSpec
machines_spec = record spec {
  resources = record spec.resources {
    nodes = record spec.resources.nodes { mapping = "VirtualMachine" };
  };
}

abbrev mixed_db : Db
mixed_db = record fresh_db {
  clusters = record { id = 2; body = cluster_body cluster_spec 4 none none } ∷ [];
  devices = record { id = 3; body = device_body device_spec 6 5 3 } ∷ [];
}

devices-HasSpace : HasSpace server_page (resolve_managed_tag_slug machines_spec) 1 mixed_db.devices
devices-HasSpace =
    let few : (p : Object DeviceData → Bool) → length (filter p mixed_db.devices) ≤ 1 =
      λ p. length-filter p mixed_db.devices in
    let tagged = few (has_tag (resolve_managed_tag_slug machines_spec)) in
    (
      ((tt, tt), λ e. few (is_managed (resolve_managed_tag_slug machines_spec) e)),
      omega (arith, tagged),
    )

reconcile_live_node-LiveSynced_example :
    Triple
      (At self mixed_db)
      (reconcile_live_node kube filled memory machines_spec worker)
      (λ r d.
        Ended machines_spec mixed_db
          (LiveSynced server_page machines_spec worker mixed_db true false false true)
          r
          d)
      (λ d.
        Stopped machines_spec mixed_db
          (LiveSynced server_page machines_spec worker mixed_db true false false true)
          d)
unfolding has_tag resolve_managed_tag_slug device_body
reconcile_live_node-LiveSynced_example =
    reconcile_live_node-LiveSynced self kube kube-IsApart filled server_page stored-IsServer memory
      memory-IsServer machines_spec worker mixed_db devices-HasSpace
      ((tt, λ e. omega arith), omega arith)
