-- ===== src/Sync/NodeStates.antt =====
-- What a reconcile of a Node leaves, by what the spec says of Nodes.
use netbox_herald.Base.{ℕ, ◌≡◌, refl, String, Bool, true, false, Option, none, some}
use mathlib.Core.Path.{subst}
use netbox_herald.Api.Spec.{HeraldConfigSpec}
use netbox_herald.NetBox.Model.{Tag}
use netbox_herald.NetBox.Nodes.{
  DeviceNodeSpec, device_body, VirtualMachineNodeSpec, virtual_machine_body,
}
use netbox_herald.Controller.Kube.{Node}
use netbox_herald.Controller.Common.{resolve_managed_tag_slug}
use netbox_herald.Controller.NodeController.{node_cluster_name}
use netbox_herald.Server.Tables.{Db, devices_table, virtual_machines_table}
use netbox_herald.Sync.Ensure.{WrittenDevice, WrittenMachine}
use netbox_herald.Sync.Lookups.{resolved, Resolved?, resolved_cluster}
use netbox_herald.Sync.Registers.{HasSpace}
use netbox_herald.Sync.Settles.{TagsOnly, Settled, Written-Settled}

module _ (page : ℕ) (spec : HeraldConfigSpec) (node : Node) (d : Db) where
  abbrev slug_of : String
  slug_of = resolve_managed_tag_slug spec

  -- what the switch on the mapping asks for
  abbrev pub wanted_device : Tag → DeviceNodeSpec
  wanted_device tag = record {
    name = node.name;
    device_role_name = spec.resources.nodes.device.device_role_name;
    device_type_name = spec.resources.nodes.device.device_type_name;
    site_name = spec.resources.nodes.device.site_name;
    external_id = node.uid;
    managed_tag = tag;
  }

  abbrev pub wanted_machine : Tag → VirtualMachineNodeSpec
  wanted_machine tag = record {
    name = node.name;
    cluster_name = node_cluster_name spec;
    platform_name = spec.resources.nodes.virtual_machine.platform_name;
    external_id = node.uid;
    managed_tag = tag;
  }

  -- the Device of the Node, with the ids that the spec's names resolve to
  abbrev pub DeviceSynced : Db → Type 0
  DeviceSynced d' =
      (tag : Tag) × (device_type role site : ℕ) × (tag.slug ≡ some slug_of)
      × (resolved spec.resources.nodes.device.device_type_name d.device_types ≡ some device_type)
      × (resolved spec.resources.nodes.device.device_role_name d.device_roles ≡ some role)
      × (resolved spec.resources.nodes.device.site_name d.sites ≡ some site)
      × Settled devices_table page slug_of node.uid d
          (some (device_body (wanted_device tag) device_type role site)) d'

  abbrev pub MachineSynced : Db → Type 0
  MachineSynced d' =
      (tag : Tag) × (cluster : ℕ) × (platform : Option ℕ) × (tag.slug ≡ some slug_of)
      × (resolved_cluster page (node_cluster_name spec) d.clusters ≡ some cluster)
      × Resolved? spec.resources.nodes.virtual_machine.platform_name d.platforms platform
      × Settled virtual_machines_table page slug_of node.uid d
          (some (virtual_machine_body (wanted_machine tag) cluster platform)) d'

  -- What a reconcile leaves that went well, by what the spec says: whether Nodes are enabled and,
  -- if not, retained; and whether the mapping is to Devices or to VirtualMachines.
  abbrev pub LiveSynced : Bool → Bool → Bool → Bool → Db → Type 0
  LiveSynced true retain true machine d' = DeviceSynced d'
  LiveSynced true retain false true d' = MachineSynced d'
  LiveSynced true retain false false d' = ⊥
  LiveSynced false true device machine d' = d' ≡ d
  LiveSynced false false device true d' =
      Settled virtual_machines_table page slug_of node.uid d none d'
  LiveSynced false false device false d' = Settled devices_table page slug_of node.uid d none d'

  pub Written-DeviceSynced :
      HasSpace page slug_of 1 d.devices
      → (tag : Tag) (id : ℕ) (d1 d' : Db) → tag.slug ≡ some slug_of
      → TagsOnly d d1
      → WrittenDevice page (wanted_device tag) d1 id d'
      → DeviceSynced d'
  unfolding device_body
  Written-DeviceSynced fits tag id d1 d' has e (device_type, role, site, p, q, r, w) = (
    tag,
    device_type,
    role,
    site,
    has,
    subst
        (λ k.
          resolved spec.resources.nodes.device.device_type_name k.device_types ≡ some device_type)
        e p,
    subst (λ k. resolved spec.resources.nodes.device.device_role_name k.device_roles ≡ some role) e
        q,
    subst (λ k. resolved spec.resources.nodes.device.site_name k.sites ≡ some site) e r,
    Written-Settled devices_table page slug_of node.uid d fits tag
        (device_body (wanted_device tag) device_type role site) id d1 d' has (refl, refl) e w,
  )

  pub Written-MachineSynced :
      HasSpace page slug_of 1 d.virtual_machines
      → (tag : Tag) (id : ℕ) (d1 d' : Db) → tag.slug ≡ some slug_of
      → TagsOnly d d1
      → WrittenMachine page (wanted_machine tag) d1 id d'
      → MachineSynced d'
  unfolding virtual_machine_body
  Written-MachineSynced fits tag id d1 d' has e (cluster, platform, p, q, w) = (
    tag,
    cluster,
    platform,
    has,
    subst (λ k. resolved_cluster page (node_cluster_name spec) k.clusters ≡ some cluster) e p,
    subst (λ k. Resolved? spec.resources.nodes.virtual_machine.platform_name k.platforms platform) e
        q,
    Written-Settled virtual_machines_table page slug_of node.uid d fits tag
        (virtual_machine_body (wanted_machine tag) cluster platform) id d1 d' has (refl, refl) e w,
  )
