-- ===== src/Sync/LiveNodes.antt =====
-- A reconcile of a Node that is there, whatever the spec says of Nodes, on a lawful server.
use netbox_herald.Base.{
  ℕ, ◌≡◌, refl, sym, ◌⊎◌, inl, inr, String, Bool, true, false, none, some, Exec, str_eq, attempt,
  ◌>>=◌, if◌then◌else◌,
}
use mathlib.Core.Path.{subst}
use netbox_herald.Base.Triple.{
  Triple, Triple-bind, Triple-given, Triple-weaken, Triple-attempt, Triple-fail,
}
use netbox_herald.Api.Spec.{HeraldConfigSpec, node_mapping_device, node_mapping_virtual_machine}
use netbox_herald.Config.{Store}
use netbox_herald.NetBox.Model.{Tag, NetBoxApi}
use netbox_herald.NetBox.Tags.{ensure_managed_tag}
use netbox_herald.Controller.Kube.{Kube, Node}
use netbox_herald.Controller.Common.{
  Requeue, no_requeue, requeue_after, resolve_managed_tag_slug, resolve_resync_interval,
}
use netbox_herald.Controller.NodeController.{
  ensure_node, delete_node_by_external_id, report_nodes, reconcile_live_node,
}
use netbox_herald.Server.Tables.{Db, devices_table, virtual_machines_table}
use netbox_herald.Server.Laws.{At, IsServer}
use netbox_herald.Sync.Ensure.{ensure_device_lem, ensure_virtual_machine_lem}
use netbox_herald.Sync.NodeReconciles.{report_nodes-Reads}
use netbox_herald.Sync.NodeStates.{
  wanted_device, wanted_machine, LiveSynced, Written-DeviceSynced, Written-MachineSynced,
}
use netbox_herald.Sync.Owners.{Triple-from}
use netbox_herald.Sync.Registers.{HasSpace}
use netbox_herald.Sync.Removals.{
  delete_device_by_external_id-Removes, delete_virtual_machine_by_external_id-Removes,
}
use netbox_herald.Sync.Settles.{TagsOnly, At-TagsOnly, HasSpace-IsClear, removed-Settled}
use netbox_herald.Sync.Status.{reported, IsApart}
use netbox_herald.Sync.Tags.{ensure_managed_tag_lem}

module _ (spec : HeraldConfigSpec) (d : Db) where
  -- How the reconcile ends: with the resync interval and `P`, or with an error in the status and
  -- nothing changed but the tags.
  abbrev pub Ended : (Db → Type 0) → Requeue → Db → Type 0
  Ended P r d' =
      ((r ≡ requeue_after (resolve_resync_interval spec)) × P d')
      ⊎ ((r ≡ no_requeue) × TagsOnly d d')

  -- how it ends where the status cannot be written
  abbrev pub Stopped : (Db → Type 0) → Db → Type 0
  Stopped P d' = P d' ⊎ TagsOnly d d'

module _ {S : Type 0} (db : S → Db) (kube : Kube S) (apart : IsApart db kube) (later : Store S)
    (page : ℕ)
    (stored : (client : NetBoxApi S) → later.client ≡ some client → IsServer db client page)
    (client : NetBoxApi S) (server : IsServer db client page) (spec : HeraldConfigSpec)
    (node : Node) (d : Db) (fits : HasSpace page (resolve_managed_tag_slug spec) 1 d.devices)
    (fits_too : HasSpace page (resolve_managed_tag_slug spec) 1 d.virtual_machines) where
  abbrev slug : String
  slug = resolve_managed_tag_slug spec

  abbrev resync : Requeue
  resync = requeue_after (resolve_resync_interval spec)

  synced_and_reported :
      {A : Type 0} (sync : Exec S A) (P : Db → Type 0)
      → Triple (At db d) sync (λ _ s. P (db s)) (λ s. TagsOnly d (db s))
      → Triple
          (At db d)
          (attempt sync
            (λ e. report_nodes kube later spec slug no_requeue (some e))
            (λ _. report_nodes kube later spec slug resync none))
          (λ r s. Ended spec d P r (db s))
          (λ s. Stopped spec d P (db s))
  synced_and_reported sync P t =
      Triple-attempt {halt = λ s. TagsOnly d (db s)} _ _ _ t
        (λ e.
          reported db _ no_requeue
            (report_nodes-Reads db kube apart later page stored spec slug no_requeue (some e))
            (TagsOnly d) (Ended spec d P) (Stopped spec d P) (λ d' h. inr (refl, h))
            (λ d' h. inr h))
        (λ _.
          reported db _ resync
            (report_nodes-Reads db kube apart later page stored spec slug resync none) P
            (Ended spec d P) (Stopped spec d P) (λ d' h. inl (refl, h)) (λ d' h. inl h))
        (λ s h. inr h)

  switched :
      (retain device machine : Bool) (tag : Tag)
      → tag.slug ≡ some slug
      → str_eq spec.resources.nodes.mapping node_mapping_device ≡ device
      → str_eq spec.resources.nodes.mapping node_mapping_virtual_machine ≡ machine
      → Triple
          (λ s. TagsOnly d (db s))
          (ensure_node client spec node tag)
          (λ _ s. LiveSynced page spec node d true retain device machine (db s))
          (λ s. TagsOnly d (db s))
  unfolding ensure_node
  switched retain true machine tag has is is' = rw is (
      Triple-from db {P = TagsOnly d} λ d1 e.
        Triple-weaken
          (λ id s w. Written-DeviceSynced page spec node d fits tag id d1 (db s) has e w)
          (λ s h. subst (TagsOnly d) (sym h) e)
          (ensure_device_lem db client page server (wanted_device page spec node d tag) d1))
  switched retain false true tag has is is' =
      rw (is, is')
        (Triple-from db {P = TagsOnly d} λ d1 e.
          Triple-weaken
            (λ id s w. Written-MachineSynced page spec node d fits_too tag id d1 (db s) has e w)
            (λ s h. subst (TagsOnly d) (sym h) e)
            (ensure_virtual_machine_lem db client page server (wanted_machine page spec node d tag)
              d1))
  switched retain false false tag has is is' = rw (is, is') (Triple-fail _)

  cleared :
      (device machine : Bool)
      → str_eq spec.resources.nodes.mapping node_mapping_virtual_machine ≡ machine
      → Triple
          (At db d)
          (delete_node_by_external_id client spec slug node.uid)
          (λ _ s. LiveSynced page spec node d false false device machine (db s))
          (λ s. TagsOnly d (db s))
  unfolding delete_node_by_external_id
  cleared device true is = rw is (
      Triple-weaken
        (λ _ s h. removed-Settled virtual_machines_table page slug node.uid d fits_too (db s) h)
        (λ s h. At-TagsOnly d (db s) h)
        (delete_virtual_machine_by_external_id-Removes db client page server slug node.uid d
          (HasSpace-IsClear virtual_machines_table page slug node.uid d fits_too)))
  cleared device false is = rw is (
      Triple-weaken (λ _ s h. removed-Settled devices_table page slug node.uid d fits (db s) h)
        (λ s h. At-TagsOnly d (db s) h)
        (delete_device_by_external_id-Removes db client page server slug node.uid d
          (HasSpace-IsClear devices_table page slug node.uid d fits)))

  by_spec :
      (enabled retain device machine : Bool)
      → str_eq spec.resources.nodes.mapping node_mapping_device ≡ device
      → str_eq spec.resources.nodes.mapping node_mapping_virtual_machine ≡ machine
      → Triple
          (At db d)
          (if enabled
            then attempt
                (ensure_managed_tag client slug >>= λ tag. ensure_node client spec node tag)
                (λ e. report_nodes kube later spec slug no_requeue (some e))
                (λ _. report_nodes kube later spec slug resync none)
            else if retain
            then report_nodes kube later spec slug resync none
            else attempt
                (delete_node_by_external_id client spec slug node.uid)
                (λ e. report_nodes kube later spec slug no_requeue (some e))
                (λ _. report_nodes kube later spec slug resync none))
          (λ r s. Ended spec d (LiveSynced page spec node d enabled retain device machine) r (db s))
          (λ s. Stopped spec d (LiveSynced page spec node d enabled retain device machine) (db s))
  by_spec true retain device machine is is' =
      synced_and_reported _ (LiveSynced page spec node d true retain device machine) (
        Triple-bind _ _
          (Triple-weaken (λ _ _ h. h) (λ s h. At-TagsOnly d (db s) h)
            (ensure_managed_tag_lem db client page server slug d))
          λ tag. Triple-given λ has. switched retain device machine tag has is is')
  by_spec false true device machine is is' =
      Triple-weaken (λ r s h. inl h) (λ s h. inl h)
        (report_nodes-Reads db kube apart later page stored spec slug resync none d)
  by_spec false false device machine is is' =
      synced_and_reported _ (LiveSynced page spec node d false false device machine)
        (cleared device machine is')

  -- On a server that keeps NetBox's documented laws, with Kubernetes calls that do not touch
  -- NetBox, and the client that the store holds when the status is written on the same server: if
  -- ids are unique, no external id is managed twice and the managed objects with one more fit on
  -- one page, both among Devices and among VirtualMachines, then a reconcile of a live Node that
  -- returns either requeues after the resync interval, or requeues nothing with nothing changed
  -- but the tags. In the first case, with Nodes enabled, the mapping is to Devices or
  -- VirtualMachines, and of the managed ones by external id just the entry of the Node's UID is
  -- set, to the object of the spec with the ids that its names resolve to, and every other kind is
  -- as it was; with Nodes disabled, nothing has changed if they are retained, and else the UID's
  -- entry of the mapped kind is none. Where it fails, one of the two is left.
  pub reconcile_live_node-LiveSynced :
      Triple
        (At db d)
        (reconcile_live_node kube later client spec node)
        (λ r s.
          Ended spec d
            (LiveSynced page spec node d spec.resources.nodes.enabled
              spec.resources.nodes.retain_on_disable
              (str_eq spec.resources.nodes.mapping node_mapping_device)
              (str_eq spec.resources.nodes.mapping node_mapping_virtual_machine))
            r
            (db s))
        (λ s.
          Stopped spec d
            (LiveSynced page spec node d spec.resources.nodes.enabled
              spec.resources.nodes.retain_on_disable
              (str_eq spec.resources.nodes.mapping node_mapping_device)
              (str_eq spec.resources.nodes.mapping node_mapping_virtual_machine))
            (db s))
  unfolding reconcile_live_node
  reconcile_live_node-LiveSynced =
      by_spec spec.resources.nodes.enabled spec.resources.nodes.retain_on_disable
        (str_eq spec.resources.nodes.mapping node_mapping_device)
        (str_eq spec.resources.nodes.mapping node_mapping_virtual_machine) refl refl
