-- ===== src/Sync/NodeReconciles.antt =====
-- A reconcile of a Node that is synced as a Device, from the managed tag to the status, on a lawful
-- server.
use mathlib.Core.Path.{subst}
use netbox_herald.Base.{
  ℕ, ◌≤◌, ◌<◌, ◌≡◌, refl, sym, ap, ◌∙◌, ◌⊎◌, inl, inr, String, true, Option, none, some, Error,
  List, str_eq, length, filter,
}
use netbox_herald.Base.Triple.{
  Triple, Triple-return, Triple-bind, Triple-given, Triple-weaken, Triple-attempt, Triple-if,
}
use netbox_herald.Api.Spec.{HeraldConfigSpec, node_mapping_device, node_mapping_virtual_machine}
use netbox_herald.Config.{Store}
use netbox_herald.NetBox.Model.{Tag, NetBoxApi}
use netbox_herald.NetBox.Nodes.{count_managed_devices, count_managed_virtual_machines}
use netbox_herald.Controller.Kube.{Kube, Node}
use netbox_herald.Controller.Common.{
  Requeue, no_requeue, requeue_after, resolve_managed_tag_slug, resolve_resync_interval,
}
use netbox_herald.Controller.NodeController.{
  count_nodes, sync_nodes_status, ensure_node, report_nodes, reconcile_live_node,
}
use netbox_herald.Server.Tables.{Db, UniqueIds, has_tag, devices_table, virtual_machines_table}
use netbox_herald.Server.Laws.{At, IsServer}
use netbox_herald.Server.Calls.{count_managed_lem}
use netbox_herald.Server.Unique.{copies}
use netbox_herald.Sync.Owners.{Triple-from}
use netbox_herald.Sync.Laws.{HasRoom}
use netbox_herald.Sync.Leaves.{ensure_device_unique}
use netbox_herald.Sync.Settles.{TagsOnly}
use netbox_herald.Sync.Status.{reported, Reads, IsApart, sync_status-Reads}
use netbox_herald.Sync.Tags.{ensure_managed_tag_lem}

module _ {S : Type 0} (db : S → Db) (page : ℕ) where
  count_nodes-Reads :
      (client : NetBoxApi S) (spec : HeraldConfigSpec) (slug : String)
      → IsServer db client page
      → Reads db (count_nodes client spec slug)
  unfolding count_nodes count_managed_devices count_managed_virtual_machines
  count_nodes-Reads client spec slug server d =
      Triple-if (str_eq spec.resources.nodes.mapping node_mapping_virtual_machine) _ _
        (λ _.
          Triple-weaken (λ _ s h. h.0) (λ s h. h)
            (count_managed_lem db client.virtual_machines virtual_machines_table page
              server.virtual_machines_lem _ slug d))
        (λ _.
          Triple-weaken (λ _ s h. h.0) (λ s h. h)
            (count_managed_lem db client.devices devices_table page server.devices_lem _ slug d))

module _ {S : Type 0} (db : S → Db) (kube : Kube S) (apart : IsApart db kube) (later : Store S)
    (page : ℕ)
    (stored : (client : NetBoxApi S) → later.client ≡ some client → IsServer db client page) where
  pub report_nodes-Reads :
      (spec : HeraldConfigSpec) (slug : String) (requeue : Requeue) (e : Option Error) (d : Db)
      → Triple
          (At db d)
          (report_nodes kube later spec slug requeue e)
          (λ r s. (r ≡ requeue) × (db s ≡ d))
          (At db d)
  unfolding report_nodes sync_nodes_status
  report_nodes-Reads spec slug requeue e d =
      Triple-bind _ _
        (sync_status-Reads db kube apart later (λ client. count_nodes client spec slug)
          spec.resources.nodes.enabled (λ status statuses. record statuses { nodes = status }) e
          (λ client is. count_nodes-Reads db page client spec slug (stored client is)) d)
        λ _. Triple-return requeue λ s h. (refl, h)

  module _ (client : NetBoxApi S) (server : IsServer db client page) (spec : HeraldConfigSpec)
      (d : Db) where
    abbrev slug_of : String
    slug_of = resolve_managed_tag_slug spec

    ensure_node_unique :
        (node : Node) (tag : Tag)
        → str_eq spec.resources.nodes.mapping node_mapping_device ≡ true
        → tag.slug ≡ some slug_of
        → HasRoom devices_table page slug_of d
        → copies slug_of node.uid d.devices ≤ 1
        → Triple
            (λ s. TagsOnly d (db s))
            (ensure_node client spec node tag)
            (λ _ s. copies slug_of node.uid (db s).devices ≡ 1)
            (λ s. TagsOnly d (db s))
    unfolding ensure_node
    ensure_node_unique node tag device has room few = rw device (
        Triple-from db {P = TagsOnly d} λ d1 e.
          let same : d1.devices ≡ d.devices = ap (λ k. k.devices) e in
          Triple-weaken (λ _ s h. h) (λ s h. subst (TagsOnly d) (sym h) e)
            (ensure_device_unique db client page server slug_of d1 _ has
              (subst (λ t. UniqueIds t × (length (filter (has_tag slug_of) t) < page)) (sym same)
                room)
              (subst (λ t. copies slug_of node.uid t ≤ 1) (sym same) few)))

    -- How the reconcile ends: with the resync interval and exactly one managed Device with the
    -- Node's UID, or with an error in the status and nothing changed but the tags.
    abbrev pub NodeEnded : Node → Requeue → Db → Type 0
    NodeEnded node r d' =
        ((r ≡ requeue_after (resolve_resync_interval spec))
          × (copies slug_of node.uid d'.devices ≡ 1))
        ⊎ ((r ≡ no_requeue) × TagsOnly d d')

    -- how it ends where the status cannot be written
    abbrev pub NodeStopped : Node → Db → Type 0
    NodeStopped node d' = (copies slug_of node.uid d'.devices ≡ 1) ⊎ TagsOnly d d'

    -- On a server that keeps NetBox's documented laws, with Kubernetes calls that do not touch
    -- NetBox, and the client that the store holds when the status is written on the same server:
    -- if Nodes are enabled and mapped to Devices, ids are unique, the first page has room for one
    -- more managed Device and at most one has the Node's UID, then a reconcile of the Node that
    -- returns either requeues after the resync interval with exactly one managed Device of that
    -- UID, or requeues nothing with nothing changed but the tags; where it fails, one of the two
    -- is left.
    pub reconcile_live_node_device :
        (node : Node)
        → spec.resources.nodes.enabled ≡ true
        → str_eq spec.resources.nodes.mapping node_mapping_device ≡ true
        → HasRoom devices_table page slug_of d
        → copies slug_of node.uid d.devices ≤ 1
        → Triple
            (At db d)
            (reconcile_live_node kube later client spec node)
            (λ r s. NodeEnded node r (db s))
            (λ s. NodeStopped node (db s))
    unfolding reconcile_live_node
    reconcile_live_node_device node enabled device room few =
        Triple-if spec.resources.nodes.enabled _ _
          (λ _.
            Triple-attempt {mid = λ _ s. copies slug_of node.uid (db s).devices ≡ 1}
              {halt = λ s. TagsOnly d (db s)} _ _ _
              (Triple-bind _ _
                (Triple-weaken (λ _ _ h. h)
                  (λ s h.
                    h ∙ ap {A = List Tag} (λ k. record d { tags = k }) (sym (ap (λ k. k.tags) h)))
                  (ensure_managed_tag_lem db client page server slug_of d))
                λ tag. Triple-given λ has. ensure_node_unique node tag device has room few)
              (λ e.
                reported db _ no_requeue (report_nodes-Reads spec slug_of no_requeue (some e))
                  (TagsOnly d) (NodeEnded node) (NodeStopped node) (λ d' h. inr (refl, h))
                  (λ d' h. inr h))
              (λ _.
                reported db _ _
                  (report_nodes-Reads spec slug_of (requeue_after (resolve_resync_interval spec))
                    none)
                  (λ d'. copies slug_of node.uid d'.devices ≡ 1) (NodeEnded node) (NodeStopped node)
                  (λ d' h. inl (refl, h)) (λ d' h. inl h))
              (λ s h. inr h))
          (λ off. cc (enabled, off))
