-- ===== src/Controller/NodeController.antt =====
-- internal/controller/node_controller.go
use netbox_herald.Base.{
  ℕ, String, Option, none, some, List, [], ◌∷◌, map, str_eq, Error, message, Exec, pure, fail,
  attempt, ◌>>=◌, ◌>>◌, if◌then◌else◌,
}
use netbox_herald.Api.Spec.{HeraldConfigSpec, node_mapping_device, node_mapping_virtual_machine}
use netbox_herald.Controller.SyncStatus.{sync_status}
use netbox_herald.Config.{Store, get_store}
use netbox_herald.NetBox.Model.{Tag, NetBoxApi}
use netbox_herald.NetBox.Tags.{ensure_managed_tag}
use netbox_herald.NetBox.Nodes.{
  ensure_device, ensure_virtual_machine, delete_device_by_external_id, delete_device_by_name,
  delete_virtual_machine_by_external_id, delete_virtual_machine_by_name, count_managed_devices,
  count_managed_virtual_machines,
}
use netbox_herald.Controller.Kube.{Kube, Node}
use netbox_herald.Controller.Common.{
  Requeue, Request, no_requeue, requeue_after, resolve_managed_tag_slug, resolve_resync_interval,
  store_not_ready_poll_interval,
}

unfoldable pub count_nodes : {S : Type 0} → NetBoxApi S → HeraldConfigSpec → String → Exec S ℕ
count_nodes client spec slug =
    if str_eq spec.resources.nodes.mapping node_mapping_virtual_machine
    then count_managed_virtual_machines client slug
    else count_managed_devices client slug

-- `syncNodesStatus`, with the store as it is by then
unfoldable pub sync_nodes_status :
    {S : Type 0} → Kube S → Store S → String → HeraldConfigSpec → Option Error → Exec S Unit
unfolding sync_status
sync_nodes_status kube store slug spec =
    sync_status kube store (λ client. count_nodes client spec slug) spec.resources.nodes.enabled
      (λ status statuses. record statuses { nodes = status })

unfoldable pub delete_node_by_external_id :
    {S : Type 0} → NetBoxApi S → HeraldConfigSpec → String → String → Exec S Unit
delete_node_by_external_id client spec slug external_id =
    if str_eq spec.resources.nodes.mapping node_mapping_virtual_machine
    then delete_virtual_machine_by_external_id client slug external_id
    else delete_device_by_external_id client slug external_id

unfoldable pub delete_node_by_name : {S : Type 0} → NetBoxApi S → String → String → Exec S Unit
delete_node_by_name client slug name = do
  delete_device_by_name client slug name
  delete_virtual_machine_by_name client slug name

-- `virtualMachine.clusterName`, or the name of the synced cluster
unfoldable pub node_cluster_name : HeraldConfigSpec → String
node_cluster_name spec =
    let cluster_name = spec.resources.nodes.virtual_machine.cluster_name in
    if str_eq cluster_name "" then spec.resources.cluster.name else cluster_name

-- the switch on the mapping
unfoldable pub ensure_node : {S : Type 0} → NetBoxApi S → HeraldConfigSpec → Node → Tag → Exec S ℕ
unfolding node_cluster_name
ensure_node client spec node managed_tag =
    let nodes = spec.resources.nodes in
    if str_eq nodes.mapping node_mapping_device
    then ensure_device client (record {
      name = node.name;
      device_role_name = nodes.device.device_role_name;
      device_type_name = nodes.device.device_type_name;
      site_name = nodes.device.site_name;
      external_id = node.uid;
      managed_tag = managed_tag;
    })
    else if str_eq nodes.mapping node_mapping_virtual_machine
    then ensure_virtual_machine client (record {
      name = node.name;
      cluster_name = node_cluster_name spec;
      platform_name = nodes.virtual_machine.platform_name;
      external_id = node.uid;
      managed_tag = managed_tag;
    })
    else fail (
        message "spec.resources.nodes.mapping must be %q or %q, got %q"
          (node_mapping_device ∷ node_mapping_virtual_machine ∷ nodes.mapping ∷ []))

module _ {S : Type 0} (kube : Kube S) (later : Store S) where
  -- `later` is the store as `syncNodesStatus` finds it.
  unfoldable pub report_nodes : HeraldConfigSpec → String → Requeue → Option Error → Exec S Requeue
  unfolding sync_nodes_status
  report_nodes spec slug requeue sync_error = do
    sync_nodes_status kube later slug spec sync_error
    pure requeue

  unfoldable pub reconcile_live_node : NetBoxApi S → HeraldConfigSpec → Node → Exec S Requeue
  unfolding report_nodes ensure_node delete_node_by_external_id
  reconcile_live_node client spec node =
      let slug = resolve_managed_tag_slug spec in
      let resync = requeue_after (resolve_resync_interval spec) in
      if spec.resources.nodes.enabled
      then attempt (do tag ← ensure_managed_tag client slug; ensure_node client spec node tag)
          (λ e. report_nodes spec slug no_requeue (some e))
          (λ _. report_nodes spec slug resync none)
      else if spec.resources.nodes.retain_on_disable
      then report_nodes spec slug resync none
      else attempt (delete_node_by_external_id client spec slug node.uid)
          (λ e. report_nodes spec slug no_requeue (some e))
          (λ _. report_nodes spec slug resync none)

  unfoldable pub reconcile_found_node :
      NetBoxApi S → HeraldConfigSpec → String → Option Node → Exec S Requeue
  unfolding report_nodes reconcile_live_node delete_node_by_name
  reconcile_found_node client spec name none =
      let slug = resolve_managed_tag_slug spec in
      attempt (delete_node_by_name client slug name)
        (λ e. report_nodes spec slug no_requeue (some e))
        (λ _. report_nodes spec slug no_requeue none)
  reconcile_found_node client spec name (some node) = reconcile_live_node client spec node

  -- the test of `spec` and `netboxClient` for nil
  unfoldable pub reconcile_node_with :
      String → Option HeraldConfigSpec × Option (NetBoxApi S) → Exec S Requeue
  unfolding reconcile_found_node
  reconcile_node_with name (some spec, some client) = do
    found ← kube.get_node name
    reconcile_found_node client spec name found
  reconcile_node_with name _ = pure (requeue_after store_not_ready_poll_interval)

  -- `NodeReconciler.Reconcile` of a node's name, on the store as it is at the start
  unfoldable pub reconcile_node : Store S → String → Exec S Requeue
  unfolding reconcile_node_with get_store
  reconcile_node store name = reconcile_node_with name (get_store store)

-- `ctrl.Request{NamespacedName: types.NamespacedName{Name: node.Name}}`
abbrev pub node_request : Node → Request
node_request node = record { namespace = ""; name = node.name }

-- `enqueueAllNodes`: a request for each Node; an error leaves none.
unfoldable pub enqueue_all_nodes : {S : Type 0} → Kube S → Exec S (List Request)
enqueue_all_nodes kube =
    attempt kube.list_nodes (λ e. pure []) (λ nodes. pure (map node_request nodes))
