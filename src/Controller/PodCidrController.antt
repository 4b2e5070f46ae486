-- ===== src/Controller/PodCidrController.antt =====
-- internal/controller/podcidr_controller.go, less `computeSupernets` (Supernet.antt).
use netbox_herald.Base.{
  ℕ, map, String, ◌<>◌, Bool, false, not, ◌||◌, Option, none, some, List, [], ◌∷◌, ◌++◌, str_eq,
  Error, wrapped, Exec, pure, context, attempt, ◌>>=◌, ◌>>◌, if◌then◌else◌,
}
use netbox_herald.Api.Spec.{HeraldConfigSpec, pod_cidr_representation_aggregate}
use netbox_herald.Config.{Store, get_store}
use netbox_herald.NetBox.Model.{Tag, NetBoxApi}
use netbox_herald.NetBox.ExternalId.{
  external_id_for_node_pod_cidr, external_id_for_pod_cidr_aggregate,
}
use netbox_herald.NetBox.Tags.{ensure_managed_tag}
use netbox_herald.NetBox.PodCidrs.{
  ensure_pod_cidr_prefix, list_node_pod_cidr_prefixes, delete_node_pod_cidr_prefixes,
  ensure_pod_cidr_aggregate, delete_pod_cidr_aggregate, count_managed_prefixes,
  count_managed_aggregates,
}
use netbox_herald.Supernet.{
  IpNet, Family, ipv4, ipv6, family_name, Families, at_family, compute_supernets,
}
use netbox_herald.Controller.Kube.{Kube, Node}
use netbox_herald.Controller.Common.{
  Requeue, Request, no_requeue, requeue_after, resolve_managed_tag_slug, resolve_resync_interval,
  store_not_ready_poll_interval,
}
use netbox_herald.Controller.SyncStatus.{sync_status}
use netbox_herald.Controller.Prune.{prune}

-- `podCIDRAddressFamilies`
abbrev pub pod_cidr_address_families : List Family
pod_cidr_address_families = ipv4 ∷ ipv6 ∷ []

abbrev pub aggregate_mode : HeraldConfigSpec → Bool
aggregate_mode spec =
    str_eq spec.resources.pod_cidrs.representation pod_cidr_representation_aggregate

module _ {S : Type 0} (client : NetBoxApi S) where
  -- The loop over the node's pod CIDRs; `desired` is `desiredExternalIDs`.
  unfoldable pub ensure_prefixes :
      Tag → String → String → List String → List String → Exec S (List String)
  ensure_prefixes tag node_name description [] desired = pure desired
  ensure_prefixes tag node_name description (cidr ∷ cidrs) desired = do
    let external_id = external_id_for_node_pod_cidr node_name cidr
    ensure_pod_cidr_prefix client (record {
      cidr = cidr;
      description = description;
      external_id = external_id;
      managed_tag = tag;
    })
    ensure_prefixes tag node_name description cidrs (desired ++ external_id ∷ [])

  unfoldable pub sync_node_prefixes : String → Node → Exec S Unit
  unfolding ensure_prefixes
  sync_node_prefixes slug node = do
    tag ← ensure_managed_tag client slug
    desired ←
        ensure_prefixes tag node.name ("Kubernetes Node " <> (node.name <> " pod CIDR"))
          node.pod_cidrs []
    owned ← list_node_pod_cidr_prefixes client slug node.name
    prune client.prefixes "deleting NetBox prefix (id %d)" desired owned

  -- the loop of `deleteStalePodCIDRAggregates`, and of `syncAggregates` where the sync is off
  unfoldable pub delete_aggregates : String → List Family → Exec S Unit
  delete_aggregates slug [] = pure tt
  delete_aggregates slug (family ∷ families) = do
    delete_pod_cidr_aggregate client slug (external_id_for_pod_cidr_aggregate (family_name family))
    delete_aggregates slug families

  unfoldable pub delete_stale_pod_cidr_aggregates : String → Exec S Unit
  unfolding delete_aggregates
  delete_stale_pod_cidr_aggregates slug = delete_aggregates slug pod_cidr_address_families

  -- the first loop of `syncAggregates` over the nodes
  unfoldable pub delete_stale_prefixes : String → List Node → Exec S Unit
  delete_stale_prefixes slug [] = pure tt
  delete_stale_prefixes slug (node ∷ nodes) = do
    delete_node_pod_cidr_prefixes client slug node.name
    delete_stale_prefixes slug nodes

  -- the turn of the last loop for one family
  unfoldable pub sync_family : String → String → Tag → Family → Option String → Exec S Unit
  sync_family slug rir_name tag family none =
      delete_pod_cidr_aggregate client slug
        (external_id_for_pod_cidr_aggregate (family_name family))
  sync_family slug rir_name tag family (some cidr) = do
    ensure_pod_cidr_aggregate client (record {
      cidr = cidr;
      rir_name = rir_name;
      description = "Kubernetes pod CIDR aggregate (" <> (family_name family <> ")");
      external_id = external_id_for_pod_cidr_aggregate (family_name family);
      managed_tag = tag;
    })
    pure tt

  unfoldable pub sync_families : String → String → Tag → Families String → List Family → Exec S Unit
  unfolding sync_family
  sync_families slug rir_name tag supernets [] = pure tt
  sync_families slug rir_name tag supernets (family ∷ families) = do
    sync_family slug rir_name tag family (at_family supernets family)
    sync_families slug rir_name tag supernets families

-- the loop that appends `node.Spec.PodCIDRs...`
unfoldable pub all_cidrs : List Node → List String
all_cidrs [] = []
all_cidrs (node ∷ nodes) = node.pod_cidrs ++ all_cidrs nodes

unfoldable pub count_pod_cidrs : {S : Type 0} → NetBoxApi S → HeraldConfigSpec → String → Exec S ℕ
count_pod_cidrs client spec slug =
    if aggregate_mode spec
    then count_managed_aggregates client slug
    else count_managed_prefixes client slug

-- `syncStatus`, with the store as it is by then
unfoldable pub sync_pod_cidrs_status :
    {S : Type 0} → Kube S → Store S → String → HeraldConfigSpec → Option Error → Exec S Unit
unfolding sync_status
sync_pod_cidrs_status kube store slug spec =
    sync_status kube store (λ client. count_pod_cidrs client spec slug)
      spec.resources.pod_cidrs.enabled (λ status statuses. record statuses { pod_cidrs = status })

module _ {S : Type 0} (parse_cidr : String → Option IpNet) (show_net : IpNet → String)
    (kube : Kube S) (later : Store S) where
  unfoldable pub report_pod_cidrs :
      HeraldConfigSpec → String → Requeue → Option Error → Exec S Requeue
  unfolding sync_pod_cidrs_status
  report_pod_cidrs spec slug requeue sync_error = do
    sync_pod_cidrs_status kube later slug spec sync_error
    pure requeue

  unfoldable pub sync_enabled_aggregates : NetBoxApi S → String → HeraldConfigSpec → Exec S Unit
  unfolding delete_stale_prefixes sync_families all_cidrs
  sync_enabled_aggregates client slug spec = do
    nodes ← context (wrapped "listing nodes" []) kube.list_nodes
    delete_stale_prefixes client slug nodes
    supernets ← λ s. (compute_supernets parse_cidr show_net (all_cidrs nodes), s)
    tag ← ensure_managed_tag client slug
    sync_families client slug spec.resources.pod_cidrs.rir_name tag supernets
        pod_cidr_address_families

  unfoldable pub sync_aggregates : NetBoxApi S → String → HeraldConfigSpec → Exec S Unit
  unfolding sync_enabled_aggregates delete_aggregates
  sync_aggregates client slug spec =
      if spec.resources.pod_cidrs.enabled
      then sync_enabled_aggregates client slug spec
      else if spec.resources.pod_cidrs.retain_on_disable
      then pure tt
      else delete_aggregates client slug pod_cidr_address_families

  unfoldable pub reconcile_aggregates : NetBoxApi S → HeraldConfigSpec → Exec S Requeue
  unfolding sync_aggregates report_pod_cidrs
  reconcile_aggregates client spec =
      let slug = resolve_managed_tag_slug spec in
      attempt (sync_aggregates client slug spec)
        (λ e. report_pod_cidrs spec slug no_requeue (some e))
        (λ _. report_pod_cidrs spec slug (requeue_after (resolve_resync_interval spec)) none)

  -- `spec.Resources.PodCIDRs.Enabled && len(node.Spec.PodCIDRs) > 0`
  abbrev pub node_qualifies : HeraldConfigSpec → List String → Bool
  node_qualifies spec [] = false
  node_qualifies spec (cidr ∷ cidrs) = spec.resources.pod_cidrs.enabled

  unfoldable pub reconcile_live_prefixes : NetBoxApi S → HeraldConfigSpec → Node → Exec S Requeue
  unfolding report_pod_cidrs sync_node_prefixes
  reconcile_live_prefixes client spec node =
      let slug = resolve_managed_tag_slug spec in
      let resync = requeue_after (resolve_resync_interval spec) in
      if node_qualifies spec node.pod_cidrs
      then attempt (sync_node_prefixes client slug node)
          (λ e. report_pod_cidrs spec slug no_requeue (some e))
          (λ _. report_pod_cidrs spec slug resync none)
      else if spec.resources.pod_cidrs.enabled || not spec.resources.pod_cidrs.retain_on_disable
      then attempt (delete_node_pod_cidr_prefixes client slug node.name)
          (λ e. report_pod_cidrs spec slug no_requeue (some e))
          (λ _. report_pod_cidrs spec slug resync none)
      else report_pod_cidrs spec slug resync none

  unfoldable pub reconcile_found_prefixes :
      NetBoxApi S → HeraldConfigSpec → String → Option Node → Exec S Requeue
  unfolding report_pod_cidrs reconcile_live_prefixes
  reconcile_found_prefixes client spec name none =
      let slug = resolve_managed_tag_slug spec in
      attempt (delete_node_pod_cidr_prefixes client slug name)
        (λ e. report_pod_cidrs spec slug no_requeue (some e))
        (λ _. report_pod_cidrs spec slug no_requeue none)
  reconcile_found_prefixes client spec name (some node) = reconcile_live_prefixes client spec node

  unfoldable pub reconcile_prefix_for_node :
      NetBoxApi S → HeraldConfigSpec → String → Exec S Requeue
  unfolding reconcile_found_prefixes delete_stale_pod_cidr_aggregates
  reconcile_prefix_for_node client spec name =
      let slug = resolve_managed_tag_slug spec in
      attempt (delete_stale_pod_cidr_aggregates client slug)
        (λ e. report_pod_cidrs spec slug no_requeue (some e))
        (λ _. do found ← kube.get_node name; reconcile_found_prefixes client spec name found)

  -- the test of `spec` and `netboxClient` for nil, and the choice of the representation
  unfoldable pub reconcile_pod_cidr_with :
      String → Option HeraldConfigSpec × Option (NetBoxApi S) → Exec S Requeue
  unfolding reconcile_aggregates reconcile_prefix_for_node
  reconcile_pod_cidr_with name (some spec, some client) =
      if aggregate_mode spec
      then reconcile_aggregates client spec
      else reconcile_prefix_for_node client spec name
  reconcile_pod_cidr_with name _ = pure (requeue_after store_not_ready_poll_interval)

  -- `PodCIDRReconciler.Reconcile` of a node's name, on the store as it is at the start
  unfoldable pub reconcile_pod_cidr : Store S → String → Exec S Requeue
  unfolding reconcile_pod_cidr_with get_store
  reconcile_pod_cidr store name = reconcile_pod_cidr_with name (get_store store)

-- `enqueueAllNodes` of this reconciler: a request for each Node; an error leaves none.
unfoldable pub enqueue_all_pod_cidr_nodes : {S : Type 0} → Kube S → Exec S (List Request)
enqueue_all_pod_cidr_nodes kube =
    attempt kube.list_nodes (λ e. pure [])
      (λ nodes. pure (map (λ (node : Node). record { namespace = ""; name = node.name }) nodes))
