-- ===== src/Controller/ClusterController.antt =====
-- internal/controller/cluster_controller.go
use netbox_herald.Base.{
  String, true, false, Option, none, some, [], str_eq, Error, wrapped, foreign, Exec, pure, fail,
  gets, context, attempt, ◌>>=◌, ◌>>◌, if◌then◌else◌,
}
use netbox_herald.Base.Int.{pos}
use netbox_herald.Api.Spec.{HeraldConfigSpec}
use netbox_herald.Api.Status.{HeraldConfig, ResourceSyncStatus}
use netbox_herald.Config.{Store, get_store}
use netbox_herald.NetBox.Model.{NetBoxApi}
use netbox_herald.NetBox.Tags.{ensure_managed_tag}
use netbox_herald.NetBox.Cluster.{ensure_cluster, delete_cluster}
use netbox_herald.Controller.Kube.{Kube}
use netbox_herald.Controller.Common.{
  Requeue, no_requeue, requeue_after, singleton_name, resolve_managed_tag_slug,
  resolve_resync_interval, store_not_ready_poll_interval, inspect,
}

-- `cr.Status.Resources.Cluster = status`
unfoldable pub with_cluster_status : HeraldConfig → ResourceSyncStatus → HeraldConfig
with_cluster_status cr status = record cr {
  status = record cr.status { resources = record cr.status.resources { cluster = status } };
}

-- what `reportSyncError` writes: the error and the generation, and nothing else
unfoldable pub failed_status : HeraldConfig → Error → ResourceSyncStatus
failed_status cr cause = record cr.status.resources.cluster {
  last_error = some cause;
  observed_generation = cr.generation;
}

module _ {S : Type 0} (kube : Kube S) where
  unfoldable pub update_cluster_status : HeraldConfig → ResourceSyncStatus → Exec S Unit
  unfolding with_cluster_status
  update_cluster_status cr status = kube.update_status (with_cluster_status cr status)

  -- An error of the update is logged; the cause is returned.
  unfoldable pub report_sync_error : HeraldConfig → Error → Exec S Requeue
  unfolding with_cluster_status failed_status
  report_sync_error cr cause =
      inspect (kube.update_status (with_cluster_status cr (failed_status cr cause)))
        (λ _. fail cause)

  unfoldable pub disable_cluster :
      NetBoxApi S → HeraldConfigSpec → HeraldConfig → String → Exec S Requeue
  unfolding update_cluster_status report_sync_error
  disable_cluster client spec cr external_id =
      attempt (delete_cluster client (resolve_managed_tag_slug spec) external_id)
        (λ e. report_sync_error cr e)
        (λ _. do
          update_cluster_status cr (record {
            enabled = false;
            last_sync_time = none;
            observed_generation = cr.generation;
            object_count = pos 0;
            last_error = none;
          })
          pure (requeue_after (resolve_resync_interval spec)))

  unfoldable pub enable_cluster :
      NetBoxApi S → HeraldConfigSpec → HeraldConfig → String → Exec S Requeue
  unfolding update_cluster_status report_sync_error
  enable_cluster client spec cr external_id =
      attempt
        (do
          tag ← ensure_managed_tag client (resolve_managed_tag_slug spec)
          ensure_cluster client (record {
            name = spec.resources.cluster.name;
            cluster_type_name = spec.resources.cluster.cluster_type_name;
            cluster_group_name = spec.resources.cluster.cluster_group_name;
            site_name = spec.resources.cluster.site_name;
            external_id = external_id;
            managed_tag = tag;
          }))
        (λ e. report_sync_error cr e)
        (λ _. do
          now ← gets kube.now
          update_cluster_status cr (record {
            enabled = true;
            last_sync_time = some now;
            observed_generation = cr.generation;
            object_count = pos 1;
            last_error = none;
          })
          pure (requeue_after (resolve_resync_interval spec)))

  -- A missing namespace is an error here, as any other.
  unfoldable pub uid_or_fail : Option String → Exec S String
  uid_or_fail none = fail (wrapped "getting kube-system namespace" [] (foreign "not found"))
  uid_or_fail (some uid) = pure uid

  unfoldable pub reconcile_found_cluster :
      NetBoxApi S → HeraldConfigSpec → Option HeraldConfig → Exec S Requeue
  unfolding disable_cluster enable_cluster uid_or_fail
  reconcile_found_cluster client spec none = pure no_requeue
  reconcile_found_cluster client spec (some cr) = do
    found ←
        context (wrapped "getting kube-system namespace" []) (kube.get_namespace_uid "kube-system")
    external_id ← uid_or_fail found
    if spec.resources.cluster.enabled
        then enable_cluster client spec cr external_id
        else disable_cluster client spec cr external_id

  -- the test of `spec` and `netboxClient` for nil
  unfoldable pub reconcile_cluster_with :
      String → Option HeraldConfigSpec × Option (NetBoxApi S) → Exec S Requeue
  unfolding reconcile_found_cluster
  reconcile_cluster_with name (some spec, some client) = do
    found ← kube.get_herald_config name
    reconcile_found_cluster client spec found
  reconcile_cluster_with name _ = pure (requeue_after store_not_ready_poll_interval)

  -- `ClusterReconciler.Reconcile` of a HeraldConfig's name
  unfoldable pub reconcile_cluster : Store S → String → Exec S Requeue
  unfolding reconcile_cluster_with get_store
  reconcile_cluster store name =
      if str_eq name singleton_name
      then reconcile_cluster_with name (get_store store)
      else pure no_requeue
