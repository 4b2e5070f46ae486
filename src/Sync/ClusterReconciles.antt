-- ===== src/Sync/ClusterReconciles.antt =====
-- A reconcile of the cluster on a lawful server.
use mathlib.Core.Path.{subst}
use netbox_herald.Base.{
  ℕ, ◌≡◌, refl, sym, String, Bool, true, false, Option, none, some, Error, Result, ok, err, panic,
  if◌then◌else◌,
}
use netbox_herald.Base.Triple.{
  Triple, Triple-return, Triple-bind, Triple-given, Triple-weaken, Triple-attempt, Triple-context,
  Ends,
}
use netbox_herald.Api.Spec.{HeraldConfigSpec}
use netbox_herald.Api.Status.{HeraldConfig, ResourceSyncStatus}
use netbox_herald.NetBox.Model.{Tag, Body, ClusterData, NetBoxApi}
use netbox_herald.NetBox.Cluster.{ClusterSpec, cluster_body}
use netbox_herald.Controller.Kube.{Kube}
use netbox_herald.Controller.Common.{
  Requeue, requeue_after, resolve_managed_tag_slug, resolve_resync_interval, inspect_on,
}
use netbox_herald.Controller.ClusterController.{
  update_cluster_status, report_sync_error, enable_cluster, disable_cluster, uid_or_fail,
  reconcile_found_cluster,
}
use netbox_herald.Server.Tables.{Db, clusters_table}
use netbox_herald.Server.Laws.{At, IsServer}
use netbox_herald.Sync.Lookups.{resolved, Resolved?}
use netbox_herald.Sync.Ensure.{WrittenCluster, ensure_cluster_lem}
use netbox_herald.Sync.Removals.{delete_cluster-Removes}
use netbox_herald.Sync.Owners.{Others, Others-start, Triple-from}
use netbox_herald.Sync.Registers.{HasSpace}
use netbox_herald.Sync.Status.{IsApart}
use netbox_herald.Sync.Settles.{Settled, HasSpace-IsClear, removed-Settled, Written-Settled}
use netbox_herald.Sync.Tags.{ensure_managed_tag_lem}

-- what the reconcile asks for
abbrev pub wanted_cluster : HeraldConfigSpec → String → Tag → ClusterSpec
wanted_cluster spec uid tag = record {
  name = spec.resources.cluster.name;
  cluster_type_name = spec.resources.cluster.cluster_type_name;
  cluster_group_name = spec.resources.cluster.cluster_group_name;
  site_name = spec.resources.cluster.site_name;
  external_id = uid;
  managed_tag = tag;
}

module _ (page : ℕ) (spec : HeraldConfigSpec) (uid : String) (d : Db) where
  abbrev slug_of : String
  slug_of = resolve_managed_tag_slug spec

  -- The Cluster that is registered under the UID: that of the spec where the sync is on, with the
  -- ids that its names resolve to, and none where it is off.
  abbrev pub IsSpecified : Bool → Option (Body ClusterData) → Type 0
  IsSpecified true o =
      (tag : Tag) × (cluster_type : ℕ) × (group site : Option ℕ) × (tag.slug ≡ some slug_of)
      × (resolved spec.resources.cluster.cluster_type_name d.cluster_types ≡ some cluster_type)
      × Resolved? spec.resources.cluster.cluster_group_name d.cluster_groups group
      × Resolved? spec.resources.cluster.site_name d.sites site
      × (o ≡ some (cluster_body (wanted_cluster spec uid tag) cluster_type group site))
  IsSpecified false o = o ≡ none

  abbrev pub ClusterSynced : Bool → Db → Type 0
  ClusterSynced enabled d' =
      (o : Option (Body ClusterData)) × IsSpecified enabled o
      × Settled clusters_table page slug_of uid d o d'

module _ {S : Type 0} (db : S → Db) (kube : Kube S) (apart : IsApart db kube) (page : ℕ)
    (client : NetBoxApi S) (server : IsServer db client page) (spec : HeraldConfigSpec)
    (cr : HeraldConfig) (uid : String) (d : Db)
    (fits : HasSpace page (resolve_managed_tag_slug spec) 1 d.clusters) where
  abbrev resync : Requeue
  resync = requeue_after (resolve_resync_interval spec)

  abbrev Rest : Db → Type 0
  Rest = Others clusters_table (resolve_managed_tag_slug spec) d

  -- It fails, whatever becomes of the status.
  report_sync_error-fails :
      (P : Requeue → S → Type 0) (cause : Error)
      → Triple (λ s. Rest (db s)) (report_sync_error kube cr cause) P (λ s. Rest (db s))
  unfolding report_sync_error
  report_sync_error-fails P cause = Triple-from db {P = Rest} λ d1 h. record {
    run = λ s at.
        ended (kube.update_status _ s).0 (kube.update_status _ s).1 d1 h
          ((apart.update_status_lem _ d1).run s at);
  }
    where
      ended :
          (r : Result (Unit {0})) (s : S) (d1 : Db)
          → Rest d1
          → Ends (λ _. At db d1) (At db d1) r s
          → Ends P
              (λ s. Rest (db s))
              (inspect_on {B = Requeue} r (λ _ s. (err cause, s)) s).0
              (inspect_on {B = Requeue} r (λ _ s. (err cause, s)) s).1
      ended (ok a) s d1 h e = subst Rest (sym e) h
      ended (err x) s d1 h e = subst Rest (sym e) h
      ended panic s d1 h e = subst Rest (sym e) h

  -- The status of a sync that went well changes nothing of NetBox.
  updated :
      (P : Db → Type 0) (status : ResourceSyncStatus) (d1 : Db)
      → P d1
      → Rest d1
      → Triple
          (At db d1)
          (update_cluster_status kube cr status)
          (λ _ s. P (db s))
          (λ s. Rest (db s))
  unfolding update_cluster_status
  updated P status d1 p h =
      Triple-weaken (λ _ s e. subst P (sym e) p) (λ s e. subst Rest (sym e) h)
        (apart.update_status_lem _ d1)

  Rest-start : (d' : Db) → d' ≡ record d { tags = d'.tags } → Rest d'
  Rest-start d' e = Others-start clusters_table (resolve_managed_tag_slug spec) d d' e

  disabled :
      Triple
        (At db d)
        (disable_cluster kube client spec cr uid)
        (λ r s. (r ≡ resync) × ClusterSynced page spec uid d false (db s))
        (λ s. Rest (db s))
  unfolding disable_cluster
  disabled =
      Triple-attempt {halt = λ s. Rest (db s)} _ _ _
        (Triple-weaken
          (λ _ s h. (
            none,
            refl,
            removed-Settled clusters_table page (resolve_managed_tag_slug spec) uid d fits (db s) h,
          ))
          (λ s h. subst Rest (sym h) (Rest-start d refl))
          (delete_cluster-Removes db client page server (resolve_managed_tag_slug spec) uid d
            (HasSpace-IsClear clusters_table page (resolve_managed_tag_slug spec) uid d fits)))
        (λ e. report_sync_error-fails _ e)
        (λ _. Triple-from db {P = ClusterSynced page spec uid d false} λ d1 h.
          Triple-bind _ _ (updated (ClusterSynced page spec uid d false) _ d1 h h.2.1)
            λ _. Triple-return resync λ s p. (refl, p))
        (λ s h. h)

  one_registered :
      (tag : Tag) (d1 d' : Db) (id : ℕ)
      → tag.slug ≡ some (resolve_managed_tag_slug spec)
      → d1 ≡ record d { tags = d1.tags }
      → WrittenCluster page (wanted_cluster spec uid tag) d1 id d'
      → ClusterSynced page spec uid d true d'
  unfolding cluster_body
  one_registered tag d1 d' id has e (cluster_type, group, site, is, grouped, sited, w) =
      let body = cluster_body (wanted_cluster spec uid tag) cluster_type group site in
      (
        some body,
        (
          tag,
          cluster_type,
          group,
          site,
          has,
          subst
              (λ k.
                resolved spec.resources.cluster.cluster_type_name k.cluster_types
                ≡ some cluster_type)
              e is,
          subst (λ k. Resolved? spec.resources.cluster.cluster_group_name k.cluster_groups group) e
              grouped,
          subst (λ k. Resolved? spec.resources.cluster.site_name k.sites site) e sited,
          refl,
        ),
        Written-Settled clusters_table page (resolve_managed_tag_slug spec) uid d fits tag body id
            d1 d' has (refl, refl) e w,
      )

  enabled :
      Triple
        (At db d)
        (enable_cluster kube client spec cr uid)
        (λ r s. (r ≡ resync) × ClusterSynced page spec uid d true (db s))
        (λ s. Rest (db s))
  unfolding enable_cluster
  enabled =
      Triple-attempt {mid = λ _ s. ClusterSynced page spec uid d true (db s)}
        {halt = λ s. Rest (db s)} _ _ _
        (Triple-bind _ _
          (Triple-weaken (λ _ s h. h) (λ s h. subst Rest (sym h) (Rest-start d refl))
            (ensure_managed_tag_lem db client page server (resolve_managed_tag_slug spec) d))
          λ tag. Triple-given λ has.
            Triple-from db {P = λ d1. d1 ≡ record d { tags = d1.tags }} λ d1 e.
              Triple-weaken (λ id s w. one_registered tag d1 (db s) id has e w)
                (λ s h. subst Rest (sym h) (Rest-start d1 e))
                (ensure_cluster_lem db client page server (wanted_cluster spec uid tag) d1))
        (λ e. report_sync_error-fails _ e)
        (λ _. record {
          run = λ s h.
              (Triple-bind {post = λ r s. (r ≡ resync) × ClusterSynced page spec uid d true (db s)}
                  {stop = λ s. Rest (db s)} _ _
                  (updated (ClusterSynced page spec uid d true) _ (db s) h h.2.1)
                  λ _. Triple-return resync λ s p. (refl, p)).run
                s refl;
        })
        (λ s h. h)

  switched :
      (b : Bool)
      → Triple
          (At db d)
          (if b
            then enable_cluster kube client spec cr uid
            else disable_cluster kube client spec cr uid)
          (λ r s. (r ≡ resync) × ClusterSynced page spec uid d b (db s))
          (λ s. Rest (db s))
  switched true = enabled
  switched false = disabled

  -- On a server that keeps NetBox's documented laws, with Kubernetes calls that do not touch
  -- NetBox: if the kube-system namespace has the UID, ids are unique among clusters, none has an
  -- external id that another managed one has, and the managed ones with one more fit on one page,
  -- then a reconcile of the cluster that returns requeues after the resync interval, and of the
  -- managed clusters by external id just the entry of the UID is set: with the sync on, to the
  -- Cluster of the spec, with the ids that its names resolve to, and with the sync off to none.
  -- However it ends, the clusters without the tag, and every table but the tags and the clusters,
  -- are as they were.
  pub reconcile_found_cluster-ClusterSynced :
      Triple
        (At db d)
        (kube.get_namespace_uid "kube-system")
        (λ o s. (o ≡ some uid) × (db s ≡ d))
        (At db d)
      → Triple
          (At db d)
          (reconcile_found_cluster kube client spec (some cr))
          (λ r s.
            (r ≡ resync) × ClusterSynced page spec uid d spec.resources.cluster.enabled (db s))
          (λ s. Rest (db s))
  unfolding reconcile_found_cluster uid_or_fail
  reconcile_found_cluster-ClusterSynced got =
      Triple-bind _ _
        (Triple-context _
          (Triple-weaken (λ o s h. (h.1, h.0)) (λ s h. subst Rest (sym h) (Rest-start d refl)) got))
        λ o.
          Triple-given
            λ is. rw is (record { run = λ s h. (switched spec.resources.cluster.enabled).run s h })
