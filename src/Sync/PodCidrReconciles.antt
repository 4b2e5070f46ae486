-- ===== src/Sync/PodCidrReconciles.antt =====
-- The reconciles of pod CIDRs, in both representations, on a lawful server.
use mathlib.Core.Path.{subst}
use netbox_herald.Base.{
  ℕ, ◌+◌, ◌≤◌, ◌≡◌, refl, sym, ap, ◌∙◌, inl, inr, String, true, not, Option, none, some, length,
  filter, Error, Exec, attempt,
}
use netbox_herald.Base.Triple.{
  Triple, Triple-return, Triple-bind, Triple-given, Triple-weaken, Triple-attempt, Triple-if,
}
use netbox_herald.Api.Spec.{HeraldConfigSpec}
use netbox_herald.Config.{Store}
use netbox_herald.NetBox.Model.{NetBoxApi}
use netbox_herald.NetBox.PodCidrs.{count_managed_prefixes, count_managed_aggregates}
use netbox_herald.Supernet.{IpNet}
use netbox_herald.Controller.Kube.{Kube, Node}
use netbox_herald.Controller.Common.{
  Requeue, no_requeue, requeue_after, resolve_managed_tag_slug, resolve_resync_interval,
}
use netbox_herald.Controller.PodCidrController.{
  aggregate_mode, count_pod_cidrs, sync_pod_cidrs_status, report_pod_cidrs, node_qualifies,
  reconcile_live_prefixes, reconcile_found_prefixes, reconcile_prefix_for_node,
  delete_stale_pod_cidr_aggregates,
}
use netbox_herald.Server.Tables.{Db, UniqueIds, has_tag, prefixes_table, aggregates_table}
use netbox_herald.Server.Laws.{At, IsServer}
use netbox_herald.Server.Calls.{count_managed_lem}
use netbox_herald.Server.Registry.{registry}
use netbox_herald.Sync.Owners.{Others, Triple-from}
use netbox_herald.Sync.NodePrefixes.{NodeSynced, sync_node_prefixes_exact}
use netbox_herald.Sync.Registers.{HasSpace}
use netbox_herald.Sync.Families.{OnlyAggregates, FamiliesSet, delete_aggregates-FamiliesSet}
use netbox_herald.Sync.Supernets.{OnlyPodCidrs}
use netbox_herald.Sync.Status.{reported, IsApart, Reads, sync_status-Reads}
use netbox_herald.Sync.PodCidrStates.{Ended, PrefixMode}

module _ {S : Type 0} (db : S → Db) (kube : Kube S) (apart : IsApart db kube) (later : Store S)
    (parse_cidr : String → Option IpNet) (show_net : IpNet → String) (page : ℕ)
    (reachable : (client : NetBoxApi S)
      → later.client ≡ some client
      → IsServer db client page) where
  count_pod_cidrs-Reads :
      (client : NetBoxApi S) (spec : HeraldConfigSpec) (slug : String)
      → IsServer db client page
      → Reads db (count_pod_cidrs client spec slug)
  unfolding count_pod_cidrs count_managed_prefixes count_managed_aggregates
  count_pod_cidrs-Reads client spec slug server d =
      Triple-if (aggregate_mode spec) _ _
        (λ _.
          Triple-weaken (λ _ s h. h.0) (λ s h. h)
            (count_managed_lem db client.aggregates aggregates_table page server.aggregates_lem _
              slug d))
        (λ _.
          Triple-weaken (λ _ s h. h.0) (λ s h. h)
            (count_managed_lem db client.prefixes prefixes_table page server.prefixes_lem _ slug d))

  report_pod_cidrs-Reads :
      (spec : HeraldConfigSpec) (slug : String) (requeue : Requeue) (e : Option Error) (d : Db)
      → Triple
          (At db d)
          (report_pod_cidrs parse_cidr show_net kube later spec slug requeue e)
          (λ r s. (r ≡ requeue) × (db s ≡ d))
          (At db d)
  unfolding report_pod_cidrs sync_pod_cidrs_status
  report_pod_cidrs-Reads spec slug requeue e d =
      Triple-bind _ _
        (sync_status-Reads db kube apart later (λ client. count_pod_cidrs client spec slug)
          spec.resources.pod_cidrs.enabled
          (λ status statuses. record statuses { pod_cidrs = status }) e
          (λ client stored d. count_pod_cidrs-Reads client spec slug (reachable client stored) d) d)
        λ _. Triple-return requeue λ s h. (refl, h)

  module _ (client : NetBoxApi S) (server : IsServer db client page) (spec : HeraldConfigSpec)
      (d : Db) where
    abbrev slug_of : String
    slug_of = resolve_managed_tag_slug spec

    abbrev resync : Requeue
    resync = requeue_after (resolve_resync_interval spec)

    -- A sync, and the report of how it ended.
    synced_and_reported :
        (sync : Exec S (Unit {0})) (P : Db → Type 0) (pre : S → Type 0)
        → Triple pre sync (λ _ s. P (db s)) (λ s. OnlyPodCidrs slug_of d (db s))
        → ((d' : Db) → P d' → OnlyPodCidrs slug_of d d')
        → Triple pre
            (attempt sync
              (λ e.
                report_pod_cidrs parse_cidr show_net kube later spec slug_of no_requeue (some e))
              (λ _. report_pod_cidrs parse_cidr show_net kube later spec slug_of resync none))
            (λ r s. Ended slug_of resync d P r (db s))
            (λ s. OnlyPodCidrs slug_of d (db s))
    synced_and_reported sync P pre t only =
        Triple-attempt {halt = λ s. OnlyPodCidrs slug_of d (db s)} _ _ _ t
          (λ e.
            reported db _ no_requeue (report_pod_cidrs-Reads spec slug_of no_requeue (some e))
              (OnlyPodCidrs slug_of d) (Ended slug_of resync d P) (OnlyPodCidrs slug_of d)
              (λ d' h. inr (refl, h)) (λ d' h. h))
          (λ _.
            reported db _ resync (report_pod_cidrs-Reads spec slug_of resync none) P
              (Ended slug_of resync d P) (OnlyPodCidrs slug_of d) (λ d' h. inl (refl, h)) only)
          (λ s h. h)

    OnlyAggregates-OnlyPodCidrs :
        (d' : Db) → OnlyAggregates slug_of d d' → OnlyPodCidrs slug_of d d'
    OnlyAggregates-OnlyPodCidrs d' (frame, same) =
        subst (OnlyPodCidrs slug_of d) (sym frame) (refl, refl, same)

    -- The prefixes are synced after the aggregates were deleted.
    Others-OnlyPodCidrs :
        (d1 d' : Db)
        → OnlyAggregates slug_of d d1
        → Others prefixes_table slug_of d1 d'
        → OnlyPodCidrs slug_of d d'
    Others-OnlyPodCidrs d1 d' (frame, same) (same', frame') =
        subst (OnlyPodCidrs slug_of d) (sym frame') (
          subst (λ k. OnlyPodCidrs slug_of d (record k { tags = d'.tags; prefixes = d'.prefixes }))
            (sym frame)
            (refl, same' ∙ ap (λ k. filter (λ o. not (has_tag slug_of o)) k.prefixes) frame, same))

    PrefixMode-of :
        (node : Node) (d1 d' : Db)
        → FamiliesSet slug_of d d1 none none
        → NodeSynced slug_of d1 node d'
        → PrefixMode slug_of d node d'
    PrefixMode-of node d1 d' (set, only) (gone, present, others) = (
      ap (λ k. registry slug_of k.aggregates) others.1 ∙ set,
      gone,
      present,
      Others-OnlyPodCidrs d1 d' only others,
    )

    -- On a server that keeps NetBox's documented laws, with Kubernetes calls that do not touch
    -- NetBox, and the client that the store holds when the status is written on the same server:
    -- if the Kubernetes API returns the Node, which qualifies, ids are unique among prefixes and
    -- aggregates, no external id of an aggregate is managed twice, and the managed prefixes with
    -- one more for each pod CIDR, and the managed aggregates with two more, fit on one page, then
    -- a reconcile in Prefix mode that returns either requeues after the resync interval, or
    -- requeues nothing. In the first case the entries of the two families among the managed
    -- aggregates are none and the others as they were, no managed prefix of the Node has another
    -- external id than those of its pod CIDRs, and there is one for each. In the second case, and
    -- where the reconcile fails, nothing has changed but the tags, managed prefixes and managed
    -- aggregates; nor in the first.
    pub reconcile_prefix_for_node_synced :
        (name : String) (node : Node)
        → ((d' : Db)
            → Triple
                (At db d')
                (kube.get_node name)
                (λ o s. (o ≡ some node) × (db s ≡ d'))
                (At db d'))
        → node_qualifies parse_cidr show_net kube later spec node.pod_cidrs ≡ true
        → UniqueIds d.prefixes
        → length (filter (has_tag slug_of) d.prefixes) + length node.pod_cidrs ≤ page
        → HasSpace page slug_of 2 d.aggregates
        → Triple
            (At db d)
            (reconcile_prefix_for_node parse_cidr show_net kube later client spec name)
            (λ r s. Ended slug_of resync d (PrefixMode slug_of d node) r (db s))
            (λ s. OnlyPodCidrs slug_of d (db s))
    unfolding reconcile_prefix_for_node reconcile_found_prefixes reconcile_live_prefixes
        delete_stale_pod_cidr_aggregates
    reconcile_prefix_for_node_synced name node got qualifies u room fits =
        Triple-attempt {halt = λ s. OnlyPodCidrs slug_of d (db s)} _ _ _
          (Triple-weaken (λ _ s h. h) (λ s h. OnlyAggregates-OnlyPodCidrs (db s) h)
            (delete_aggregates-FamiliesSet db page slug_of client server d fits))
          (λ e.
            reported db _ no_requeue (report_pod_cidrs-Reads spec slug_of no_requeue (some e))
              (OnlyPodCidrs slug_of d) (Ended slug_of resync d (PrefixMode slug_of d node))
              (OnlyPodCidrs slug_of d) (λ d' h. inr (refl, h)) (λ d' h. h))
          (λ _. Triple-from db {P = λ d1. FamiliesSet slug_of d d1 none none} λ d1 (set, only).
            Triple-bind _ _
              (Triple-weaken (λ o s h. (h.1, h.0))
                (λ s h.
                  subst (OnlyPodCidrs slug_of d) (sym h) (OnlyAggregates-OnlyPodCidrs d1 only))
                (got d1))
              λ o. Triple-given λ is.
                rw (is, qualifies)
                  (synced_and_reported _ (PrefixMode slug_of d node) (At db d1)
                    (Triple-weaken (λ _ s h. PrefixMode-of node d1 (db s) (set, only) h)
                      (λ s h. Others-OnlyPodCidrs d1 (db s) only h)
                      (sync_node_prefixes_exact db client page server slug_of d1 node
                        (subst (λ k. UniqueIds k.prefixes) (sym only.0) u)
                        (subst
                          (λ k.
                            length (filter (has_tag slug_of) k.prefixes) + length node.pod_cidrs
                            ≤ page)
                          (sym only.0) room)))
                    (λ d' h. h.3)))
          (λ s h. h)
