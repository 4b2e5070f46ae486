-- ===== src/Controller/Requeues.antt =====
-- When the reconcilers of Nodes, Services and pod CIDRs come back, whatever the world answers.
use mathlib.Core.Path.{subst}
use netbox_herald.Base.{
  ℕ, ◌≡◌, refl, sym, ap, inl, inr, String, Bool, true, false, Option, none, some, Error, Result, ok,
  err, panic, Exec, continue, attempt, attempt_on, pure, ◌>>=◌, Bool-cases, if◌then◌else◌,
  ok-injective, not, ◌||◌,
}
use netbox_herald.Base.Int.{is_nonpositive}
use netbox_herald.Api.Spec.{HeraldConfigSpec}
use netbox_herald.Config.{Store}
use netbox_herald.NetBox.Model.{NetBoxApi}
use netbox_herald.NetBox.Tags.{ensure_managed_tag}
use netbox_herald.NetBox.Services.{delete_service_ips}
use netbox_herald.Supernet.{IpNet}
use netbox_herald.Controller.Kube.{Kube, Node, Service}
use netbox_herald.Controller.Common.{
  Requeue, no_requeue, requeue_after, resolve_managed_tag_slug, resolve_resync_interval,
}
use netbox_herald.Controller.NodeController.{
  ensure_node, delete_node_by_external_id, sync_nodes_status, report_nodes, reconcile_live_node,
}
use netbox_herald.Controller.ServiceController.{
  sync_service_addresses, sync_services_status, report_services, service_qualifies,
  reconcile_live_service,
}
use netbox_herald.Controller.PodCidrController.{
  sync_aggregates, sync_pod_cidrs_status, report_pod_cidrs, reconcile_aggregates,
}

-- The resync interval is positive for every spec.
pub resolve_resync_interval_positive :
    (spec : HeraldConfigSpec) → is_nonpositive (resolve_resync_interval spec) ≡ false
unfolding resolve_resync_interval
resolve_resync_interval_positive spec = elim (Bool-cases (is_nonpositive spec.resync.interval)) [
  | inl unset ↦ rw unset refl
  | inr set ↦ rw (set, set) refl
]

-- The reconcile comes back: after a positive interval where the sync went well, and never where it
-- failed.
abbrev pub ComesBack : {A : Type 0} → HeraldConfigSpec → Result A → Requeue → Type 0
ComesBack spec (ok a) r =
    (r ≡ requeue_after (resolve_resync_interval spec)) × (is_nonpositive r.after ≡ false)
ComesBack spec (err e) r = r ≡ no_requeue
ComesBack spec panic r = ⊥

-- how a call ended, without what it returned
abbrev pub ended : {A : Type 0} → Result A → Result (Unit {0})
ended (ok a) = ok tt
ended (err e) = err e
ended panic = panic

ComesBack-ended :
    {A : Type 0} (spec : HeraldConfigSpec) (end : Result A) (r : Requeue)
    → ComesBack spec end r
    → ComesBack spec (ended end) r
ComesBack-ended spec (ok a) r h = h
ComesBack-ended spec (err e) r h = h
ComesBack-ended spec panic r h = h

module _ {S : Type 0} where
  reported_requeue :
      (end : Result (Unit {0})) (requeue r : Requeue) (s s' : S)
      → continue end (λ _. pure requeue) s ≡ (ok r, s')
      → r ≡ requeue
  reported_requeue (ok tt) requeue r s s' e = sym (ok-injective (ap (λ p. p.0) e))
  reported_requeue (err x) requeue r s s' e = cc e
  reported_requeue panic requeue r s s' e = cc e

  attempted :
      {A : Type 0} (spec : HeraldConfigSpec) (end : Result A)
      (write : Option Error → Exec S (Unit {0})) (r : Requeue) (s s' : S)
      → attempt_on end
          (λ e. write (some e) >>= λ _. pure no_requeue)
          (λ _. write none >>= λ _. pure (requeue_after (resolve_resync_interval spec)))
          s
        ≡ (ok r, s')
      → ComesBack spec end r
  attempted spec (ok a) write r s s' e =
      let same = reported_requeue (write none s).0 _ r (write none s).1 s' e in
      (
        same,
        subst (λ k. is_nonpositive k.after ≡ false) (sym same)
            (resolve_resync_interval_positive spec),
      )
  attempted spec (err x) write r s s' e =
      reported_requeue (write (some x) s).0 no_requeue r (write (some x) s).1 s' e
  attempted spec panic write r s s' e = cc e

module _ {S : Type 0} (client : NetBoxApi S) (spec : HeraldConfigSpec) where
  -- how the work that the code does for a Node ends
  abbrev pub node_work : Node → S → Result (Unit {0})
  node_work node s =
      if spec.resources.nodes.enabled
      then ended
          ((ensure_managed_tag client (resolve_managed_tag_slug spec) >>= λ tag.
              ensure_node client spec node tag)
            s).0
      else if spec.resources.nodes.retain_on_disable
      then ok tt
      else (delete_node_by_external_id client spec (resolve_managed_tag_slug spec) node.uid s).0

module _ {S : Type 0} (kube : Kube S) (later : Store S) (client : NetBoxApi S)
    (spec : HeraldConfigSpec) where
  -- the work that the code does for a Service, before its report
  abbrev pub service_work : (String → Option ℕ) → Service → Exec S (Unit {0})
  service_work parse_ip svc =
      if service_qualifies parse_ip kube later spec svc
      then sync_service_addresses parse_ip client (resolve_managed_tag_slug spec) svc
      else if spec.resources.services.enabled || not spec.resources.services.retain_on_disable
      then delete_service_ips client (resolve_managed_tag_slug spec) svc.namespace svc.name
      else pure tt

module _ {S : Type 0} (kube : Kube S) (later : Store S) (client : NetBoxApi S)
    (spec : HeraldConfigSpec) (r : Requeue) (s s' : S) where
  abbrev slug : String
  slug = resolve_managed_tag_slug spec

  -- the three branches of a live Service
  service_branches :
      (qualifies deletes : Bool) (sync delete : Exec S (Unit {0}))
      (write : Option Error → Exec S (Unit {0}))
      → (if qualifies
            then attempt sync
                (λ e. write (some e) >>= λ _. pure no_requeue)
                (λ _. write none >>= λ _. pure (requeue_after (resolve_resync_interval spec)))
            else if deletes
            then attempt delete
                (λ e. write (some e) >>= λ _. pure no_requeue)
                (λ _. write none >>= λ _. pure (requeue_after (resolve_resync_interval spec)))
            else (write none >>= λ _. pure (requeue_after (resolve_resync_interval spec))))
          s
        ≡ (ok r, s')
      → ComesBack spec ((if qualifies then sync else if deletes then delete else pure tt) s).0 r
  service_branches true deletes sync delete write e =
      attempted spec (sync s).0 write r (sync s).1 s' e
  service_branches false true sync delete write e =
      attempted spec (delete s).0 write r (delete s).1 s' e
  service_branches false false sync delete write e = attempted spec (ok tt) write r s s' e

  -- A reconcile that returns of a live Service: if its sync, or the deletion of its addresses
  -- where it does not qualify, went well, or there was nothing to do, asks for another one after
  -- the resync interval, which is positive; if it failed, it asks for none.
  pub reconcile_live_service-ComesBack :
      (parse_ip : String → Option ℕ) (svc : Service)
      → reconcile_live_service parse_ip kube later client spec svc s ≡ (ok r, s')
      → ComesBack spec (service_work kube later client spec parse_ip svc s).0 r
  unfolding reconcile_live_service report_services
  reconcile_live_service-ComesBack parse_ip svc e =
      service_branches (service_qualifies parse_ip kube later spec svc)
        (spec.resources.services.enabled || not spec.resources.services.retain_on_disable)
        (sync_service_addresses parse_ip client slug svc)
        (delete_service_ips client slug svc.namespace svc.name)
        (sync_services_status kube later slug spec) e

  node_branches :
      (enabled retain : Bool) (sync : Exec S ℕ) (delete : Exec S (Unit {0}))
      (write : Option Error → Exec S (Unit {0}))
      → (if enabled
            then attempt sync
                (λ e. write (some e) >>= λ _. pure no_requeue)
                (λ _. write none >>= λ _. pure (requeue_after (resolve_resync_interval spec)))
            else if retain
            then (write none >>= λ _. pure (requeue_after (resolve_resync_interval spec)))
            else attempt delete
                (λ e. write (some e) >>= λ _. pure no_requeue)
                (λ _. write none >>= λ _. pure (requeue_after (resolve_resync_interval spec))))
          s
        ≡ (ok r, s')
      → ComesBack spec
          (if enabled then ended (sync s).0 else if retain then ok tt else (delete s).0)
          r
  node_branches true retain sync delete write e =
      ComesBack-ended spec (sync s).0 r (attempted spec (sync s).0 write r (sync s).1 s' e)
  node_branches false true sync delete write e = attempted spec (ok tt) write r s s' e
  node_branches false false sync delete write e =
      attempted spec (delete s).0 write r (delete s).1 s' e

  -- A reconcile that returns of a live Node: if its sync, or its deletion where Nodes are disabled
  -- and not retained, went well, or there was nothing to do, asks for another one after the resync
  -- interval, which is positive; if it failed, it asks for none.
  pub reconcile_live_node-ComesBack :
      (node : Node)
      → reconcile_live_node kube later client spec node s ≡ (ok r, s')
      → ComesBack spec (node_work client spec node s) r
  unfolding reconcile_live_node report_nodes
  reconcile_live_node-ComesBack node e =
      node_branches spec.resources.nodes.enabled spec.resources.nodes.retain_on_disable
        (ensure_managed_tag client slug >>= λ tag. ensure_node client spec node tag)
        (delete_node_by_external_id client spec slug node.uid)
        (sync_nodes_status kube later slug spec) e

  -- A reconcile that returns in Aggregate mode: if the sync of the aggregates, went well, or there
  -- was nothing to do, asks for another one after the resync interval, which is positive; if it
  -- failed, it asks for none.
  pub reconcile_aggregates-ComesBack :
      (parse_cidr : String → Option IpNet) (show_net : IpNet → String)
      → reconcile_aggregates parse_cidr show_net kube later client spec s ≡ (ok r, s')
      → ComesBack spec (sync_aggregates parse_cidr show_net kube later client slug spec s).0 r
  unfolding reconcile_aggregates report_pod_cidrs
  reconcile_aggregates-ComesBack parse_cidr show_net e =
      attempted spec (sync_aggregates parse_cidr show_net kube later client slug spec s).0
        (sync_pod_cidrs_status kube later slug spec) r
        (sync_aggregates parse_cidr show_net kube later client slug spec s).1 s' e
