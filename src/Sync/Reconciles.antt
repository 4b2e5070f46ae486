-- ===== src/Sync/Reconciles.antt =====
-- A reconcile of a Service, from the answer of the Kubernetes API to the status, on a lawful
-- server.
use netbox_herald.Base.{
  ℕ, ◌+◌, ◌≤◌, ◌≡◌, refl, ◌⊎◌, inl, inr, String, true, Option, none, some, Error, length, filter,
}
use netbox_herald.Base.Triple.{Triple, Triple-return, Triple-bind, Triple-weaken, Triple-attempt}
use netbox_herald.Api.Spec.{HeraldConfigSpec}
use netbox_herald.Config.{Store}
use netbox_herald.NetBox.Model.{NetBoxApi}
use netbox_herald.NetBox.Services.{count_managed_service_ips}
use netbox_herald.Controller.Kube.{Kube, Service}
use netbox_herald.Controller.Common.{
  Requeue, no_requeue, requeue_after, resolve_managed_tag_slug, resolve_resync_interval,
}
use netbox_herald.Controller.ServiceController.{
  sync_services_status, report_services, service_qualifies, reconcile_live_service,
}
use netbox_herald.Server.Tables.{Db, UniqueIds, has_tag, ip_addresses_table}
use netbox_herald.Server.Laws.{At, IsServer}
use netbox_herald.Server.Calls.{count_managed_lem}
use netbox_herald.Sync.Owners.{Others}
use netbox_herald.Sync.Services.{ServiceSynced, sync_service_addresses_exact}
use netbox_herald.Sync.Status.{reported, IsApart, sync_status-Reads}

module _ {S : Type 0} (db : S → Db) (kube : Kube S) (apart : IsApart db kube) (later : Store S)
    (parse_ip : String → Option ℕ) (page : ℕ)
    (reachable : (client : NetBoxApi S)
      → later.client ≡ some client
      → IsServer db client page) where
  report_services-Reads :
      (spec : HeraldConfigSpec) (slug : String) (requeue : Requeue) (e : Option Error) (d : Db)
      → Triple
          (At db d)
          (report_services parse_ip kube later spec slug requeue e)
          (λ r s. (r ≡ requeue) × (db s ≡ d))
          (At db d)
  unfolding report_services sync_services_status count_managed_service_ips
  report_services-Reads spec slug requeue e d =
      Triple-bind _ _
        (sync_status-Reads db kube apart later (λ client. count_managed_service_ips client slug)
          spec.resources.services.enabled (λ status statuses. record statuses { services = status })
          e
          (λ client stored d.
            Triple-weaken (λ _ s h. h.0) (λ s h. h)
              (count_managed_lem db client.ip_addresses ip_addresses_table page
                (reachable client stored).ip_addresses_lem _ slug d))
          d)
        λ _. Triple-return requeue λ s h. (refl, h)

  module _ (client : NetBoxApi S) (server : IsServer db client page) (spec : HeraldConfigSpec)
      (d : Db) where
    abbrev slug_of : String
    slug_of = resolve_managed_tag_slug spec

    abbrev resync : Requeue
    resync = requeue_after (resolve_resync_interval spec)

    -- How a reconcile of a Service that is synced ends: with the resync interval and its addresses
    -- in place, or with an error in the status and no objects changed but managed addresses.
    abbrev pub Ended : Service → Requeue → Db → Type 0
    Ended svc r d' =
        ((r ≡ resync) × ServiceSynced slug_of d svc d')
        ⊎ ((r ≡ no_requeue) × Others ip_addresses_table slug_of d d')

    -- On a server that keeps NetBox's documented laws, with Kubernetes calls that do not touch
    -- NetBox, and the client that the store holds when the status is written on the same server:
    -- if the Service qualifies, ids are unique and the managed addresses with one more for each
    -- ingress fit on one page, then a reconcile that returns either requeues after the resync
    -- interval with the Service's addresses in sync, or requeues nothing with the addresses
    -- without the tag, and every table but the tags and the addresses, as they were; they are so
    -- too where it fails.
    pub reconcile_live_service_synced :
        (svc : Service)
        → service_qualifies parse_ip kube later spec svc ≡ true
        → UniqueIds d.ip_addresses
        → length (filter (has_tag slug_of) d.ip_addresses) + length svc.ingress_ips ≤ page
        → Triple
            (At db d)
            (reconcile_live_service parse_ip kube later client spec svc)
            (λ r s. Ended svc r (db s))
            (λ s. Others ip_addresses_table slug_of d (db s))
    unfolding reconcile_live_service
    reconcile_live_service_synced svc qualifies u room = rw qualifies (
        Triple-attempt {halt = λ s. Others ip_addresses_table slug_of d (db s)} _ _ _
          (sync_service_addresses_exact db client page server parse_ip slug_of d svc u room)
          (λ e.
            reported db _ no_requeue (report_services-Reads spec slug_of no_requeue (some e))
              (Others ip_addresses_table slug_of d) (Ended svc)
              (Others ip_addresses_table slug_of d) (λ d' h. inr (refl, h)) (λ d' h. h))
          (λ _.
            reported db _ resync (report_services-Reads spec slug_of resync none)
              (ServiceSynced slug_of d svc) (Ended svc) (Others ip_addresses_table slug_of d)
              (λ d' h. inl (refl, h)) (λ d' (_, _, h). h))
          (λ s h. h))
