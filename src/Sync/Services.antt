-- ===== src/Sync/Services.antt =====
-- `syncServiceAddresses` on a lawful server: what a run leaves of the IP addresses.
use netbox_herald.Base.{ℕ, ◌+◌, ◌≤◌, String, Option, [], length, filter}
use netbox_herald.Base.Triple.{Triple}
use netbox_herald.NetBox.Model.{NetBoxApi}
use netbox_herald.NetBox.ExternalId.{service_external_id_prefix}
use netbox_herald.NetBox.Services.{list_service_ips}
use netbox_herald.Controller.Kube.{Service}
use netbox_herald.Controller.ServiceController.{ensure_addresses, sync_service_addresses}
use netbox_herald.Server.Tables.{Db, UniqueIds, has_tag, ip_addresses_table}
use netbox_herald.Server.Laws.{At, IsServer}
use netbox_herald.Sync.Owners.{Others, Synced, sync_owned-Synced}
use netbox_herald.Sync.Addresses.{desired_ids, ensure_addresses-Kept}

module _ (slug : String) (d : Db) (svc : Service) where
  -- The addresses are those that the Service wants.
  abbrev pub ServiceSynced : Db → Type 0
  ServiceSynced =
      Synced ip_addresses_table slug (service_external_id_prefix svc.namespace svc.name) d
        (desired_ids svc.namespace svc.name svc.ingress_ips)

module _ {S : Type 0} (db : S → Db) (client : NetBoxApi S) (page : ℕ)
    (server : IsServer db client page) (parse_ip : String → Option ℕ) (slug : String) (d : Db)
    (svc : Service) where
  -- On a server that keeps NetBox's documented laws, if ids are unique and the managed addresses
  -- with one more for each ingress fit on one page: a run of syncServiceAddresses that returns
  -- leaves no managed address with the Service's prefix whose external id is not that of one of
  -- its ingress IPs, and at least one managed address for each ingress IP that is not empty.
  -- However it ends, a run leaves the addresses without the tag, and every table but the tags and
  -- the addresses, as they were.
  pub sync_service_addresses_exact :
      UniqueIds d.ip_addresses
      → length (filter (has_tag slug) d.ip_addresses) + length svc.ingress_ips ≤ page
      → Triple
          (At db d)
          (sync_service_addresses parse_ip client slug svc)
          (λ _ s. ServiceSynced slug d svc (db s))
          (λ s. Others ip_addresses_table slug d (db s))
  unfolding sync_service_addresses list_service_ips
  sync_service_addresses_exact u room =
      sync_owned-Synced db client client.ip_addresses ip_addresses_table page
        server.ip_addresses_lem server slug _ d (desired_ids svc.namespace svc.name svc.ingress_ips)
        _ _ (λ tag. ensure_addresses parse_ip client tag svc svc.ingress_ips [])
        (length svc.ingress_ips) u room
        (λ tag tagged.
          ensure_addresses-Kept db client page server slug d parse_ip tag tagged svc svc.ingress_ips
            [] _)
