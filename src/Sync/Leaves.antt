-- ===== src/Sync/Leaves.antt =====
-- What one run of EnsureServiceIP and of EnsureDevice leaves.
use netbox_herald.Base.{ℕ, suc, ◌≤◌, ◌≡◌, refl, String, not, some, none, filter}
use netbox_herald.Base.Triple.{Triple, Triple-weaken}
use netbox_herald.NetBox.Model.{NetBoxApi}
use netbox_herald.NetBox.Nodes.{DeviceNodeSpec, device_body, ensure_device}
use netbox_herald.NetBox.Services.{ServiceIpSpec, ip_address_body, ensure_service_ip}
use netbox_herald.Server.Tables.{Db, UniqueIds, has_tag, devices_table, ip_addresses_table}
use netbox_herald.Server.Laws.{At, IsServer}
use netbox_herald.Server.Calls.{found}
use netbox_herald.Server.Unique.{copies}
use netbox_herald.Sync.Ensure.{ensure_service_ip_lem, ensure_device_lem}
use netbox_herald.Sync.Laws.{HasRoom, Written-untagged, Written-copies, Written-copy}

module _ {S : Type 0} (db : S → Db) (client : NetBoxApi S) (page : ℕ)
    (server : IsServer db client page) (slug : String) (d : Db) where
  -- On a server that keeps NetBox's documented laws, if ids are unique: a run of EnsureServiceIP
  -- that returns leaves the addresses without the managed tag, their order included, and every
  -- other table as they were; one that fails changes nothing.
  pub ensure_service_ip_untagged :
      (spec : ServiceIpSpec)
      → spec.managed_tag.slug ≡ some slug
      → UniqueIds d.ip_addresses
      → Triple
          (At db d)
          (ensure_service_ip client spec)
          (λ _ s.
            (filter (λ o. not (has_tag slug o)) (db s).ip_addresses
              ≡ filter (λ o. not (has_tag slug o)) d.ip_addresses)
            × (db s ≡ record d { ip_addresses = (db s).ip_addresses }))
          (At db d)
  unfolding ip_address_body
  ensure_service_ip_untagged spec has u =
      Triple-weaken
        (λ id s.
          Written-untagged ip_addresses_table page spec.managed_tag slug spec.external_id
            (ip_address_body spec) d (db s) id has (refl, refl) u)
        (λ s h. h) (ensure_service_ip_lem db client page server spec d)

  -- On a server that keeps NetBox's documented laws, if ids are unique, the first page has room
  -- for one more managed address and at most one has the external id: after a run of
  -- EnsureServiceIP that returns exactly one has it; one that fails changes nothing.
  pub ensure_service_ip_unique :
      (spec : ServiceIpSpec)
      → spec.managed_tag.slug ≡ some slug
      → HasRoom ip_addresses_table page slug d
      → copies slug spec.external_id d.ip_addresses ≤ 1
      → Triple
          (At db d)
          (ensure_service_ip client spec)
          (λ _ s. copies slug spec.external_id (db s).ip_addresses ≡ 1)
          (At db d)
  unfolding ip_address_body
  ensure_service_ip_unique spec has room few =
      Triple-weaken
        (λ id s.
          Written-copies ip_addresses_table page spec.managed_tag slug spec.external_id
            (ip_address_body spec) d (db s) id has (refl, refl) room few)
        (λ s h. h) (ensure_service_ip_lem db client page server spec d)

  -- On a server that keeps NetBox's documented laws, if the first page of the managed addresses
  -- shows none with the external id: a run of EnsureServiceIP that returns leaves one more managed
  -- address with it than there were, on that page or beyond; one that fails changes nothing.
  pub ensure_service_ip_duplicates :
      (spec : ServiceIpSpec)
      → spec.managed_tag.slug ≡ some slug
      → found page slug spec.external_id d.ip_addresses ≡ none
      → Triple
          (At db d)
          (ensure_service_ip client spec)
          (λ _ s.
            copies slug spec.external_id (db s).ip_addresses
            ≡ suc (copies slug spec.external_id d.ip_addresses))
          (At db d)
  unfolding ip_address_body
  ensure_service_ip_duplicates spec has absent =
      Triple-weaken
        (λ id s.
          Written-copy ip_addresses_table page spec.managed_tag slug spec.external_id
            (ip_address_body spec) d (db s) id has (refl, refl) absent)
        (λ s h. h) (ensure_service_ip_lem db client page server spec d)

  -- On a server that keeps NetBox's documented laws, if ids are unique, the first page has room
  -- for one more managed Device and at most one has the external id: after a run of EnsureDevice
  -- that returns exactly one has it; one that fails changes nothing.
  pub ensure_device_unique :
      (spec : DeviceNodeSpec)
      → spec.managed_tag.slug ≡ some slug
      → HasRoom devices_table page slug d
      → copies slug spec.external_id d.devices ≤ 1
      → Triple
          (At db d)
          (ensure_device client spec)
          (λ _ s. copies slug spec.external_id (db s).devices ≡ 1)
          (At db d)
  unfolding device_body
  ensure_device_unique spec has room few =
      Triple-weaken
        (λ id s (type, role, site, _, _, _, w).
          Written-copies devices_table page spec.managed_tag slug spec.external_id
            (device_body spec type role site) d (db s) id has (refl, refl) room few w)
        (λ s h. h) (ensure_device_lem db client page server spec d)
