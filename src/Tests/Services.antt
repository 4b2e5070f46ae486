-- ===== src/Tests/Services.antt =====
-- The addresses and prefixes of one Service and one Node on a server in memory.
use netbox_herald.Base.{
  ℕ, ◌+◌, ◌*◌, ◌^◌, ◌≡◌, refl, arith, String, true, not, Option, some, [], ◌∷◌, filter, take,
}
use netbox_herald.Base.Triple.{Triple}
use netbox_herald.NetBox.Model.{Object, IpAddressData, PrefixData}
use netbox_herald.NetBox.ExternalId.{
  get_field, read_external_id, has_external_id, has_id_prefix, service_external_id_prefix,
  external_id_for_service_address, external_id_for_node_pod_cidr, node_pod_cidr_external_id_prefix,
}
use netbox_herald.Base.{◌↔◌}
use netbox_herald.Base.Segments.{is_slashless, is_slashless-Slashless}
use netbox_herald.NetBox.Prefixes.{ip_address_body-listed, prefix_body-listed}
use netbox_herald.NetBox.Services.{ip_address_body, delete_service_ips}
use netbox_herald.NetBox.PodCidrs.{prefix_body}
use netbox_herald.Controller.Kube.{Service}
use netbox_herald.Controller.ServiceController.{sync_service_addresses}
use netbox_herald.Server.Tables.{Db, has_tag}
use netbox_herald.Server.Laws.{At}
use netbox_herald.Server.Calls.{erase_all}
use netbox_herald.Server.Erase.{is_owned}
use netbox_herald.Sync.Deletes.{IsOwnedId, IsOwnedId-has_id_prefix, delete_service_ips_exact}
use netbox_herald.Sync.Owners.{Others}
use netbox_herald.Sync.Services.{ServiceSynced, sync_service_addresses_exact}
use netbox_herald.Sync.Works.{Works, IsUp, sync_service_addresses_returns}
use netbox_herald.Base.{inl, inr}
use netbox_herald.Server.Tables.{ip_addresses_table}
use netbox_herald.Tests.Specs.{web_spec, prefix_spec}
use netbox_herald.Tests.Memory.{server_page, memory, memory-IsServer, fresh_db}

abbrev web_address : Object IpAddressData
web_address = record { id = 9; body = ip_address_body web_spec }

abbrev self : Db → Db
self d = d

-- a server that still has an address of the Service
abbrev stale_db : Db
stale_db = record fresh_db { ip_addresses = web_address ∷ [] }

abbrev web : Service
web = record {
  namespace = "default";
  name = "web";
  kind = "LoadBalancer";
  ingress_ips = "192.0.2.7" ∷ "" ∷ [];
}

abbrev pub parsed_any : ℕ
parsed_any = 0xffff * 2 ^ 32 + 3221225991

abbrev pub parse_any : String → Option ℕ
parse_any ip = some parsed_any

sync_service_addresses_exact_example :
    Triple
      (At self stale_db)
      (sync_service_addresses parse_any memory "netbox-herald-managed" web)
      (λ _. ServiceSynced "netbox-herald-managed" stale_db web)
      (λ d. Others ip_addresses_table "netbox-herald-managed" stale_db d)
unfolding has_tag ip_address_body
sync_service_addresses_exact_example =
    sync_service_addresses_exact self memory server_page memory-IsServer parse_any
      "netbox-herald-managed" stale_db web (tt, tt) (omega arith)

abbrev web_prefix : String
web_prefix = service_external_id_prefix "default" "web"

delete_service_ips_exact_example :
    Triple
      (At self stale_db)
      (delete_service_ips memory "netbox-herald-managed" "default" "web")
      (λ _ d. d ≡ record stale_db {
        ip_addresses =
            filter (λ o. not (is_owned "netbox-herald-managed" web_prefix o)) stale_db.ip_addresses;
      })
      (λ d.
        (n : ℕ) × (d ≡ record stale_db {
          ip_addresses =
              erase_all
                (take n
                  (filter (is_owned "netbox-herald-managed" web_prefix) stale_db.ip_addresses))
                stale_db.ip_addresses;
        }))
unfolding has_tag ip_address_body
delete_service_ips_exact_example =
    delete_service_ips_exact self memory server_page memory-IsServer "netbox-herald-managed"
      stale_db "default" "web" (tt, tt) (omega arith)

web_address_has_prefix : has_id_prefix "default/web/" web_address ≡ true
unfolding has_id_prefix read_external_id get_field ip_address_body
web_address_has_prefix = refl

IsOwnedId-has_id_prefix_example : IsOwnedId "default/web/" web_address.body.custom_fields
IsOwnedId-has_id_prefix_example =
    IsOwnedId-has_id_prefix "default/web/" web_address web_address_has_prefix

web_id : web_spec.external_id ≡ external_id_for_service_address "default" "web" "192.0.2.1"
unfolding external_id_for_service_address
web_id = refl

worker_id : prefix_spec.external_id ≡ external_id_for_node_pod_cidr "worker-1" "10.244.0.0/24"
unfolding external_id_for_node_pod_cidr
worker_id = refl

abbrev written : Object PrefixData
written = record { id = 2; body = prefix_body prefix_spec }

-- The listing of another Service whose name the name starts does not have the address.
ip_address_body-listed_example :
    ((has_external_id (external_id_for_service_address "default" "we" "b/192.0.2.1") web_address
        ≡ true)
      ↔ (◌≡◌ {A = String} "default" "default"
          × ◌≡◌ {A = String} "web" "we"
          × ◌≡◌ {A = String} "192.0.2.1" "b/192.0.2.1"))
    × ((has_id_prefix (service_external_id_prefix "default" "we") web_address ≡ true)
        ↔ (◌≡◌ {A = String} "default" "default" × ◌≡◌ {A = String} "web" "we"))
unfolding is_slashless
ip_address_body-listed_example =
    ip_address_body-listed web_spec 9 "default" "web" "192.0.2.1" web_id
      (is_slashless-Slashless "default" refl) (is_slashless-Slashless "web" refl) "default" "we"
      (is_slashless-Slashless "default" refl) (is_slashless-Slashless "we" refl) "b/192.0.2.1"

prefix_body-listed_example :
    ((has_external_id (external_id_for_node_pod_cidr "worker" "-1/10.244.0.0/24") written ≡ true)
      ↔ (◌≡◌ {A = String} "worker-1" "worker"
          × ◌≡◌ {A = String} "10.244.0.0/24" "-1/10.244.0.0/24"))
    × ((has_id_prefix (node_pod_cidr_external_id_prefix "worker") written ≡ true)
        ↔ ◌≡◌ {A = String} "worker-1" "worker")
unfolding is_slashless
prefix_body-listed_example =
    prefix_body-listed prefix_spec 2 "worker-1" "10.244.0.0/24" worker_id
      (is_slashless-Slashless "worker-1" refl) "worker" (is_slashless-Slashless "worker" refl)
      "-1/10.244.0.0/24"

pub memory-IsUp : IsUp memory
memory-IsUp = record {
  tags_list_works = λ slug. record { run = λ s h. tt };
  tags_create_works = λ data'. record { run = λ s h. refl };
  list_works = λ q. record { run = λ s h. tt };
  create_works = λ body. record { run = λ s h. tt };
  update_works = λ id body. record { run = λ s h. tt };
  delete_works = λ id. record { run = λ s h. tt };
}

sync_service_addresses_returns_example :
    Works (sync_service_addresses parse_any memory "netbox-herald-managed" web)
sync_service_addresses_returns_example =
    sync_service_addresses_returns memory memory-IsUp "netbox-herald-managed" parse_any web
      (inr (parsed_any, refl), (inl refl, tt))
