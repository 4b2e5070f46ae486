-- ===== src/NetBox/Services.antt =====
-- internal/netbox/service.go: external IPs of Services as IP Addresses.
use netbox_herald.Base.{ℕ, String, Option, none, List, [], ◌∷◌, Exec, deref, ◌>>=◌}
use netbox_herald.NetBox.Model.{Tag, Body, Object, IpAddressData, NetBoxApi}
use netbox_herald.NetBox.ExternalId.{external_id_fields, service_external_id_prefix}
use netbox_herald.NetBox.Tags.{nested_managed_tag}
use netbox_herald.NetBox.Write.{
  find_by_external_id, write_object, delete_object, list_by_id_prefix, delete_all, count_managed,
}

pub record ServiceIpSpec : Type 0 where
  pub address : String
  pub description : String
  pub external_id : String
  pub managed_tag : Tag

unfoldable pub ip_address_body : ServiceIpSpec → Body IpAddressData
unfolding nested_managed_tag
ip_address_body spec = record {
  name = none;
  tags = nested_managed_tag spec.managed_tag ∷ [];
  custom_fields = external_id_fields spec.external_id;
  attributes = record { address = spec.address; description = spec.description };
}

module _ {S : Type 0} (client : NetBoxApi S) where
  unfoldable pub find_service_ip_by_external_id :
      String → String → Exec S (Option (Object IpAddressData))
  unfolding find_by_external_id
  find_service_ip_by_external_id =
      find_by_external_id client.ip_addresses "listing NetBox IP addresses"

  unfoldable pub ensure_service_ip : ServiceIpSpec → Exec S ℕ
  unfolding find_service_ip_by_external_id write_object ip_address_body
  ensure_service_ip spec = do
    slug ← deref spec.managed_tag.slug
    existing ← find_service_ip_by_external_id slug spec.external_id
    write_object client.ip_addresses "updating NetBox IP address %q (id %d)"
        "creating NetBox IP address %q" spec.address existing (ip_address_body spec)

  unfoldable pub list_service_ips : String → String → String → Exec S (List (Object IpAddressData))
  unfolding list_by_id_prefix service_external_id_prefix
  list_service_ips slug namespace name =
      list_by_id_prefix client.ip_addresses "listing NetBox IP addresses" slug
        (service_external_id_prefix namespace name)

  unfoldable pub delete_service_ip : ℕ → Exec S Unit
  unfolding delete_object
  delete_service_ip = delete_object client.ip_addresses "deleting NetBox IP address (id %d)"

  unfoldable pub delete_service_ips : String → String → String → Exec S Unit
  unfolding list_service_ips delete_all
  delete_service_ips slug namespace name = do
    owned ← list_service_ips slug namespace name
    delete_all client.ip_addresses "deleting NetBox IP address (id %d)" owned

  unfoldable pub count_managed_service_ips : String → Exec S ℕ
  unfolding count_managed
  count_managed_service_ips = count_managed client.ip_addresses "listing NetBox IP addresses"
