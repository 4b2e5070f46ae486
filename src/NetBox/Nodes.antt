-- ===== src/NetBox/Nodes.antt =====
-- internal/netbox/node.go: Nodes as Devices or VirtualMachines.
use netbox_herald.Base.{
  ℕ, String, Option, some, [], ◌∷◌, find?, wrapped, Exec, context, deref, ◌>>=◌,
}
use netbox_herald.NetBox.Model.{Tag, Body, Object, DeviceData, VirtualMachineData, NetBoxApi}
use netbox_herald.NetBox.ExternalId.{external_id_fields}
use netbox_herald.NetBox.Tags.{is_text, nested_managed_tag}
use netbox_herald.NetBox.Refs.{
  lookup_device_type_id, lookup_device_role_id, lookup_site_id, lookup_cluster_id,
  lookup_platform_id, optional_id,
}
use netbox_herald.NetBox.Write.{
  tagged_named, find_by_external_id, write_object, delete_found, delete_by_external_id,
  count_managed,
}

pub record DeviceNodeSpec : Type 0 where
  pub name : String
  pub device_role_name : String
  pub device_type_name : String
  pub site_name : String
  pub external_id : String
  pub managed_tag : Tag

pub record VirtualMachineNodeSpec : Type 0 where
  pub name : String
  pub cluster_name : String
  pub platform_name : String
  pub external_id : String
  pub managed_tag : Tag

unfoldable pub device_body : DeviceNodeSpec → ℕ → ℕ → ℕ → Body DeviceData
unfolding nested_managed_tag
device_body spec device_type role site = record {
  name = some spec.name;
  tags = nested_managed_tag spec.managed_tag ∷ [];
  custom_fields = external_id_fields spec.external_id;
  attributes = record { device_type = device_type; role = role; site = site };
}

unfoldable pub virtual_machine_body :
    VirtualMachineNodeSpec → ℕ → Option ℕ → Body VirtualMachineData
unfolding nested_managed_tag
virtual_machine_body spec cluster platform = record {
  name = some spec.name;
  tags = nested_managed_tag spec.managed_tag ∷ [];
  custom_fields = external_id_fields spec.external_id;
  attributes = record { cluster = cluster; platform = platform };
}

module _ {S : Type 0} (client : NetBoxApi S) where
  unfoldable pub find_device_by_external_id : String → String → Exec S (Option (Object DeviceData))
  unfolding find_by_external_id
  find_device_by_external_id = find_by_external_id client.devices "listing NetBox devices"

  unfoldable pub ensure_device : DeviceNodeSpec → Exec S ℕ
  unfolding find_device_by_external_id write_object device_body lookup_device_type_id
      lookup_device_role_id lookup_site_id
  ensure_device spec = do
    slug ← deref spec.managed_tag.slug
    existing ← find_device_by_external_id slug spec.external_id
    device_type_id ← lookup_device_type_id client spec.device_type_name
    role_id ← lookup_device_role_id client spec.device_role_name
    site_id ← lookup_site_id client spec.site_name
    write_object client.devices "updating NetBox device %q (id %d)" "creating NetBox device %q"
        spec.name existing (device_body spec device_type_id role_id site_id)

  unfoldable pub delete_device_by_external_id : String → String → Exec S Unit
  unfolding delete_by_external_id
  delete_device_by_external_id =
      delete_by_external_id client.devices "listing NetBox devices" "deleting NetBox device (id %d)"

  unfoldable pub delete_device_by_name : String → String → Exec S Unit
  unfolding delete_found
  delete_device_by_name slug name = do
    page ←
        context (wrapped "listing NetBox devices" []) (client.devices.list (tagged_named slug name))
    delete_found client.devices "deleting NetBox device (id %d)"
        (find? (λ device. is_text name device.body.name) page.results)

  unfoldable pub count_managed_devices : String → Exec S ℕ
  unfolding count_managed
  count_managed_devices = count_managed client.devices "listing NetBox devices"

  unfoldable pub find_virtual_machine_by_external_id :
      String → String → Exec S (Option (Object VirtualMachineData))
  unfolding find_by_external_id
  find_virtual_machine_by_external_id =
      find_by_external_id client.virtual_machines "listing NetBox virtual machines"

  unfoldable pub ensure_virtual_machine : VirtualMachineNodeSpec → Exec S ℕ
  unfolding find_virtual_machine_by_external_id write_object virtual_machine_body lookup_cluster_id
      lookup_platform_id optional_id
  ensure_virtual_machine spec = do
    slug ← deref spec.managed_tag.slug
    existing ← find_virtual_machine_by_external_id slug spec.external_id
    cluster_id ← lookup_cluster_id client spec.cluster_name
    platform_id ← optional_id (lookup_platform_id client) spec.platform_name
    write_object client.virtual_machines "updating NetBox virtual machine %q (id %d)"
        "creating NetBox virtual machine %q" spec.name existing
        (virtual_machine_body spec cluster_id platform_id)

  unfoldable pub delete_virtual_machine_by_external_id : String → String → Exec S Unit
  unfolding delete_by_external_id
  delete_virtual_machine_by_external_id =
      delete_by_external_id client.virtual_machines "listing NetBox virtual machines"
        "deleting NetBox virtual machine (id %d)"

  unfoldable pub delete_virtual_machine_by_name : String → String → Exec S Unit
  unfolding delete_found
  delete_virtual_machine_by_name slug name = do
    page ←
        context (wrapped "listing NetBox virtual machines" [])
          (client.virtual_machines.list (tagged_named slug name))
    delete_found client.virtual_machines "deleting NetBox virtual machine (id %d)"
        (find? (λ vm. is_text name vm.body.name) page.results)

  unfoldable pub count_managed_virtual_machines : String → Exec S ℕ
  unfolding count_managed
  count_managed_virtual_machines =
      count_managed client.virtual_machines "listing NetBox virtual machines"
