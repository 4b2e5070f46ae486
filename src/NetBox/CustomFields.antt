-- ===== src/NetBox/CustomFields.antt =====
-- internal/netbox/customfields.go
use netbox_herald.Base.{
  String, Bool, true, false, some, List, [], ◌∷◌, any, wrapped, Exec, pure, context, ◌>>=◌, ◌>>◌,
}
use netbox_herald.NetBox.Model.{CustomField, NetBoxApi}
use netbox_herald.NetBox.ExternalId.{external_id_field_name}
use netbox_herald.NetBox.Tags.{is_text}

abbrev pub external_id_field_object_types : List String
external_id_field_object_types =
    "dcim.device" ∷ "virtualization.virtualmachine" ∷ "ipam.ipaddress" ∷ "ipam.prefix"
    ∷ "ipam.aggregate" ∷ "virtualization.cluster" ∷ []

module _ {S : Type 0} (client : NetBoxApi S) where
  create_external_id_custom_field : Exec S Unit
  create_external_id_custom_field = do
    context (wrapped "creating NetBox custom field %q" (external_id_field_name ∷ [])) (
        client.custom_fields_create (record {
          name = some external_id_field_name;
          label = "Herald External ID";
          description =
              "Stable external ID (Kubernetes object UID) netbox-herald uses to find and update the same NetBox object across renames. Managed by netbox-herald; do not edit.";
          kind = "text";
          object_types = external_id_field_object_types;
        }))
    pure tt

  -- what follows the loop over the listed fields
  field_or_create : Bool → Exec S Unit
  unfolding create_external_id_custom_field
  field_or_create true = pure tt
  field_or_create false = create_external_id_custom_field

  unfoldable pub ensure_external_id_custom_field : Exec S Unit
  unfolding field_or_create
  ensure_external_id_custom_field = do
    results ←
        context (wrapped "listing NetBox custom fields" [])
          (client.custom_fields_list external_id_field_name)
    field_or_create (any (λ (f : CustomField). is_text external_id_field_name f.name) results)
