-- ===== src/NetBox/ExternalId.antt =====
-- The external ids: `readExternalID` of internal/netbox/cluster.go, the field that Herald writes,
-- and the ids of service.go and podcidr.go.
use netbox_herald.Base.{
  String, ◌<>◌, Bool, false, Option, none, some, str_eq, starts_with, if◌then◌else◌,
}
use netbox_herald.NetBox.Model.{Value, text, object, Fields, end, field, Object}

abbrev pub external_id_field_name : String
external_id_field_name = "netbox_herald_external_id"

-- `fields[key]`, with its `ok`
unfoldable pub get_field : String → Fields → Option Value
get_field key end = none
get_field key (field k v rest) =
    let more = get_field key rest in if str_eq k key then some v else more

-- `value.(string)`, with its `ok`; a missing value and `nil` are no string.
abbrev pub as_text : Option Value → Option String
as_text (some (text s)) = some s
as_text _ = none

-- `none` is `("", false)`.
unfoldable pub read_external_id : Value → Option String
unfolding get_field
read_external_id (object fields) = as_text (get_field external_id_field_name fields)
read_external_id _ = none

-- `map[string]any{ExternalIDFieldName: id}`
abbrev pub external_id_fields : String → Value
external_id_fields id = object (field external_id_field_name (text id) end)

-- The test of the loops that look for one object: `ok && id == externalID`.
abbrev pub id_is : String → Option String → Bool
id_is external_id none = false
id_is external_id (some id) = str_eq id external_id

-- The test of the loops that collect objects: `ok && strings.HasPrefix(id, prefix)`.
abbrev pub id_starts_with : String → Option String → Bool
id_starts_with prefix none = false
id_starts_with prefix (some id) = starts_with id prefix

unfoldable pub has_external_id {ℓ} : {A : Type ℓ} → String → Object A → Bool
unfolding read_external_id
has_external_id external_id o = id_is external_id (read_external_id o.body.custom_fields)

unfoldable pub has_id_prefix {ℓ} : {A : Type ℓ} → String → Object A → Bool
unfolding read_external_id
has_id_prefix prefix o = id_starts_with prefix (read_external_id o.body.custom_fields)

unfoldable pub service_external_id_prefix : String → String → String
service_external_id_prefix namespace name = namespace <> ("/" <> (name <> "/"))

unfoldable pub external_id_for_service_address : String → String → String → String
unfolding service_external_id_prefix
external_id_for_service_address namespace name address =
    service_external_id_prefix namespace name <> address

unfoldable pub node_pod_cidr_external_id_prefix : String → String
node_pod_cidr_external_id_prefix node_name = node_name <> "/"

unfoldable pub external_id_for_node_pod_cidr : String → String → String
unfolding node_pod_cidr_external_id_prefix
external_id_for_node_pod_cidr node_name cidr = node_pod_cidr_external_id_prefix node_name <> cidr

unfoldable pub external_id_for_pod_cidr_aggregate : String → String
external_id_for_pod_cidr_aggregate family = "cluster-pod-cidrs/" <> family
