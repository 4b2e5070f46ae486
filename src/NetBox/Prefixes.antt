-- ===== src/NetBox/Prefixes.antt =====
-- The external ids that a Service's or a Node's objects are written with tell the Services and the
-- Nodes apart.
use text.Mathlib.TextEquality.{starts_with_iff}
use netbox_herald.Base.{ℕ, ◌≡◌, sym, ap, ap₂, ◌∙◌, ◌↔◌, String, true, eq_iff}
use netbox_herald.Base.Segments.{Slashless, segments_one, segments_two}
use netbox_herald.NetBox.Model.{Object, IpAddressData, PrefixData}
use netbox_herald.NetBox.ExternalId.{
  get_field, read_external_id, has_external_id, has_id_prefix, service_external_id_prefix,
  external_id_for_service_address, node_pod_cidr_external_id_prefix, external_id_for_node_pod_cidr,
}
use netbox_herald.NetBox.Services.{ServiceIpSpec, ip_address_body}
use netbox_herald.NetBox.PodCidrs.{PodCidrPrefixSpec, prefix_body}

module _ (spec : ServiceIpSpec) (id : ℕ) (namespace name address : String)
    (e : spec.external_id ≡ external_id_for_service_address namespace name address)
    (p : Slashless namespace) (q : Slashless name) (namespace' name' : String)
    (p' : Slashless namespace') (q' : Slashless name') where
  abbrev written_address : Object IpAddressData
  written_address = record { id = id; body = ip_address_body spec }

  -- Take an IP address that is written under the external id of a Service and an address, and
  -- names of Services and namespaces without a slash. A search by the external id of a Service and
  -- an address finds it just where the namespace, the name and the address are those that it was
  -- written with, and the listing by the prefix of a Service has it just where the namespace and
  -- the name are.
  pub ip_address_body-listed :
      (address' : String)
      → ((has_external_id
              (external_id_for_service_address namespace' name' address')
              written_address
            ≡ true)
          ↔ ((namespace ≡ namespace') × (name ≡ name') × (address ≡ address')))
        × ((has_id_prefix (service_external_id_prefix namespace' name') written_address ≡ true)
            ↔ ((namespace ≡ namespace') × (name ≡ name')))
  unfolding has_external_id has_id_prefix read_external_id get_field ip_address_body
      external_id_for_service_address service_external_id_prefix
  ip_address_body-listed address' = (
    (
      λ h.
          segments_two namespace name namespace' name' address address' p q p' q'
            (sym e ∙ (eq_iff _ _).0 h),
      λ (a, b, c). (eq_iff _ _).1 (
          e
          ∙ ap₂ (λ x y. external_id_for_service_address x y address) a b
          ∙ ap (external_id_for_service_address namespace' name') c),
    ),
    (
      λ h.
          let (rest, is) = (starts_with_iff _ _).0 h in
          let (a, b, _) =
            segments_two namespace name namespace' name' address rest p q p' q' (sym e ∙ sym is) in
          (a, b),
      λ (a, b).
          (starts_with_iff _ _).1
            (address, sym (e ∙ ap₂ (λ x y. external_id_for_service_address x y address) a b)),
    ),
  )

module _ (spec : PodCidrPrefixSpec) (id : ℕ) (node_name cidr : String)
    (e : spec.external_id ≡ external_id_for_node_pod_cidr node_name cidr) (p : Slashless node_name)
    (node_name' : String) (p' : Slashless node_name') where
  abbrev written_prefix : Object PrefixData
  written_prefix = record { id = id; body = prefix_body spec }

  -- Take a prefix that is written under the external id of a Node and a pod CIDR, and names of
  -- Nodes without a slash. A search by the external id of a Node and a pod CIDR finds it just
  -- where both are those that it was written with, and the listing by the prefix of a Node has it
  -- just where the name is.
  pub prefix_body-listed :
      (cidr' : String)
      → ((has_external_id (external_id_for_node_pod_cidr node_name' cidr') written_prefix ≡ true)
          ↔ ((node_name ≡ node_name') × (cidr ≡ cidr')))
        × ((has_id_prefix (node_pod_cidr_external_id_prefix node_name') written_prefix ≡ true)
            ↔ (node_name ≡ node_name'))
  unfolding has_external_id has_id_prefix read_external_id get_field prefix_body
      external_id_for_node_pod_cidr node_pod_cidr_external_id_prefix
  prefix_body-listed cidr' = (
    (
      λ h. segments_one node_name node_name' cidr cidr' p p' (sym e ∙ (eq_iff _ _).0 h),
      λ (a, c). (eq_iff _ _).1 (e ∙ ap₂ external_id_for_node_pod_cidr a c),
    ),
    (
      λ h.
          let (rest, is) = (starts_with_iff _ _).0 h in
          (segments_one node_name node_name' cidr rest p p' (sym e ∙ sym is)).0,
      λ a.
          (starts_with_iff _ _).1
            (cidr, sym (e ∙ ap (λ n. external_id_for_node_pod_cidr n cidr) a)),
    ),
  )
