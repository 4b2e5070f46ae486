-- ===== src/NetBox/PodCidrs.antt =====
-- internal/netbox/podcidr.go: pod CIDRs as Prefixes, and their Aggregates.
use netbox_herald.Base.{ℕ, String, Option, none, List, [], ◌∷◌, Exec, deref, ◌>>=◌}
use netbox_herald.NetBox.Model.{Tag, Body, Object, PrefixData, AggregateData, NetBoxApi}
use netbox_herald.NetBox.ExternalId.{external_id_fields, node_pod_cidr_external_id_prefix}
use netbox_herald.NetBox.Tags.{nested_managed_tag}
use netbox_herald.NetBox.Refs.{lookup_rir_id}
use netbox_herald.NetBox.Write.{
  find_by_external_id, write_object, delete_object, delete_by_external_id, list_by_id_prefix,
  delete_all, count_managed,
}

pub record PodCidrPrefixSpec : Type 0 where
  pub cidr : String
  pub description : String
  pub external_id : String
  pub managed_tag : Tag

pub record PodCidrAggregateSpec : Type 0 where
  pub cidr : String
  pub rir_name : String
  pub description : String
  pub external_id : String
  pub managed_tag : Tag

unfoldable pub prefix_body : PodCidrPrefixSpec → Body PrefixData
unfolding nested_managed_tag
prefix_body spec = record {
  name = none;
  tags = nested_managed_tag spec.managed_tag ∷ [];
  custom_fields = external_id_fields spec.external_id;
  attributes = record { prefix = spec.cidr; description = spec.description };
}

unfoldable pub aggregate_body : PodCidrAggregateSpec → ℕ → Body AggregateData
unfolding nested_managed_tag
aggregate_body spec rir = record {
  name = none;
  tags = nested_managed_tag spec.managed_tag ∷ [];
  custom_fields = external_id_fields spec.external_id;
  attributes = record { prefix = spec.cidr; rir = rir; description = spec.description };
}

module _ {S : Type 0} (client : NetBoxApi S) where
  unfoldable pub find_prefix_by_external_id : String → String → Exec S (Option (Object PrefixData))
  unfolding find_by_external_id
  find_prefix_by_external_id = find_by_external_id client.prefixes "listing NetBox prefixes"

  unfoldable pub ensure_pod_cidr_prefix : PodCidrPrefixSpec → Exec S ℕ
  unfolding find_prefix_by_external_id write_object prefix_body
  ensure_pod_cidr_prefix spec = do
    slug ← deref spec.managed_tag.slug
    existing ← find_prefix_by_external_id slug spec.external_id
    write_object client.prefixes "updating NetBox prefix %q (id %d)" "creating NetBox prefix %q"
        spec.cidr existing (prefix_body spec)

  unfoldable pub list_node_pod_cidr_prefixes : String → String → Exec S (List (Object PrefixData))
  unfolding list_by_id_prefix node_pod_cidr_external_id_prefix
  list_node_pod_cidr_prefixes slug node_name =
      list_by_id_prefix client.prefixes "listing NetBox prefixes" slug
        (node_pod_cidr_external_id_prefix node_name)

  unfoldable pub delete_pod_cidr_prefix : ℕ → Exec S Unit
  unfolding delete_object
  delete_pod_cidr_prefix = delete_object client.prefixes "deleting NetBox prefix (id %d)"

  unfoldable pub delete_node_pod_cidr_prefixes : String → String → Exec S Unit
  unfolding list_node_pod_cidr_prefixes delete_all
  delete_node_pod_cidr_prefixes slug node_name = do
    owned ← list_node_pod_cidr_prefixes slug node_name
    delete_all client.prefixes "deleting NetBox prefix (id %d)" owned

  unfoldable pub count_managed_prefixes : String → Exec S ℕ
  unfolding count_managed
  count_managed_prefixes = count_managed client.prefixes "listing NetBox prefixes"

  unfoldable pub find_aggregate_by_external_id :
      String → String → Exec S (Option (Object AggregateData))
  unfolding find_by_external_id
  find_aggregate_by_external_id = find_by_external_id client.aggregates "listing NetBox aggregates"

  unfoldable pub ensure_pod_cidr_aggregate : PodCidrAggregateSpec → Exec S ℕ
  unfolding find_aggregate_by_external_id write_object aggregate_body lookup_rir_id
  ensure_pod_cidr_aggregate spec = do
    slug ← deref spec.managed_tag.slug
    existing ← find_aggregate_by_external_id slug spec.external_id
    rir_id ← lookup_rir_id client spec.rir_name
    write_object client.aggregates "updating NetBox aggregate %q (id %d)"
        "creating NetBox aggregate %q" spec.cidr existing (aggregate_body spec rir_id)

  unfoldable pub delete_pod_cidr_aggregate : String → String → Exec S Unit
  unfolding delete_by_external_id
  delete_pod_cidr_aggregate =
      delete_by_external_id client.aggregates "listing NetBox aggregates"
        "deleting NetBox aggregate (id %d)"

  unfoldable pub count_managed_aggregates : String → Exec S ℕ
  unfolding count_managed
  count_managed_aggregates = count_managed client.aggregates "listing NetBox aggregates"
