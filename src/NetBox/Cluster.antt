-- ===== src/NetBox/Cluster.antt =====
-- internal/netbox/cluster.go: the cluster as a NetBox Cluster.
use netbox_herald.Base.{ℕ, String, Option, none, some, [], ◌∷◌, Exec, deref, ◌>>=◌}
use netbox_herald.NetBox.Model.{Tag, Body, Object, ClusterData, NetBoxApi}
use netbox_herald.NetBox.ExternalId.{external_id_fields}
use netbox_herald.NetBox.Tags.{nested_managed_tag}
use netbox_herald.NetBox.Refs.{
  lookup_cluster_type_id, lookup_cluster_group_id, lookup_site_id, optional_id,
}
use netbox_herald.NetBox.Write.{find_by_external_id, write_object, delete_by_external_id}

pub record ClusterSpec : Type 0 where
  pub name : String
  pub cluster_type_name : String
  pub cluster_group_name : String
  pub site_name : String
  pub external_id : String
  pub managed_tag : Tag

-- `ScopeType` is set together with `ScopeID`.
abbrev scope_type_of : Option ℕ → Option String
scope_type_of none = none
scope_type_of (some id) = some "dcim.site"

unfoldable pub cluster_body : ClusterSpec → ℕ → Option ℕ → Option ℕ → Body ClusterData
unfolding nested_managed_tag
cluster_body spec cluster_type group site = record {
  name = some spec.name;
  tags = nested_managed_tag spec.managed_tag ∷ [];
  custom_fields = external_id_fields spec.external_id;
  attributes = record {
    cluster_type = cluster_type;
    group = group;
    scope_type = scope_type_of site;
    scope_id = site;
  };
}

module _ {S : Type 0} (client : NetBoxApi S) where
  unfoldable pub find_cluster_by_external_id :
      String → String → Exec S (Option (Object ClusterData))
  unfolding find_by_external_id
  find_cluster_by_external_id = find_by_external_id client.clusters "listing NetBox clusters"

  unfoldable pub ensure_cluster : ClusterSpec → Exec S ℕ
  unfolding find_cluster_by_external_id write_object cluster_body optional_id lookup_cluster_type_id
      lookup_cluster_group_id lookup_site_id
  ensure_cluster spec = do
    slug ← deref spec.managed_tag.slug
    existing ← find_cluster_by_external_id slug spec.external_id
    cluster_type_id ← lookup_cluster_type_id client spec.cluster_type_name
    group_id ← optional_id (lookup_cluster_group_id client) spec.cluster_group_name
    site_id ← optional_id (lookup_site_id client) spec.site_name
    write_object client.clusters "updating NetBox cluster %q (id %d)" "creating NetBox cluster %q"
        spec.name existing (cluster_body spec cluster_type_id group_id site_id)

  unfoldable pub delete_cluster : String → String → Exec S Unit
  unfolding delete_by_external_id
  delete_cluster =
      delete_by_external_id client.clusters "listing NetBox clusters"
        "deleting NetBox cluster (id %d)"
