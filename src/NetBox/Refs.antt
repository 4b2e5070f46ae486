-- ===== src/NetBox/Refs.antt =====
-- internal/netbox/refs.go: references are resolved by name, and are never created.
use netbox_herald.Base.{
  ℕ, String, ◌<>◌, Option, none, some, List, [], ◌∷◌, find?, Error, message, wrapped, Exec, pure,
  fail, context, ◌>>=◌, str_eq, if◌then◌else◌,
}
use netbox_herald.NetBox.Model.{Reference, Object, ClusterData, NetBoxApi}
use netbox_herald.NetBox.Tags.{is_text}

module _ {S : Type 0} where
  abbrev pub id_or_fail : Error → Option Reference → Exec S ℕ
  id_or_fail missing none = fail missing
  id_or_fail missing (some r) = pure r.id

  -- The loop that the lookups share: the first object of exactly that name.
  unfoldable pub lookup_id : Exec S (List Reference) → Error → String → Exec S ℕ
  lookup_id listed missing name = do
    results ← listed
    id_or_fail missing (find? (λ r. is_text name r.name) results)

abbrev must_exist : String → String → Error
must_exist what name =
    message (what <> " %q not found; it must be created in NetBox before it can be referenced")
      (name ∷ [])

-- A reference that is looked up only where its name is not empty.
unfoldable pub optional_id : {S : Type 0} → (String → Exec S ℕ) → String → Exec S (Option ℕ)
optional_id lookup name = if str_eq name "" then pure none else do id ← lookup name; pure (some id)

module _ {S : Type 0} (client : NetBoxApi S) where
  unfoldable pub lookup_site_id : String → Exec S ℕ
  unfolding lookup_id
  lookup_site_id name =
      lookup_id (context (wrapped "listing NetBox sites" []) (client.sites name))
        (must_exist "NetBox site" name) name

  unfoldable pub lookup_cluster_type_id : String → Exec S ℕ
  unfolding lookup_id
  lookup_cluster_type_id name =
      lookup_id (context (wrapped "listing NetBox cluster types" []) (client.cluster_types name))
        (must_exist "NetBox cluster type" name) name

  unfoldable pub lookup_cluster_group_id : String → Exec S ℕ
  unfolding lookup_id
  lookup_cluster_group_id name =
      lookup_id (context (wrapped "listing NetBox cluster groups" []) (client.cluster_groups name))
        (must_exist "NetBox cluster group" name) name

  unfoldable pub lookup_device_role_id : String → Exec S ℕ
  unfolding lookup_id
  lookup_device_role_id name =
      lookup_id (context (wrapped "listing NetBox device roles" []) (client.device_roles name))
        (must_exist "NetBox device role" name) name

  unfoldable pub lookup_device_type_id : String → Exec S ℕ
  unfolding lookup_id
  lookup_device_type_id model =
      lookup_id (context (wrapped "listing NetBox device types" []) (client.device_types model))
        (must_exist "NetBox device type" model) model

  unfoldable pub lookup_rir_id : String → Exec S ℕ
  unfolding lookup_id
  lookup_rir_id name =
      lookup_id (context (wrapped "listing NetBox RIRs" []) (client.rirs name))
        (must_exist "NetBox RIR" name) name

  unfoldable pub lookup_platform_id : String → Exec S ℕ
  unfolding lookup_id
  lookup_platform_id name =
      lookup_id (context (wrapped "listing NetBox platforms" []) (client.platforms name))
        (must_exist "NetBox platform" name) name

  unfoldable pub cluster_id_or_fail : String → Option (Object ClusterData) → Exec S ℕ
  cluster_id_or_fail name (some cluster) = pure cluster.id
  cluster_id_or_fail name none = fail (
      message
        "NetBox cluster %q not found; enable and sync spec.resources.cluster first, or point virtualMachine.clusterName at an existing Cluster"
        (name ∷ []))

  unfoldable pub lookup_cluster_id : String → Exec S ℕ
  unfolding cluster_id_or_fail
  lookup_cluster_id name = do
    listed ←
        context (wrapped "listing NetBox clusters" [])
          (client.clusters.list (record { tag = none; name = some name; limit = none }))
    cluster_id_or_fail name (find? (λ cluster. is_text name cluster.body.name) listed.results)
