-- ===== src/Sync/Removals.antt =====
-- The deletions by external id, and of a Node's prefixes, on a lawful server.
use netbox_herald.Base.{
  ℕ, ◌≤◌, ◌≡◌, refl, ap, ◌∙◌, arith, String, not, List, [], ◌∷◌, length, filter, find?, take,
  take_all, Exec,
}
use netbox_herald.Base.Triple.{Triple, Triple-weaken}
use netbox_herald.NetBox.Model.{Object, Endpoint, NetBoxApi}
use netbox_herald.NetBox.ExternalId.{has_external_id, node_pod_cidr_external_id_prefix}
use netbox_herald.NetBox.Write.{delete_by_external_id}
use netbox_herald.NetBox.Nodes.{delete_device_by_external_id, delete_virtual_machine_by_external_id}
use netbox_herald.NetBox.Cluster.{delete_cluster}
use netbox_herald.NetBox.PodCidrs.{
  delete_pod_cidr_aggregate, delete_node_pod_cidr_prefixes, list_node_pod_cidr_prefixes,
}
use netbox_herald.Server.Tables.{
  Db, Table, UniqueIds, has_tag, devices_table, virtual_machines_table, clusters_table,
  prefixes_table, aggregates_table,
}
use netbox_herald.Server.Laws.{At, IsEndpoint, IsServer}
use netbox_herald.Server.Calls.{found, erase_found, erase_all, delete_by_external_id_lem}
use netbox_herald.Server.Unique.{is_managed, copies}
use netbox_herald.Server.Registry.{first_of, find?-first_of}
use netbox_herald.Server.Erase.{is_owned, filter-filter, erase_all-filter}
use netbox_herald.Sync.Deletes.{delete_owned_lem}

module _ {A : Type 0} where
  pub erase_found-first_of :
      (os t : List (Object A)) → length os ≤ 1 → erase_found (first_of os) t ≡ erase_all os t
  unfolding first_of
  erase_found-first_of [] t h = refl
  erase_found-first_of (o ∷ []) t h = refl
  erase_found-first_of (o ∷ x ∷ os) t h = absurd (omega arith)

  -- With all of them on the page and at most one copy, the deletion leaves what is no copy.
  erase_found-copies :
      (page : ℕ) (slug external_id : String) (t : List (Object A))
      → UniqueIds t
      → length (filter (has_tag slug) t) ≤ page
      → copies slug external_id t ≤ 1
      → erase_found (found page slug external_id t) t
        ≡ filter (λ o. not (is_managed slug external_id o)) t
  erase_found-copies page slug external_id t u room few =
      ap (λ o. erase_found o t)
        (ap (find? (has_external_id external_id)) (take_all page (filter (has_tag slug) t) room)
          ∙ find?-first_of (has_external_id external_id) (filter (has_tag slug) t)
          ∙ ap first_of (filter-filter (has_tag slug) (has_external_id external_id) t))
      ∙ erase_found-first_of (filter (is_managed slug external_id) t) t few
      ∙ erase_all-filter (is_managed slug external_id) t u

-- From `d`, a deletion either returns with the managed objects of the external id gone from the
-- table, or fails with nothing changed.
abbrev pub Removes :
    {S A : Type 0} → (S → Db) → Table A → Exec S Unit → String → String → Db → Type 0
Removes db table m slug external_id d =
    Triple (At db d) m
      (λ _ s. db s ≡ table.put (filter (λ o. not (is_managed slug external_id o)) (table.get d)) d)
      (At db d)

-- All managed objects fit on one page, and at most one has the external id.
abbrev pub IsClear : {A : Type 0} → Table A → ℕ → String → String → Db → Type 0
IsClear table page slug external_id d =
    UniqueIds (table.get d)
    × (length (filter (has_tag slug) (table.get d)) ≤ page)
    × (copies slug external_id (table.get d) ≤ 1)

removes :
    {S A : Type 0} (db : S → Db) (objects : Endpoint S A) (table : Table A) (page : ℕ)
    (lawful : IsEndpoint db objects table page) (l deleting slug external_id : String) (d : Db)
    → IsClear table page slug external_id d
    → Removes db table
        (delete_by_external_id objects l deleting slug external_id)
        slug
        external_id
        d
removes db objects table page lawful l deleting slug external_id d (u, room, few) =
    Triple-weaken
      (λ _ s h.
        h
        ∙ ap (λ t. table.put t d)
            (erase_found-copies page slug external_id (table.get d) u room few))
      (λ s h. h)
      (delete_by_external_id_lem db objects table page lawful l deleting slug external_id d)

module _ {S : Type 0} (db : S → Db) (client : NetBoxApi S) (page : ℕ)
    (server : IsServer db client page) (slug external_id : String) (d : Db) where
  -- On a server that keeps NetBox's documented laws, if ids are unique, the managed objects of the
  -- kind fit on one page and at most one has the external id: a run of DeleteDeviceByExternalID
  -- that returns removes exactly the managed Device with it, if there is one; a run that fails
  -- changes nothing.
  pub delete_device_by_external_id-Removes :
      IsClear devices_table page slug external_id d
      → Removes db devices_table
          (delete_device_by_external_id client slug external_id)
          slug
          external_id
          d
  unfolding delete_device_by_external_id
  delete_device_by_external_id-Removes =
      removes db client.devices devices_table page server.devices_lem _ _ slug external_id d

  -- On a server that keeps NetBox's documented laws, if ids are unique, the managed objects of the
  -- kind fit on one page and at most one has the external id: a run of
  -- DeleteVirtualMachineByExternalID that returns removes exactly the managed VirtualMachine with
  -- it, if there is one; a run that fails changes nothing.
  pub delete_virtual_machine_by_external_id-Removes :
      IsClear virtual_machines_table page slug external_id d
      → Removes db virtual_machines_table
          (delete_virtual_machine_by_external_id client slug external_id)
          slug
          external_id
          d
  unfolding delete_virtual_machine_by_external_id
  delete_virtual_machine_by_external_id-Removes =
      removes db client.virtual_machines virtual_machines_table page server.virtual_machines_lem _ _
        slug external_id d

  -- On a server that keeps NetBox's documented laws, if ids are unique, the managed objects of the
  -- kind fit on one page and at most one has the external id: a run of DeleteCluster that returns
  -- removes exactly the managed Cluster with it, if there is one; a run that fails changes
  -- nothing.
  pub delete_cluster-Removes :
      IsClear clusters_table page slug external_id d
      → Removes db clusters_table (delete_cluster client slug external_id) slug external_id d
  unfolding delete_cluster
  delete_cluster-Removes =
      removes db client.clusters clusters_table page server.clusters_lem _ _ slug external_id d

  -- On a server that keeps NetBox's documented laws, if ids are unique, the managed objects of the
  -- kind fit on one page and at most one has the external id: a run of DeletePodCIDRAggregate that
  -- returns removes exactly the managed Aggregate with it, if there is one; a run that fails
  -- changes nothing.
  pub delete_pod_cidr_aggregate-Removes :
      IsClear aggregates_table page slug external_id d
      → Removes db aggregates_table
          (delete_pod_cidr_aggregate client slug external_id)
          slug
          external_id
          d
  unfolding delete_pod_cidr_aggregate
  delete_pod_cidr_aggregate-Removes =
      removes db client.aggregates aggregates_table page server.aggregates_lem _ _ slug external_id
        d

module _ {S : Type 0} (db : S → Db) (client : NetBoxApi S) (page : ℕ)
    (server : IsServer db client page) (slug node_name : String) (d : Db) where
  -- On a server that keeps NetBox's documented laws, if ids are unique and the managed prefixes
  -- fit on one page: a run of DeleteNodePodCIDRPrefixes that returns leaves exactly the prefixes
  -- that are not managed or lack the Node's prefix of external ids, and the rest of the database;
  -- one that fails has done the first deletions, in the order of the listing.
  pub delete_node_pod_cidr_prefixes_exact :
      UniqueIds d.prefixes
      → length (filter (has_tag slug) d.prefixes) ≤ page
      → Triple
          (At db d)
          (delete_node_pod_cidr_prefixes client slug node_name)
          (λ _ s. db s ≡ record d {
            prefixes =
                filter
                  (λ o. not (is_owned slug (node_pod_cidr_external_id_prefix node_name) o))
                  d.prefixes;
          })
          (λ s.
            (n : ℕ) × (db s ≡ record d {
              prefixes =
                  erase_all
                    (take n (
                      filter
                        (is_owned slug (node_pod_cidr_external_id_prefix node_name))
                        d.prefixes))
                    d.prefixes;
            }))
  unfolding delete_node_pod_cidr_prefixes list_node_pod_cidr_prefixes
  delete_node_pod_cidr_prefixes_exact u room =
      delete_owned_lem db client.prefixes prefixes_table page server.prefixes_lem _ _ slug
        (node_pod_cidr_external_id_prefix node_name) d u room
