-- ===== src/Sync/Ensure.antt =====
-- The six Ensure functions on a lawful server: each is one upsert of its table, of the object that
-- its spec describes, and does nothing where it fails.
use netbox_herald.Base.{ℕ, ◌≡◌, String, Option, some, Exec, deref, ◌>>=◌}
use netbox_herald.Base.Triple.{Triple, Triple-bind, Triple-given, Triple-weaken, Triple-deref}
use netbox_herald.NetBox.Model.{Tag, Body, Endpoint, NetBoxApi}
use netbox_herald.NetBox.Refs.{lookup_site_id, lookup_cluster_group_id, lookup_platform_id}
use netbox_herald.NetBox.Write.{find_by_external_id, write_object}
use netbox_herald.NetBox.Nodes.{
  DeviceNodeSpec, VirtualMachineNodeSpec, device_body, virtual_machine_body, ensure_device,
  ensure_virtual_machine,
}
use netbox_herald.NetBox.Cluster.{ClusterSpec, cluster_body, ensure_cluster}
use netbox_herald.NetBox.Services.{ServiceIpSpec, ip_address_body, ensure_service_ip}
use netbox_herald.NetBox.PodCidrs.{
  PodCidrPrefixSpec, PodCidrAggregateSpec, prefix_body, aggregate_body, ensure_pod_cidr_prefix,
  ensure_pod_cidr_aggregate,
}
use netbox_herald.Server.Tables.{
  Db, Table, devices_table, virtual_machines_table, clusters_table, ip_addresses_table,
  prefixes_table, aggregates_table,
}
use netbox_herald.Server.Laws.{At, IsEndpoint, IsServer}
use netbox_herald.Server.Calls.{found, Upserted, find_lem, write_object_lem}
use netbox_herald.Sync.Lookups.{
  resolved, Resolved?, optional_id_lem, lookup_cluster_id_lem, resolved_cluster, lookup_site_id_lem,
  lookup_cluster_type_id_lem, lookup_cluster_group_id_lem, lookup_device_role_id_lem,
  lookup_device_type_id_lem, lookup_rir_id_lem, lookup_platform_id_lem,
}

-- From the database `d` to `d'`, one table had an upsert of the object with the external id among
-- those that carry the tag's slug; `id` is the id of the written object.
abbrev pub Written : {A : Type 0} → Table A → ℕ → Tag → String → Body A → Db → ℕ → Db → Type 0
Written {A} table page tag external_id body d id d' =
    (slug : String) × (tag.slug ≡ some slug)
    × (t : _) × Upserted (found page slug external_id (table.get d)) body (table.get d) t id
    × (d' ≡ table.put t d)

-- The same for each kind: the ids that the spec names, and the write.
abbrev pub WrittenAggregate : ℕ → PodCidrAggregateSpec → Db → ℕ → Db → Type 0
WrittenAggregate page spec d id d' =
    (rir : ℕ) × (resolved spec.rir_name d.rirs ≡ some rir)
    × Written aggregates_table page spec.managed_tag spec.external_id (aggregate_body spec rir) d id
        d'

abbrev pub WrittenDevice : ℕ → DeviceNodeSpec → Db → ℕ → Db → Type 0
WrittenDevice page spec d id d' =
    (device_type role site : ℕ) × (resolved spec.device_type_name d.device_types ≡ some device_type)
    × (resolved spec.device_role_name d.device_roles ≡ some role)
    × (resolved spec.site_name d.sites ≡ some site)
    × Written devices_table page spec.managed_tag spec.external_id
        (device_body spec device_type role site) d id d'

abbrev pub WrittenCluster : ℕ → ClusterSpec → Db → ℕ → Db → Type 0
WrittenCluster page spec d id d' =
    (cluster_type : ℕ) × (group site : Option ℕ) × (resolved spec.cluster_type_name d.cluster_types
      ≡ some cluster_type)
    × Resolved? spec.cluster_group_name d.cluster_groups group
    × Resolved? spec.site_name d.sites site
    × Written clusters_table page spec.managed_tag spec.external_id
        (cluster_body spec cluster_type group site) d id d'

abbrev pub WrittenMachine : ℕ → VirtualMachineNodeSpec → Db → ℕ → Db → Type 0
WrittenMachine page spec d id d' =
    (cluster : ℕ) × (platform : Option ℕ) × (resolved_cluster page spec.cluster_name d.clusters
      ≡ some cluster)
    × Resolved? spec.platform_name d.platforms platform
    × Written virtual_machines_table page spec.managed_tag spec.external_id
        (virtual_machine_body spec cluster platform) d id d'

module _ {S : Type 0} (db : S → Db) (client : NetBoxApi S) (page : ℕ)
    (server : IsServer db client page) where
  module _ {A : Type 0} (objects : Endpoint S A) (table : Table A)
      (lawful : IsEndpoint db objects table page) where
    -- The frame of all six: the slug, the search, then the rest on what was found.
    ensure_frame :
        (listing_message : String) (tag : Tag) (external_id : String) (rest : _ → Exec S ℕ)
        (P : ℕ → Db → Type 0) (d : Db)
        → ((slug : String)
            → tag.slug ≡ some slug
            → Triple
                (At db d)
                (rest (found page slug external_id (table.get d)))
                (λ id s. P id (db s))
                (At db d))
        → Triple
            (At db d)
            (do
              slug ← deref tag.slug
              existing ← find_by_external_id objects listing_message slug external_id
              rest existing)
            (λ id s. P id (db s))
            (At db d)
    ensure_frame l tag external_id rest P d t = Triple-bind _ _ (Triple-deref tag.slug) λ slug.
        Triple-given λ has.
          Triple-bind _ _ (find_lem db objects table page lawful l slug external_id d)
            λ existing. Triple-given λ e. rw e (t slug has)

    written :
        (updating creating shown : String) (tag : Tag) (external_id : String) (body : Body A)
        (d : Db) (slug : String)
        → tag.slug ≡ some slug
        → Triple
            (At db d)
            (write_object objects updating creating shown
              (found page slug external_id (table.get d))
              body)
            (λ id s. Written table page tag external_id body d id (db s))
            (At db d)
    written u c shown tag external_id body d slug has =
        Triple-weaken (λ id s (t, up, e). (slug, has, t, up, e)) (λ s h. h)
          (write_object_lem db objects table page lawful u c shown _ body d)

    -- The frame with nothing between the search and the write.
    ensure_write :
        (l updating creating shown : String) (tag : Tag) (external_id : String) (body : Body A)
        (d : Db)
        → Triple
            (At db d)
            (do
              slug ← deref tag.slug
              existing ← find_by_external_id objects l slug external_id
              write_object objects updating creating shown existing body)
            (λ id s. Written table page tag external_id body d id (db s))
            (At db d)
    ensure_write l u c shown tag external_id body d =
        ensure_frame l tag external_id _ (λ id d'. Written table page tag external_id body d id d')
          d λ slug has. written u c shown tag external_id body d slug has

  pub ensure_service_ip_lem :
      (spec : ServiceIpSpec) (d : Db)
      → Triple
          (At db d)
          (ensure_service_ip client spec)
          (λ id s.
            Written ip_addresses_table page spec.managed_tag spec.external_id
              (ip_address_body spec)
              d
              id
              (db s))
          (At db d)
  unfolding ensure_service_ip
  ensure_service_ip_lem spec d =
      ensure_write client.ip_addresses ip_addresses_table server.ip_addresses_lem _ _ _ _
        spec.managed_tag spec.external_id (ip_address_body spec) d

  pub ensure_pod_cidr_prefix_lem :
      (spec : PodCidrPrefixSpec) (d : Db)
      → Triple
          (At db d)
          (ensure_pod_cidr_prefix client spec)
          (λ id s.
            Written prefixes_table page spec.managed_tag spec.external_id
              (prefix_body spec)
              d
              id
              (db s))
          (At db d)
  unfolding ensure_pod_cidr_prefix
  ensure_pod_cidr_prefix_lem spec d =
      ensure_write client.prefixes prefixes_table server.prefixes_lem _ _ _ _ spec.managed_tag
        spec.external_id (prefix_body spec) d

  pub ensure_pod_cidr_aggregate_lem :
      (spec : PodCidrAggregateSpec) (d : Db)
      → Triple
          (At db d)
          (ensure_pod_cidr_aggregate client spec)
          (λ id s. WrittenAggregate page spec d id (db s))
          (At db d)
  unfolding ensure_pod_cidr_aggregate
  ensure_pod_cidr_aggregate_lem spec d =
      ensure_frame client.aggregates aggregates_table server.aggregates_lem _ spec.managed_tag
        spec.external_id _ (λ id d'. WrittenAggregate page spec d id d') d
        λ slug has. Triple-bind _ _ (lookup_rir_id_lem db client page server spec.rir_name d) λ rir.
          Triple-given λ r.
            Triple-weaken (λ id s w. (rir, r, w)) (λ s h. h)
              (written client.aggregates aggregates_table server.aggregates_lem _ _ spec.cidr
                spec.managed_tag spec.external_id (aggregate_body spec rir) d slug has)

  pub ensure_device_lem :
      (spec : DeviceNodeSpec) (d : Db)
      → Triple
          (At db d)
          (ensure_device client spec)
          (λ id s. WrittenDevice page spec d id (db s))
          (At db d)
  unfolding ensure_device
  ensure_device_lem spec d =
      ensure_frame client.devices devices_table server.devices_lem _ spec.managed_tag
        spec.external_id _ (λ id d'. WrittenDevice page spec d id d') d
        λ slug has.
          Triple-bind _ _ (lookup_device_type_id_lem db client page server spec.device_type_name d)
            λ device_type. Triple-given λ p.
              Triple-bind _ _
                (lookup_device_role_id_lem db client page server spec.device_role_name d)
                λ role. Triple-given λ q.
                  Triple-bind _ _ (lookup_site_id_lem db client page server spec.site_name d)
                    λ site. Triple-given λ r.
                      Triple-weaken (λ id s w. (device_type, role, site, p, q, r, w)) (λ s h. h)
                        (written client.devices devices_table server.devices_lem _ _ spec.name
                          spec.managed_tag spec.external_id (device_body spec device_type role site)
                          d slug has)

  pub ensure_cluster_lem :
      (spec : ClusterSpec) (d : Db)
      → Triple
          (At db d)
          (ensure_cluster client spec)
          (λ id s. WrittenCluster page spec d id (db s))
          (At db d)
  unfolding ensure_cluster
  ensure_cluster_lem spec d =
      ensure_frame client.clusters clusters_table server.clusters_lem _ spec.managed_tag
        spec.external_id _ (λ id d'. WrittenCluster page spec d id d') d
        λ slug has.
          Triple-bind _ _
            (lookup_cluster_type_id_lem db client page server spec.cluster_type_name d)
            λ cluster_type. Triple-given λ p.
              Triple-bind _ _
                (optional_id_lem db (lookup_cluster_group_id client) d.cluster_groups
                  spec.cluster_group_name d
                  (lookup_cluster_group_id_lem db client page server spec.cluster_group_name d))
                λ group. Triple-given λ q.
                  Triple-bind _ _
                    (optional_id_lem db (lookup_site_id client) d.sites spec.site_name d
                      (lookup_site_id_lem db client page server spec.site_name d))
                    λ site. Triple-given λ r.
                      Triple-weaken (λ id s w. (cluster_type, group, site, p, q, r, w)) (λ s h. h)
                        (written client.clusters clusters_table server.clusters_lem _ _ spec.name
                          spec.managed_tag spec.external_id
                          (cluster_body spec cluster_type group site) d slug has)

  pub ensure_virtual_machine_lem :
      (spec : VirtualMachineNodeSpec) (d : Db)
      → Triple
          (At db d)
          (ensure_virtual_machine client spec)
          (λ id s. WrittenMachine page spec d id (db s))
          (At db d)
  unfolding ensure_virtual_machine
  ensure_virtual_machine_lem spec d =
      ensure_frame client.virtual_machines virtual_machines_table server.virtual_machines_lem _
        spec.managed_tag spec.external_id _ (λ id d'. WrittenMachine page spec d id d') d
        λ slug has.
          Triple-bind _ _ (lookup_cluster_id_lem db client page server spec.cluster_name d)
            λ cluster. Triple-given λ p.
              Triple-bind _ _
                (optional_id_lem db (lookup_platform_id client) d.platforms spec.platform_name d
                  (lookup_platform_id_lem db client page server spec.platform_name d))
                λ platform. Triple-given λ q.
                  Triple-weaken (λ id s w. (cluster, platform, p, q, w)) (λ s h. h)
                    (written client.virtual_machines virtual_machines_table
                      server.virtual_machines_lem _ _ spec.name spec.managed_tag spec.external_id
                      (virtual_machine_body spec cluster platform) d slug has)
