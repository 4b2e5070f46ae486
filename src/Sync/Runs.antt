-- ===== src/Sync/Runs.antt =====
-- Two runs in a row of each Ensure function.
use mathlib.Core.Option.{some-injective}
use netbox_herald.Base.{ℕ, ◌≡◌, refl, sym, ap, ◌∙◌, String, ok, Option, none, some, List, Exec}
use netbox_herald.Base.Triple.{Triple, Triple-weaken, Triple-ok}
use netbox_herald.NetBox.Model.{Reference, NetBoxApi}
use netbox_herald.NetBox.Nodes.{
  DeviceNodeSpec, VirtualMachineNodeSpec, device_body, virtual_machine_body, ensure_device,
  ensure_virtual_machine,
}
use netbox_herald.NetBox.Cluster.{ClusterSpec, cluster_body, ensure_cluster}
use netbox_herald.NetBox.Services.{ServiceIpSpec, ip_address_body, ensure_service_ip}
use netbox_herald.NetBox.PodCidrs.{
  PodCidrPrefixSpec, PodCidrAggregateSpec, prefix_body, aggregate_body, ensure_pod_cidr_prefix,
  ensure_pod_cidr_aggregate,
}
use netbox_herald.Server.Tables.{
  Db, devices_table, virtual_machines_table, clusters_table, ip_addresses_table, prefixes_table,
  aggregates_table,
}
use netbox_herald.Server.Laws.{At, IsServer}
use netbox_herald.Sync.Lookups.{resolved, Resolved?, resolved_cluster}
use netbox_herald.Sync.Ensure.{
  Written, WrittenAggregate, WrittenDevice, WrittenCluster, WrittenMachine, ensure_service_ip_lem,
  ensure_pod_cidr_prefix_lem, ensure_pod_cidr_aggregate_lem, ensure_device_lem, ensure_cluster_lem,
  ensure_virtual_machine_lem,
}
use netbox_herald.Sync.Laws.{HasRoom, Written-twice, Written-at}

-- What a function leaves where a run of it has just returned `id`: it changes nothing, and returns
-- the same id or fails.
abbrev pub IsSettled : {S : Type 0} → (S → Db) → Exec S ℕ → ℕ → S → Type 0
IsSettled db m id s = Triple (At db (db s)) m (λ id' s'. (db s' ≡ db s) × (id' ≡ id)) (At db (db s))

IsSettled-of :
    {S : Type 0} (db : S → Db) (m : Exec S ℕ) (P : Db → ℕ → Db → Type 0)
    → ((d : Db) → Triple (At db d) m (λ id s. P d id (db s)) (At db d))
    → (s s' : S) (id : ℕ)
    → ((d'' : Db) (id' : ℕ) → P (db s) id (db s') → P (db s') id' d'' → (d'' ≡ db s') × (id' ≡ id))
    → m s ≡ (ok id, s')
    → IsSettled db m id s'
IsSettled-of db m P t s s' id same e =
    Triple-weaken (λ id' s'' w. same (db s'') id' (Triple-ok m s s' id (t (db s)) refl e) w)
      (λ _ h. h) (t (db s'))

same_id : {A : Type 0} (o o' : Option A) (a b : A) → o' ≡ o → o ≡ some a → o' ≡ some b → b ≡ a
same_id o o' a b e p q = some-injective b a (sym q ∙ e ∙ p)

same_optional :
    (name : String) (rs rs' : List Reference) (a b : Option ℕ)
    → rs' ≡ rs
    → Resolved? name rs a
    → Resolved? name rs' b
    → b ≡ a
same_optional name rs rs' none none e p q = refl
same_optional name rs rs' none (some b) e p q = let h = q.0 in cc (p, h)
same_optional name rs rs' (some a) none e p q = let h = p.0 in cc (q, h)
same_optional name rs rs' (some a) (some b) e p q =
    ap some (same_id (resolved name rs) (resolved name rs') a b (ap (resolved name) e) p.1 q.1)

module _ {S : Type 0} (db : S → Db) (client : NetBoxApi S) (page : ℕ)
    (server : IsServer db client page) (slug : String) (s s' : S) (id : ℕ) where
  -- On a server that keeps NetBox's documented laws, if ids are unique and the first page has room
  -- for one more managed object: after a run of EnsureServiceIP that returned, a second one with
  -- the same spec changes nothing, and returns the same id or fails.
  pub ensure_service_ip_twice :
      (spec : ServiceIpSpec)
      → spec.managed_tag.slug ≡ some slug
      → HasRoom ip_addresses_table page slug (db s)
      → ensure_service_ip client spec s ≡ (ok id, s')
      → IsSettled db (ensure_service_ip client spec) id s'
  unfolding ip_address_body
  ensure_service_ip_twice spec has room =
      IsSettled-of db _
        (λ d.
          Written ip_addresses_table page spec.managed_tag spec.external_id (ip_address_body spec)
            d)
        (ensure_service_ip_lem db client page server spec) s s' id
        λ d'' id'.
          Written-twice ip_addresses_table page spec.managed_tag slug spec.external_id
            (ip_address_body spec) (db s) (db s') d'' id id' has (refl, refl) room

  -- On a server that keeps NetBox's documented laws, if ids are unique and the first page has room
  -- for one more managed object: after a run of EnsurePodCIDRPrefix that returned, a second one
  -- with the same spec changes nothing, and returns the same id or fails.
  pub ensure_pod_cidr_prefix_twice :
      (spec : PodCidrPrefixSpec)
      → spec.managed_tag.slug ≡ some slug
      → HasRoom prefixes_table page slug (db s)
      → ensure_pod_cidr_prefix client spec s ≡ (ok id, s')
      → IsSettled db (ensure_pod_cidr_prefix client spec) id s'
  unfolding prefix_body
  ensure_pod_cidr_prefix_twice spec has room =
      IsSettled-of db _
        (λ d. Written prefixes_table page spec.managed_tag spec.external_id (prefix_body spec) d)
        (ensure_pod_cidr_prefix_lem db client page server spec) s s' id
        λ d'' id'.
          Written-twice prefixes_table page spec.managed_tag slug spec.external_id
            (prefix_body spec) (db s) (db s') d'' id id' has (refl, refl) room

  -- On a server that keeps NetBox's documented laws, if ids are unique and the first page has room
  -- for one more managed object: after a run of EnsurePodCIDRAggregate that returned, a second one
  -- with the same spec changes nothing, and returns the same id or fails.
  pub ensure_pod_cidr_aggregate_twice :
      (spec : PodCidrAggregateSpec)
      → spec.managed_tag.slug ≡ some slug
      → HasRoom aggregates_table page slug (db s)
      → ensure_pod_cidr_aggregate client spec s ≡ (ok id, s')
      → IsSettled db (ensure_pod_cidr_aggregate client spec) id s'
  unfolding aggregate_body
  ensure_pod_cidr_aggregate_twice spec has room =
      IsSettled-of db _ (WrittenAggregate page spec)
        (ensure_pod_cidr_aggregate_lem db client page server spec) s s' id
        λ d'' id' (rir, r, w) (rir', r', w').
          let (_, _, e, _) =
            Written-at aggregates_table page spec.managed_tag slug spec.external_id
              (aggregate_body spec rir) (db s) (db s') id has w in
          let same : rir' ≡ rir =
            same_id _ _ rir rir' (ap (λ d. resolved spec.rir_name d.rirs) e) r r' in
          Written-twice aggregates_table page spec.managed_tag slug spec.external_id
            (aggregate_body spec rir) (db s) (db s') d'' id id' has (refl, refl) room w
            (rw same at w')

  -- On a server that keeps NetBox's documented laws, if ids are unique and the first page has room
  -- for one more managed object: after a run of EnsureDevice that returned, a second one with the
  -- same spec changes nothing, and returns the same id or fails.
  pub ensure_device_twice :
      (spec : DeviceNodeSpec)
      → spec.managed_tag.slug ≡ some slug
      → HasRoom devices_table page slug (db s)
      → ensure_device client spec s ≡ (ok id, s')
      → IsSettled db (ensure_device client spec) id s'
  unfolding device_body
  ensure_device_twice spec has room =
      IsSettled-of db _ (WrittenDevice page spec) (ensure_device_lem db client page server spec) s
        s' id
        λ d'' id' (type, role, site, p, q, r, w) (type', role', site', p', q', r', w').
          let (_, _, e, _) =
            Written-at devices_table page spec.managed_tag slug spec.external_id
              (device_body spec type role site) (db s) (db s') id has w in
          let same_type : type' ≡ type =
            same_id _ _ type type' (ap (λ d. resolved spec.device_type_name d.device_types) e) p
              p' in
          let same_role : role' ≡ role =
            same_id _ _ role role' (ap (λ d. resolved spec.device_role_name d.device_roles) e) q
              q' in
          let same_site : site' ≡ site =
            same_id _ _ site site' (ap (λ d. resolved spec.site_name d.sites) e) r r' in
          Written-twice devices_table page spec.managed_tag slug spec.external_id
            (device_body spec type role site) (db s) (db s') d'' id id' has (refl, refl) room w
            (rw (same_type, same_role, same_site) at w')

  -- On a server that keeps NetBox's documented laws, if ids are unique and the first page has room
  -- for one more managed object: after a run of EnsureCluster that returned, a second one with the
  -- same spec changes nothing, and returns the same id or fails.
  pub ensure_cluster_twice :
      (spec : ClusterSpec)
      → spec.managed_tag.slug ≡ some slug
      → HasRoom clusters_table page slug (db s)
      → ensure_cluster client spec s ≡ (ok id, s')
      → IsSettled db (ensure_cluster client spec) id s'
  unfolding cluster_body
  ensure_cluster_twice spec has room =
      IsSettled-of db _ (WrittenCluster page spec) (ensure_cluster_lem db client page server spec) s
        s' id
        λ d'' id' (type, group, site, p, q, r, w) (type', group', site', p', q', r', w').
          let (_, _, e, _) =
            Written-at clusters_table page spec.managed_tag slug spec.external_id
              (cluster_body spec type group site) (db s) (db s') id has w in
          let same_type : type' ≡ type =
            same_id _ _ type type' (ap (λ d. resolved spec.cluster_type_name d.cluster_types) e) p
              p' in
          let same_group : group' ≡ group =
            same_optional spec.cluster_group_name _ _ group group' (ap (λ d. d.cluster_groups) e) q
              q' in
          let same_site : site' ≡ site =
            same_optional spec.site_name _ _ site site' (ap (λ d. d.sites) e) r r' in
          Written-twice clusters_table page spec.managed_tag slug spec.external_id
            (cluster_body spec type group site) (db s) (db s') d'' id id' has (refl, refl) room w
            (rw (same_type, same_group, same_site) at w')

  -- On a server that keeps NetBox's documented laws, if ids are unique and the first page has room
  -- for one more managed object: after a run of EnsureVirtualMachine that returned, a second one
  -- with the same spec changes nothing, and returns the same id or fails.
  pub ensure_virtual_machine_twice :
      (spec : VirtualMachineNodeSpec)
      → spec.managed_tag.slug ≡ some slug
      → HasRoom virtual_machines_table page slug (db s)
      → ensure_virtual_machine client spec s ≡ (ok id, s')
      → IsSettled db (ensure_virtual_machine client spec) id s'
  unfolding virtual_machine_body
  ensure_virtual_machine_twice spec has room =
      IsSettled-of db _ (WrittenMachine page spec)
        (ensure_virtual_machine_lem db client page server spec) s s' id
        λ d'' id' (cluster, platform, p, q, w) (cluster', platform', p', q', w').
          let (_, _, e, _) =
            Written-at virtual_machines_table page spec.managed_tag slug spec.external_id
              (virtual_machine_body spec cluster platform) (db s) (db s') id has w in
          let same_cluster : cluster' ≡ cluster =
            same_id _ _ cluster cluster'
              (ap (λ d. resolved_cluster page spec.cluster_name d.clusters) e) p p' in
          let same_platform : platform' ≡ platform =
            same_optional spec.platform_name _ _ platform platform' (ap (λ d. d.platforms) e) q
              q' in
          Written-twice virtual_machines_table page spec.managed_tag slug spec.external_id
            (virtual_machine_body spec cluster platform) (db s) (db s') d'' id id' has (refl, refl)
            room w (rw (same_cluster, same_platform) at w')
