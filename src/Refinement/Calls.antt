-- ===== src/Refinement/Calls.antt =====
-- The Ensure functions and the deletions by external id as steps of the abstract state.
use mathlib.Core.Path.{subst}
use netbox_herald.Base.{
  ℕ, suc, ◌≡◌, refl, sym, ap, ◌∙◌, arith, String, not, Option, none, some, filter, Exec, pure, ◌>>◌,
}
use netbox_herald.Base.Triple.{Triple, Triple-return, Triple-bind, Triple-weaken}
use netbox_herald.NetBox.Model.{Tag, Body, NetBoxApi}
use netbox_herald.NetBox.Nodes.{
  DeviceNodeSpec, VirtualMachineNodeSpec, device_body, virtual_machine_body, ensure_device,
  ensure_virtual_machine, delete_device_by_external_id, delete_virtual_machine_by_external_id,
}
use netbox_herald.NetBox.Cluster.{ClusterSpec, cluster_body, ensure_cluster, delete_cluster}
use netbox_herald.NetBox.Services.{ServiceIpSpec, ip_address_body, ensure_service_ip}
use netbox_herald.NetBox.PodCidrs.{
  PodCidrPrefixSpec, PodCidrAggregateSpec, prefix_body, aggregate_body, ensure_pod_cidr_prefix,
  ensure_pod_cidr_aggregate, delete_pod_cidr_aggregate,
}
use netbox_herald.Server.Tables.{Db}
use netbox_herald.Server.Laws.{At, IsServer}
use netbox_herald.Server.Unique.{is_managed}
use netbox_herald.Server.Registry.{registered}
use netbox_herald.Sync.Ensure.{
  Written, ensure_service_ip_lem, ensure_pod_cidr_prefix_lem, ensure_pod_cidr_aggregate_lem,
  ensure_device_lem, ensure_cluster_lem, ensure_virtual_machine_lem,
}
use netbox_herald.Sync.Laws.{Managed}
use netbox_herald.Sync.Removals.{
  IsClear, delete_device_by_external_id-Removes, delete_virtual_machine_by_external_id-Removes,
  delete_cluster-Removes, delete_pod_cidr_aggregate-Removes,
}
use netbox_herald.Sync.Registers.{Registers, Written-Registers, Removed-Registers}
use netbox_herald.Refinement.View.{
  View, view, IsReady, IsReady-less, Kind, devices_kind, virtual_machines_kind, clusters_kind,
  ip_addresses_kind, prefixes_kind, aggregates_kind,
}

-- One call of internal/netbox.
pub data Call : Type 0 where
  put_device : DeviceNodeSpec → Call
  put_machine : VirtualMachineNodeSpec → Call
  put_cluster : ClusterSpec → Call
  put_address : ServiceIpSpec → Call
  put_prefix : PodCidrPrefixSpec → Call
  put_aggregate : PodCidrAggregateSpec → Call
  drop_device : String → Call
  drop_machine : String → Call
  drop_cluster : String → Call
  drop_aggregate : String → Call

-- The tag of what the call writes has the slug.
abbrev pub Carries : String → Call → Type 0
Carries slug (put_device spec) = spec.managed_tag.slug ≡ some slug
Carries slug (put_machine spec) = spec.managed_tag.slug ≡ some slug
Carries slug (put_cluster spec) = spec.managed_tag.slug ≡ some slug
Carries slug (put_address spec) = spec.managed_tag.slug ≡ some slug
Carries slug (put_prefix spec) = spec.managed_tag.slug ≡ some slug
Carries slug (put_aggregate spec) = spec.managed_tag.slug ≡ some slug
Carries slug _ = Unit

module _ {A : Type 0} (kind : Kind A) where
  -- the kind's map with a body, or nothing, at one external id, and the other maps as they were
  abbrev pub Sets : String → Option (Body A) → View → View → Type 0
  Sets e o v v' = v' ≡ kind.show_as (registered e o (kind.shown v)) v

-- What the call means for the abstract state; an id that a body refers to is some id.
abbrev pub Means : Call → View → View → Type 0
Means (put_device spec) v v' =
    (device_type role site : ℕ) × Sets devices_kind spec.external_id
      (some (device_body spec device_type role site)) v v'
Means (put_machine spec) v v' =
    (cluster : ℕ) × (platform : Option ℕ) × Sets virtual_machines_kind spec.external_id
      (some (virtual_machine_body spec cluster platform)) v v'
Means (put_cluster spec) v v' =
    (cluster_type : ℕ) × (group site : Option ℕ) × Sets clusters_kind spec.external_id
      (some (cluster_body spec cluster_type group site)) v v'
Means (put_address spec) v v' =
    Sets ip_addresses_kind spec.external_id (some (ip_address_body spec)) v v'
Means (put_prefix spec) v v' = Sets prefixes_kind spec.external_id (some (prefix_body spec)) v v'
Means (put_aggregate spec) v v' =
    (rir : ℕ) × Sets aggregates_kind spec.external_id (some (aggregate_body spec rir)) v v'
Means (drop_device e) v v' = Sets devices_kind e none v v'
Means (drop_machine e) v v' = Sets virtual_machines_kind e none v v'
Means (drop_cluster e) v v' = Sets clusters_kind e none v v'
Means (drop_aggregate e) v v' = Sets aggregates_kind e none v v'

module _ {S : Type 0} (client : NetBoxApi S) (slug : String) where
  unfoldable pub perform : Call → Exec S Unit
  perform (put_device spec) = ensure_device client spec >> pure tt
  perform (put_machine spec) = ensure_virtual_machine client spec >> pure tt
  perform (put_cluster spec) = ensure_cluster client spec >> pure tt
  perform (put_address spec) = ensure_service_ip client spec >> pure tt
  perform (put_prefix spec) = ensure_pod_cidr_prefix client spec >> pure tt
  perform (put_aggregate spec) = ensure_pod_cidr_aggregate client spec >> pure tt
  perform (drop_device e) = delete_device_by_external_id client slug e
  perform (drop_machine e) = delete_virtual_machine_by_external_id client slug e
  perform (drop_cluster e) = delete_cluster client slug e
  perform (drop_aggregate e) = delete_pod_cidr_aggregate client slug e

-- One write, and one deletion, of one kind.
module _ {A : Type 0} (kind : Kind A) (page : ℕ) (slug : String) (n : ℕ) (d d' : Db)
    (ready : IsReady page slug (suc n) d) where
  abbrev Follows : String → Option (Body A) → Type 0
  Follows e o = IsReady page slug n d' × Sets kind e o (view slug d) (view slug d')

  Registers-Follows :
      (e : String) (o : Option (Body A))
      → Registers kind.table page slug e n d d' (kind.fit page slug (suc n) d ready) o
      → Follows e o
  Registers-Follows e o (fits, same, w, _) = (
    subst (IsReady page slug n) (sym w) (
        kind.put-IsReady page slug n (kind.table.get d') d (IsReady-less page slug n d ready) fits),
    ap (view slug) w
        ∙ kind.view-put slug (kind.table.get d') d
        ∙ ap (λ r. kind.show_as r (view slug d))
            (same ∙ ap (registered e o) (sym (kind.shown-view slug d))),
  )

  Written-Follows :
      (tag : Tag) (e : String) (body : Body A) (id : ℕ)
      → tag.slug ≡ some slug
      → Managed tag e body
      → Written kind.table page tag e body d id d'
      → Follows e (some body)
  Written-Follows tag e body id has m w = Registers-Follows e (some body) (
      Written-Registers kind.table page slug e n d d' (kind.fit page slug (suc n) d ready) tag body
        id has m w)

  removed-Follows :
      (e : String)
      → d' ≡ kind.table.put (filter (λ o. not (is_managed slug e o)) (kind.table.get d)) d
      → Follows e none
  removed-Follows e w =
      Registers-Follows e none
        (Removed-Registers kind.table page slug e n d d' (kind.fit page slug (suc n) d ready) w)

  cleared : (e : String) → IsClear kind.table page slug e d
  cleared e =
      let (r, room) = kind.fit page slug (suc n) d ready in (r.0, omega (arith, room), r.1 e)

module _ {S : Type 0} (db : S → Db) (client : NetBoxApi S) (page : ℕ)
    (server : IsServer db client page) (slug : String) where
  abbrev pub After : ℕ → Call → Db → Db → Type 0
  After n call d d' = IsReady page slug n d' × Means call (view slug d) (view slug d')

  done :
      {P : ℕ → S → Type 0} (n : ℕ) (call : Call) (d : Db) (m : Exec S ℕ)
      → Triple (At db d) m P (At db d)
      → ((id : ℕ) (s : S) → P id s → After n call d (db s))
      → Triple (At db d) (m >> pure tt) (λ _ s. After n call d (db s)) (At db d)
  done {P} n call d m t f = Triple-bind m _ t λ id. Triple-return tt λ s h. f id s h

  -- A call that returns does what it means; one that fails does nothing.
  pub perform-After :
      (n : ℕ) (call : Call) (d : Db)
      → Carries slug call
      → IsReady page slug (suc n) d
      → Triple (At db d) (perform client slug call) (λ _ s. After n call d (db s)) (At db d)
  unfolding perform device_body virtual_machine_body cluster_body ip_address_body prefix_body
      aggregate_body
  perform-After n (put_device spec) d has r =
      done n (put_device spec) d _ (ensure_device_lem db client page server spec d)
        λ id s (device_type, role, site, _, _, _, w).
          let (ready, is) =
            Written-Follows devices_kind page slug n d (db s) r spec.managed_tag spec.external_id
              (device_body spec device_type role site) id has (refl, refl) w in
          (ready, (device_type, role, site, is))
  perform-After n (put_machine spec) d has r =
      done n (put_machine spec) d _ (ensure_virtual_machine_lem db client page server spec d)
        λ id s (cluster, platform, _, _, w).
          let (ready, is) =
            Written-Follows virtual_machines_kind page slug n d (db s) r spec.managed_tag
              spec.external_id (virtual_machine_body spec cluster platform) id has (refl, refl) w in
          (ready, (cluster, platform, is))
  perform-After n (put_cluster spec) d has r =
      done n (put_cluster spec) d _ (ensure_cluster_lem db client page server spec d)
        λ id s (cluster_type, group, site, _, _, _, w).
          let (ready, is) =
            Written-Follows clusters_kind page slug n d (db s) r spec.managed_tag spec.external_id
              (cluster_body spec cluster_type group site) id has (refl, refl) w in
          (ready, (cluster_type, group, site, is))
  perform-After n (put_address spec) d has r =
      done n (put_address spec) d _ (ensure_service_ip_lem db client page server spec d) λ id s w.
        Written-Follows ip_addresses_kind page slug n d (db s) r spec.managed_tag spec.external_id
          (ip_address_body spec) id has (refl, refl) w
  perform-After n (put_prefix spec) d has r =
      done n (put_prefix spec) d _ (ensure_pod_cidr_prefix_lem db client page server spec d)
        λ id s w.
          Written-Follows prefixes_kind page slug n d (db s) r spec.managed_tag spec.external_id
            (prefix_body spec) id has (refl, refl) w
  perform-After n (put_aggregate spec) d has r =
      done n (put_aggregate spec) d _ (ensure_pod_cidr_aggregate_lem db client page server spec d)
        λ id s (rir, _, w).
          let (ready, is) =
            Written-Follows aggregates_kind page slug n d (db s) r spec.managed_tag spec.external_id
              (aggregate_body spec rir) id has (refl, refl) w in
          (ready, (rir, is))
  perform-After n (drop_device e) d has r =
      Triple-weaken (λ _ s w. removed-Follows devices_kind page slug n d (db s) r e w) (λ s h. h)
        (delete_device_by_external_id-Removes db client page server slug e d
          (cleared devices_kind page slug n d d r e))
  perform-After n (drop_machine e) d has r =
      Triple-weaken (λ _ s w. removed-Follows virtual_machines_kind page slug n d (db s) r e w)
        (λ s h. h)
        (delete_virtual_machine_by_external_id-Removes db client page server slug e d
          (cleared virtual_machines_kind page slug n d d r e))
  perform-After n (drop_cluster e) d has r =
      Triple-weaken (λ _ s w. removed-Follows clusters_kind page slug n d (db s) r e w) (λ s h. h)
        (delete_cluster-Removes db client page server slug e d
          (cleared clusters_kind page slug n d d r e))
  perform-After n (drop_aggregate e) d has r =
      Triple-weaken (λ _ s w. removed-Follows aggregates_kind page slug n d (db s) r e w) (λ s h. h)
        (delete_pod_cidr_aggregate-Removes db client page server slug e d
          (cleared aggregates_kind page slug n d d r e))
