-- ===== src/Sync/NodePrefixes.antt =====
-- `syncNodePrefixes` on a lawful server: what a run leaves of the prefixes.
use mathlib.Core.List.{append-nil, append_assoc}
use netbox_herald.Base.{
  ℕ, suc, ◌+◌, ◌≤◌, ◌≡◌, refl, sym, ◌∙◌, arith, String, some, List, [], ◌∷◌, ◌++◌, length, filter,
}
use netbox_herald.Base.Triple.{Triple, Triple-return, Triple-bind, Triple-weaken}
use netbox_herald.NetBox.Model.{Tag, NetBoxApi}
use netbox_herald.NetBox.ExternalId.{
  external_id_for_node_pod_cidr, node_pod_cidr_external_id_prefix,
}
use netbox_herald.NetBox.PodCidrs.{
  PodCidrPrefixSpec, prefix_body, ensure_pod_cidr_prefix, list_node_pod_cidr_prefixes,
}
use netbox_herald.Controller.Kube.{Node}
use netbox_herald.Controller.PodCidrController.{ensure_prefixes, sync_node_prefixes}
use netbox_herald.Server.Tables.{Db, UniqueIds, has_tag, prefixes_table}
use netbox_herald.Server.Laws.{At, IsServer}
use netbox_herald.Sync.Ensure.{ensure_pod_cidr_prefix_lem}
use netbox_herald.Sync.Owners.{Others, Kept, Within-Kept, ensure-Kept, Synced, sync_owned-Synced}

-- the external ids of the pod CIDRs
abbrev pub prefix_ids : String → List String → List String
prefix_ids node_name [] = []
prefix_ids node_name (cidr ∷ cidrs) =
    external_id_for_node_pod_cidr node_name cidr ∷ prefix_ids node_name cidrs

module _ (slug : String) (d : Db) where
  -- The prefixes are those of the Node's pod CIDRs.
  abbrev pub NodeSynced : Node → Db → Type 0
  NodeSynced node =
      Synced prefixes_table slug (node_pod_cidr_external_id_prefix node.name) d
        (prefix_ids node.name node.pod_cidrs)

module _ {S : Type 0} (db : S → Db) (client : NetBoxApi S) (page : ℕ)
    (server : IsServer db client page) (slug : String) (d : Db) where
  ensure_pod_cidr_prefix-Kept :
      (spec : PodCidrPrefixSpec) (n : ℕ) (ids : List String)
      → spec.managed_tag.slug ≡ some slug
      → Triple
          (λ s. Kept prefixes_table slug d n ids (db s))
          (ensure_pod_cidr_prefix client spec)
          (λ _ s. Kept prefixes_table slug d (suc n) (ids ++ spec.external_id ∷ []) (db s))
          (λ s. Others prefixes_table slug d (db s))
  unfolding prefix_body
  ensure_pod_cidr_prefix-Kept spec n ids has =
      ensure-Kept db prefixes_table page slug d _ spec.managed_tag spec.external_id
        (prefix_body spec) n ids has (refl, refl)
        (ensure_pod_cidr_prefix_lem db client page server spec)

  ensure_prefixes-Kept :
      (tag : Tag) (node_name description : String) (cidrs desired : List String) (n : ℕ)
      → tag.slug ≡ some slug
      → Triple
          (λ s. Kept prefixes_table slug d n desired (db s))
          (ensure_prefixes client tag node_name description cidrs desired)
          (λ ids s.
            Kept prefixes_table slug d (n + length cidrs) ids (db s)
            × (ids ≡ desired ++ prefix_ids node_name cidrs))
          (λ s. Others prefixes_table slug d (db s))
  unfolding ensure_prefixes
  ensure_prefixes-Kept tag node_name description [] desired n has = Triple-return _ λ s h. (
    Within-Kept prefixes_table slug d n (n + 0) desired (db s) (omega arith) h,
    sym (append-nil desired),
  )
  ensure_prefixes-Kept tag node_name description (cidr ∷ cidrs) desired n has =
      let id = external_id_for_node_pod_cidr node_name cidr in
      Triple-bind _ _ (ensure_pod_cidr_prefix-Kept _ n desired has) λ _.
        Triple-weaken
          (λ ids s (k, e). (
            Within-Kept prefixes_table slug d (suc n + length cidrs) (n + suc (length cidrs)) ids
                (db s) (omega arith) k,
            e ∙ append_assoc desired (id ∷ []) (prefix_ids node_name cidrs),
          ))
          (λ s h. h)
          (ensure_prefixes-Kept tag node_name description cidrs (desired ++ id ∷ []) (suc n) has)

  -- On a server that keeps NetBox's documented laws, if ids are unique and the managed prefixes
  -- with one more for each pod CIDR of the Node fit on one page: a run of syncNodePrefixes that
  -- returns leaves no managed prefix of the Node whose external id is not that of one of its pod
  -- CIDRs, and at least one managed prefix for each pod CIDR. However it ends, a run leaves the
  -- prefixes without the tag, and every table but the tags and the prefixes, as they were.
  pub sync_node_prefixes_exact :
      (node : Node)
      → UniqueIds d.prefixes
      → length (filter (has_tag slug) d.prefixes) + length node.pod_cidrs ≤ page
      → Triple
          (At db d)
          (sync_node_prefixes client slug node)
          (λ _ s. NodeSynced slug d node (db s))
          (λ s. Others prefixes_table slug d (db s))
  unfolding sync_node_prefixes list_node_pod_cidr_prefixes
  sync_node_prefixes_exact node u room =
      sync_owned-Synced db client client.prefixes prefixes_table page server.prefixes_lem server
        slug _ d (prefix_ids node.name node.pod_cidrs) _ _
        (λ tag. ensure_prefixes client tag node.name _ node.pod_cidrs []) (length node.pod_cidrs) u
        room (λ tag tagged. ensure_prefixes-Kept tag node.name _ node.pod_cidrs [] _ tagged)
