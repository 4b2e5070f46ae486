-- ===== src/Sync/PodCidrStates.antt =====
-- How a reconcile of pod CIDRs ends, and what it leaves, in either representation.
use netbox_herald.Base.{◌≡◌, ◌⊎◌, String, Bool, true, false, Option, none, List, [], filter}
use netbox_herald.NetBox.ExternalId.{node_pod_cidr_external_id_prefix}
use netbox_herald.Supernet.{IpNet, ipv4, ipv6}
use netbox_herald.Controller.Kube.{Node}
use netbox_herald.Controller.Common.{Requeue, no_requeue}
use netbox_herald.Server.Tables.{Db, prefixes_table}
use netbox_herald.Server.Registry.{registered, registry}
use netbox_herald.Sync.Owners.{Present, is_unwanted}
use netbox_herald.Sync.NodePrefixes.{prefix_ids}
use netbox_herald.Sync.Families.{family_id, FamiliesSet}
use netbox_herald.Sync.Supernets.{OnlyPodCidrs, AggregatesSynced}

module _ (slug : String) (resync : Requeue) (d : Db) where
  -- How a reconcile ends: with the resync interval and `P`, or with an error in the status and
  -- nothing changed but the tags, managed prefixes and managed aggregates.
  abbrev pub Ended : (Db → Type 0) → Requeue → Db → Type 0
  Ended P r d' = ((r ≡ resync) × P d') ⊎ ((r ≡ no_requeue) × OnlyPodCidrs slug d d')

module _ (slug : String) (d : Db) where
  -- What Aggregate mode leaves: the aggregates of the supernets where the sync is on, what was
  -- there where it is off and retains, and else no aggregate of a family.
  abbrev pub AggregateMode :
      (String → Option IpNet) → (IpNet → String) → List Node → String → Bool → Bool → Db → Type 0
  AggregateMode parse_cidr show_net nodes rir_name true retain =
      AggregatesSynced slug parse_cidr show_net nodes rir_name d
  AggregateMode parse_cidr show_net nodes rir_name false true = λ d'. d' ≡ d
  AggregateMode parse_cidr show_net nodes rir_name false false =
      λ d'. FamiliesSet slug d d' none none

  -- What Prefix mode leaves for a Node that qualifies: no aggregate of a family, and the Node's
  -- prefixes in step with its pod CIDRs.
  abbrev pub PrefixMode : Node → Db → Type 0
  PrefixMode node d' =
      (registry slug d'.aggregates
        ≡ registered (family_id ipv6) none
            (registered (family_id ipv4) none (registry slug d.aggregates)))
      × (filter
            (is_unwanted prefixes_table slug (node_pod_cidr_external_id_prefix node.name) d
              (prefix_ids node.name node.pod_cidrs) (prefix_ids node.name node.pod_cidrs))
            d'.prefixes
          ≡ [])
      × Present prefixes_table slug d (prefix_ids node.name node.pod_cidrs) d'
      × OnlyPodCidrs slug d d'
