-- ===== src/Sync/Supernets.antt =====
-- `syncAggregates` where the sync of pod CIDRs is on, on a lawful server.
use mathlib.Core.Path.{subst}
use netbox_herald.Base.{
  ℕ, ◌≤◌, ◌≡◌, refl, sym, ap, ◌∙◌, String, not, Option, some, List, length, filter, ok,
}
use netbox_herald.Base.Triple.{
  Triple, Triple-bind, Triple-given, Triple-weaken, Triple-context, Triple-result,
}
use netbox_herald.Api.Spec.{HeraldConfigSpec}
use netbox_herald.Config.{Store}
use netbox_herald.NetBox.Model.{Tag, Body, Object, PrefixData, AggregateData, NetBoxApi}
use netbox_herald.Supernet.{IpNet, Families, ipv4, ipv6, at_family, compute_supernets}
use netbox_herald.Controller.Kube.{Kube, Node}
use netbox_herald.Controller.PodCidrController.{all_cidrs, sync_enabled_aggregates}
use netbox_herald.Server.Tables.{Db, UniqueIds, has_tag}
use netbox_herald.Server.Laws.{At, IsServer}
use netbox_herald.Server.Erase.{filter-kept}
use netbox_herald.Server.Registry.{registered, registry}
use netbox_herald.Sync.Owners.{Triple-from}
use netbox_herald.Sync.Registers.{HasSpace}
use netbox_herald.Sync.Families.{
  FamiliesSynced, OnlyAggregates, IsWanted, family_id, sync_families-FamiliesSynced,
}
use netbox_herald.Sync.Tags.{ensure_managed_tag_lem}
use netbox_herald.Sync.StalePrefixes.{is_owned_by, untagged_unowned, delete_stale_prefixes_exact}

module _ (slug : String) (d : Db) where
  -- Only the tags, managed prefixes and managed aggregates differ.
  abbrev pub OnlyPodCidrs : Db → Type 0
  OnlyPodCidrs d' =
      (d' ≡ record d { tags = d'.tags; prefixes = d'.prefixes; aggregates = d'.aggregates })
      × (filter (λ o. not (has_tag slug o)) d'.prefixes
          ≡ filter (λ o. not (has_tag slug o)) d.prefixes)
      × (filter (λ o. not (has_tag slug o)) d'.aggregates
          ≡ filter (λ o. not (has_tag slug o)) d.aggregates)

module _ (slug : String) (parse_cidr : String → Option IpNet) (show_net : IpNet → String)
    (nodes : List Node) (rir_name : String) (d : Db) where
  -- The Nodes' prefixes are gone, and the entries of the two families are those of the supernets
  -- of all the Nodes' pod CIDRs.
  abbrev pub AggregatesSynced : Db → Type 0
  AggregatesSynced d' =
      (supernets : Families String) × (tag : Tag) × (four six : Option (Body AggregateData))
      × (compute_supernets parse_cidr show_net (all_cidrs nodes) ≡ ok supernets)
      × (tag.slug ≡ some slug)
      × IsWanted tag rir_name d.rirs ipv4 (at_family supernets ipv4) four
      × IsWanted tag rir_name d.rirs ipv6 (at_family supernets ipv6) six
      × (registry slug d'.aggregates
          ≡ registered (family_id ipv6) six
              (registered (family_id ipv4) four (registry slug d.aggregates)))
      × (d'.prefixes ≡ filter (λ o. not (is_owned_by slug nodes o)) d.prefixes)
      × OnlyPodCidrs slug d d'

module _ {S : Type 0} (db : S → Db) (client : NetBoxApi S) (page : ℕ)
    (server : IsServer db client page) (slug : String) (parse_cidr : String → Option IpNet)
    (show_net : IpNet → String) (kube : Kube S) (later : Store S) (nodes : List Node)
    (listed : (d : Db)
      → Triple (At db d) kube.list_nodes (λ ns s. (ns ≡ nodes) × (db s ≡ d)) (At db d))
    (spec : HeraldConfigSpec) (d : Db) where
  abbrev Only : Db → Type 0
  Only = OnlyPodCidrs slug d

  abbrev Done : Db → Type 0
  Done = AggregatesSynced slug parse_cidr show_net nodes spec.resources.pod_cidrs.rir_name d

  kept : List (Object PrefixData)
  kept = filter (λ o. not (is_owned_by slug nodes o)) d.prefixes

  kept_untagged :
      filter (λ o. not (has_tag slug o)) kept ≡ filter (λ o. not (has_tag slug o)) d.prefixes
  unfolding kept
  kept_untagged =
      filter-kept (is_owned_by slug nodes) (λ o. not (has_tag slug o)) d.prefixes
        (untagged_unowned slug nodes)

  -- Whatever else the database is, it is the old one with these three tables in place.
  cleared-OnlyPodCidrs : (d' : Db) → d' ≡ record d { prefixes = kept } → Only d'
  cleared-OnlyPodCidrs d' e = subst Only (sym e) (refl, kept_untagged, refl)

  -- the last loop, after the tag was made sure of
  module _ (supernets : Families String) (tag : Tag)
      (computed : compute_supernets parse_cidr show_net (all_cidrs nodes) ≡ ok supernets)
      (has : tag.slug ≡ some slug) (d2 d' : Db)
      (e : d2 ≡ record d { tags = d2.tags; prefixes = kept }) where
    framed :
        d' ≡ record d2 { aggregates = d'.aggregates }
        → d' ≡ record d { tags = d2.tags; prefixes = kept; aggregates = d'.aggregates }
    framed frame = frame ∙ ap {A = Db} (λ k. record k { aggregates = d'.aggregates }) e

    same_aggregates : d2.aggregates ≡ d.aggregates
    same_aggregates = ap (λ k. k.aggregates) e

    stopped-OnlyPodCidrs : OnlyAggregates slug d2 d' → Only d'
    stopped-OnlyPodCidrs (frame, same) =
        subst Only (sym (framed frame))
          (refl, kept_untagged, same ∙ ap (filter (λ o. not (has_tag slug o))) same_aggregates)

    settled-AggregatesSynced :
        FamiliesSynced slug tag spec.resources.pod_cidrs.rir_name supernets d2 d' → Done d'
    unfolding kept
    settled-AggregatesSynced (four, six, p, q, (set, (frame, same))) = (
      supernets,
      tag,
      four,
      six,
      computed,
      has,
      subst
          (λ k.
            IsWanted tag spec.resources.pod_cidrs.rir_name k.rirs ipv4 (at_family supernets ipv4)
              four)
          e p,
      subst
          (λ k.
            IsWanted tag spec.resources.pod_cidrs.rir_name k.rirs ipv6 (at_family supernets ipv6)
              six)
          e q,
      set
          ∙ ap
              (λ t.
                registered (family_id ipv6) six
                  (registered (family_id ipv4) four (registry slug t)))
              same_aggregates,
      ap (λ k. k.prefixes) (framed frame),
      stopped-OnlyPodCidrs (frame, same),
    )

  pub sync_enabled_aggregates-Synced :
      UniqueIds d.prefixes
      → length (filter (has_tag slug) d.prefixes) ≤ page
      → HasSpace page slug 2 d.aggregates
      → Triple
          (At db d)
          (sync_enabled_aggregates parse_cidr show_net kube later client slug spec)
          (λ _ s. Done (db s))
          (λ s. Only (db s))
  unfolding sync_enabled_aggregates kept
  sync_enabled_aggregates-Synced u room fits =
      let d1 : Db = record d { prefixes = kept } in
      Triple-bind _ _
        (Triple-context _ (
          Triple-weaken (λ ns s h. (h.1, h.0)) (λ s h. subst Only (sym h) (refl, refl, refl))
            (listed d)))
        λ ns. Triple-given λ same. rw same (
          Triple-bind _ _
            (Triple-weaken (λ _ s h. h) (λ s (f, kept'). subst Only (sym f) (refl, kept', refl))
              (delete_stale_prefixes_exact db client page server slug nodes d u room))
            λ _.
              Triple-bind _ _
                (Triple-weaken (λ _ s h. h) (λ s h. cleared-OnlyPodCidrs (db s) h)
                  (Triple-result (compute_supernets parse_cidr show_net (all_cidrs nodes))))
                λ supernets. Triple-given λ computed.
                  Triple-bind _ _
                    (Triple-weaken (λ _ s h. h) (λ s h. cleared-OnlyPodCidrs (db s) h)
                      (ensure_managed_tag_lem db client page server slug d1))
                    λ tag. Triple-given λ has.
                      Triple-from db {P = λ d2. d2 ≡ record d1 { tags = d2.tags }} λ d2 e.
                        Triple-weaken
                          (λ _ s h.
                            settled-AggregatesSynced supernets tag computed has d2 (db s) e h)
                          (λ s h. stopped-OnlyPodCidrs supernets tag computed has d2 (db s) e h)
                          (sync_families-FamiliesSynced db page slug client server tag
                            spec.resources.pod_cidrs.rir_name supernets d2 has
                            (subst (HasSpace page slug 2) (sym (ap (λ k. k.aggregates) e)) fits)))
