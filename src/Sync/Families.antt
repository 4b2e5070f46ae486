-- ===== src/Sync/Families.antt =====
-- The loops of podcidr_controller.go over the two address families, on a lawful server: what they
-- leave of the aggregates.
use mathlib.Core.Path.{subst}
use netbox_herald.Base.{
  ℕ, suc, ◌+◌, ◌≤◌, ◌≡◌, refl, sym, ap, ◌∙◌, String, ◌<>◌, not, Option, none, some, List, length,
  filter, Exec, pure, ◌>>◌, arith,
}
use netbox_herald.Base.Triple.{Triple, Triple-return, Triple-bind, Triple-weaken}
use netbox_herald.NetBox.Model.{Tag, Body, AggregateData, Reference, NetBoxApi}
use netbox_herald.NetBox.ExternalId.{external_id_for_pod_cidr_aggregate}
use netbox_herald.NetBox.PodCidrs.{
  PodCidrAggregateSpec, aggregate_body, ensure_pod_cidr_aggregate, delete_pod_cidr_aggregate,
}
use netbox_herald.Supernet.{Family, ipv4, ipv6, family_name, Families, at_family}
use netbox_herald.Controller.PodCidrController.{
  pod_cidr_address_families, sync_family, sync_families, delete_aggregates,
}
use netbox_herald.Server.Tables.{Db, has_tag, aggregates_table}
use netbox_herald.Server.Laws.{At, IsServer}
use netbox_herald.Server.Registry.{registered, registry}
use netbox_herald.Sync.Ensure.{ensure_pod_cidr_aggregate_lem}
use netbox_herald.Sync.Lookups.{resolved}
use netbox_herald.Sync.Removals.{delete_pod_cidr_aggregate-Removes}
use netbox_herald.Sync.Owners.{Triple-from}
use netbox_herald.Sync.Registers.{HasSpace, Registers, Written-Registers, Removed-Registers}

abbrev pub family_id : Family → String
family_id family = external_id_for_pod_cidr_aggregate (family_name family)

-- what `syncAggregates` asks for where a family has a supernet
abbrev pub family_spec : Tag → String → Family → String → PodCidrAggregateSpec
family_spec tag rir_name family cidr = record {
  cidr = cidr;
  rir_name = rir_name;
  description = "Kubernetes pod CIDR aggregate (" <> (family_name family <> ")");
  external_id = family_id family;
  managed_tag = tag;
}

-- The aggregate that a family is to have: none without a supernet, else that of the supernet under
-- the RIR that the name resolves to.
abbrev pub IsWanted :
    Tag → String → List Reference → Family → Option String → Option (Body AggregateData) → Type 0
IsWanted tag rir_name rirs family none o = o ≡ none
IsWanted tag rir_name rirs family (some cidr) o =
    (rir : ℕ) × (resolved rir_name rirs ≡ some rir)
    × (o ≡ some (aggregate_body (family_spec tag rir_name family cidr) rir))

module _ (slug : String) where
  -- Only managed aggregates differ.
  abbrev pub OnlyAggregates : Db → Db → Type 0
  OnlyAggregates d d' =
      (d' ≡ record d { aggregates = d'.aggregates })
      × (filter (λ o. not (has_tag slug o)) d'.aggregates
          ≡ filter (λ o. not (has_tag slug o)) d.aggregates)

  OnlyAggregates-trans :
      (d d1 d' : Db) → OnlyAggregates d d1 → OnlyAggregates d1 d' → OnlyAggregates d d'
  OnlyAggregates-trans d d1 d' (f, u) (f', u') =
      (f' ∙ ap {A = Db} (λ k. record k { aggregates = d'.aggregates }) f, u' ∙ u)

  -- The map of the managed aggregates, with the entries of the two families set.
  abbrev pub FamiliesSet :
      Db → Db → (Option (Body AggregateData)) → (Option (Body AggregateData)) → Type 0
  FamiliesSet d d' four six =
      (registry slug d'.aggregates
        ≡ registered (family_id ipv6) six
            (registered (family_id ipv4) four (registry slug d.aggregates)))
      × OnlyAggregates d d'

  -- The families of `supernets` have the aggregates that they are to have.
  abbrev pub FamiliesSynced : Tag → String → Families String → Db → Db → Type 0
  FamiliesSynced tag rir_name supernets d d' =
      (four six : Option (Body AggregateData)) × IsWanted tag rir_name d.rirs ipv4
        (at_family supernets ipv4) four
      × IsWanted tag rir_name d.rirs ipv6 (at_family supernets ipv6) six
      × FamiliesSet d d' four six

module _ {S : Type 0} (db : S → Db) (page : ℕ) (slug : String) where
  -- A call sets one family's entry to something that `P` allows.
  Turn :
      Exec S (Unit {0}) → Family → (List Reference → Option (Body AggregateData) → Type 0) → Type 0
  Turn m family P =
      (n : ℕ) (d : Db) (fits : HasSpace page slug (suc n) d.aggregates)
      → Triple (At db d) m
          (λ _ s.
            (o : Option (Body AggregateData)) × P d.rirs o
            × Registers aggregates_table page slug (family_id family) n d (db s) fits o)
          (At db d)

  both_turns :
      (m k : Exec S (Unit {0})) (P Q : List Reference → Option (Body AggregateData) → Type 0)
      (d : Db)
      → Turn m ipv4 P
      → Turn k ipv6 Q
      → HasSpace page slug 2 d.aggregates
      → Triple
          (At db d)
          (m >> (k >> pure tt))
          (λ _ s.
            (four six : Option (Body AggregateData)) × P d.rirs four
            × Q d.rirs six
            × FamiliesSet slug d (db s) four six)
          (λ s. OnlyAggregates slug d (db s))
  unfolding Turn
  both_turns m k P Q d first second fits =
      Triple-bind m (λ _. k >> pure tt)
        (Triple-weaken (λ _ _ h. h) (λ s h. subst (OnlyAggregates slug d) (sym h) (refl, refl))
          (first 1 d fits))
        λ _.
          Triple-from db
            {P = λ d1.
              (four : Option (Body AggregateData)) × P d.rirs four
              × Registers aggregates_table page slug (family_id ipv4) 1 d d1 fits four}
            λ d1 (four, p, (fits1, set, frame, same)).
              Triple-bind k (λ _. pure tt)
                (Triple-weaken (λ _ _ h. h)
                  (λ s h. subst (OnlyAggregates slug d) (sym h) (frame, same)) (second 0 d1 fits1))
                λ _. Triple-return tt λ s (six, q, (_, set', frame', same')). (
                  four,
                  six,
                  p,
                  subst (λ k. Q k six) (ap (λ k. k.rirs) frame) q,
                  (
                    set' ∙ ap (registered (family_id ipv6) six) set,
                    OnlyAggregates-trans slug d d1 (db s) (frame, same) (frame', same'),
                  ),
                )

  module _ (client : NetBoxApi S) (server : IsServer db client page) where
    delete_turn :
        (family : Family)
        → Turn
            (delete_pod_cidr_aggregate client slug (family_id family))
            family
            (λ rirs o. o ≡ none)
    unfolding Turn
    delete_turn family n d fits =
        Triple-weaken
          (λ _ s h. (
            none,
            refl,
            Removed-Registers aggregates_table page slug (family_id family) n d (db s) fits h,
          ))
          (λ s h. h)
          (delete_pod_cidr_aggregate-Removes db client page server slug (family_id family) d (
            fits.0.0,
            (let room : length (filter (has_tag slug) d.aggregates) + suc n ≤ page = fits.1 in
                omega (arith, room)),
            fits.0.1 (family_id family),
          ))

    ensured_turn :
        (tag : Tag) (rir_name : String) (family : Family) (cidr : String)
        → tag.slug ≡ some slug
        → Turn
            (ensure_pod_cidr_aggregate client (family_spec tag rir_name family cidr) >> pure tt)
            family
            (λ rirs o. IsWanted tag rir_name rirs family (some cidr) o)
    unfolding Turn aggregate_body
    ensured_turn tag rir_name family cidr has n d fits =
        let spec = family_spec tag rir_name family cidr in
        Triple-bind (ensure_pod_cidr_aggregate client spec) (λ _. pure tt)
          (ensure_pod_cidr_aggregate_lem db client page server spec d)
          λ id. Triple-return tt λ s (rir, is, w). (
            some (aggregate_body spec rir),
            (rir, is, refl),
            Written-Registers aggregates_table page slug (family_id family) n d (db s) fits tag
                (aggregate_body spec rir) id has (refl, refl) w,
          )

    IsWanted-turn :
        (tag : Tag) (rir_name : String) (family : Family) (cidr : Option String)
        → tag.slug ≡ some slug
        → Turn
            (sync_family client slug rir_name tag family cidr)
            family
            (λ rirs o. IsWanted tag rir_name rirs family cidr o)
    unfolding sync_family
    IsWanted-turn tag rir_name family none has = delete_turn family
    IsWanted-turn tag rir_name family (some cidr) has = ensured_turn tag rir_name family cidr has

    pub sync_families-FamiliesSynced :
        (tag : Tag) (rir_name : String) (supernets : Families String) (d : Db)
        → tag.slug ≡ some slug
        → HasSpace page slug 2 d.aggregates
        → Triple
            (At db d)
            (sync_families client slug rir_name tag supernets pod_cidr_address_families)
            (λ _ s. FamiliesSynced slug tag rir_name supernets d (db s))
            (λ s. OnlyAggregates slug d (db s))
    unfolding sync_families
    sync_families-FamiliesSynced tag rir_name supernets d has fits =
        both_turns (sync_family client slug rir_name tag ipv4 (at_family supernets ipv4))
          (sync_family client slug rir_name tag ipv6 (at_family supernets ipv6))
          (λ rirs o. IsWanted tag rir_name rirs ipv4 (at_family supernets ipv4) o)
          (λ rirs o. IsWanted tag rir_name rirs ipv6 (at_family supernets ipv6) o) d
          (IsWanted-turn tag rir_name ipv4 (at_family supernets ipv4) has)
          (IsWanted-turn tag rir_name ipv6 (at_family supernets ipv6) has) fits

    pub delete_aggregates-FamiliesSet :
        (d : Db)
        → HasSpace page slug 2 d.aggregates
        → Triple
            (At db d)
            (delete_aggregates client slug pod_cidr_address_families)
            (λ _ s. FamiliesSet slug d (db s) none none)
            (λ s. OnlyAggregates slug d (db s))
    unfolding delete_aggregates
    delete_aggregates-FamiliesSet d fits =
        Triple-weaken
          (λ _ s (four, six, p, q, set).
            subst (λ o. FamiliesSet slug d (db s) o none) p
              (subst (λ o. FamiliesSet slug d (db s) four o) q set))
          (λ s h. h)
          (both_turns (delete_pod_cidr_aggregate client slug (family_id ipv4))
            (delete_pod_cidr_aggregate client slug (family_id ipv6)) (λ rirs o. o ≡ none)
            (λ rirs o. o ≡ none) d (delete_turn ipv4) (delete_turn ipv6) fits)
