-- ===== src/Sync/StalePrefixes.antt =====
-- The loop of `syncAggregates` that removes the prefixes of the Nodes, on a lawful server.
use mathlib.Core.Path.{fun_ext}
use netbox_herald.Base.{
  ℕ, ◌≤◌, ◌≡◌, refl, sym, ap, ◌∙◌, arith, String, Bool, true, false, not, ◌&&◌, List, [], ◌∷◌,
  length, filter, any, if◌then◌else◌,
}
use netbox_herald.Base.Triple.{Triple, Triple-return, Triple-bind, Triple-weaken}
use netbox_herald.NetBox.Model.{Object, PrefixData, NetBoxApi}
use netbox_herald.NetBox.ExternalId.{node_pod_cidr_external_id_prefix, has_id_prefix}
use netbox_herald.Controller.Kube.{Node}
use netbox_herald.Controller.PodCidrController.{delete_stale_prefixes}
use netbox_herald.Server.Tables.{Db, UniqueIds, has_tag}
use netbox_herald.Server.Laws.{At, IsServer}
use netbox_herald.Server.Erase.{is_owned, filter-filter, filter-kept}
use netbox_herald.Server.Registry.{length-filter_le, filter-UniqueIds}
use netbox_herald.Server.Presence.{filter-erase_taken}
use netbox_herald.Sync.Removals.{delete_node_pod_cidr_prefixes_exact}
use netbox_herald.Sync.Registers.{untagged_fails}

-- a managed prefix of one of the Nodes
abbrev pub is_owned_by : String → List Node → Object PrefixData → Bool
is_owned_by slug nodes o =
    any (λ (node : Node). is_owned slug (node_pod_cidr_external_id_prefix node.name) o) nodes

pub filter-not_any :
    {A : Type 0} (p q : A → Bool) (t : List A)
    → filter (λ o. not (q o)) (filter (λ o. not (p o)) t)
      ≡ filter (λ o. not (if p o then true else q o)) t
filter-not_any p q t =
    filter-filter (λ o. not (p o)) (λ o. not (q o)) t
    ∙ ap (λ r. filter r t) (fun_ext λ o. both (p o) (q o))
  where
    both : (a b : Bool) → not a && not b ≡ not (if a then true else b)
    both true b = refl
    both false b = refl

pub untagged_unowned :
    (slug : String) (nodes : List Node) (o : Object PrefixData)
    → not (has_tag slug o) ≡ true
    → is_owned_by slug nodes o ≡ false
untagged_unowned slug [] o h = refl
untagged_unowned slug (node ∷ nodes) o h =
    rw (untagged_fails slug o (has_id_prefix (node_pod_cidr_external_id_prefix node.name) o) h)
      (untagged_unowned slug nodes o h)

pub filter-true : {A : Type 0} (t : List A) → t ≡ filter (λ o. true) t
filter-true [] = refl
filter-true (o ∷ t) = ap (λ k. o ∷ k) (filter-true t)

module _ (slug : String) where
  -- Only managed prefixes differ.
  abbrev pub OnlyPrefixes : Db → Db → Type 0
  OnlyPrefixes d d' =
      (d' ≡ record d { prefixes = d'.prefixes })
      × (filter (λ o. not (has_tag slug o)) d'.prefixes
          ≡ filter (λ o. not (has_tag slug o)) d.prefixes)

  OnlyPrefixes-trans : (d d1 d' : Db) → OnlyPrefixes d d1 → OnlyPrefixes d1 d' → OnlyPrefixes d d'
  OnlyPrefixes-trans d d1 d' (f, u) (f', u') =
      (f' ∙ ap {A = Db} (λ k. record k { prefixes = d'.prefixes }) f, u' ∙ u)

  OnlyPrefixes-of :
      (d d' : Db) (t : List (Object PrefixData))
      → d' ≡ record d { prefixes = t }
      → filter (λ o. not (has_tag slug o)) t ≡ filter (λ o. not (has_tag slug o)) d.prefixes
      → OnlyPrefixes d d'
  OnlyPrefixes-of d d' t e same =
      let left : d'.prefixes ≡ t = ap (λ k. k.prefixes) e in
      (
        e ∙ ap {A = List _} (λ k. record d { prefixes = k }) (sym left),
        ap (filter (λ o. not (has_tag slug o))) left ∙ same,
      )

module _ {S : Type 0} (db : S → Db) (client : NetBoxApi S) (page : ℕ)
    (server : IsServer db client page) (slug : String) where
  -- The loop over the Nodes removes exactly the managed prefixes of these Nodes.
  pub delete_stale_prefixes_exact :
      (nodes : List Node) (d : Db)
      → UniqueIds d.prefixes
      → length (filter (has_tag slug) d.prefixes) ≤ page
      → Triple
          (At db d)
          (delete_stale_prefixes client slug nodes)
          (λ _ s.
            db s ≡ record d { prefixes = filter (λ o. not (is_owned_by slug nodes o)) d.prefixes })
          (λ s. OnlyPrefixes slug d (db s))
  unfolding delete_stale_prefixes
  delete_stale_prefixes_exact [] d u room =
      Triple-return tt
        λ s h. h ∙ ap {A = List _} (λ k. record d { prefixes = k }) (filter-true d.prefixes)
  delete_stale_prefixes_exact (node ∷ nodes) d u room =
      let p : Object PrefixData → Bool =
        is_owned slug (node_pod_cidr_external_id_prefix node.name) in
      let t : List (Object PrefixData) = filter (λ o. not (p o)) d.prefixes in
      let d1 : Db = record d { prefixes = t } in
      Triple-bind _ _
        (Triple-weaken (λ _ _ h. h)
          (λ s (n, h). OnlyPrefixes-of slug d (db s) _ h (
            filter-erase_taken p (λ o. not (has_tag slug o)) n d.prefixes u
              (λ o. untagged_fails slug o _)))
          (delete_node_pod_cidr_prefixes_exact db client page server slug node.name d u room))
        λ _.
          Triple-weaken
            (λ _ s h.
              h
              ∙ ap {A = List _} (λ k. record d { prefixes = k })
                  (filter-not_any p (is_owned_by slug nodes) d.prefixes))
            (λ s h.
              OnlyPrefixes-trans slug d d1 (db s)
                (
                  refl,
                  filter-kept p (λ o. not (has_tag slug o)) d.prefixes
                      (λ o. untagged_fails slug o _),
                )
                h)
            (delete_stale_prefixes_exact nodes d1 (filter-UniqueIds _ d.prefixes u) (
              let fewer = length-filter_le (λ o. not (p o)) (has_tag slug) d.prefixes in
              omega (arith, fewer, room)))
