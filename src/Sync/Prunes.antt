-- ===== src/Sync/Prunes.antt =====
-- The pruning loops on a lawful server: they delete what is owned and not desired.
use netbox_herald.Base.{
  ℕ, suc, ◌≤◌, ◌≡◌, ◌>>=◌, pure, sym, ap, ◌∙◌, inl, inr, String, Bool, true, false, not, ◌&&◌,
  Option, none, some, List, [], ◌∷◌, length, filter, take, Bool-cases, Option-cases, if◌then◌else◌,
}
use mathlib.Core.Path.{subst}
use netbox_herald.Base.Triple.{Triple, Triple-return, Triple-bind, Triple-given, Triple-weaken}
use netbox_herald.NetBox.Model.{Object, Endpoint, NetBoxApi}
use netbox_herald.NetBox.ExternalId.{service_external_id_prefix}
use netbox_herald.NetBox.Write.{list_by_id_prefix}
use netbox_herald.NetBox.Services.{list_service_ips}
use netbox_herald.Controller.Prune.{owned_id, contains, prune_one, prune}
use netbox_herald.Server.Tables.{Db, Table, UniqueIds, has_tag, erase_at, ip_addresses_table}
use netbox_herald.Server.Laws.{At, IsEndpoint, IsServer}
use netbox_herald.Server.Calls.{owned, erase_all, list_by_id_prefix_lem, delete_object_lem}
use netbox_herald.Server.Erase.{is_owned, owned_all, erase_all-filter, filter-filter}

stale_id : List String → Option String → Bool
stale_id desired none = true
stale_id desired (some id) = not (contains desired id)

-- the object's external id is not among the desired ones
unfoldable pub is_stale : {A : Type 0} → List String → Object A → Bool
unfolding stale_id
is_stale desired o = stale_id desired (owned_id o.body.custom_fields)

pub is_stale_of :
    {A : Type 0} (desired : List String) (o : Object A) (id : String) (b : Bool)
    → owned_id o.body.custom_fields ≡ some id
    → contains desired id ≡ b
    → is_stale desired o ≡ not b
unfolding is_stale stale_id
is_stale_of desired o id b read e = ap (stale_id desired) read ∙ ap not e

module _ {S A : Type 0} (db : S → Db) (objects : Endpoint S A) (table : Table A) (page : ℕ)
    (lawful : IsEndpoint db objects table page) (deleting : String) (desired : List String) where
  Erased : List (Object A) → Db → S → Type 0
  Erased os d s = db s ≡ table.put (erase_all os (table.get d)) d

  -- A failure leaves some of the deletions done, from the first one.
  Stopped : List (Object A) → Db → S → Type 0
  Stopped os d s = (n : ℕ) × Erased (take n os) d s

  moved :
      (o : Object A) (ps : List (Object A)) (d : Db) (s : S)
      → Erased ps (table.put (erase_at o.id (table.get d)) d) s
      → Erased (o ∷ ps) d s
  unfolding Erased
  moved o ps d s h =
      h
      ∙ ap (λ t. table.put (erase_all ps t) (table.put (erase_at o.id (table.get d)) d))
          (table.get-put _ d)
      ∙ table.put-put _ _ d

  -- the triple of the pruning loop where `gone` are the objects to delete
  Prunes : List (Object A) → List (Object A) → Db → Type 0
  Prunes os gone d =
      Triple (At db d) (prune objects deleting desired os) (λ _. Erased gone d) (Stopped gone d)

  prune_unread :
      (o : Object A) (os gone : List (Object A)) (d : Db)
      → owned_id o.body.custom_fields ≡ none
      → Prunes (o ∷ os) gone d
  unfolding Prunes prune prune_one Erased Stopped
  prune_unread o os gone d unread =
      rw unread (record { run = λ s h. (0, h ∙ sym (table.put-get d)) })

  prune_kept :
      (o : Object A) (os gone : List (Object A)) (d : Db) (id : String)
      → owned_id o.body.custom_fields ≡ some id
      → contains desired id ≡ true
      → Prunes os gone d
      → Prunes (o ∷ os) gone d
  unfolding Prunes prune prune_one
  prune_kept o os gone d id read kept t =
      rw (read, kept)
        (Triple-bind {mid = λ _ s. db s ≡ d} (pure tt) (λ _. prune objects deleting desired os)
          (Triple-return tt (λ s h. h)) (λ _. t))

  prune_deleted :
      (o : Object A) (os gone : List (Object A)) (d : Db) (id : String)
      → owned_id o.body.custom_fields ≡ some id
      → contains desired id ≡ false
      → Prunes os gone (table.put (erase_at o.id (table.get d)) d)
      → Prunes (o ∷ os) (o ∷ gone) d
  unfolding Prunes prune prune_one Erased Stopped
  prune_deleted o os gone d id read stale t =
      rw (read, stale)
        (Triple-bind _ _
          (Triple-weaken (λ _ s h. h) (λ s h. (0, h ∙ sym (table.put-get d)))
            (delete_object_lem db objects table page lawful deleting o.id d))
          λ _.
            Triple-weaken (λ _ s h. moved o gone d s h)
              (λ s (n, h). (suc n, moved o (take n gone) d s h)) t)

  filter_stale :
      (o : Object A) (os : List (Object A)) (id : String) (b : Bool)
      → owned_id o.body.custom_fields ≡ some id
      → contains desired id ≡ b
      → filter (is_stale desired) (o ∷ os)
        ≡ (if b then filter (is_stale desired) os else o ∷ filter (is_stale desired) os)
  filter_stale o os id true read e = rw (is_stale_of desired o id true read e)
  filter_stale o os id false read e = rw (is_stale_of desired o id false read e)

  prune_lem : (os : List (Object A)) (d : Db) → Prunes os (filter (is_stale desired) os) d
  unfolding Prunes prune Erased
  prune_lem [] d = Triple-return _ λ s h. h ∙ sym (table.put-get d)
  prune_lem (o ∷ os) d = elim (Option-cases (owned_id o.body.custom_fields)) [
    | inl unread ↦ prune_unread o os _ d unread
    | inr (id, read) ↦ elim (Bool-cases (contains desired id)) [
      | inl kept ↦
          subst (λ k. Prunes (o ∷ os) k d) (sym (filter_stale o os id true read kept))
            (prune_kept o os _ d id read kept (prune_lem os d))
      | inr stale ↦
          subst (λ k. Prunes (o ∷ os) k d) (sym (filter_stale o os id false read stale))
            (prune_deleted o os _ d id read stale
              (prune_lem os (table.put (erase_at o.id (table.get d)) d)))
    ]
  ]

  -- what the pruning removes: managed objects of the prefix whose external id is not desired
  abbrev pub is_pruned : String → String → Object A → Bool
  is_pruned slug prefix o = is_owned slug prefix o && is_stale desired o

  pub prune_owned_lem :
      (listing_message slug prefix : String) (d : Db)
      → UniqueIds (table.get d)
      → length (filter (has_tag slug) (table.get d)) ≤ page
      → Triple
          (At db d)
          (do
            os ← list_by_id_prefix objects listing_message slug prefix
            prune objects deleting desired os)
          (λ _ s. db s ≡ table.put (filter (λ o. not (is_pruned slug prefix o)) (table.get d)) d)
          (λ s.
            (n : ℕ) × (db s
              ≡ table.put
                  (erase_all (take n (filter (is_pruned slug prefix) (table.get d))) (table.get d))
                  d))
  unfolding Prunes Erased Stopped
  prune_owned_lem l slug prefix d u room =
      Triple-bind _ _
        (Triple-weaken (λ _ s h. h) (λ s h. (0, h ∙ sym (table.put-get d)))
          (list_by_id_prefix_lem db objects table page lawful l slug prefix d))
        λ os. Triple-given λ e.
          let pruned : filter (is_stale desired) os ≡ filter (is_pruned slug prefix) (table.get d) =
            ap (filter (is_stale desired)) (e ∙ owned_all page slug prefix (table.get d) room)
            ∙ filter-filter (is_owned slug prefix) (is_stale desired) (table.get d) in
          Triple-weaken
            (λ _ s h.
              h
              ∙ ap (λ k. table.put k d)
                  (ap (λ k. erase_all k (table.get d)) pruned
                    ∙ erase_all-filter (is_pruned slug prefix) (table.get d) u))
            (λ s (n, h). (n, h ∙ ap (λ k. table.put (erase_all (take n k) (table.get d)) d) pruned))
            (prune_lem os d)

module _ {S : Type 0} (db : S → Db) (client : NetBoxApi S) (page : ℕ)
    (server : IsServer db client page) (slug : String) (d : Db) where
  -- On a server that keeps NetBox's documented laws, if ids are unique and the managed addresses
  -- fit on one page: a run of DeleteServiceIPs that returns leaves exactly the addresses that are
  -- not managed or lack the Service's prefix, and the rest of the database; one that fails has
  -- done the first deletions, in the order of the listing.
  pub prune_service_ips_exact :
      (desired : List String) (deleting namespace name : String)
      → UniqueIds d.ip_addresses
      → length (filter (has_tag slug) d.ip_addresses) ≤ page
      → Triple
          (At db d)
          (do
            owned ← list_service_ips client slug namespace name
            prune client.ip_addresses deleting desired owned)
          (λ _ s. db s ≡ record d {
            ip_addresses =
                filter
                  (λ o. not (
                    is_owned slug (service_external_id_prefix namespace name) o
                    && is_stale desired o))
                  d.ip_addresses;
          })
          (λ s.
            (n : ℕ) × (db s ≡ record d {
              ip_addresses =
                  erase_all
                    (take n (
                      filter
                        (λ o.
                          is_owned slug (service_external_id_prefix namespace name) o
                          && is_stale desired o)
                        d.ip_addresses))
                    d.ip_addresses;
            }))
  unfolding list_service_ips
  prune_service_ips_exact desired deleting namespace name u room =
      prune_owned_lem db client.ip_addresses ip_addresses_table page server.ip_addresses_lem
        deleting desired _ slug (service_external_id_prefix namespace name) d u room
