-- ===== src/Sync/Owners.antt =====
-- What a loop that writes the objects of one owner keeps of their table, and the pruning after it:
-- the common part of `syncServiceAddresses` and `syncNodePrefixes` on a lawful server.
use mathlib.Core.Path.{subst}
use netbox_herald.Base.{
  ℕ, suc, ◌+◌, ◌≤◌, ◌≡◌, refl, sym, ap, ◌∙◌, arith, String, Bool, not, ◌&&◌, some, List, [], ◌∷◌,
  ◌++◌, length, filter, take, All, All-map, Exec, ◌>>=◌,
}
use netbox_herald.Base.Triple.{Triple, Triple-bind, Triple-given, Triple-weaken}
use netbox_herald.NetBox.Model.{Tag, Body, Object, NetBoxApi, Endpoint}
use netbox_herald.NetBox.Write.{list_by_id_prefix}
use netbox_herald.NetBox.Tags.{ensure_managed_tag}
use netbox_herald.Controller.Prune.{prune}
use netbox_herald.Server.Tables.{Db, Table, UniqueIds, has_tag}
use netbox_herald.Server.Laws.{At, IsEndpoint, IsServer}
use netbox_herald.Server.Calls.{erase_all}
use netbox_herald.Server.Erase.{is_owned, filter-kept, filter-gone}
use netbox_herald.Server.Upsert.{upsert-UniqueIds}
use netbox_herald.Server.Unique.{is_managed, copies, length-filter-upsert}
use netbox_herald.Server.Presence.{copies-written, copies-kept, filter-erase_taken}
use netbox_herald.Sync.Ensure.{Written}
use netbox_herald.Sync.Laws.{
  Managed, Written-at, Written-untagged, has_tag-Managed, has_external_id-Managed,
}
use netbox_herald.Sync.Prunes.{is_stale, prune_owned_lem}
use netbox_herald.Sync.Tags.{ensure_managed_tag_lem}
use netbox_herald.Sync.Wanted.{untagged-pruned, managed-kept, All-contains}

module _ {A : Type 0} (table : Table A) (slug : String) (d0 : Db) where
  -- The objects without the tag are as they were, and so is every table but the tags and this one.
  abbrev pub Others : Db → Type 0
  Others d =
      (filter (λ o. not (has_tag slug o)) (table.get d)
        ≡ filter (λ o. not (has_tag slug o)) (table.get d0))
      × (d ≡ table.put (table.get d) (record d0 { tags = d.tags }))

  -- a managed object has each of the external ids
  abbrev pub Present : List String → Db → Type 0
  Present ids d = All (λ e. 1 ≤ copies slug e (table.get d)) ids

  -- What the loop keeps: at most `n` managed objects, those that it wrote, and the others.
  abbrev pub Kept : ℕ → List String → Db → Type 0
  Kept n ids d =
      UniqueIds (table.get d)
      × (length (filter (has_tag slug) (table.get d)) ≤ n)
      × Present ids d
      × Others d

  pub Within-Kept : (n m : ℕ) (ids : List String) (d : Db) → n ≤ m → Kept n ids d → Kept m ids d
  Within-Kept n m ids d le (u, few, present, others) = (u, omega (arith, few), present, others)

  -- Only the table was written since a database with the others.
  pub Others-put :
      (d1 d' : Db) (t : List (Object A))
      → Others d1
      → d' ≡ table.put t d1
      → filter (λ o. not (has_tag slug o)) t ≡ filter (λ o. not (has_tag slug o)) (table.get d1)
      → Others d'
  Others-put d1 d' t (same, frame) e kept =
      let left : table.get d' ≡ t = ap table.get e ∙ table.get-put t d1 in
      let tags : d'.tags ≡ d1.tags = ap (λ k. k.tags) e ∙ table.tags-put t d1 in
      (
        ap (filter (λ o. not (has_tag slug o))) left ∙ kept ∙ same,
        e
            ∙ ap (table.put t) frame
            ∙ table.put-put t (table.get d1) _
            ∙ ap (λ k. table.put k (record d0 { tags = d1.tags })) (sym left)
            ∙ ap (λ k. table.put (table.get d') (record d0 { tags = k })) (sym tags),
      )

  pub Others-start : (d' : Db) → d' ≡ record d0 { tags = d'.tags } → Others d'
  Others-start d' e =
      let same : table.get d' ≡ table.get d0 = ap table.get e ∙ table.get-tags d'.tags d0 in
      (
        ap (filter (λ o. not (has_tag slug o))) same,
        sym (table.put-get d') ∙ ap (table.put (table.get d')) e,
      )

  Kept-start :
      (d' : Db)
      → UniqueIds (table.get d0)
      → d' ≡ record d0 { tags = d'.tags }
      → Kept (length (filter (has_tag slug) (table.get d0))) [] d'
  Kept-start d' u e =
      let same : table.get d' ≡ table.get d0 = ap table.get e ∙ table.get-tags d'.tags d0 in
      let count = ap (λ k. length (filter (has_tag slug) k)) same in
      (subst UniqueIds (sym same) u, omega (arith, count), tt, Others-start d' e)

All-snoc :
    (P : String → Type 0) (es : List String) (e : String) → All P es → P e → All P (es ++ e ∷ [])
All-snoc P [] e h p = (p, tt)
All-snoc P (x ∷ es) e (h, hs) p = (h, All-snoc P es e hs p)

module _ {S : Type 0} (db : S → Db) where
  pub Triple-from :
      {A : Type 0} {P : Db → Type 0} {m : Exec S A} {post : A → S → Type 0} {stop : S → Type 0}
      → ((d : Db) → P d → Triple (At db d) m post stop)
      → Triple (λ s. P (db s)) m post stop
  Triple-from t = record { run = λ s h. (t (db s) h).run s refl }

-- One write of the loop.
module _ {S A : Type 0} (db : S → Db) (table : Table A) (page : ℕ) (slug : String) (d0 : Db) where
  Written-Kept :
      (tag : Tag) (external_id : String) (body : Body A) (n : ℕ) (ids : List String) (d d' : Db)
      (id : ℕ)
      → tag.slug ≡ some slug
      → Managed tag external_id body
      → Kept table slug d0 n ids d
      → Written table page tag external_id body d id d'
      → Kept table slug d0 (suc n) (ids ++ external_id ∷ []) d'
  Written-Kept tag external_id body n ids d d' id has m (u, few, present, others) w =
      let (t, up, e, g) = Written-at table page tag slug external_id body d d' id has w in
      let tagged = has_tag-Managed tag slug external_id id body has m in
      let named = has_external_id-Managed tag external_id id body m in
      let untagged = (Written-untagged table page tag slug external_id body d d' id has m u w).0 in
      let grown = length-filter-upsert page slug external_id body (table.get d) t id u tagged up in
      let count = ap (λ k. length (filter (has_tag slug) k)) g in
      (
        subst UniqueIds (sym g) (upsert-UniqueIds _ body (table.get d) t id u up),
        omega (arith, few, grown, count),
        subst (λ k. All (λ e. 1 ≤ copies slug e k) (ids ++ external_id ∷ [])) (sym g)
            (All-snoc (λ e. 1 ≤ copies slug e t) ids external_id
              (All-map ids
                (λ e' one.
                  copies-kept page slug external_id body (table.get d) t id u tagged named e' one
                    up)
                present)
              (copies-written page slug external_id body (table.get d) t id u tagged named up)),
        Others-put table slug d0 d d' t others e
            (ap (filter (λ o. not (has_tag slug o))) (sym g) ∙ untagged),
      )

  pub ensure-Kept :
      (m : Exec S ℕ) (tag : Tag) (external_id : String) (body : Body A) (n : ℕ) (ids : List String)
      → tag.slug ≡ some slug
      → Managed tag external_id body
      → ((d : Db)
          → Triple
              (At db d)
              m
              (λ id s. Written table page tag external_id body d id (db s))
              (At db d))
      → Triple
          (λ s. Kept table slug d0 n ids (db s))
          m
          (λ _ s. Kept table slug d0 (suc n) (ids ++ external_id ∷ []) (db s))
          (λ s. Others table slug d0 (db s))
  ensure-Kept m tag external_id body n ids has managed t =
      Triple-from db {P = Kept table slug d0 n ids} λ d kept.
        Triple-weaken
          (λ id s w. Written-Kept tag external_id body n ids d (db s) id has managed kept w)
          (λ s h.
            let others : Others table slug d0 d = kept.3 in
            subst (Others table slug d0) (sym h) others)
          (t d)

module _ {A : Type 0} (table : Table A) (slug prefix : String) (d : Db) (wanted : List String) where
  abbrev pub is_unwanted : List String → Object A → Bool
  is_unwanted ids o = is_owned slug prefix o && is_stale ids o

  -- What is left of the table: none of the owner's objects that is not desired, at least one for
  -- each desired external id, and the others.
  abbrev pub Synced : Db → Type 0
  Synced d' =
      (filter (is_unwanted wanted) (table.get d') ≡ [])
      × Present table slug d wanted d'
      × Others table slug d d'

  Synced-of :
      (n : ℕ) (d1 d' : Db)
      → Kept table slug d n wanted d1
      → d' ≡ table.put (filter (λ o. not (is_unwanted wanted o)) (table.get d1)) d1
      → Synced d'
  Synced-of n d1 d' (u1, few, present, others) h =
      let left : table.get d' ≡ filter (λ o. not (is_unwanted wanted o)) (table.get d1) =
        ap table.get h ∙ table.get-put _ d1 in
      (
        ap (filter (is_unwanted wanted)) left ∙ filter-gone (is_unwanted wanted) (table.get d1),
        All-contains (λ e. 1 ≤ copies slug e (table.get d1)) (λ e. 1 ≤ copies slug e (table.get d'))
            wanted
            (λ e listed.
              let kept =
                filter-kept (is_unwanted wanted) (is_managed slug e) (table.get d1)
                  (λ o. managed-kept slug prefix e wanted o listed.0) in
              let n = ap length (ap (filter (is_managed slug e)) left ∙ kept) in
              let m : 1 ≤ copies slug e (table.get d1) = listed.1 in omega (arith, n, m))
            present,
        Others-put table slug d d1 d' _ others h (
            filter-kept (is_unwanted wanted) (λ o. not (has_tag slug o)) (table.get d1)
              (untagged-pruned slug prefix wanted)),
      )

  Others-stopped :
      (n k : ℕ) (d1 d' : Db)
      → Kept table slug d n wanted d1
      → d'
        ≡ table.put
            (erase_all (take k (filter (is_unwanted wanted) (table.get d1))) (table.get d1))
            d1
      → Others table slug d d'
  Others-stopped n k d1 d' (u1, few, present, others) h = Others-put table slug d d1 d' _ others h (
      filter-erase_taken (is_unwanted wanted) (λ o. not (has_tag slug o)) k (table.get d1) u1
        (untagged-pruned slug prefix wanted))

module _ {S A : Type 0} (db : S → Db) (client : NetBoxApi S) (objects : Endpoint S A)
    (table : Table A) (page : ℕ) (lawful : IsEndpoint db objects table page)
    (server : IsServer db client page) (slug prefix : String) (d : Db) (wanted : List String) where
  -- The listing and the pruning after the loop, which has written what is wanted.
  prune-Synced :
      (listing_message deleting : String) (ids : List String) (n : ℕ)
      → n ≤ page
      → Triple
          (λ s. Kept table slug d n ids (db s) × (ids ≡ wanted))
          (do
            owned ← list_by_id_prefix objects listing_message slug prefix
            prune objects deleting ids owned)
          (λ _ s. Synced table slug prefix d wanted (db s))
          (λ s. Others table slug d (db s))
  prune-Synced l deleting ids n room = Triple-given λ is. rw is (
      Triple-from db {P = Kept table slug d n wanted} λ d1 kept.
        let few : length (filter (has_tag slug) (table.get d1)) ≤ n = kept.1 in
        Triple-weaken (λ _ s. Synced-of table slug prefix d wanted n d1 (db s) kept)
          (λ s (k, h). Others-stopped table slug prefix d wanted n k d1 (db s) kept h)
          (prune_owned_lem db objects table page lawful deleting wanted l slug prefix d1 kept.0
            (omega (arith, few, room))))

  -- The whole of it: the tag, the loop that writes, and the pruning.
  pub sync_owned-Synced :
      (listing_message deleting : String) (loop : Tag → Exec S (List String)) (more : ℕ)
      → UniqueIds (table.get d)
      → length (filter (has_tag slug) (table.get d)) + more ≤ page
      → ((tag : Tag)
          → tag.slug ≡ some slug
          → Triple
              (λ s. Kept table slug d (length (filter (has_tag slug) (table.get d))) [] (db s))
              (loop tag)
              (λ ids s.
                Kept table slug d (length (filter (has_tag slug) (table.get d)) + more) ids (db s)
                × (ids ≡ wanted))
              (λ s. Others table slug d (db s)))
      → Triple
          (At db d)
          (do
            tag ← ensure_managed_tag client slug
            desired ← loop tag
            owned ← list_by_id_prefix objects listing_message slug prefix
            prune objects deleting desired owned)
          (λ _ s. Synced table slug prefix d wanted (db s))
          (λ s. Others table slug d (db s))
  sync_owned-Synced l deleting loop more u room t =
      let n : ℕ = length (filter (has_tag slug) (table.get d)) in
      Triple-bind _ _
        (Triple-weaken (λ _ _ h. h)
          (λ s h.
            Others-start table slug d (db s)
              (h ∙ ap {A = List Tag} (λ k. record d { tags = k }) (sym (ap (λ k. k.tags) h))))
          (ensure_managed_tag_lem db client page server slug d))
        λ tag. Triple-given λ tagged.
          Triple-bind _ _
            (Triple-from db {P = λ d1. d1 ≡ record d { tags = d1.tags }} λ d1 e. record {
              run = λ s at. (t tag tagged).run s (
                  Kept-start table slug d (db s) u
                    (subst (λ k. k ≡ record d { tags = k.tags }) (sym at) e));
            })
            λ ids. prune-Synced l deleting ids (n + more) room
