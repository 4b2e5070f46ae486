-- ===== src/Server/Calls.antt =====
-- The calls of NetBox/Write.antt on a lawful server, as functions of its tables.
use netbox_herald.Base.{
  ℕ, suc, ◌≡◌, refl, ap, ◌∙◌, sym, String, Option, none, some, List, [], ◌∷◌, ◌++◌, find?, filter,
  take, length,
}
use netbox_herald.Base.Triple.{
  Triple, Triple-return, Triple-bind, Triple-context, Triple-given, Triple-weaken,
}
use netbox_herald.NetBox.Model.{Object, Body, Endpoint}
use netbox_herald.NetBox.ExternalId.{has_external_id, has_id_prefix}
use netbox_herald.NetBox.Write.{
  tagged, find_by_external_id, write_object, delete_object, delete_found, delete_by_external_id,
  list_by_id_prefix, delete_all, count_managed, count_or_zero,
}
use netbox_herald.Server.Tables.{Db, Table, has_tag, IsFresh, write_at, erase_at}
use netbox_herald.Server.Laws.{At, IsEndpoint}

module _ {A : Type 0} where
  -- the first page of what carries the tag
  abbrev pub first_page : ℕ → String → List (Object A) → List (Object A)
  first_page page slug t = take page (filter (has_tag slug) t)

  -- what `find_by_external_id` finds in a table
  abbrev pub found : ℕ → String → String → List (Object A) → Option (Object A)
  found page slug external_id t = find? (has_external_id external_id) (first_page page slug t)

  -- what `list_by_id_prefix` lists
  abbrev pub owned : ℕ → String → String → List (Object A) → List (Object A)
  owned page slug prefix t = filter (has_id_prefix prefix) (first_page page slug t)

  -- The table after an object was written: in place, or as a new object with a fresh id.
  abbrev pub Upserted : Option (Object A) → Body A → List (Object A) → List (Object A) → ℕ → Type 0
  Upserted (some existing) body t t' id = (id ≡ existing.id) × (t' ≡ write_at existing.id body t)
  Upserted none body t t' id = IsFresh id t × (t' ≡ t ++ record { id = id; body = body } ∷ [])

  abbrev pub erase_found : Option (Object A) → List (Object A) → List (Object A)
  erase_found none t = t
  erase_found (some o) t = erase_at o.id t

  abbrev pub erase_all : List (Object A) → List (Object A) → List (Object A)
  erase_all [] t = t
  erase_all (o ∷ os) t = erase_all os (erase_at o.id t)

module _ {S A : Type 0} (db : S → Db) (objects : Endpoint S A) (table : Table A) (page : ℕ)
    (lawful : IsEndpoint db objects table page) where
  pub find_lem :
      (listing_message slug external_id : String) (d : Db)
      → Triple
          (At db d)
          (find_by_external_id objects listing_message slug external_id)
          (λ o s. (db s ≡ d) × (o ≡ found page slug external_id (table.get d)))
          (At db d)
  unfolding find_by_external_id
  find_lem l slug external_id d =
      Triple-bind _ _ (Triple-context _ (lawful.list_lem (tagged slug) d))
        λ p. Triple-return _ λ s h. (h.0, ap (find? (has_external_id external_id)) h.1)

  pub list_by_id_prefix_lem :
      (listing_message slug prefix : String) (d : Db)
      → Triple
          (At db d)
          (list_by_id_prefix objects listing_message slug prefix)
          (λ os s. (db s ≡ d) × (os ≡ owned page slug prefix (table.get d)))
          (At db d)
  unfolding list_by_id_prefix
  list_by_id_prefix_lem l slug prefix d =
      Triple-bind _ _ (Triple-context _ (lawful.list_lem (tagged slug) d))
        λ p. Triple-return _ λ s h. (h.0, ap (filter (has_id_prefix prefix)) h.1)

  pub count_managed_lem :
      (listing_message slug : String) (d : Db)
      → Triple
          (At db d)
          (count_managed objects listing_message slug)
          (λ n s. (db s ≡ d) × (n ≡ length (filter (has_tag slug) (table.get d))))
          (At db d)
  unfolding count_managed
  count_managed_lem l slug d =
      Triple-bind _ _ (Triple-context _ (lawful.list_lem _ d))
        λ p. Triple-return _ λ s h. (h.0, ap count_or_zero h.2)

  pub write_object_lem :
      (updating creating shown : String) (existing : Option (Object A)) (body : Body A) (d : Db)
      → Triple
          (At db d)
          (write_object objects updating creating shown existing body)
          (λ id s.
            (t : List (Object A)) × Upserted existing body (table.get d) t id
            × (db s ≡ table.put t d))
          (At db d)
  unfolding write_object
  write_object_lem u c shown (some existing) body d =
      Triple-bind _ _ (Triple-context _ (lawful.update_lem existing.id body d))
        λ o. Triple-return _ λ s h. (write_at existing.id body (table.get d), (h.0, refl), h.1)
  write_object_lem u c shown none body d =
      Triple-bind _ _ (Triple-context _ (lawful.create_lem body d)) λ o. Triple-return _ λ s h. (
        table.get d ++ o ∷ [],
        (h.1, ap (λ b. table.get d ++ record { id = o.id; body = b } ∷ []) h.0),
        h.2,
      )

  pub delete_object_lem :
      (deleting : String) (id : ℕ) (d : Db)
      → Triple
          (At db d)
          (delete_object objects deleting id)
          (λ _ s. db s ≡ table.put (erase_at id (table.get d)) d)
          (At db d)
  unfolding delete_object
  delete_object_lem deleting id d = Triple-context _ (lawful.delete_lem id d)

  pub delete_found_lem :
      (deleting : String) (o : Option (Object A)) (d : Db)
      → Triple
          (At db d)
          (delete_found objects deleting o)
          (λ _ s. db s ≡ table.put (erase_found o (table.get d)) d)
          (At db d)
  unfolding delete_found
  delete_found_lem deleting none d = Triple-return _ λ s h. h ∙ sym (table.put-get d)
  delete_found_lem deleting (some o) d = delete_object_lem deleting o.id d

  pub delete_by_external_id_lem :
      (listing_message deleting slug external_id : String) (d : Db)
      → Triple
          (At db d)
          (delete_by_external_id objects listing_message deleting slug external_id)
          (λ _ s.
            db s
            ≡ table.put (erase_found (found page slug external_id (table.get d)) (table.get d)) d)
          (At db d)
  unfolding delete_by_external_id
  delete_by_external_id_lem l deleting slug external_id d =
      Triple-bind _ _ (find_lem l slug external_id d)
        λ o. Triple-given λ e. rw (← e) (delete_found_lem deleting o d)

  -- A failure leaves the deletions before it done.
  pub delete_all_lem :
      (deleting : String) (os : List (Object A)) (d : Db)
      → Triple
          (At db d)
          (delete_all objects deleting os)
          (λ _ s. db s ≡ table.put (erase_all os (table.get d)) d)
          (λ s. (n : ℕ) × (db s ≡ table.put (erase_all (take n os) (table.get d)) d))
  unfolding delete_all
  delete_all_lem deleting [] d = Triple-return _ λ s h. h ∙ sym (table.put-get d)
  delete_all_lem deleting (o ∷ os) d =
      Triple-bind _ _
        (Triple-weaken (λ _ s h. h) (λ s h. (0, h ∙ sym (table.put-get d)))
          (delete_object_lem deleting o.id d))
        λ _.
          Triple-weaken (λ _ s h. h ∙ moved os) (λ s (n, h). (suc n, h ∙ moved (take n os)))
            (delete_all_lem deleting os (table.put (erase_at o.id (table.get d)) d))
    where
      moved :
          (ps : List (Object A))
          → table.put
              (erase_all ps (table.get (table.put (erase_at o.id (table.get d)) d)))
              (table.put (erase_at o.id (table.get d)) d)
            ≡ table.put (erase_all ps (erase_at o.id (table.get d))) d
      moved ps =
          ap (λ t. table.put (erase_all ps t) (table.put (erase_at o.id (table.get d)) d))
            (table.get-put _ d)
          ∙ table.put-put _ _ d
