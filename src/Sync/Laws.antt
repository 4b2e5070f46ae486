-- ===== src/Sync/Laws.antt =====
-- What the Ensure functions promise, of every run from a given database.
use netbox_herald.Base.{
  ℕ, suc, ◌<◌, ◌≤◌, ◌≡◌, sym, ap, ◌∙◌, String, true, not, none, some, List, [], ◌∷◌, length, filter,
  str_eq_refl,
}
use mathlib.Core.Option.{some-injective}
use mathlib.Core.Path.{subst}
use netbox_herald.NetBox.Model.{Tag, Body, Object}
use netbox_herald.NetBox.ExternalId.{
  external_id_field_name, external_id_fields, get_field, read_external_id, has_external_id,
}
use netbox_herald.NetBox.Tags.{nested_managed_tag}
use netbox_herald.Server.Tables.{Db, Table, UniqueIds, has_tag}
use netbox_herald.Server.Calls.{found, Upserted}
use netbox_herald.Server.Upsert.{upsert_untagged, upsert_twice}
use netbox_herald.Server.Unique.{copies, copies-create, copies-upsert}
use netbox_herald.Sync.Ensure.{Written}

module _ {A : Type 0} where
  -- The body carries the managed tag alone, and the external id.
  abbrev pub Managed : Tag → String → Body A → Type 0
  Managed tag external_id body =
      (body.tags ≡ nested_managed_tag tag ∷ [])
      × (body.custom_fields ≡ external_id_fields external_id)

  -- Ids are unique, and one more managed object fits on the first page.
  abbrev pub HasRoom : Table A → ℕ → String → Db → Type 0
  HasRoom table page slug d =
      UniqueIds (table.get d) × (length (filter (has_tag slug) (table.get d)) < page)

  pub has_tag-Managed :
      (tag : Tag) (slug external_id : String) (id : ℕ) (body : Body A)
      → tag.slug ≡ some slug
      → Managed tag external_id body
      → has_tag slug (record { id = id; body = body }) ≡ true
  unfolding has_tag nested_managed_tag
  has_tag-Managed tag slug external_id id body h m = rw (m.0, h, str_eq_refl slug)

  pub has_external_id-Managed :
      (tag : Tag) (external_id : String) (id : ℕ) (body : Body A)
      → Managed tag external_id body
      → has_external_id external_id (record { id = id; body = body }) ≡ true
  unfolding has_external_id read_external_id get_field
  has_external_id-Managed tag external_id id body m =
      rw (m.1, str_eq_refl external_id_field_name, str_eq_refl external_id)

  module _ (table : Table A) (page : ℕ) (tag : Tag) (slug external_id : String)
      (body : Body A) where
    pub Written-at :
        (d d' : Db) (id : ℕ)
        → tag.slug ≡ some slug
        → Written table page tag external_id body d id d'
        → (t : List (Object A)) × Upserted
            (found page slug external_id (table.get d))
            body
            (table.get d)
            t
            id
          × (d' ≡ table.put t d)
          × (table.get d' ≡ t)
    Written-at d d' id has (slug', has', t, up, e) = (
      t,
      subst (λ k. Upserted (found page k external_id (table.get d)) body (table.get d) t id)
          (some-injective slug' slug (sym has' ∙ has)) up,
      e,
      ap table.get e ∙ table.get-put t d,
    )

    -- A second write, from the database that the first one left, changes nothing.
    pub Written-twice :
        (d d' d'' : Db) (id id' : ℕ)
        → tag.slug ≡ some slug
        → Managed tag external_id body
        → HasRoom table page slug d
        → Written table page tag external_id body d id d'
        → Written table page tag external_id body d' id' d''
        → (d'' ≡ d') × (id' ≡ id)
    Written-twice d d' d'' id id' has m (u, room) w w' =
        let (t, up, e, g) = Written-at d d' id has w in
        let (t', up', e', g') = Written-at d' d'' id' has w' in
        let (same, same_id) =
          upsert_twice page slug external_id body (table.get d) t t' id id' u room
            (has_tag-Managed tag slug external_id id body has m)
            (has_external_id-Managed tag external_id id body m) up
            (subst (λ k. Upserted (found page slug external_id k) body k t' id') g up') in
        (e' ∙ ap (λ k. table.put k d') (same ∙ sym g) ∙ table.put-get d', same_id)

    -- The objects without the tag stay, and so does every other table.
    pub Written-untagged :
        (d d' : Db) (id : ℕ)
        → tag.slug ≡ some slug
        → Managed tag external_id body
        → UniqueIds (table.get d)
        → Written table page tag external_id body d id d'
        → (filter (λ o. not (has_tag slug o)) (table.get d')
            ≡ filter (λ o. not (has_tag slug o)) (table.get d))
          × (d' ≡ table.put (table.get d') d)
    Written-untagged d d' id has m u w =
        let (t, up, e, g) = Written-at d d' id has w in
        (
          ap (filter (λ o. not (has_tag slug o))) g
              ∙ upsert_untagged page slug external_id body (table.get d) t id u
                  (has_tag-Managed tag slug external_id id body has m) up,
          e ∙ ap (λ k. table.put k d) (sym g),
        )

    -- With room on the page there is one copy afterwards, if there was at most one before.
    pub Written-copies :
        (d d' : Db) (id : ℕ)
        → tag.slug ≡ some slug
        → Managed tag external_id body
        → HasRoom table page slug d
        → copies slug external_id (table.get d) ≤ 1
        → Written table page tag external_id body d id d'
        → copies slug external_id (table.get d') ≡ 1
    Written-copies d d' id has m (u, room) few w =
        let (t, up, e, g) = Written-at d d' id has w in
        ap (copies slug external_id) g
        ∙ copies-upsert page slug external_id body (table.get d) t id u room
            (has_tag-Managed tag slug external_id id body has m)
            (has_external_id-Managed tag external_id id body m) few up

    -- An object that the first page does not show gets one more copy.
    pub Written-copy :
        (d d' : Db) (id : ℕ)
        → tag.slug ≡ some slug
        → Managed tag external_id body
        → found page slug external_id (table.get d) ≡ none
        → Written table page tag external_id body d id d'
        → copies slug external_id (table.get d') ≡ suc (copies slug external_id (table.get d))
    Written-copy d d' id has m absent w =
        let (t, up, e, g) = Written-at d d' id has w in
        ap (copies slug external_id) g
        ∙ copies-create page slug external_id body (table.get d) t id
            (has_tag-Managed tag slug external_id id body has m)
            (has_external_id-Managed tag external_id id body m) absent up
