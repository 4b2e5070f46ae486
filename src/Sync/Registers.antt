-- ===== src/Sync/Registers.antt =====
-- One write and one deletion of a table, as what they do to the map that the table holds.
use mathlib.Core.Path.{subst}
use netbox_herald.Base.{
  ℕ, suc, ◌+◌, ◌<◌, ◌≤◌, ◌≡◌, refl, sym, ap, ◌∙◌, arith, String, Bool, true, false, not, ◌&&◌,
  Option, none, some, List, length, filter, inl, inr, Bool-cases,
}
use netbox_herald.NetBox.Model.{Tag, Body, Object}
use netbox_herald.NetBox.ExternalId.{has_external_id}
use netbox_herald.Server.Tables.{Db, Table, has_tag}
use netbox_herald.Server.Unique.{is_managed, length-filter-upsert}
use netbox_herald.Server.Erase.{filter-kept}
use netbox_herald.Server.Registry.{
  IsRegistry, registered, registry, registry-upsert, upsert-IsRegistry, without, registry-without,
  without-IsRegistry, length-filter_le,
}
use netbox_herald.Sync.Ensure.{Written}
use netbox_herald.Sync.Laws.{
  Managed, Written-at, Written-untagged, has_tag-Managed, has_external_id-Managed,
}

-- A table that is a registry, with room on a page for `n` more managed objects.
abbrev pub HasSpace : {A : Type 0} → ℕ → String → ℕ → List (Object A) → Type 0
HasSpace page slug n t = IsRegistry slug t × (length (filter (has_tag slug) t) + n ≤ page)

pub HasSpace-less :
    {A : Type 0} (page : ℕ) (slug : String) (n m : ℕ) (t : List (Object A))
    → m ≤ n
    → HasSpace page slug n t
    → HasSpace page slug m t
HasSpace-less page slug n m t le (r, room) = (r, omega (arith, room, le))

pub untagged_fails :
    {A : Type 0} (slug : String) (o : Object A) (b : Bool)
    → not (has_tag slug o) ≡ true
    → has_tag slug o && b ≡ false
untagged_fails slug o b h = elim (Bool-cases (has_tag slug o)) [
  | inl tagged ↦ cc (rw tagged at h)
  | inr untagged ↦ rw untagged refl
]

module _ {A : Type 0} (table : Table A) (page : ℕ) (slug e : String) (n : ℕ) (d d' : Db)
    (fits : HasSpace page slug (suc n) (table.get d)) where
  -- the map with one external id set, and all that is not managed as it was
  abbrev pub Registers : Option (Body A) → Type 0
  Registers o =
      HasSpace page slug n (table.get d')
      × (registry slug (table.get d') ≡ registered e o (registry slug (table.get d)))
      × (d' ≡ table.put (table.get d') d)
      × (filter (λ o. not (has_tag slug o)) (table.get d')
          ≡ filter (λ o. not (has_tag slug o)) (table.get d))

  pub Written-Registers :
      (tag : Tag) (body : Body A) (id : ℕ)
      → tag.slug ≡ some slug
      → Managed tag e body
      → Written table page tag e body d id d'
      → Registers (some body)
  Written-Registers tag body id has m w =
      let (t, up, w', g) = Written-at table page tag slug e body d d' id has w in
      let (r, room) = fits in
      let tagged = has_tag-Managed tag slug e id body has m in
      let named = has_external_id-Managed tag e id body m in
      let free : length (filter (has_tag slug) (table.get d)) < page = omega (arith, room) in
      let grown = length-filter-upsert page slug e body (table.get d) t id r.0 tagged up in
      let (same, frame) = Written-untagged table page tag slug e body d d' id has m r.0 w in
      (
        subst (HasSpace page slug n) (sym g) (
          upsert-IsRegistry page slug e body (table.get d) t id r free tagged named up,
          omega (arith, grown, room),
        ),
        ap (registry slug) g
            ∙ registry-upsert page slug e body (table.get d) t id r free tagged named up,
        frame,
        same,
      )

  pub Removed-Registers :
      d' ≡ table.put (filter (λ o. not (is_managed slug e o)) (table.get d)) d → Registers none
  Removed-Registers w =
      let (r, room) = fits in
      let fewer = length-filter_le (λ o. not (is_managed slug e o)) (has_tag slug) (table.get d) in
      let g : table.get d' ≡ without slug e (table.get d) = ap table.get w ∙ table.get-put _ d in
      (
        subst (HasSpace page slug n) (sym g)
            (without-IsRegistry slug e (table.get d) r, omega (arith, fewer, room)),
        ap (registry slug) g ∙ registry-without slug e (table.get d),
        w ∙ ap (λ t. table.put t d) (sym g),
        ap (filter (λ o. not (has_tag slug o))) g
            ∙ filter-kept (is_managed slug e) (λ o. not (has_tag slug o)) (table.get d)
                (λ o. untagged_fails slug o (has_external_id e o)),
      )
