-- ===== src/Sync/Settles.antt =====
-- A write or a deletion of one kind, as the one entry that it sets.
use mathlib.Core.Path.{subst}
use netbox_herald.Base.{
  ℕ, ◌≤◌, ◌≡◌, refl, sym, ap, ◌∙◌, arith, String, not, Option, none, some, length, filter,
}
use netbox_herald.NetBox.Model.{Tag, Body}
use netbox_herald.Server.Tables.{Db, Table, has_tag}
use netbox_herald.Server.Unique.{is_managed}
use netbox_herald.Server.Registry.{registered, registry}
use netbox_herald.Sync.Ensure.{Written}
use netbox_herald.Sync.Laws.{Managed}
use netbox_herald.Sync.Owners.{Others, Others-put, Others-start}
use netbox_herald.Sync.Removals.{IsClear}
use netbox_herald.Sync.Registers.{HasSpace, Written-Registers, Removed-Registers}

-- nothing but the tags has changed
abbrev pub TagsOnly : Db → Db → Type 0
TagsOnly d d' = d' ≡ record d { tags = d'.tags }

pub At-TagsOnly : (d d' : Db) → d' ≡ d → TagsOnly d d'
At-TagsOnly d d' h = subst (TagsOnly d) (sym h) refl

module _ {A : Type 0} (table : Table A) (page : ℕ) (slug uid : String) (d : Db) where
  -- Of the managed objects of the kind, just the entry of the external id is another; all that is
  -- not managed is as it was, and so is every other table but the tags.
  abbrev pub Settled : Option (Body A) → Db → Type 0
  Settled o d' =
      (registry slug (table.get d') ≡ registered uid o (registry slug (table.get d)))
      × Others table slug d d'

  module _ (fits : HasSpace page slug 1 (table.get d)) where
    pub HasSpace-IsClear : IsClear table page slug uid d
    HasSpace-IsClear =
        let ((u, few), room) = fits in
        let page_room : length (filter (has_tag slug) (table.get d)) ≤ page = omega (arith, room) in
        (u, page_room, few uid)

    pub removed-Settled :
        (d' : Db)
        → d' ≡ table.put (filter (λ o. not (is_managed slug uid o)) (table.get d)) d
        → Settled none d'
    removed-Settled d' e =
        let (_, set, frame, same) = Removed-Registers table page slug uid 0 d d' fits e in
        (
          set,
          Others-put table slug d d d' (table.get d') (Others-start table slug d d refl) frame same,
        )

    -- an upsert after the tag was made sure of
    pub Written-Settled :
        (tag : Tag) (body : Body A) (id : ℕ) (d1 d' : Db)
        → tag.slug ≡ some slug
        → Managed tag uid body
        → TagsOnly d d1
        → Written table page tag uid body d1 id d'
        → Settled (some body) d'
    Written-Settled tag body id d1 d' has m e w =
        let same : table.get d1 ≡ table.get d = ap table.get e ∙ table.get-tags d1.tags d in
        let (_, set, frame, kept) =
          Written-Registers table page slug uid 0 d1 d'
            (subst (HasSpace page slug 1) (sym same) fits) tag body id has m w in
        (
          set ∙ ap (λ t. registered uid (some body) (registry slug t)) same,
          Others-put table slug d d1 d' (table.get d') (Others-start table slug d d1 e) frame kept,
        )
