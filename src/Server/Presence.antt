-- ===== src/Server/Presence.antt =====
-- Which objects an upsert and a row of deletions leave in place.
use netbox_herald.Base.{
  ℕ, ◌≤◌, ◌≡◌, ◌≢◌, refl, sym, ap, ◌∙◌, inl, inr, arith, String, Bool, true, false, Option, none,
  some, List, [], ◌∷◌, filter, take, All, Bool-cases, Option-cases, All-map, ==_iff, str_eq, eq_iff,
}
use native.Mathlib.Decide.{ℕ_discrete}
use netbox_herald.NetBox.Model.{Object, Body}
use netbox_herald.NetBox.ExternalId.{id_is, read_external_id, has_external_id}
use netbox_herald.Server.Tables.{has_tag, has_id, UniqueIds, erase_at}
use netbox_herald.Server.Calls.{found, Upserted, erase_all}
use netbox_herald.Server.Members.{All-members, Member-take, Member-filter}
use netbox_herald.Server.Upsert.{found-Member, only_of_id, write_at_unseen, append_unseen}
use netbox_herald.Server.Unique.{
  is_managed, copies, copies-create, length-filter-write_at, length-filter-Member,
}

id_is_other : (e e' : String) (o : Option String) → e' ≢ e → id_is e o ≡ true → id_is e' o ≡ false
id_is_other e e' none ne h = refl
id_is_other e e' (some i) ne h = elim (Bool-cases (str_eq i e')) [
  | inl same ↦ absurd (ne (sym ((eq_iff i e').0 same) ∙ (eq_iff i e).0 h))
  | inr other ↦ other
]

module _ {A : Type 0} where
  has_external_id_other :
      (e e' : String) (o : Object A)
      → e' ≢ e
      → has_external_id e o ≡ true
      → has_external_id e' o ≡ false
  unfolding has_external_id
  has_external_id_other e e' o ne h = id_is_other e e' (read_external_id o.body.custom_fields) ne h

  pub is_managed_other :
      (slug e e' : String) (o : Object A)
      → e' ≢ e
      → has_tag slug o ≡ true
      → has_external_id e o ≡ true
      → is_managed slug e' o ≡ false
  is_managed_other slug e e' o ne tagged named =
      rw (tagged, has_external_id_other e e' o ne named) refl

  module _ (page : ℕ) (slug e : String) (body : Body A) (t t' : List (Object A)) (id : ℕ)
      (u : UniqueIds t) (tagged : has_tag slug (record { id = id; body = body }) ≡ true)
      (named : has_external_id e (record { id = id; body = body }) ≡ true) where
    -- The written object is there, whatever the page shows.
    pub copies-written : Upserted (found page slug e t) body t t' id → 1 ≤ copies slug e t'
    copies-written up = elim (Option-cases (found page slug e t)) [
      | inl absent ↦
          let n = copies-create page slug e body t t' id tagged named absent up in omega (arith, n)
      | inr (o, present) ↦
          let (m, has, is) = found-Member page slug e t o present in
          let seen : is_managed slug e o ≡ true = rw (has, is) refl in
          let (same, w) = rw present at up in
          let kept =
            length-filter-write_at (is_managed slug e) o.id body t
              (only_of_id (λ p. is_managed slug e p ≡ true) t o u m seen)
              (rw (← same) (rw (tagged, named) refl)) in
          let some_copy = length-filter-Member (is_managed slug e) o t m seen in
          let written = ap (copies slug e) w in omega (arith, kept, some_copy, written)
    ]

    -- The objects with another external id stay.
    pub managed_other :
        (e' : String)
        → e' ≢ e
        → Upserted (found page slug e t) body t t' id
        → filter (is_managed slug e') t' ≡ filter (is_managed slug e') t
    managed_other e' ne = elim (Option-cases (found page slug e t)) [
      | inl absent ↦ rw absent λ (fresh, w).
          rw w
            (append_unseen (is_managed slug e') t _ (is_managed_other slug e e' _ ne tagged named))
      | inr (o, present) ↦ rw present λ (same, w). rw w (
          let (m, has, is) = found-Member page slug e t o present in
          write_at_unseen (is_managed slug e') o.id body t
            (only_of_id (λ p. is_managed slug e' p ≡ false) t o u m
              (is_managed_other slug e e' o ne has is))
            (is_managed_other slug e e' _ ne (rw same at tagged) (rw same at named)))
    ]

    -- So a managed external id that was there is there afterwards.
    pub copies-kept :
        (e' : String)
        → 1 ≤ copies slug e' t
        → Upserted (found page slug e t) body t t' id
        → 1 ≤ copies slug e' t'
    copies-kept e' some_copy up = elim (Bool-cases (str_eq e' e)) [
      | inl same ↦ rw ((eq_iff e' e).0 same) (copies-written up)
      | inr other ↦
          let ne : e' ≢ e = λ same. cc (other, (eq_iff e' e).1 same) in
          rw (managed_other e' ne up) some_copy
    ]

  erase_at-All :
      (P : Object A → Type 0) (id : ℕ) (t : List (Object A)) → All P t → All P (erase_at id t)
  unfolding erase_at
  erase_at-All P id [] h = tt
  erase_at-All P id (o ∷ t) (h, hs) = elim (Bool-cases (has_id id o)) [
    | inl gone ↦ rw gone (erase_at-All P id t hs)
    | inr kept ↦ rw kept (h, erase_at-All P id t hs)
  ]

  filter-erase_at :
      (q : Object A → Bool) (id : ℕ) (t : List (Object A))
      → All (λ o. o.id ≡ id → q o ≡ false) t
      → filter q (erase_at id t) ≡ filter q t
  unfolding erase_at
  filter-erase_at q id [] h = refl
  filter-erase_at q id (o ∷ t) (h, hs) = elim (ℕ_discrete o.id id) [
    | yes same ↦ elim (Bool-cases (has_id id o)) [
      | inl gone ↦ rw (gone, h same) (filter-erase_at q id t hs)
      | inr kept ↦ rw (kept, h same) (filter-erase_at q id t hs)
    ]
    | no other ↦ elim (Bool-cases (has_id id o)) [
      | inl gone ↦ absurd (other ((==_iff o.id id).0 gone))
      | inr kept ↦ elim (Bool-cases (q o)) [
        | inl seen ↦ rw (kept, seen) (ap (λ k. o ∷ k) (filter-erase_at q id t hs))
        | inr unseen ↦ rw (kept, unseen) (filter-erase_at q id t hs)
      ]
    ]
  ]

  filter-erase_all :
      (q : Object A → Bool) (os t : List (Object A))
      → All (λ (x : Object A). All (λ (o : Object A). o.id ≡ x.id → q o ≡ false) t) os
      → filter q (erase_all os t) ≡ filter q t
  filter-erase_all q [] t h = refl
  filter-erase_all q (x ∷ os) t (h, hs) =
      filter-erase_all q os (erase_at x.id t)
        (All-map os (λ y. erase_at-All (λ o. o.id ≡ y.id → q o ≡ false) x.id t) hs)
      ∙ filter-erase_at q x.id t h

  -- The deletion of some of the objects that pass a test leaves those that pass an opposite one.
  pub filter-erase_taken :
      (p q : Object A → Bool) (n : ℕ) (t : List (Object A))
      → UniqueIds t
      → ((o : Object A) → q o ≡ true → p o ≡ false)
      → filter q (erase_all (take n (filter p t)) t) ≡ filter q t
  filter-erase_taken p q n t u h = filter-erase_all q (take n (filter p t)) t (
      All-members (take n (filter p t)) λ x m.
        let (member, passes) = Member-filter p x t (Member-take n x (filter p t) m) in
        let unseen : q x ≡ false = elim (Bool-cases (q x)) [
          | inl seen ↦ cc (passes, h x seen)
          | inr unseen ↦ unseen
        ] in
        only_of_id (λ o. q o ≡ false) t x u member unseen)
