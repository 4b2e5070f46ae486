-- ===== src/Server/Unique.antt =====
-- How many managed objects have one external id, before and after an upsert.
use netbox_herald.Base.{
  ℕ, suc, ◌≤◌, ◌<◌, ◌≡◌, refl, sym, ap, ◌∙◌, inl, inr, arith, String, Bool, true, ◌&&◌, none, List,
  [], ◌∷◌, ◌++◌, length, take_all, filter, find?, All, Bool-cases, Option-cases,
}
use native.Mathlib.Decide.{ℕ_discrete}
use netbox_herald.NetBox.Model.{Object, Body}
use netbox_herald.NetBox.ExternalId.{has_external_id}
use netbox_herald.Server.Tables.{has_tag, UniqueIds, write_at}
use netbox_herald.Server.Calls.{found, Upserted}
use netbox_herald.Server.Members.{Member, replace_body_self, replace_body_ne}
use netbox_herald.Server.Upsert.{found-Member, only_of_id}

module _ {A : Type 0} where
  abbrev pub is_managed : String → String → Object A → Bool
  is_managed slug external_id o = has_tag slug o && has_external_id external_id o

  -- the number of managed objects with the external id
  abbrev pub copies : String → String → List (Object A) → ℕ
  copies slug external_id t = length (filter (is_managed slug external_id) t)

  pub length-filter-write_at :
      (p : Object A → Bool) (id : ℕ) (body : Body A) (t : List (Object A))
      → All (λ o. o.id ≡ id → p o ≡ true) t
      → p (record { id = id; body = body }) ≡ true
      → length (filter p (write_at id body t)) ≡ length (filter p t)
  unfolding write_at
  length-filter-write_at p id body [] h q = refl
  length-filter-write_at p id body (o ∷ t) (h, hs) q = elim (ℕ_discrete o.id id) [
    | yes same ↦
        rw (replace_body_self id body o same, q, h same)
          (ap suc (length-filter-write_at p id body t hs q))
    | no other ↦ rw (replace_body_ne id body o other) (elim (Bool-cases (p o)) [
      | inl seen ↦ rw seen (ap suc (length-filter-write_at p id body t hs q))
      | inr unseen ↦ rw unseen (length-filter-write_at p id body t hs q)
    ])
  ]

  pub length-filter-append :
      (p : Object A → Bool) (t : List (Object A)) (o : Object A)
      → p o ≡ true
      → length (filter p (t ++ o ∷ [])) ≡ suc (length (filter p t))
  length-filter-append p [] o q = rw q
  length-filter-append p (x ∷ t) o q = elim (Bool-cases (p x)) [
    | inl seen ↦ rw seen (ap suc (length-filter-append p t o q))
    | inr unseen ↦ rw unseen (length-filter-append p t o q)
  ]

  none-filter :
      (p q : Object A → Bool) (t : List (Object A))
      → find? p (filter q t) ≡ none
      → length (filter (λ o. q o && p o) t) ≡ 0
  none-filter p q [] e = refl
  none-filter p q (x ∷ t) e = ground (arith, none-filter p q t)

  pub length-filter-Member :
      (p : Object A → Bool) (o : Object A) (t : List (Object A))
      → Member o t
      → p o ≡ true
      → 1 ≤ length (filter p t)
  length-filter-Member p o [] m q = absurd m
  length-filter-Member p o (x ∷ t) (inl e) q = rw (e, q) (omega arith)
  length-filter-Member p o (x ∷ t) (inr m) q = ground (arith, length-filter-Member p o t m q)

  -- A write that finds nothing on the page adds a copy.
  pub copies-create :
      (page : ℕ) (slug external_id : String) (body : Body A) (t t' : List (Object A)) (id : ℕ)
      → has_tag slug (record { id = id; body = body }) ≡ true
      → has_external_id external_id (record { id = id; body = body }) ≡ true
      → found page slug external_id t ≡ none
      → Upserted (found page slug external_id t) body t t' id
      → copies slug external_id t' ≡ suc (copies slug external_id t)
  copies-create page slug external_id body t t' id tagged named absent = rw absent λ (fresh, e).
      rw e (length-filter-append (is_managed slug external_id) t _ (rw (tagged, named)))

  -- With room on the page, an upsert makes of at most one copy exactly one.
  pub copies-upsert :
      (page : ℕ) (slug external_id : String) (body : Body A) (t t' : List (Object A)) (id : ℕ)
      → UniqueIds t
      → length (filter (has_tag slug) t) < page
      → has_tag slug (record { id = id; body = body }) ≡ true
      → has_external_id external_id (record { id = id; body = body }) ≡ true
      → copies slug external_id t ≤ 1
      → Upserted (found page slug external_id t) body t t' id
      → copies slug external_id t' ≡ 1
  copies-upsert page slug external_id body t t' id u room tagged named few up =
      elim (Option-cases (found page slug external_id t)) [
        | inl absent ↦
            copies-create page slug external_id body t t' id tagged named absent up
            ∙ ap suc (
                none-filter (has_external_id external_id) (has_tag slug) t (
                  ap (find? (has_external_id external_id)) (sym (take_all page _ (omega arith)))
                  ∙ absent))
        | inr (o, present) ↦
            let (m, has, is) = found-Member page slug external_id t o present in
            let seen : is_managed slug external_id o ≡ true = rw (has, is) in
            let (same, e) = rw present at up in
            let kept =
              length-filter-write_at (is_managed slug external_id) o.id body t
                (only_of_id (λ p. is_managed slug external_id p ≡ true) t o u m seen)
                (rw (← same) (rw (tagged, named))) in
            let some_copy = length-filter-Member (is_managed slug external_id) o t m seen in
            ap (copies slug external_id) e ∙ kept ∙ omega (arith, few, some_copy)
      ]

-- One upsert adds at most one tagged object.
pub length-filter-upsert :
    {A : Type 0} (page : ℕ) (slug external_id : String) (body : Body A) (t t' : List (Object A))
    (id : ℕ)
    → UniqueIds t
    → has_tag slug (record { id = id; body = body }) ≡ true
    → Upserted (found page slug external_id t) body t t' id
    → length (filter (has_tag slug) t') ≤ suc (length (filter (has_tag slug) t))
length-filter-upsert page slug external_id body t t' id u tagged =
    elim (Option-cases (found page slug external_id t)) [
      | inl absent ↦ rw absent λ (fresh, e). rw e (
          let n = length-filter-append (has_tag slug) t (record { id = id; body = body }) tagged in
          omega (arith, n))
      | inr (o, present) ↦ rw present λ (same, e). rw e (
          let (m, has, _) = found-Member page slug external_id t o present in
          let n =
            length-filter-write_at (has_tag slug) o.id body t
              (only_of_id (λ p. has_tag slug p ≡ true) t o u m has) (rw same at tagged) in
          omega (arith, n))
    ]
