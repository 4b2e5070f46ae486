-- ===== src/Server/Registry.antt =====
-- The managed objects of a table as a map from external ids, which forgets their order, their ids
-- and all that is not managed: an upsert sets the map at one external id, a deletion clears it.
use netbox_herald.Base.{
  ℕ, ◌<◌, ◌≤◌, ◌≡◌, ◌≢◌, refl, sym, ap, ◌∙◌, inl, inr, arith, String, Bool, true, false, not, ◌&&◌,
  Option, none, some, List, [], ◌∷◌, ◌++◌, length, take_all, filter, find?, All, Bool-cases,
  Option-cases, str_eq, eq_iff, if◌then◌else◌,
}
use mathlib.Core.Path.{fun_ext, subst}
use native.Mathlib.Decide.{ℕ_discrete}
use netbox_herald.NetBox.Model.{Object, Body}
use netbox_herald.NetBox.ExternalId.{has_external_id}
use netbox_herald.Server.Tables.{has_tag, IsFresh, UniqueIds, write_at}
use netbox_herald.Server.Calls.{found, Upserted}
use netbox_herald.Server.Members.{replace_body_self, replace_body_ne}
use netbox_herald.Server.Upsert.{found-Member, only_of_id, upsert-UniqueIds}
use netbox_herald.Server.Unique.{is_managed, copies}
use netbox_herald.Server.Erase.{filter-filter, filter-kept, filter-gone}
use netbox_herald.Server.Presence.{managed_other, is_managed_other}

unfoldable pub first_of : {A : Type 0} → List A → Option A
first_of [] = none
first_of (x ∷ xs) = some x

pub find?-first_of : {A : Type 0} (p : A → Bool) (t : List A) → find? p t ≡ first_of (filter p t)
unfolding first_of
find?-first_of p [] = refl
find?-first_of p (o ∷ t) = elim (Bool-cases (p o)) [
  | inl hit ↦ rw hit refl
  | inr miss ↦ rw miss (find?-first_of p t)
]

both_true : (a b : Bool) → a && b ≡ true → (a ≡ true) × (b ≡ true)
both_true true b h = (refl, h)
both_true false b h = cc h

-- The abstract state of one kind: what is registered under each external id.
abbrev pub Registry : Type 0 → Type 0
Registry A = String → Option (Body A)

-- `r` with `o` at one external id
abbrev pub registered : {A : Type 0} → String → Option (Body A) → Registry A → Registry A
registered e o r e' = if str_eq e e' then o else r e'

module _ {A : Type 0} where
  abbrev body_of : Option (Object A) → Option (Body A)
  body_of none = none
  body_of (some o) = some o.body

  -- the map that a table holds for the managed tag
  unfoldable pub registry : String → List (Object A) → Registry A
  registry slug t e = body_of (first_of (filter (is_managed slug e) t))

  -- Ids are unique, and each external id is managed at most once.
  abbrev pub IsRegistry : String → List (Object A) → Type 0
  IsRegistry slug t = UniqueIds t × ((e : String) → copies slug e t ≤ 1)

  sole : (xs : List (Object A)) (o : Object A) → length xs ≤ 1 → first_of xs ≡ some o → xs ≡ o ∷ []
  unfolding first_of
  sole [] o h e = cc e
  sole (x ∷ []) o h e = cc e
  sole (x ∷ y ∷ xs) o h e = absurd (omega arith)

  nothing : (xs : List (Object A)) → first_of xs ≡ none → xs ≡ []
  unfolding first_of
  nothing [] e = refl
  nothing (x ∷ xs) e = cc e

  filter-snoc :
      (p : Object A → Bool) (t : List (Object A)) (o : Object A)
      → p o ≡ true
      → filter p (t ++ o ∷ []) ≡ filter p t ++ o ∷ []
  filter-snoc p [] o q = rw q refl
  filter-snoc p (x ∷ t) o q = elim (Bool-cases (p x)) [
    | inl seen ↦ rw seen (ap (λ k. x ∷ k) (filter-snoc p t o q))
    | inr unseen ↦ rw unseen (filter-snoc p t o q)
  ]

  filter-write_at :
      (p : Object A → Bool) (id : ℕ) (body : Body A) (t : List (Object A))
      → All (λ o. o.id ≡ id → p o ≡ true) t
      → p (record { id = id; body = body }) ≡ true
      → filter p (write_at id body t) ≡ write_at id body (filter p t)
  unfolding write_at
  filter-write_at p id body [] h q = refl
  filter-write_at p id body (o ∷ t) (h, hs) q = elim (ℕ_discrete o.id id) [
    | yes same ↦
        let step : filter p (record { id = id; body = body } ∷ write_at id body t)
            ≡ record { id = id; body = body } ∷ write_at id body (filter p t) =
          rw q (ap (λ k. record { id = id; body = body } ∷ k) (filter-write_at p id body t hs q)) in
        rw (h same, replace_body_self id body o same) step
    | no other ↦ elim (Bool-cases (p o)) [
      | inl seen ↦
          rw (replace_body_ne id body o other, seen, replace_body_ne id body o other)
            (ap (λ k. o ∷ k) (filter-write_at p id body t hs q))
      | inr unseen ↦ rw (replace_body_ne id body o other, unseen) (filter-write_at p id body t hs q)
    ]
  ]

  write_at_sole :
      (o : Object A) (body : Body A)
      → write_at o.id body (o ∷ []) ≡ record { id = o.id; body = body } ∷ []
  unfolding write_at
  write_at_sole o body = ap (λ k. k ∷ []) (replace_body_self o.id body o refl)

  module _ (page : ℕ) (slug e : String) (body : Body A) (t t' : List (Object A)) (id : ℕ)
      (u : IsRegistry slug t) (room : length (filter (has_tag slug) t) < page)
      (tagged : has_tag slug (record { id = id; body = body }) ≡ true)
      (named : has_external_id e (record { id = id; body = body }) ≡ true)
      (up : Upserted (found page slug e t) body t t' id) where
    found_first : found page slug e t ≡ first_of (filter (is_managed slug e) t)
    found_first =
        ap (find? (has_external_id e))
          (take_all page (filter (has_tag slug) t) (omega (arith, room)))
        ∙ find?-first_of (has_external_id e) (filter (has_tag slug) t)
        ∙ ap first_of (filter-filter (has_tag slug) (has_external_id e) t)

    seen : is_managed slug e (record { id = id; body = body }) ≡ true
    seen = rw (tagged, named) refl

    -- The written object is the only one of its external id.
    managed-upsert : filter (is_managed slug e) t' ≡ record { id = id; body = body } ∷ []
    managed-upsert = elim (Option-cases (found page slug e t)) [
      | inl absent ↦
          let (fresh, w) = rw absent at up in
          ap (filter (is_managed slug e)) w
          ∙ filter-snoc (is_managed slug e) t _ seen
          ∙ ap (λ k. k ++ record { id = id; body = body } ∷ [])
              (nothing (filter (is_managed slug e) t) (sym found_first ∙ absent))
      | inr (o, present) ↦
          let (same, w) = rw present at up in
          let (m, has, is) = found-Member page slug e t o present in
          let held : is_managed slug e o ≡ true = rw (has, is) refl in
          ap (filter (is_managed slug e)) w
          ∙ filter-write_at (is_managed slug e) o.id body t
              (only_of_id (λ p. is_managed slug e p ≡ true) t o u.0 m held) (rw (← same) seen)
          ∙ ap (write_at o.id body)
              (sole (filter (is_managed slug e) t) o (u.1 e) (sym found_first ∙ present))
          ∙ write_at_sole o body
          ∙ ap (λ k. record { id = k; body = body } ∷ []) (sym same)
    ]

    -- An upsert registers the body under its external id, and leaves the rest of the map.
    pub registry-upsert : registry slug t' ≡ registered e (some body) (registry slug t)
    unfolding registry first_of
    registry-upsert = fun_ext λ e'. elim (Bool-cases (str_eq e e')) [
      | inl same ↦ rw same (
          ap (λ k. body_of (first_of (filter (is_managed slug k) t'))) (sym ((eq_iff e e').0 same))
          ∙ ap (λ k. body_of (first_of k)) managed-upsert)
      | inr other ↦ rw other (
          ap (λ k. body_of (first_of k))
            (managed_other page slug e body t t' id u.0 tagged named e'
              (λ i. cc (other, (eq_iff e e').1 (sym i))) up))
    ]

    pub upsert-IsRegistry : IsRegistry slug t'
    upsert-IsRegistry = (
      upsert-UniqueIds _ body t t' id u.0 up,
      λ e'. elim (Bool-cases (str_eq e e')) [
        | inl same ↦
            let n = ap length managed-upsert in
            let m : copies slug e t' ≤ 1 = omega (arith, n) in rw ((eq_iff e e').0 same) at m
        | inr other ↦
            let n = ap length (
              managed_other page slug e body t t' id u.0 tagged named e'
                (λ i. cc (other, (eq_iff e e').1 (sym i))) up) in
            let few : copies slug e' t ≤ 1 = u.1 e' in omega (arith, n, few)
      ],
    )

  filter-IsFresh :
      (p : Object A → Bool) (id : ℕ) (t : List (Object A)) → IsFresh id t → IsFresh id (filter p t)
  filter-IsFresh p id [] h = tt
  filter-IsFresh p id (o ∷ t) (h, hs) = elim (Bool-cases (p o)) [
    | inl kept ↦ rw kept (h, filter-IsFresh p id t hs)
    | inr gone ↦ rw gone (filter-IsFresh p id t hs)
  ]

  pub filter-UniqueIds :
      (p : Object A → Bool) (t : List (Object A)) → UniqueIds t → UniqueIds (filter p t)
  filter-UniqueIds p [] u = tt
  filter-UniqueIds p (o ∷ t) (fresh, u) = elim (Bool-cases (p o)) [
    | inl kept ↦ rw kept (filter-IsFresh p o.id t fresh, filter-UniqueIds p t u)
    | inr gone ↦ rw gone (filter-UniqueIds p t u)
  ]

  module _ (slug e : String) (t : List (Object A)) where
    -- the table without the managed objects of the external id
    abbrev pub without : List (Object A)
    without = filter (λ o. not (is_managed slug e o)) t

    managed_elsewhere :
        (e' : String) → e' ≢ e → filter (is_managed slug e') without ≡ filter (is_managed slug e') t
    managed_elsewhere e' ne = filter-kept (is_managed slug e) (is_managed slug e') t λ o held.
        elim (Bool-cases (is_managed slug e o)) [
          | inl both ↦
              let (has, is) = both_true (has_tag slug o) (has_external_id e o) both in
              cc (held, is_managed_other slug e e' o ne has is)
          | inr apart ↦ apart
        ]

    -- A deletion clears the map at its external id, and leaves the rest of it.
    pub registry-without : registry slug without ≡ registered e none (registry slug t)
    unfolding registry first_of
    registry-without = fun_ext λ e'. elim (Bool-cases (str_eq e e')) [
      | inl same ↦ rw same (
          ap (λ k. body_of (first_of (filter (is_managed slug k) (without))))
            (sym ((eq_iff e e').0 same))
          ∙ ap (λ k. body_of (first_of k)) (filter-gone (is_managed slug e) t))
      | inr other ↦ rw other (
          ap (λ k. body_of (first_of k))
            (managed_elsewhere e' (λ i. cc (other, (eq_iff e e').1 (sym i)))))
    ]

    pub without-IsRegistry : IsRegistry slug t → IsRegistry slug without
    without-IsRegistry (u, few) = (
      filter-UniqueIds _ t u,
      λ e'. elim (Bool-cases (str_eq e e')) [
        | inl same ↦
            let n = ap length (filter-gone (is_managed slug e) t) in
            let m : copies slug e without ≤ 1 = omega (arith, n) in
            subst (λ k. copies slug k without ≤ 1) ((eq_iff e e').0 same) m
        | inr other ↦
            let n = ap length (managed_elsewhere e' (λ i. cc (other, (eq_iff e e').1 (sym i)))) in
            let once : copies slug e' t ≤ 1 = few e' in omega (arith, n, once)
      ],
    )

  -- A filter before another leaves no more.
  pub length-filter_le :
      (p q : Object A → Bool) (t : List (Object A))
      → length (filter q (filter p t)) ≤ length (filter q t)
  length-filter_le p q [] = omega arith
  length-filter_le p q (o ∷ t) = ground (arith, length-filter_le p q t)
