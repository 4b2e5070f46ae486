-- ===== src/Server/Upsert.antt =====
-- One upsert of a table: what it changes, and what a second one finds.
use netbox_herald.Base.{
  ℕ, zero, suc, ◌<◌, ◌≡◌, refl, sym, ap, ◌∙◌, inl, inr, arith, String, Bool, true, false, not,
  Option, none, some, List, [], ◌∷◌, ◌++◌, length, take, filter, find?, All, Bool-cases,
  Option-cases,
}
use mathlib.Core.Option.{some-injective}
use native.Mathlib.Decide.{ℕ_discrete}
use netbox_herald.NetBox.Model.{Object, Body}
use netbox_herald.NetBox.ExternalId.{has_external_id}
use netbox_herald.Server.Tables.{has_tag, UniqueIds, write_at}
use netbox_herald.Server.Calls.{first_page, found, Upserted}
use netbox_herald.Server.Members.{
  Member, Member-filter, Member-take, Member-find?, Member-UniqueIds, All-members,
  replace_body_self, replace_body_ne, write_at-UniqueIds, append-UniqueIds,
}

module _ {A : Type 0} where
  -- What is found is in the table, with the tag and the external id.
  pub found-Member :
      (page : ℕ) (slug external_id : String) (t : List (Object A)) (o : Object A)
      → found page slug external_id t ≡ some o
      → Member o t × (has_tag slug o ≡ true) × (has_external_id external_id o ≡ true)
  found-Member page slug external_id t o e =
      let (m, q) = Member-find? (has_external_id external_id) o (first_page page slug t) e in
      let (n, p) =
        Member-filter (has_tag slug) o t (Member-take page o (filter (has_tag slug) t) m) in
      (n, p, q)

  -- an object that a test passes before and after is not seen to change by the opposite test
  pub write_at_unseen :
      (p : Object A → Bool) (id : ℕ) (body : Body A) (t : List (Object A))
      → All (λ o. o.id ≡ id → p o ≡ false) t
      → p (record { id = id; body = body }) ≡ false
      → filter p (write_at id body t) ≡ filter p t
  unfolding write_at
  write_at_unseen p id body [] h q = refl
  write_at_unseen p id body (o ∷ t) (h, hs) q = elim (ℕ_discrete o.id id) [
    | yes same ↦ rw (replace_body_self id body o same, q, h same) (write_at_unseen p id body t hs q)
    | no other ↦ rw (replace_body_ne id body o other, write_at_unseen p id body t hs q)
  ]

  pub append_unseen :
      (p : Object A → Bool) (t : List (Object A)) (o : Object A)
      → p o ≡ false
      → filter p (t ++ o ∷ []) ≡ filter p t
  append_unseen p [] o q = rw q
  append_unseen p (x ∷ t) o q = rw (append_unseen p t o q)

  -- What holds of one object of a table with unique ids holds of all with its id.
  pub only_of_id :
      (P : Object A → Type 0) (t : List (Object A)) (o : Object A)
      → UniqueIds t
      → Member o t
      → P o
      → All (λ p. p.id ≡ o.id → P p) t
  only_of_id P t o u m h = All-members t λ p n e. rw (Member-UniqueIds t p o u n m e) h

  -- A write of a tagged body changes no object without the tag, and their order stays.
  pub upsert_untagged :
      (page : ℕ) (slug external_id : String) (body : Body A) (t t' : List (Object A)) (id : ℕ)
      → UniqueIds t
      → has_tag slug (record { id = id; body = body }) ≡ true
      → Upserted (found page slug external_id t) body t t' id
      → filter (λ o. not (has_tag slug o)) t' ≡ filter (λ o. not (has_tag slug o)) t
  upsert_untagged page slug external_id body t t' id u tagged =
      elim (Option-cases (found page slug external_id t)) [
        | inl none_found ↦
            rw none_found
              λ (fresh, e). rw e (append_unseen (λ o. not (has_tag slug o)) t _ (rw tagged))
        | inr (o, one_found) ↦ rw one_found λ (same, e). rw e (
            let (m, has, _) = found-Member page slug external_id t o one_found in
            write_at_unseen (λ o. not (has_tag slug o)) o.id body t
              (only_of_id (λ p. not (has_tag slug p) ≡ false) t o u m (rw has))
              (ap (λ k. not (has_tag slug (record { id = k; body = body }))) (sym same)
                ∙ ap not tagged))
      ]

  -- A write at the place that a search found is found there, whatever the page.
  find?-write_at :
      (p q : Object A → Bool) (n : ℕ) (body : Body A) (t : List (Object A)) (o : Object A)
      → UniqueIds t
      → find? p (take n (filter q t)) ≡ some o
      → p (record { id = o.id; body = body }) ≡ true
      → q (record { id = o.id; body = body }) ≡ true
      → find? p (take n (filter q (write_at o.id body t)))
        ≡ some (record { id = o.id; body = body })
  unfolding write_at
  find?-write_at p q zero body t o u e pn qn = cc e
  find?-write_at p q (suc n) body [] o u e pn qn = cc e
  find?-write_at p q (suc n) body (x ∷ t) o (fresh, u) e pn qn = elim (ℕ_discrete x.id o.id) [
    | yes same ↦ rw (replace_body_self o.id body x same, qn, pn)
    | no other ↦ rw (replace_body_ne o.id body x other) (elim (Bool-cases (q x)) [
      | inl listed ↦ elim (Bool-cases (p x)) [
        | inl hit ↦ absurd (other (ap (λ y. y.id) (some-injective x o (rw (listed, hit) at e))))
        | inr miss ↦
            rw (listed, miss) (find?-write_at p q n body t o u (rw (listed, miss) at e) pn qn)
      ]
      | inr skipped ↦ rw skipped (find?-write_at p q (suc n) body t o u (rw skipped at e) pn qn)
    ])
  ]

  -- An object that is added to a table with room on the page is found, if nothing was.
  find?-append :
      (p q : Object A → Bool) (n : ℕ) (t : List (Object A)) (o : Object A)
      → find? p (take n (filter q t)) ≡ none
      → length (filter q t) < n
      → p o ≡ true
      → q o ≡ true
      → find? p (take n (filter q (t ++ o ∷ []))) ≡ some o
  find?-append p q zero t o e h po qo = absurd (omega arith)
  find?-append p q (suc n) [] o e h po qo = rw (qo, po)
  find?-append p q (suc n) (x ∷ t) o e h po qo = elim (Bool-cases (q x)) [
    | inl listed ↦ elim (Bool-cases (p x)) [
      | inl hit ↦ cc (rw (listed, hit) at e)
      | inr miss ↦
          rw (listed, miss)
            (find?-append p q n t o (rw (listed, miss) at e)
              (let k : suc (length (filter q t)) < suc n = rw listed at h in omega arith) po qo)
    ]
    | inr skipped ↦
        rw skipped (find?-append p q (suc n) t o (rw skipped at e) (rw skipped at h) po qo)
  ]

  write_at_same :
      (t : List (Object A)) (o : Object A)
      → All (λ p. p.id ≡ o.id → p ≡ o) t
      → write_at o.id o.body t ≡ t
  unfolding write_at
  write_at_same [] o h = refl
  write_at_same (x ∷ t) o (h, hs) = elim (ℕ_discrete x.id o.id) [
    | yes same ↦
        rw (replace_body_self o.id o.body x same, write_at_same t o hs)
          (ap (λ y. y ∷ t) (sym (h same)))
    | no other ↦ rw (replace_body_ne o.id o.body x other, write_at_same t o hs)
  ]

  -- After an upsert the page shows the written object under its external id, provided that the
  -- page had room for one more managed object.
  pub found-upsert :
      (page : ℕ) (slug external_id : String) (body : Body A) (t t' : List (Object A)) (id : ℕ)
      → UniqueIds t
      → length (filter (has_tag slug) t) < page
      → has_tag slug (record { id = id; body = body }) ≡ true
      → has_external_id external_id (record { id = id; body = body }) ≡ true
      → Upserted (found page slug external_id t) body t t' id
      → found page slug external_id t' ≡ some (record { id = id; body = body })
  found-upsert page slug external_id body t t' id u room tagged named =
      elim (Option-cases (found page slug external_id t)) [
        | inl absent ↦ rw absent λ (fresh, e). rw e (
            find?-append (has_external_id external_id) (has_tag slug) page t _ absent room named
              tagged)
        | inr (o, present) ↦ rw present λ (same, e).
            rw (e, same)
              (find?-write_at (has_external_id external_id) (has_tag slug) page body t o u present
                (rw same at named) (rw same at tagged))
      ]

  pub upsert-UniqueIds :
      (existing : Option (Object A)) (body : Body A) (t t' : List (Object A)) (id : ℕ)
      → UniqueIds t
      → Upserted existing body t t' id
      → UniqueIds t'
  upsert-UniqueIds none body t t' id u (fresh, e) = rw e (append-UniqueIds t _ u fresh)
  upsert-UniqueIds (some o) body t t' id u (same, e) = rw e (write_at-UniqueIds o.id body t u)

  -- A second upsert of the same body, after the first, changes nothing and returns the same id.
  pub upsert_twice :
      (page : ℕ) (slug external_id : String) (body : Body A) (t t' t'' : List (Object A))
      (id id' : ℕ)
      → UniqueIds t
      → length (filter (has_tag slug) t) < page
      → has_tag slug (record { id = id; body = body }) ≡ true
      → has_external_id external_id (record { id = id; body = body }) ≡ true
      → Upserted (found page slug external_id t) body t t' id
      → Upserted (found page slug external_id t') body t' t'' id'
      → (t'' ≡ t') × (id' ≡ id)
  upsert_twice page slug external_id body t t' t'' id id' u room tagged named first =
      let o : Object A = record { id = id; body = body } in
      let shown : found page slug external_id t' ≡ some o =
        found-upsert page slug external_id body t t' id u room tagged named first in
      rw shown λ (same, e). (
        e
            ∙ write_at_same t' o (
                only_of_id (λ p. p ≡ o) t' o (upsert-UniqueIds _ body t t' id u first)
                  (found-Member page slug external_id t' o shown).0 refl),
        same,
      )
