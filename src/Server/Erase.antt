-- ===== src/Server/Erase.antt =====
-- Deletions one after the other, as one filter of the table.
use netbox_herald.Base.{
  ℕ, ◌≤◌, ◌≡◌, ◌≢◌, refl, sym, ap, ◌∙◌, inl, inr, String, Bool, true, false, not, ◌&&◌, List, [],
  ◌∷◌, length, filter, take_all, All, Bool-cases, ==_iff,
}
use netbox_herald.NetBox.Model.{Object}
use netbox_herald.NetBox.ExternalId.{has_id_prefix}
use netbox_herald.Server.Tables.{has_tag, has_id, IsFresh, UniqueIds, erase_at}
use netbox_herald.Server.Calls.{owned, erase_all}

pub filter-filter :
    {A : Type 0} (p q : A → Bool) (xs : List A)
    → filter q (filter p xs) ≡ filter (λ x. p x && q x) xs
filter-filter p q [] = refl
filter-filter p q (x ∷ xs) = elim (Bool-cases (p x)) [
  | inl yes_p ↦ elim (Bool-cases (q x)) [
    | inl yes_q ↦ rw (yes_p, yes_q) (ap (λ ys. x ∷ ys) (filter-filter p q xs))
    | inr no_q ↦ rw (yes_p, no_q) (filter-filter p q xs)
  ]
  | inr no_p ↦ rw no_p (filter-filter p q xs)
]

pub filter-kept :
    {A : Type 0} (p q : A → Bool) (t : List A)
    → ((o : A) → q o ≡ true → p o ≡ false)
    → filter q (filter (λ o. not (p o)) t) ≡ filter q t
filter-kept p q [] h = refl
filter-kept p q (o ∷ t) h = elim (Bool-cases (q o)) [
  | inl seen ↦ rw (h o seen, seen) (ap (λ k. o ∷ k) (filter-kept p q t h))
  | inr unseen ↦ elim (Bool-cases (p o)) [
    | inl gone ↦ rw (gone, unseen) (filter-kept p q t h)
    | inr kept ↦ rw (kept, unseen) (filter-kept p q t h)
  ]
]

pub filter-gone :
    {A : Type 0} (p : A → Bool) (t : List A) → filter p (filter (λ o. not (p o)) t) ≡ []
filter-gone p [] = refl
filter-gone p (o ∷ t) = elim (Bool-cases (p o)) [
  | inl gone ↦ rw gone (filter-gone p t)
  | inr kept ↦ rw (kept, kept) (filter-gone p t)
]

module _ {A : Type 0} where
  has_id_ne : (id : ℕ) (o : Object A) → o.id ≢ id → has_id id o ≡ false
  has_id_ne id o ne = elim (Bool-cases (has_id id o)) [
    | inl same ↦ absurd (ne ((==_iff o.id id).0 same))
    | inr other ↦ other
  ]

  has_id_self : (o : Object A) → has_id o.id o ≡ true
  has_id_self o = (==_iff o.id o.id).1 refl

  erase_at-IsFresh_self : (id : ℕ) (t : List (Object A)) → IsFresh id t → erase_at id t ≡ t
  unfolding erase_at
  erase_at-IsFresh_self id [] h = refl
  erase_at-IsFresh_self id (o ∷ t) (h, hs) =
      rw (has_id_ne id o h) (ap (λ k. o ∷ k) (erase_at-IsFresh_self id t hs))

  erase_at-cons : (x : Object A) (t : List (Object A)) → IsFresh x.id t → erase_at x.id (x ∷ t) ≡ t
  unfolding erase_at
  erase_at-cons x t h = rw (has_id_self x) (erase_at-IsFresh_self x.id t h)

  erase_all-cons :
      (os : List (Object A)) (x : Object A) (t : List (Object A))
      → All (λ o. x.id ≢ o.id) os
      → erase_all os (x ∷ t) ≡ x ∷ erase_all os t
  unfolding erase_at
  erase_all-cons [] x t h = refl
  erase_all-cons (o ∷ os) x t (h, hs) =
      rw (has_id_ne o.id x h) (erase_all-cons os x (erase_at o.id t) hs)

  IsFresh-filter :
      (p : Object A → Bool) (x : Object A) (t : List (Object A))
      → IsFresh x.id t
      → All (λ o. x.id ≢ o.id) (filter p t)
  IsFresh-filter p x [] h = tt
  IsFresh-filter p x (o ∷ t) (h, hs) = elim (Bool-cases (p o)) [
    | inl seen ↦ rw seen ((λ e. h (sym e)), IsFresh-filter p x t hs)
    | inr unseen ↦ rw unseen (IsFresh-filter p x t hs)
  ]

  -- The deletion of all that pass a test leaves exactly what does not.
  pub erase_all-filter :
      (p : Object A → Bool) (t : List (Object A))
      → UniqueIds t
      → erase_all (filter p t) t ≡ filter (λ o. not (p o)) t
  erase_all-filter p [] u = refl
  erase_all-filter p (x ∷ t) (fresh, u) = elim (Bool-cases (p x)) [
    | inl gone ↦
        rw gone (ap (erase_all (filter p t)) (erase_at-cons x t fresh) ∙ erase_all-filter p t u)
    | inr kept ↦ rw kept (
        erase_all-cons (filter p t) x t (IsFresh-filter p x t fresh)
        ∙ ap (λ k. x ∷ k) (erase_all-filter p t u))
  ]

  -- the managed objects whose external id has the prefix
  abbrev pub is_owned : String → String → Object A → Bool
  is_owned slug prefix o = has_tag slug o && has_id_prefix prefix o

  -- A page with room shows all that is owned.
  pub owned_all :
      (page : ℕ) (slug prefix : String) (t : List (Object A))
      → length (filter (has_tag slug) t) ≤ page
      → owned page slug prefix t ≡ filter (is_owned slug prefix) t
  owned_all page slug prefix t room =
      ap (filter (has_id_prefix prefix)) (take_all page (filter (has_tag slug) t) room)
      ∙ filter-filter (has_tag slug) (has_id_prefix prefix) t
