-- ===== src/Server/Members.antt =====
-- Members of lists and tables, and what filters, pages and searches keep of them.
use netbox_herald.Base.{
  ℕ, zero, suc, ◌≡◌, ◌≢◌, refl, sym, ap, ◌∙◌, ◌⊎◌, inl, inr, arith, Bool, true, some, List, [], ◌∷◌,
  ◌++◌, take, filter, find?, All, Bool-cases,
}
use mathlib.Core.Option.{some-injective}
use netbox_herald.NetBox.Model.{Object, Body}
use netbox_herald.Server.Tables.{IsFresh, UniqueIds, replace_body, write_at, erase_at}

module _ {A : Type 0} where
  abbrev pub Member : A → List A → Type 0
  Member a [] = ⊥
  Member a (x ∷ xs) = (x ≡ a) ⊎ Member a xs

  pub Member-filter :
      (p : A → Bool) (a : A) (xs : List A) → Member a (filter p xs) → Member a xs × (p a ≡ true)
  Member-filter p a [] m = absurd m
  Member-filter p a (x ∷ xs) m = ground (arith, Member-filter p a xs)

  pub Member-take : (n : ℕ) (a : A) (xs : List A) → Member a (take n xs) → Member a xs
  Member-take zero a xs m = absurd m
  Member-take (suc n) a [] m = absurd m
  Member-take (suc n) a (x ∷ xs) (inl e) = inl e
  Member-take (suc n) a (x ∷ xs) (inr m) = inr (Member-take n a xs m)

  pub Member-find? :
      (p : A → Bool) (a : A) (xs : List A) → find? p xs ≡ some a → Member a xs × (p a ≡ true)
  Member-find? p a [] e = cc
  Member-find? p a (x ∷ xs) e = elim (Bool-cases (p x)) [
    | inl yes_x ↦
        let same : x ≡ a = some-injective x a (rw yes_x at e) in (inl same, rw (← same) yes_x)
    | inr no_x ↦ let (m, q) = Member-find? p a xs (rw no_x at e) in (inr m, q)
  ]

  pub All-members : {P : A → Type 0} (xs : List A) → ((a : A) → Member a xs → P a) → All P xs
  All-members [] f = tt
  All-members (x ∷ xs) f = (f x (inl refl), All-members xs (λ a m. f a (inr m)))

  pub All-Member : (P : A → Type 0) (a : A) (xs : List A) → All P xs → Member a xs → P a
  All-Member P a [] h m = absurd m
  All-Member P a (x ∷ xs) (h, hs) (inl e) = rw e at h
  All-Member P a (x ∷ xs) (h, hs) (inr m) = All-Member P a xs hs m

module _ {A : Type 0} where
  -- Two members with one id are the same.
  pub Member-UniqueIds :
      (t : List (Object A)) (o p : Object A)
      → UniqueIds t
      → Member o t
      → Member p t
      → o.id ≡ p.id
      → o ≡ p
  Member-UniqueIds [] o p u m n e = absurd m
  Member-UniqueIds (x ∷ t) o p (fresh, u) (inl a) (inl b) e = sym a ∙ b
  Member-UniqueIds (x ∷ t) o p (fresh, u) (inl a) (inr b) e =
      absurd (All-Member (λ y. y.id ≢ x.id) p t fresh b (sym e ∙ ap (λ y. y.id) (sym a)))
  Member-UniqueIds (x ∷ t) o p (fresh, u) (inr a) (inl b) e =
      absurd (All-Member (λ y. y.id ≢ x.id) o t fresh a (e ∙ ap (λ y. y.id) (sym b)))
  Member-UniqueIds (x ∷ t) o p (fresh, u) (inr a) (inr b) e = Member-UniqueIds t o p u a b e

  -- A write keeps the ids.
  pub id-replace_body : (id : ℕ) (body : Body A) (o : Object A) → (replace_body id body o).id ≡ o.id
  id-replace_body id body o = ground arith

  pub replace_body_self :
      (id : ℕ) (body : Body A) (o : Object A)
      → o.id ≡ id
      → replace_body id body o ≡ record { id = id; body = body }
  replace_body_self id body o e = ground arith

  pub replace_body_ne :
      (id : ℕ) (body : Body A) (o : Object A) → o.id ≢ id → replace_body id body o ≡ o
  replace_body_ne id body o n = ground arith

  write_at-IsFresh :
      (id : ℕ) (body : Body A) (t : List (Object A)) (k : ℕ)
      → IsFresh k t
      → IsFresh k (write_at id body t)
  unfolding write_at
  write_at-IsFresh id body [] k h = tt
  write_at-IsFresh id body (o ∷ t) k (f, h) = (ground arith, write_at-IsFresh id body t k h)

  pub write_at-UniqueIds :
      (id : ℕ) (body : Body A) (t : List (Object A)) → UniqueIds t → UniqueIds (write_at id body t)
  unfolding write_at
  write_at-UniqueIds id body [] u = tt
  write_at-UniqueIds id body (o ∷ t) (fresh, u) =
      (rw id-replace_body (write_at-IsFresh id body t o.id fresh), write_at-UniqueIds id body t u)

  IsFresh-append :
      (k : ℕ) (t : List (Object A)) (o : Object A)
      → IsFresh k t
      → o.id ≢ k
      → IsFresh k (t ++ o ∷ [])
  IsFresh-append k [] o h n = (n, tt)
  IsFresh-append k (x ∷ t) o (f, h) n = (f, IsFresh-append k t o h n)

  pub append-UniqueIds :
      (t : List (Object A)) (o : Object A) → UniqueIds t → IsFresh o.id t → UniqueIds (t ++ o ∷ [])
  append-UniqueIds [] o u f = (tt, tt)
  append-UniqueIds (x ∷ t) o (fresh, u) (n, f) =
      (IsFresh-append x.id t o fresh (λ e. n (sym e)), append-UniqueIds t o u f)

  erase_at-IsFresh :
      (id : ℕ) (t : List (Object A)) (k : ℕ) → IsFresh k t → IsFresh k (erase_at id t)
  unfolding erase_at
  erase_at-IsFresh id [] k h = tt
  erase_at-IsFresh id (o ∷ t) k (f, h) = ground (arith, erase_at-IsFresh id t k h)

  pub erase_at-UniqueIds : (id : ℕ) (t : List (Object A)) → UniqueIds t → UniqueIds (erase_at id t)
  unfolding erase_at
  erase_at-UniqueIds id [] u = tt
  erase_at-UniqueIds id (o ∷ t) (fresh, u) =
      ground (arith, erase_at-UniqueIds id t u, erase_at-IsFresh id t o.id fresh)
