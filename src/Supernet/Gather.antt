-- ===== src/Supernet/Gather.antt =====
-- The first loop of `computeSupernets`: the bounds of each family are those of its blocks.
use mathlib.Core.Option.{some-injective}
use mathlib.Core.Path.{subst}
use netbox_herald.Base.{
  ℕ, ◌-◌, ◌^◌, ◌≤◌, ◌<◌, ◌≡◌, refl, sym, ◌∙◌, inl, inr, arith, String, Option, none, some, List, [],
  ◌∷◌, All, All-of, All-map, ok, ok-injective, Option-cases,
}
use netbox_herald.Supernet.{
  IpNet, Family, ipv4, ipv6, Bounds, Families, at_family, set_family, family_of, start_of, end_of,
  widen, gather,
}
use netbox_herald.Supernet.Bits.{two_pow_pos}
use netbox_herald.Supernet.Enclose.{IsMasked, IsOrdered}

abbrev pub family_bits : Family → ℕ
family_bits ipv4 = 32
family_bits ipv6 = 128

-- What `net.ParseCIDR` promises of a block that it returns.
pub record IsParsed (n : IpNet) : Type 0 where
  pub masked : IsMasked n
  pub width : n.bits ≡ family_bits (family_of n)

-- The family has bounds, and they hold all addresses from `low` to `high`.
abbrev pub Covered : Families Bounds → Family → ℕ → ℕ → Type 0
Covered fs f low high = (b : Bounds) × (at_family fs f ≡ some b) × (b.low ≤ low) × (high ≤ b.high)

-- The family's bounds, if it has any, are ordered and as wide as the family.
abbrev pub IsSound : Families Bounds → Type 0
IsSound fs =
    (f : Family) (b : Bounds) → at_family fs f ≡ some b → IsOrdered b × (b.bits ≡ family_bits f)

-- The family's bounds, if it has any, lie between `low` and `high`.
abbrev pub Within : Families Bounds → Family → ℕ → ℕ → Type 0
Within fs f low high = (b : Bounds) → at_family fs f ≡ some b → (low ≤ b.low) × (b.high ≤ high)

module _ (n : IpNet) where
  widen_covers :
      (o : Option Bounds) → ((widen n o).low ≤ start_of n) × (end_of n ≤ (widen n o).high)
  unfolding widen
  widen_covers none = ground arith
  widen_covers (some b) = ground arith

  widen_grows : (b : Bounds) → ((widen n (some b)).low ≤ b.low) × (b.high ≤ (widen n (some b)).high)
  unfolding widen
  widen_grows b = ground arith

  widen_within :
      (o : Option Bounds) (low high : ℕ)
      → low ≤ start_of n
      → end_of n ≤ high
      → ((b : Bounds) → o ≡ some b → (low ≤ b.low) × (b.high ≤ high))
      → (low ≤ (widen n o).low) × ((widen n o).high ≤ high)
  unfolding widen
  widen_within none low high p q h = (p, q)
  widen_within (some b) low high p q h = ground (arith, h b)

  masked_bounds : IsMasked n → (start_of n ≤ end_of n) × (end_of n < 2 ^ n.bits)
  masked_bounds m = omega (arith, two_pow_pos (n.bits - n.ones), m.block_fits)

  widen_sound :
      (f : Family) (o : Option Bounds)
      → IsMasked n
      → n.bits ≡ family_bits f
      → ((b : Bounds) → o ≡ some b → IsOrdered b × (b.bits ≡ family_bits f))
      → IsOrdered (widen n o) × ((widen n o).bits ≡ family_bits f)
  unfolding widen
  widen_sound f none m w h =
      (record { ordered = (masked_bounds m).0; bounded = (masked_bounds m).1 }, w)
  widen_sound f (some b) m w h =
      let (ordered, width) = h b refl in
      let same : b.bits ≡ n.bits = width ∙ sym w in
      let fits : end_of n < 2 ^ b.bits = rw same (masked_bounds m).1 in
      (
        record {
          ordered = ground (arith, masked_bounds m, ordered.ordered);
          bounded = ground (arith, fits, ordered.bounded);
        },
        width,
      )

abbrev put : IpNet → Family → Families Bounds → Families Bounds
put n f fs = set_family fs f (widen n (at_family fs f))

put-Covered_same :
    (n : IpNet) (f : Family) (fs : Families Bounds) → Covered (put n f fs) f (start_of n) (end_of n)
put-Covered_same n ipv4 fs =
    let (p, q) = widen_covers n fs.for_ipv4 in (widen n fs.for_ipv4, refl, p, q)
put-Covered_same n ipv6 fs =
    let (p, q) = widen_covers n fs.for_ipv6 in (widen n fs.for_ipv6, refl, p, q)

put-Covered :
    (n : IpNet) (f g : Family) (fs : Families Bounds) (low high : ℕ)
    → Covered fs g low high
    → Covered (put n f fs) g low high
put-Covered n ipv4 ipv4 fs low high (b, e, p, q) =
    let (r, s) = widen_grows n b in (widen n (some b), rw e, omega arith, omega arith)
put-Covered n ipv4 ipv6 fs low high c = c
put-Covered n ipv6 ipv4 fs low high c = c
put-Covered n ipv6 ipv6 fs low high (b, e, p, q) =
    let (r, s) = widen_grows n b in (widen n (some b), rw e, omega arith, omega arith)

put-IsSound :
    (n : IpNet) (f : Family) (fs : Families Bounds)
    → IsMasked n
    → n.bits ≡ family_bits f
    → IsSound fs
    → IsSound (put n f fs)
put-IsSound n ipv4 fs m w h ipv4 b e =
    rw (← some-injective _ _ e) (widen_sound n ipv4 fs.for_ipv4 m w (h ipv4))
put-IsSound n ipv4 fs m w h ipv6 b e = h ipv6 b e
put-IsSound n ipv6 fs m w h ipv4 b e = h ipv4 b e
put-IsSound n ipv6 fs m w h ipv6 b e =
    rw (← some-injective _ _ e) (widen_sound n ipv6 fs.for_ipv6 m w (h ipv6))

put-Within :
    (low high : ℕ) (n : IpNet) (f g : Family) (fs : Families Bounds)
    → (f ≡ g → (low ≤ start_of n) × (end_of n ≤ high))
    → Within fs g low high
    → Within (put n f fs) g low high
put-Within low high n ipv4 ipv4 fs inside w b e =
    rw (← some-injective _ _ e)
      (widen_within n fs.for_ipv4 low high (inside refl).0 (inside refl).1 w)
put-Within low high n ipv4 ipv6 fs inside w b e = w b e
put-Within low high n ipv6 ipv4 fs inside w b e = w b e
put-Within low high n ipv6 ipv6 fs inside w b e =
    rw (← some-injective _ _ e)
      (widen_within n fs.for_ipv6 low high (inside refl).0 (inside refl).1 w)

module _ (parse_cidr : String → Option IpNet) where
  abbrev pub Gathered : List String → Families Bounds → Families Bounds → Type 0
  Gathered cidrs fs gs = gather parse_cidr cidrs fs ≡ ok gs

  -- A turn of the loop that went well, with the block that it read.
  gather_turn :
      (c : String) (cidrs : List String) (fs gs : Families Bounds)
      → Gathered (c ∷ cidrs) fs gs
      → (n : IpNet) × (parse_cidr c ≡ some n) × Gathered cidrs (put n (family_of n) fs) gs
  unfolding gather
  gather_turn c cidrs fs gs e = elim (Option-cases (parse_cidr c)) [
    | inl bad ↦ cc (rw (bad, gather) at e)
    | inr (n, good) ↦ (n, good, rw (good, gather) at e)
  ]

  -- What every turn keeps holds at the end.
  gather_induction :
      (P : Families Bounds → Type 0)
      → (cidrs : List String) (fs gs : Families Bounds)
      → All
          (λ c.
            (n : IpNet) (fs : Families Bounds)
            → parse_cidr c ≡ some n
            → P fs
            → P (put n (family_of n) fs))
          cidrs
      → Gathered cidrs fs gs
      → P fs
      → P gs
  unfolding gather
  gather_induction P [] fs gs turns e h = subst P (ok-injective e) h
  gather_induction P (c ∷ cidrs) fs gs (turn, turns) e h =
      let (n, parsed, rest) = gather_turn c cidrs fs gs e in
      gather_induction P cidrs (put n (family_of n) fs) gs turns rest (turn n fs parsed h)

  module _ (lawful : (c : String) (n : IpNet) → parse_cidr c ≡ some n → IsParsed n) where
    pub gather-IsSound :
        (cidrs : List String) (fs gs : Families Bounds)
        → Gathered cidrs fs gs
        → IsSound fs
        → IsSound gs
    gather-IsSound cidrs fs gs = gather_induction IsSound cidrs fs gs (
        All-of cidrs λ c n fs parsed h.
          put-IsSound n (family_of n) fs (lawful c n parsed).masked (lawful c n parsed).width h)

  gather_keeps :
      (cidrs : List String) (fs gs : Families Bounds) (f : Family) (low high : ℕ)
      → Gathered cidrs fs gs
      → Covered fs f low high
      → Covered gs f low high
  gather_keeps cidrs fs gs f low high =
      gather_induction (λ fs. Covered fs f low high) cidrs fs gs
        (All-of cidrs λ c n fs parsed h. put-Covered n (family_of n) f fs low high h)

  pub gather_covers :
      (cidrs : List String) (fs gs : Families Bounds)
      → Gathered cidrs fs gs
      → All
          (λ c.
            (n : IpNet) → parse_cidr c ≡ some n → Covered gs (family_of n) (start_of n) (end_of n))
          cidrs
  gather_covers [] fs gs e = tt
  gather_covers (c ∷ cidrs) fs gs e =
      let (n, parsed, rest) = gather_turn c cidrs fs gs e in
      (
        λ n' parsed'.
            gather_keeps cidrs (put n (family_of n) fs) gs (family_of n') (start_of n') (end_of n')
              rest
              (rw (some-injective n n' (sym parsed ∙ parsed'))
                (put-Covered_same n' (family_of n') fs)),
        gather_covers cidrs (put n (family_of n) fs) gs rest,
      )

  pub gather-Within :
      (cidrs : List String) (fs gs : Families Bounds) (f : Family) (low high : ℕ)
      → All
          (λ c.
            (n : IpNet)
            → parse_cidr c ≡ some n
            → family_of n ≡ f
            → (low ≤ start_of n) × (end_of n ≤ high))
          cidrs
      → Gathered cidrs fs gs
      → Within fs f low high
      → Within gs f low high
  gather-Within cidrs fs gs f low high inside =
      gather_induction (λ fs. Within fs f low high) cidrs fs gs
        (All-map cidrs
          (λ c h n fs parsed w. put-Within low high n (family_of n) f fs (h n parsed) w) inside)
