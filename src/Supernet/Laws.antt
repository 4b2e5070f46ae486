-- ===== src/Supernet/Laws.antt =====
-- What `computeSupernets` returns, on every list of pod CIDRs.
use mathlib.Core.Option
use mathlib.Core.Option.{some-injective, none-ne-some}
use netbox_herald.Base.{
  ℕ, ◌+◌, ◌-◌, ◌*◌, ◌^◌, ◌≤◌, ◌<◌, ◌≡◌, ◌≢◌, ◌↔◌, refl, sym, ap, ◌∙◌, ◌⊎◌, inl, inr, arith, String,
  Option, none, some, List, All, All-map, Result, ok, err, panic, ok-injective, Option-cases,
  Bool-cases, and_then,
}
use netbox_herald.Supernet.{
  IpNet, Family, ipv4, ipv6, Bounds, Families, at_family, family_of, start_of, end_of, enclose,
  gather, no_families, filled, enclosed, enclose_families, compute_supernets,
}
use netbox_herald.Supernet.Bits.{two_pow_pos}
use netbox_herald.Supernet.Enclose.{
  IsMasked, IsOrdered, Spans, host_of, bits-enclose, enclose-Spans, enclose-IsMasked,
  enclose_smallest,
}
use netbox_herald.Supernet.Gather.{
  family_bits, IsParsed, Covered, IsSound, Within, Gathered, gather-IsSound, gather_covers,
  gather-Within,
}

-- Every listed block of the family lies between `low` and `high`.
abbrev pub Between : (String → Option IpNet) → Family → ℕ → ℕ → List String → Type 0
Between parse_cidr f low high = All λ c.
    (n : IpNet) → parse_cidr c ≡ some n → family_of n ≡ f → (low ≤ start_of n) × (end_of n ≤ high)

-- `net` is the smallest block that holds every listed block of the family.
pub record IsSupernet (parse_cidr : String → Option IpNet) (cidrs : List String) (f : Family)
    (net : IpNet) : Type 0 where
  pub masked : IsMasked net
  pub width : net.bits ≡ family_bits f
  pub holds :
      All
        (λ c.
          (n : IpNet) → parse_cidr c ≡ some n → family_of n ≡ f → Spans net (start_of n) (end_of n))
        cidrs
  pub smallest :
      (k m : ℕ) → Between parse_cidr f (m * 2 ^ k) (m * 2 ^ k + 2 ^ k - 1) cidrs → host_of net ≤ k

abbrev pub map_families : {A B : Type 0} → (A → B) → Families A → Families B
map_families f m = record { for_ipv4 = Option.map f m.for_ipv4; for_ipv6 = Option.map f m.for_ipv6 }

pub nothing-IsSound : IsSound no_families
nothing-IsSound ipv4 b h = cc
nothing-IsSound ipv6 b h = cc

nothing-Within : (f : Family) (low high : ℕ) → Within no_families f low high
nothing-Within ipv4 low high b h = cc
nothing-Within ipv6 low high b h = cc

Spans-more :
    (net : IpNet) {low high low' high' : ℕ}
    → low ≤ low'
    → high' ≤ high
    → Spans net low high
    → Spans net low' high'
Spans-more net p q s = omega arith

module _ (parse_cidr : String → Option IpNet) where
  module _ (lawful : (c : String) (n : IpNet) → parse_cidr c ≡ some n → IsParsed n)
      (cidrs : List String) (gs : Families Bounds)
      (e : Gathered parse_cidr cidrs no_families gs) where
    sound : IsSound gs
    sound = gather-IsSound parse_cidr lawful cidrs no_families gs e nothing-IsSound

    enclose-IsSupernet :
        (f : Family) (b : Bounds)
        → at_family gs f ≡ some b
        → IsSupernet parse_cidr cidrs f (enclose b)
    enclose-IsSupernet f b at = record {
      masked = enclose-IsMasked b ordered;
      width = bits-enclose b ordered ∙ (sound f b at).1;
      holds = All-map cidrs held (gather_covers parse_cidr cidrs no_families gs e);
      smallest = λ k m inside.
          enclose_smallest b ordered k m (between k m inside).0 (between k m inside).1;
    }
      where
        ordered : IsOrdered b
        ordered = (sound f b at).0

        between :
            (k m : ℕ)
            → Between parse_cidr f (m * 2 ^ k) (m * 2 ^ k + 2 ^ k - 1) cidrs
            → (m * 2 ^ k ≤ b.low) × (b.high < m * 2 ^ k + 2 ^ k)
        between k m inside =
            let (lo, hi) =
              gather-Within parse_cidr cidrs no_families gs f (m * 2 ^ k) (m * 2 ^ k + 2 ^ k - 1)
                inside e (nothing-Within f _ _) b at in
            (lo, omega (arith, two_pow_pos k))

        held :
            (c : String)
            → ((n : IpNet)
                → parse_cidr c ≡ some n
                → Covered gs (family_of n) (start_of n) (end_of n))
            → (n : IpNet) → parse_cidr c ≡ some n
            → family_of n ≡ f
            → Spans (enclose b) (start_of n) (end_of n)
        held c covers n parsed same =
            let (b', at', lo, hi) = covers n parsed in
            let same_bounds : b' ≡ b =
              some-injective b' b (sym at' ∙ ap (at_family gs) same ∙ at) in
            Spans-more (enclose b) (rw same_bounds at lo) (rw same_bounds at hi)
              (enclose-Spans b ordered)

  -- Bounds of a family come only from its blocks.
  absent_family :
      ((c : String) (n : IpNet) → parse_cidr c ≡ some n → IsParsed n)
      → (cidrs : List String) (gs : Families Bounds) → Gathered parse_cidr cidrs no_families gs
      → (f : Family)
      → (at_family gs f ≡ none)
        ↔ All (λ c. (n : IpNet) → parse_cidr c ≡ some n → family_of n ≢ f) cidrs
  absent_family lawful cidrs gs e f = (
    λ absent.
        All-map cidrs
          (λ c covers n parsed same.
            let (b, at, _, _) = covers n parsed in
            none-ne-some b (sym absent ∙ ap (at_family gs) (sym same) ∙ at))
          (gather_covers parse_cidr cidrs no_families gs e),
    λ others. go others (Option-cases (at_family gs f)),
  )
    where
      go :
          All (λ c. (n : IpNet) → parse_cidr c ≡ some n → family_of n ≢ f) cidrs
          → (at_family gs f ≡ none) ⊎ ((b : Bounds) × (at_family gs f ≡ some b))
          → at_family gs f ≡ none
      go others (inl absent) = absent
      go others (inr (b, at)) =
          let (lo, hi) =
            gather-Within parse_cidr cidrs no_families gs f 1 0
              (All-map cidrs (λ c other n parsed same. absurd (other n parsed same)) others) e
              (nothing-Within f 1 0) b at in
          absurd (omega (arith, (sound lawful cidrs gs e f b at).0.ordered))

  module _ (show_net : IpNet → String) where
    abbrev printed : Bounds → String
    printed b = show_net (enclose b)

    enclosed-ok :
        (o : Option Bounds) (t : Option String)
        → enclosed show_net o ≡ ok t
        → t ≡ Option.map printed o
    unfolding enclosed
    enclosed-ok none t e = sym (ok-injective e)
    enclosed-ok (some b) t e = elim (Bool-cases (filled b)) [
      | inl fits ↦ sym (ok-injective (rw fits at e))
      | inr over ↦ cc (rw over at e)
    ]

    enclose_families-ok :
        (gs : Families Bounds) (result : Families String)
        → enclose_families show_net gs ≡ ok result
        → result ≡ map_families printed gs
    unfolding enclose_families
    enclose_families-ok gs result e =
        both (enclosed show_net gs.for_ipv4) (enclosed show_net gs.for_ipv6) e
          (enclosed-ok gs.for_ipv4) (enclosed-ok gs.for_ipv6)
      where
        both :
            (p q : Result (Option String))
            → and_then p (λ t. and_then q (λ u. ok (record { for_ipv4 = t; for_ipv6 = u })))
              ≡ ok result
            → ((t : Option String) → p ≡ ok t → t ≡ Option.map printed gs.for_ipv4)
            → ((u : Option String) → q ≡ ok u → u ≡ Option.map printed gs.for_ipv6)
            → result ≡ map_families printed gs
        both (ok t) (ok u) e f g =
            sym (ok-injective e)
            ∙ ap {A = Option String} (λ k. record { for_ipv4 = k; for_ipv6 = u }) (f t refl)
            ∙ ap {A = Option String}
                (λ k. record { for_ipv4 = Option.map printed gs.for_ipv4; for_ipv6 = k }) (g u refl)
        both (ok t) (err x) e f g = cc e
        both (ok t) panic e f g = cc e
        both (err x) q e f g = cc e
        both panic q e f g = cc e

    -- What a successful run returns: the printed block around the bounds of each family.
    compute_supernets-ok :
        (cidrs : List String) (result : Families String)
        → compute_supernets parse_cidr show_net cidrs ≡ ok result
        → (gs : Families Bounds) × Gathered parse_cidr cidrs no_families gs
          × (result ≡ map_families printed gs)
    unfolding compute_supernets
    compute_supernets-ok cidrs result e = go (gather parse_cidr cidrs no_families) refl e
      where
        go :
            (r : Result (Families Bounds))
            → gather parse_cidr cidrs no_families ≡ r
            → and_then r (enclose_families show_net) ≡ ok result
            → (gs : Families Bounds) × Gathered parse_cidr cidrs no_families gs
              × (result ≡ map_families printed gs)
        go (ok gs) g e = (gs, g, enclose_families-ok gs result e)
        go (err x) g e = cc e
        go panic g e = cc e

    at-map_families :
        (gs : Families Bounds) (f : Family)
        → at_family (map_families printed gs) f ≡ Option.map printed (at_family gs f)
    at-map_families gs ipv4 = refl
    at-map_families gs ipv6 = refl

    -- If `parse_cidr` returns masked blocks of its family's width, then each text that a successful
    -- run returns for a family prints a masked block of that width which holds every listed block
    -- of the family in full, and no aligned block of 2 ^ k addresses around them is smaller.
    pub compute_supernets_smallest :
        ((c : String) (n : IpNet) → parse_cidr c ≡ some n → IsParsed n)
        → (cidrs : List String) (result : Families String)
        → compute_supernets parse_cidr show_net cidrs ≡ ok result
        → (f : Family) (t : String) → at_family result f ≡ some t
        → (net : IpNet) × (t ≡ show_net net) × IsSupernet parse_cidr cidrs f net
    compute_supernets_smallest lawful cidrs result e f t at =
        let (gs, gathered, shown) = compute_supernets-ok cidrs result e in
        let (b, found, shown_b) =
          (Option.map-eq-some_iff printed (at_family gs f)).0
            (sym (at-map_families gs f) ∙ ap (λ r. at_family r f) (sym shown) ∙ at) in
        (enclose b, sym shown_b, enclose-IsSupernet lawful cidrs gs gathered f b found)

    absent-map_families :
        (gs : Families Bounds) (f : Family)
        → (at_family (map_families printed gs) f ≡ none) ↔ (at_family gs f ≡ none)
    absent-map_families gs ipv4 = Option.map-eq-none_iff printed gs.for_ipv4
    absent-map_families gs ipv6 = Option.map-eq-none_iff printed gs.for_ipv6

    -- A successful run returns a block for exactly the families of the listed pod CIDRs.
    pub compute_supernets_families :
        ((c : String) (n : IpNet) → parse_cidr c ≡ some n → IsParsed n)
        → (cidrs : List String) (result : Families String)
        → compute_supernets parse_cidr show_net cidrs ≡ ok result
        → (f : Family)
        → (at_family result f ≡ none)
          ↔ All (λ c. (n : IpNet) → parse_cidr c ≡ some n → family_of n ≢ f) cidrs
    compute_supernets_families lawful cidrs result e f =
        let (gs, gathered, shown) = compute_supernets-ok cidrs result e in
        let at_gs = absent_family lawful cidrs gs gathered f in
        let at_result = absent-map_families gs f in
        (
          λ h. at_gs.0 (at_result.0 (ap (λ r. at_family r f) (sym shown) ∙ h)),
          λ h. ap (λ r. at_family r f) shown ∙ at_result.1 (at_gs.1 h),
        )
