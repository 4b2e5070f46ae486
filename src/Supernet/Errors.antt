-- ===== src/Supernet/Errors.antt =====
-- When `computeSupernets` fails: at the first text that is no CIDR, and never otherwise.
use netbox_herald.Base.{
  ◌≡◌, ◌≢◌, refl, inl, inr, String, Option, none, List, [], ◌∷◌, ◌++◌, All, ok, err, Option-cases,
  some, true, ap, ◌∙◌, arith, ◌^◌, ltb, and_then,
}
use netbox_herald.Supernet.{
  IpNet, Bounds, Families, widen_family, enclose, gather, no_families, filled, enclosed,
  enclose_families, ipv4, ipv6, compute_supernets, invalid_cidr,
}
use netbox_herald.Supernet.Enclose.{IsOrdered}
use netbox_herald.Supernet.Gather.{IsParsed, Gathered, gather-IsSound}
use netbox_herald.Supernet.Laws.{nothing-IsSound}

module _ (parse_cidr : String → Option IpNet) where
  gather_fails :
      (before : List String) (c : String) (after : List String) (fs : Families Bounds)
      → All (λ d. parse_cidr d ≢ none) before
      → parse_cidr c ≡ none
      → gather parse_cidr (before ++ c ∷ after) fs ≡ err (invalid_cidr c)
  unfolding gather
  gather_fails [] c after fs good bad = rw bad
  gather_fails (d ∷ before) c after fs (fine, good) bad = elim (Option-cases (parse_cidr d)) [
    | inl none_d ↦ absurd (fine none_d)
    | inr (n, parsed) ↦
        rw (parsed, gather) (gather_fails before c after (widen_family n fs) good bad)
  ]

  gather_succeeds :
      (cidrs : List String) (fs : Families Bounds)
      → All (λ d. parse_cidr d ≢ none) cidrs
      → (gs : Families Bounds) × Gathered parse_cidr cidrs fs gs
  unfolding gather
  gather_succeeds [] fs good = (fs, refl)
  gather_succeeds (d ∷ cidrs) fs (fine, good) = elim (Option-cases (parse_cidr d)) [
    | inl none_d ↦ absurd (fine none_d)
    | inr (n, parsed) ↦
        let (gs, e) = gather_succeeds cidrs (widen_family n fs) good in (gs, rw (parsed, gather) e)
  ]

  module _ (show_net : IpNet → String) where
    -- If every text before `c` parses and `c` does not, the run fails with the error that names `c`,
    -- whatever follows.
    pub compute_supernets_invalid :
        (before : List String) (c : String) (after : List String)
        → All (λ d. parse_cidr d ≢ none) before
        → parse_cidr c ≡ none
        → compute_supernets parse_cidr show_net (before ++ c ∷ after) ≡ err (invalid_cidr c)
    unfolding compute_supernets
    compute_supernets_invalid before c after good bad =
        rw (gather_fails before c after no_families good bad, compute_supernets)

    -- The bytes of a family's width hold its lower bound.
    enclosed_returns :
        (o : Option Bounds)
        → ((b : Bounds) → o ≡ some b → IsOrdered b)
        → (t : Option String) × (enclosed show_net o ≡ ok t)
    unfolding enclosed filled
    enclosed_returns none h = (none, refl)
    enclosed_returns (some b) h =
        let o = h b refl in
        let fits : ltb b.low (2 ^ b.bits) ≡ true = ground (arith, o.ordered, o.bounded) in
        (some (show_net (enclose b)), rw fits refl)

    -- If ParseCIDR returns masked blocks of its family's width and every text parses, then
    -- computeSupernets returns a result: it neither fails nor panics where it fills the bytes of
    -- an address.
    pub compute_supernets_valid :
        ((c : String) (n : IpNet) → parse_cidr c ≡ some n → IsParsed n)
        → (cidrs : List String) → All (λ d. parse_cidr d ≢ none) cidrs
        → (result : Families String) × (compute_supernets parse_cidr show_net cidrs ≡ ok result)
    unfolding compute_supernets enclose_families
    compute_supernets_valid lawful cidrs good =
        let (gs, e) = gather_succeeds cidrs no_families good in
        let sound = gather-IsSound parse_cidr lawful cidrs no_families gs e nothing-IsSound in
        let (four, is) = enclosed_returns gs.for_ipv4 (λ b at. (sound ipv4 b at).0) in
        let (six, is') = enclosed_returns gs.for_ipv6 (λ b at. (sound ipv6 b at).0) in
        (
          record { for_ipv4 = four; for_ipv6 = six },
          ap (λ r. and_then r (enclose_families show_net)) e
              ∙ ap
                  (λ r. and_then r λ t.
                    and_then (enclosed show_net gs.for_ipv6)
                      λ u. ok (record { for_ipv4 = t; for_ipv6 = u }))
                  is
              ∙ ap (λ r. and_then r λ u. ok (record { for_ipv4 = four; for_ipv6 = u })) is',
        )
