-- ===== src/Tests/Supernets.antt =====
-- computeSupernets on the pod CIDRs of two Nodes.
use mathlib.Core.Option.{some-injective}
use mathlib.Core.Path.{subst}
use netbox_herald.Base.{
  ◌≡◌, ◌≢◌, ◌↔◌, refl, arith, inl, inr, String, Option, none, some, List, [], ◌∷◌, All, ok, err,
  str_eq, Bool-cases, if◌then◌else◌,
}
use netbox_herald.Supernet.{
  IpNet, ipv4, ipv6, Families, at_family, family_of, compute_supernets, gather, widen_family, widen,
  enclose, enclosed, enclose_families, filled, invalid_cidr,
}
use netbox_herald.Supernet.Bits.{bit_len}
use netbox_herald.Supernet.Gather.{IsParsed}
use netbox_herald.Supernet.Laws.{IsSupernet, compute_supernets_smallest, compute_supernets_families}
use netbox_herald.Supernet.Errors.{compute_supernets_invalid, compute_supernets_valid}

abbrev first_net : IpNet
first_net = record { bits = 32; ip = 183762944; ones = 24 }

abbrev second_net : IpNet
second_net = record { bits = 32; ip = 183763200; ones = 24 }

abbrev parse_two : String → Option IpNet
parse_two c =
    if str_eq c "10.244.0.0/24"
    then some first_net
    else if str_eq c "10.244.1.0/24"
    then some second_net
    else none

abbrev show_any : IpNet → String
show_any n = "10.244.0.0/23"

abbrev two_cidrs : List String
two_cidrs = "10.244.0.0/24" ∷ "10.244.1.0/24" ∷ []

first_net-IsParsed : IsParsed first_net
first_net-IsParsed = record {
  masked = record { ones_fit = omega arith; block_fits = omega arith; aligned = refl };
  width = refl;
}

second_net-IsParsed : IsParsed second_net
second_net-IsParsed = record {
  masked = record { ones_fit = omega arith; block_fits = omega arith; aligned = refl };
  width = refl;
}

parse_two-IsParsed : (c : String) (n : IpNet) → parse_two c ≡ some n → IsParsed n
parse_two-IsParsed c n e = elim (Bool-cases (str_eq c "10.244.0.0/24")) [
  | inl first ↦ subst IsParsed (some-injective first_net n (rw first at e)) first_net-IsParsed
  | inr other ↦ elim (Bool-cases (str_eq c "10.244.1.0/24")) [
    | inl second ↦
        subst IsParsed (some-injective second_net n (rw (other, second) at e)) second_net-IsParsed
    | inr neither ↦ cc (rw (other, neither) at e)
  ]
]

abbrev two_supernets : Families String
two_supernets = record { for_ipv4 = some "10.244.0.0/23"; for_ipv6 = none }

two_supernets_run : compute_supernets parse_two show_any two_cidrs ≡ ok two_supernets
unfolding compute_supernets gather widen_family widen enclose enclose_families enclosed filled
    bit_len
two_supernets_run = refl

compute_supernets_smallest_example :
    (net : IpNet) × ("10.244.0.0/23" ≡ show_any net) × IsSupernet parse_two two_cidrs ipv4 net
compute_supernets_smallest_example =
    compute_supernets_smallest parse_two show_any parse_two-IsParsed two_cidrs two_supernets
      two_supernets_run ipv4 "10.244.0.0/23" refl

compute_supernets_families_example :
    (at_family two_supernets ipv6 ≡ none)
    ↔ All (λ c. (n : IpNet) → parse_two c ≡ some n → family_of n ≢ ipv6) two_cidrs
compute_supernets_families_example =
    compute_supernets_families parse_two show_any parse_two-IsParsed two_cidrs two_supernets
      two_supernets_run ipv6

compute_supernets_invalid_example :
    compute_supernets parse_two show_any ("10.244.0.0/24" ∷ "nonsense" ∷ "10.244.1.0/24" ∷ [])
    ≡ err (invalid_cidr "nonsense")
compute_supernets_invalid_example =
    compute_supernets_invalid parse_two show_any ("10.244.0.0/24" ∷ []) "nonsense"
      ("10.244.1.0/24" ∷ []) (cc, tt) refl

compute_supernets_valid_example :
    (result : Families String) × (compute_supernets parse_two show_any two_cidrs ≡ ok result)
compute_supernets_valid_example =
    compute_supernets_valid parse_two show_any parse_two-IsParsed two_cidrs (cc, (cc, tt))
