-- ===== src/Supernet.antt =====
-- `computeSupernets` of internal/controller/podcidr_controller.go.
-- An address of `bits` bits is the number that its bytes spell, as `big.Int.SetBytes` reads them.
pub mod Bits
pub mod Enclose
pub mod Gather
pub mod Laws
pub mod Errors
use Prim.Native.Nat.{bit_xor}
use netbox_herald.Base.{
  ℕ, zero, suc, ◌+◌, ◌-◌, ◌*◌, ◌/◌, ◌^◌, String, Bool, true, false, Option, none, some, List, [],
  ◌∷◌, ltb, ◌==◌, Error, Result, ok, err, panic, foreign, wrapped, and_then, if◌then◌else◌,
}
use netbox_herald.Supernet.Bits.{bit_len}

-- `net.IPNet`: the network address and the number of leading ones of its mask.
pub record IpNet : Type 0 where
  pub bits : ℕ
  pub ip : ℕ
  pub ones : ℕ

-- The keys "ipv4" and "ipv6" of the maps.
pub data Family : Type 0 where
  ipv4 ipv6 : Family

unfoldable pub family_name : Family → String
family_name ipv4 = "ipv4"
family_name ipv6 = "ipv6"

pub record Bounds : Type 0 where
  pub bits : ℕ
  pub low : ℕ
  pub high : ℕ

-- A map from families; `none` is a missing key.
pub record Families (A : Type 0) : Type 0 where
  pub for_ipv4 : Option A
  pub for_ipv6 : Option A

abbrev pub at_family : {A : Type 0} → Families A → Family → Option A
at_family m ipv4 = m.for_ipv4
at_family m ipv6 = m.for_ipv6

abbrev pub set_family : {A : Type 0} → Families A → Family → A → Families A
set_family m ipv4 a = record m { for_ipv4 = some a }
set_family m ipv6 a = record m { for_ipv6 = some a }

abbrev pub family_of : IpNet → Family
family_of n = if n.bits == 128 then ipv6 else ipv4

-- `start`, and `end := start + 1 << (bitLen - ones) - 1`; a mask of `bits` bits has no more ones.
abbrev pub start_of : IpNet → ℕ
start_of n = n.ip

abbrev pub end_of : IpNet → ℕ
end_of n = n.ip + 2 ^ (n.bits - n.ones) - 1

-- One turn of the first loop, on the bounds of the family.
unfoldable pub widen : IpNet → Option Bounds → Bounds
widen n none = record { bits = n.bits; low = start_of n; high = end_of n }
widen n (some b) = record b {
  low = if ltb (start_of n) b.low then start_of n else b.low;
  high = if ltb b.high (end_of n) then end_of n else b.high;
}

unfoldable pub widen_family : IpNet → Families Bounds → Families Bounds
unfolding widen
widen_family n families =
    set_family families (family_of n) (widen n (at_family families (family_of n)))

-- The body of the second loop: every bit from the first one on that differs between the bounds
-- is masked off.
unfoldable pub enclose : Bounds → IpNet
enclose b =
    let prefix_len = b.bits - bit_len (bit_xor b.low b.high) in
    let host = b.bits - prefix_len in
    record { bits = b.bits; ip = b.low / 2 ^ host * 2 ^ host; ones = prefix_len }

abbrev pub no_families : {A : Type 0} → Families A
no_families = record { for_ipv4 = none; for_ipv6 = none }

-- `b.min.FillBytes(networkBytes)`, on a slice of `bits / 8` bytes: it panics on a number that does
-- not fit. `bits` is eight times a length, so these bytes have `bits` bits.
unfoldable pub filled : Bounds → Bool
filled b = ltb b.low (2 ^ b.bits)

module _ (show_net : IpNet → String) where
  -- One turn of the second loop; `show_net` is `net.IPNet.String`.
  unfoldable pub enclosed : Option Bounds → Result (Option String)
  unfolding filled enclose
  enclosed none = ok none
  enclosed (some b) = if filled b then ok (some (show_net (enclose b))) else panic

  -- The second loop. It ranges over a map, in any order, and fails in one way only.
  unfoldable pub enclose_families : Families Bounds → Result (Families String)
  unfolding enclosed
  enclose_families m = and_then (enclosed m.for_ipv4) λ for_ipv4.
      and_then (enclosed m.for_ipv6)
        λ for_ipv6. ok (record { for_ipv4 = for_ipv4; for_ipv6 = for_ipv6 })

-- `fmt.Errorf("invalid pod CIDR %q: %w", c, err)`
abbrev pub invalid_cidr : String → Error
invalid_cidr c = wrapped "invalid pod CIDR %q" (c ∷ []) (foreign "invalid CIDR address")

module _ (parse_cidr : String → Option IpNet) where
  -- The first loop; `parse_cidr` is `net.ParseCIDR`
  unfoldable pub gather : List String → Families Bounds → Result (Families Bounds)
  unfolding widen_family
  gather [] families = ok families
  gather (c ∷ cidrs) families = elim (parse_cidr c) [
    | none ↦ err (invalid_cidr c)
    | some n ↦ gather cidrs (widen_family n families)
  ]

module _ (parse_cidr : String → Option IpNet) (show_net : IpNet → String) where
  unfoldable pub compute_supernets : List String → Result (Families String)
  unfolding gather enclose_families
  compute_supernets cidrs =
      and_then (gather parse_cidr cidrs no_families) (enclose_families show_net)
