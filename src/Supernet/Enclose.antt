-- ===== src/Supernet/Enclose.antt =====
-- The block that `computeSupernets` makes of two bounds is the smallest one around them.
use Prim.Native.Nat.{bit_xor}
use native.Mathlib.Nat.{
  div-mul-le_self, zero-add, pow-suc, lt-div-mul-add, div-eq_of_lt-le, mul-div_cancel, div-eq_of_lt,
  le_refl,
}
use native.Mathlib.Decide.{dec_lt}
use netbox_herald.Base.{
  ℕ, zero, suc, ◌+◌, ◌-◌, ◌*◌, ◌/◌, ◌^◌, ◌≤◌, ◌<◌, ◌≡◌, refl, sym, ap, ◌∙◌, arith,
}
use netbox_herald.Supernet.{IpNet, Bounds, enclose}
use netbox_herald.Supernet.Bits.{bit_len, bit_len_bound, bit_xor_bound, two_pow_pos}

-- the number of host bits
abbrev pub host_of : IpNet → ℕ
host_of n = n.bits - n.ones

-- What `net.ParseCIDR` returns: a masked address with its mask.
pub record IsMasked (n : IpNet) : Type 0 where
  pub ones_fit : n.ones ≤ n.bits
  pub block_fits : n.ip + 2 ^ host_of n ≤ 2 ^ n.bits
  pub aligned : n.ip / 2 ^ host_of n * 2 ^ host_of n ≡ n.ip

-- every address from `low` to `high` lies in the block
abbrev pub Spans : IpNet → ℕ → ℕ → Type 0
Spans n low high = (n.ip ≤ low) × (high < n.ip + 2 ^ host_of n)

pub record IsOrdered (b : Bounds) : Type 0 where
  pub ordered : b.low ≤ b.high
  pub bounded : b.high < 2 ^ b.bits

-- A block of 2 ^ k addresses at a multiple of its size holds both bounds only if their quotients agree.
quotient_of_block : (k m x : ℕ) → m * 2 ^ k ≤ x → x < m * 2 ^ k + 2 ^ k → x / 2 ^ k ≡ m
quotient_of_block k m x lo hi = div-eq_of_lt-le (2 ^ k) lo (omega arith)

two_pow_add : (e d : ℕ) → 2 ^ (e + d) ≡ 2 ^ e * 2 ^ d
two_pow_add zero d = rw zero-add (omega arith)
two_pow_add (suc e) d = rw (let sum : suc e + d ≡ suc (e + d) = omega arith in sum) (
    omega
      (arith, pow-suc 2 (e + d), pow-suc 2 e, two_pow_add e d, ap (λ x. x * 2 ^ d) (pow-suc 2 e)))

next_multiple : (e q p : ℕ) → q * p < e * p → q * p + p ≤ e * p
next_multiple e q p h = elim (dec_lt q e) [
  | yes below ↦ grind arith
  | no above ↦ absurd (grind arith)
]

-- A multiple of 2 ^ d below 2 ^ n leaves room for 2 ^ d more.
multiple_fits : (n d q : ℕ) → d ≤ n → q * 2 ^ d < 2 ^ n → q * 2 ^ d + 2 ^ d ≤ 2 ^ n
multiple_fits n d q h below =
    let whole : 2 ^ n ≡ 2 ^ (n - d) * 2 ^ d =
      ap (λ x. 2 ^ x) (omega arith) ∙ two_pow_add (n - d) d in
    rw whole (next_multiple (2 ^ (n - d)) q (2 ^ d) (rw whole at below))

module _ (b : Bounds) (o : IsOrdered b) where
  abbrev diff_len : ℕ
  diff_len = bit_len (bit_xor b.low b.high)

  quotients_agree : b.low / 2 ^ diff_len ≡ b.high / 2 ^ diff_len
  quotients_agree =
      (bit_xor_bound diff_len b.low b.high).0 ((bit_len_bound diff_len _).1 (le_refl _))

  diff_len-le : diff_len ≤ b.bits
  diff_len-le = (bit_len_bound b.bits _).0 (
      (bit_xor_bound b.bits b.low b.high).1
        (div-eq_of_lt (omega (arith, o.ordered, o.bounded)) ∙ sym (div-eq_of_lt o.bounded)))

  host-enclose : host_of (enclose b) ≡ diff_len
  unfolding enclose
  host-enclose = omega (arith, diff_len-le)

  pub bits-enclose : (enclose b).bits ≡ b.bits
  unfolding enclose
  bits-enclose = refl

  -- The block holds both bounds.
  pub enclose-Spans : Spans (enclose b) b.low b.high
  unfolding enclose
  enclose-Spans = rw host-enclose (
    div-mul-le_self b.low (2 ^ diff_len),
    rw quotients_agree (lt-div-mul-add (two_pow_pos diff_len)),
  )

  -- The block is one that `net.ParseCIDR` could return.
  pub enclose-IsMasked : IsMasked (enclose b)
  unfolding enclose
  enclose-IsMasked = record {
    ones_fit = omega arith;
    block_fits = rw host-enclose (
        multiple_fits b.bits diff_len (b.low / 2 ^ diff_len) diff_len-le
          (omega (arith, div-mul-le_self b.low (2 ^ diff_len), o.ordered, o.bounded)));
    aligned =
        rw host-enclose (ap (λ q. q * 2 ^ diff_len) (mul-div_cancel _ (two_pow_pos diff_len)));
  }

  pub enclose_smallest :
      (k m : ℕ) → m * 2 ^ k ≤ b.low → b.high < m * 2 ^ k + 2 ^ k → host_of (enclose b) ≤ k
  enclose_smallest k m lo hi = rw host-enclose (
      (bit_len_bound k _).0 (
        (bit_xor_bound k b.low b.high).1 (
          quotient_of_block k m b.low lo (omega (arith, o.ordered))
          ∙ sym (quotient_of_block k m b.high (omega (arith, o.ordered)) hi))))
