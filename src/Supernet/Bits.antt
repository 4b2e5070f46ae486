-- ===== src/Supernet/Bits.antt =====
-- `big.Int.BitLen` and `big.Int.Xor`, through their digits.
use Prim.Native.Nat.{bit_xor, digits, bit_xor-bitwise, differ}
use native.Mathlib.Nat.{pow-suc, pow-succ', div-div-eq-div-mul, le_refl}
use netbox_herald.Base.{
  ℕ, zero, suc, ◌+◌, ◌*◌, ◌/◌, ◌%◌, ◌^◌, ◌≤◌, ◌<◌, ◌≡◌, ◌↔◌, refl, ap, sym, ◌∙◌, arith,
}

-- The number of bits of n: with fuel n, which is enough since n / 2 < n.
bit_len_fuel : ℕ → ℕ → ℕ
bit_len_fuel fuel zero = 0
bit_len_fuel zero (suc n) = 0
bit_len_fuel (suc fuel) (suc n) = suc (bit_len_fuel fuel (suc n / 2))

unfoldable pub bit_len : ℕ → ℕ
unfolding bit_len_fuel
bit_len n = bit_len_fuel n n

bit_len_enough : (f g n : ℕ) → n ≤ f → n ≤ g → bit_len_fuel f n ≡ bit_len_fuel g n
unfolding bit_len_fuel
bit_len_enough f g zero p q = refl
bit_len_enough zero g (suc n) p q = absurd (omega arith)
bit_len_enough (suc f) zero (suc n) p q = absurd (omega arith)
bit_len_enough (suc f) (suc g) (suc n) p q =
    ap suc (bit_len_enough f g (suc n / 2) (omega arith) (omega arith))

pub bit_len_step : (n : ℕ) → bit_len (suc n) ≡ suc (bit_len (suc n / 2))
unfolding bit_len
bit_len_step n = ap suc (bit_len_enough n (suc n / 2) (suc n / 2) (omega arith) (le_refl _))

pub two_pow_pos : (k : ℕ) → 0 < 2 ^ k
two_pow_pos zero = omega arith
two_pow_pos (suc k) = omega (arith, pow-suc 2 k, two_pow_pos k)

bit_len-le : (k n : ℕ) → n < 2 ^ k → bit_len n ≤ k
unfolding bit_len
bit_len-le k zero h = omega arith
bit_len-le zero (suc n) h = absurd (omega arith)
bit_len-le (suc k) (suc n) h =
    omega (arith, bit_len_step n, bit_len-le k (suc n / 2) (omega (arith, pow-suc 2 k)))

lt_of_bit_len : (k n : ℕ) → bit_len n ≤ k → n < 2 ^ k
lt_of_bit_len k zero h = two_pow_pos k
lt_of_bit_len zero (suc n) h = absurd (omega (arith, bit_len_step n))
lt_of_bit_len (suc k) (suc n) h =
    omega (arith, pow-suc 2 k, lt_of_bit_len k (suc n / 2) (omega (arith, bit_len_step n)))

-- A number lies below 2 ^ k exactly when it has at most k bits.
pub bit_len_bound : (k n : ℕ) → (n < 2 ^ k) ↔ (bit_len n ≤ k)
bit_len_bound k n = (bit_len-le k n, lt_of_bit_len k n)

digits_enough :
    (f g a b : ℕ) → a ≤ f → a ≤ g → digits (λ y. y) differ f a b ≡ digits (λ y. y) differ g a b
digits_enough zero zero a b p q = refl
digits_enough zero (suc g) zero b p q = refl
digits_enough zero (suc g) (suc a) b p q = absurd (omega arith)
digits_enough (suc f) zero zero b p q = refl
digits_enough (suc f) zero (suc a) b p q = absurd (omega arith)
digits_enough (suc f) (suc g) zero b p q = refl
digits_enough (suc f) (suc g) (suc a) b p q =
    rw (digits_enough f g (suc a / 2) (b / 2) (omega arith) (omega arith))

bit_xor_step : (a b : ℕ) → bit_xor a b ≡ bit_xor (a / 2) (b / 2) * 2 + differ (a % 2) (b % 2)
bit_xor_step zero b = simp bit_xor-bitwise (omega arith)
bit_xor_step (suc a) b =
    simp bit_xor-bitwise
      (omega (arith, digits_enough a (suc a / 2) (suc a / 2) (b / 2) (omega arith) (le_refl _)))

differ_digits : (x y : ℕ) → x < 2 → y < 2 → (differ x y < 2) × ((differ x y ≡ 0) ↔ (x ≡ y))
differ_digits zero zero p q = (omega arith, (λ _. refl, λ _. refl))
differ_digits zero (suc zero) p q = (omega arith, (λ e. sym e, λ e. sym e))
differ_digits (suc zero) zero p q = (omega arith, (λ e. e, λ e. e))
differ_digits (suc zero) (suc zero) p q = (omega arith, (λ _. refl, λ _. refl))
differ_digits _ _ p q = absurd (omega arith)

bit_xor-half : (a b : ℕ) → bit_xor a b / 2 ≡ bit_xor (a / 2) (b / 2)
bit_xor-half a b =
    omega (arith, bit_xor_step a b, (differ_digits (a % 2) (b % 2) (omega arith) (omega arith)).0)

half-div-pow : (a k : ℕ) → a / 2 ^ suc k ≡ a / 2 / 2 ^ k
half-div-pow a k = rw pow-succ' (sym (div-div-eq-div-mul a 2 (2 ^ k)))

bit_xor_self : (fuel a : ℕ) → a ≤ fuel → bit_xor a a ≡ 0
bit_xor_self fuel zero h = refl
bit_xor_self zero (suc a) h = absurd (omega arith)
bit_xor_self (suc fuel) (suc a) h = omega (
  arith,
  bit_xor_step (suc a) (suc a),
  bit_xor_self fuel (suc a / 2) (omega arith),
  (differ_digits (suc a % 2) (suc a % 2) (omega arith) (omega arith)).1.1 refl,
)

eq_of_bit_xor : (fuel a b : ℕ) → a ≤ fuel → b ≤ fuel → bit_xor a b ≡ 0 → a ≡ b
eq_of_bit_xor zero a b p q h = omega arith
eq_of_bit_xor (suc fuel) a b p q h =
    let halves : bit_xor (a / 2) (b / 2) ≡ 0 = omega (arith, bit_xor_step a b) in
    let lasts : differ (a % 2) (b % 2) ≡ 0 = omega (arith, bit_xor_step a b) in
    omega (
      arith,
      eq_of_bit_xor fuel (a / 2) (b / 2) (omega arith) (omega arith) halves,
      (differ_digits (a % 2) (b % 2) (omega arith) (omega arith)).1.0 lasts,
    )

-- Two numbers differ below bit k alone exactly when their quotients by 2 ^ k agree.
pub bit_xor_bound : (k a b : ℕ) → (bit_xor a b < 2 ^ k) ↔ (a / 2 ^ k ≡ b / 2 ^ k)
bit_xor_bound zero a b = (
  λ h. ap (λ x. x / 1) (eq_of_bit_xor (a + b) a b (omega arith) (omega arith) (omega arith)),
  λ e. rw (let same : a ≡ b = omega arith in same) (omega (arith, bit_xor_self b b (le_refl b))),
)
bit_xor_bound (suc k) a b = (
  λ h.
      half-div-pow a k
      ∙ (bit_xor_bound k (a / 2) (b / 2)).0 (omega (arith, bit_xor-half a b, pow-suc 2 k))
      ∙ sym (half-div-pow b k),
  λ e. omega (
    arith,
    bit_xor-half a b,
    pow-suc 2 k,
    (bit_xor_bound k (a / 2) (b / 2)).1 (sym (half-div-pow a k) ∙ e ∙ half-div-pow b k),
  ),
)
