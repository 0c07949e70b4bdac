-- ===== src/Base/Words/Bits.antt =====
-- `|` of disjoint fields and `&` with a mask, as arithmetic, at every width.
use Prim.Native.Nat.{
  ℕ, zero, suc, ◌+◌, ◌-◌, ◌*◌, ◌/◌, ◌%◌, ◌^◌, ◌≤◌, ◌<◌, min, max, bit_and, bit_or, digits,
  bit_and-bitwise, bit_or-bitwise,
}
use mathlib.Core.Path.{◌≡◌, refl, ap, ap₂, ◌∙◌}
use native.Mathlib.Nat.{
  pow-suc, one-le-pow, mul_comm, mul-one, div-one, mul-div-le, mod-eq-sub-mul-div,
  div-div-eq-div-mul,
}
use native.Mathlib.Omega.{arith}

-- The native operations mean a recursion on binary digits with fuel; more fuel changes nothing.
module _ (z : ℕ → ℕ) (f : ℕ → ℕ → ℕ) where
  digits_more :
      (fuel more a b : ℕ) → a ≤ fuel → fuel ≤ more → digits z f more a b ≡ digits z f fuel a b
  digits_more zero zero a b p q = refl
  digits_more zero (suc more) zero b p q = refl
  digits_more zero (suc more) (suc a) b p q = absurd (omega arith)
  digits_more (suc fuel) zero a b p q = absurd (omega arith)
  digits_more (suc fuel) (suc more) zero b p q = refl
  digits_more (suc fuel) (suc more) (suc a) b p q =
      rw (digits_more fuel more (suc a / 2) (b / 2) (omega arith) (omega arith))

  digits_lowest :
      (a b : ℕ)
      → digits z f (suc a) (suc a) b
        ≡ digits z f (suc a / 2) (suc a / 2) (b / 2) * 2 + f (suc a % 2) (b % 2)
  digits_lowest a b =
      ap (λ (t : ℕ). t * 2 + f (suc a % 2) (b % 2))
        (digits_more (suc a / 2) a (suc a / 2) (b / 2) (omega arith) (omega arith))

zero-bit_or : (b : ℕ) → bit_or 0 b ≡ b
zero-bit_or b = bit_or-bitwise 0 b

zero-bit_and : (b : ℕ) → bit_and 0 b ≡ 0
zero-bit_and b = bit_and-bitwise 0 b

bit_or_lowest : (a b : ℕ) → bit_or a b ≡ bit_or (a / 2) (b / 2) * 2 + max (a % 2) (b % 2)
bit_or_lowest zero b = omega (arith, zero-bit_or b, zero-bit_or (b / 2))
bit_or_lowest (suc a) b = omega (
  arith,
  bit_or-bitwise (suc a) b,
  bit_or-bitwise (suc a / 2) (b / 2),
  digits_lowest (λ y. y) max a b,
)

bit_and_lowest : (a b : ℕ) → bit_and a b ≡ bit_and (a / 2) (b / 2) * 2 + min (a % 2) (b % 2)
bit_and_lowest zero b = omega (arith, zero-bit_and b, zero-bit_and (b / 2))
bit_and_lowest (suc a) b = omega (
  arith,
  bit_and-bitwise (suc a) b,
  bit_and-bitwise (suc a / 2) (b / 2),
  digits_lowest (λ y. 0) min a b,
)

pow_suc_product : (q k : ℕ) → q * 2 ^ suc k ≡ q * 2 ^ k * 2
pow_suc_product q k = omega (arith, ap (λ (t : ℕ). q * t) (pow-suc 2 k))

half_product : (q k : ℕ) → q * 2 ^ suc k / 2 ≡ q * 2 ^ k
half_product q k = omega (arith, pow_suc_product q k)

-- `r | q << k` is a sum when `r` has `k` bits.
pub bit_or_fields : (k r q : ℕ) → r < 2 ^ k → bit_or r (q * 2 ^ k) ≡ r + q * 2 ^ k
bit_or_fields zero zero q h = omega (arith, zero-bit_or (q * 1))
bit_or_fields zero (suc r) q h = absurd (omega arith)
bit_or_fields (suc k) r q h = omega (
  arith,
  bit_or_lowest r (q * 2 ^ suc k),
  pow_suc_product q k,
  pow-suc 2 k,
  ap (bit_or (r / 2)) (half_product q k),
  bit_or_fields k (r / 2) q (omega (arith, pow-suc 2 k)),
)

bit_and-zero_fuel : (fuel a : ℕ) → a ≤ fuel → bit_and a 0 ≡ 0
bit_and-zero_fuel fuel zero h = zero-bit_and 0
bit_and-zero_fuel zero (suc a) h = absurd (omega arith)
bit_and-zero_fuel (suc fuel) (suc a) h =
    omega (arith, bit_and_lowest (suc a) 0, bit_and-zero_fuel fuel (suc a / 2) (omega arith))

bit_and-zero : (a : ℕ) → bit_and a 0 ≡ 0
bit_and-zero a = bit_and-zero_fuel a a (omega arith)

mask_half : (k : ℕ) → (2 ^ suc k - 1) / 2 ≡ 2 ^ k - 1
mask_half k = omega (arith, pow-suc 2 k, one-le-pow k 2 (omega arith))

mod_double : (a m : ℕ) → a % (m * 2) ≡ a / 2 % m * 2 + a % 2
mod_double a m = omega (
  arith,
  ap (λ (n : ℕ). a % n) (mul_comm m 2),
  mod-eq-sub-mul-div a (2 * m),
  mod-eq-sub-mul-div (a / 2) m,
  mul-div-le (a / 2) m,
  ap (λ (t : ℕ). m * t) (div-div-eq-div-mul a 2 m),
)

-- A mask of `k` low ones is the remainder by `2 ^ k`.
pub bit_and_mask : (k a : ℕ) → bit_and a (2 ^ k - 1) ≡ a % 2 ^ k
bit_and_mask zero a = omega (arith, bit_and-zero a)
bit_and_mask (suc k) a = omega (
  arith,
  bit_and_lowest a (2 ^ suc k - 1),
  mask_half k,
  ap (bit_and (a / 2)) (mask_half k),
  bit_and_mask k (a / 2),
  pow-suc 2 k,
  one-le-pow k 2 (omega arith),
  ap (λ (m : ℕ). a % m) (pow-suc 2 k),
  mod_double a (2 ^ k),
)

div_pow_suc : (a k : ℕ) → a / 2 / 2 ^ k ≡ a / 2 ^ suc k
div_pow_suc a k =
    div-div-eq-div-mul a 2 (2 ^ k) ∙ ap (λ (m : ℕ). a / m) (omega (arith, pow-suc 2 k))

-- A mask with `k` low zeros is a mask of the quotient by `2 ^ k`.
pub bit_and_shifted : (k a q : ℕ) → bit_and a (q * 2 ^ k) ≡ bit_and (a / 2 ^ k) q * 2 ^ k
bit_and_shifted zero a q = simp (mul-one, div-one)
bit_and_shifted (suc k) a q = omega (
  arith,
  bit_and_lowest a (q * 2 ^ suc k),
  pow_suc_product q k,
  ap (bit_and (a / 2)) (half_product q k),
  bit_and_shifted k (a / 2) q,
  pow_suc_product (bit_and (a / 2 / 2 ^ k) q) k,
  ap (λ (t : ℕ). bit_and t q * 2 ^ suc k) (div_pow_suc a k),
)

bit_or_comm_fuel : (fuel a b : ℕ) → a ≤ fuel → b ≤ fuel → bit_or a b ≡ bit_or b a
bit_or_comm_fuel zero a b p q = ap₂ bit_or e f
  where
    e : a ≡ b
    e = omega arith

    f : b ≡ a
    f = omega arith
bit_or_comm_fuel (suc fuel) a b p q = omega (
  arith,
  bit_or_lowest a b,
  bit_or_lowest b a,
  bit_or_comm_fuel fuel (a / 2) (b / 2) (omega arith) (omega arith),
)

pub bit_or_comm : (a b : ℕ) → bit_or a b ≡ bit_or b a
bit_or_comm a b = bit_or_comm_fuel (a + b) a b (omega arith) (omega arith)
