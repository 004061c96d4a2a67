-- ===== src/Common/Bits.antt =====
-- Masks of low ones, and the clearing of bits, as arithmetic.
use Prim.Native.Nat.{
  ℕ, zero, suc, ◌+◌, ◌-◌, ◌*◌, ◌/◌, ◌%◌, ◌^◌, ◌≤◌, ◌<◌, min, max, bit_and, bit_or, digits,
  bit_and-bitwise, bit_or-bitwise, bit_xor, bit_xor-bitwise, differ,
}
use mathlib.Core.Path.{◌≡◌, refl, ◌∙◌, ap}
use native.Mathlib.Nat.{
  pow-suc, one-le-pow, mul-add-mod_self_left, mod-eq_of_lt, div-add-mod, mod-lt,
}
use native.Mathlib.Omega.{arith}

-- `a & ~m` in a word that holds `a`: the bits that `a` shares with `m` are taken away.
abbrev pub and_not : ℕ → ℕ → ℕ
and_not a m = a - bit_and a m

-- The remainder is told by any quotient and remainder.
pub mod_unique : (m q r x : ℕ) → x ≡ m * q + r → r < m → x % m ≡ r
mod_unique m q r x e h = rw e (mul-add-mod_self_left m q r ∙ mod-eq_of_lt h)

pub mod_double : (a n : ℕ) → 0 < n → a % (2 * n) ≡ 2 * (a / 2 % n) + a % 2
mod_double a n h =
    mod_unique (2 * n) (a / 2 / n) (2 * (a / 2 % n) + a % 2) a
      (omega (arith, div-add-mod (a / 2) n)) (omega (arith, mod-lt (a / 2) h))

and_mask_fuel : (n k a : ℕ) → a ≤ n → digits (λ b. zero) min n a (2 ^ k - 1) ≡ a % 2 ^ k
and_mask_fuel zero k zero h = omega (arith, one-le-pow k 2 (omega arith))
and_mask_fuel zero k (suc a) h = elim h [ ]
and_mask_fuel (suc n) k zero h = omega (arith, one-le-pow k 2 (omega arith))
and_mask_fuel (suc n) zero (suc a) h = omega (arith, and_mask_fuel n zero (suc a / 2) (omega arith))
and_mask_fuel (suc n) (suc k) (suc a) h = omega (
  arith,
  and_mask_fuel n k (suc a / 2) (omega arith),
  ap (λ b. digits (λ b. zero) min n (suc a / 2) b) half_mask,
  pow-suc 2 k,
  one-le-pow k 2 (omega arith),
  mod_double (suc a) (2 ^ k) (one-le-pow k 2 (omega arith)),
  ap (λ t. suc a % t) doubled,
)
  where
    doubled : 2 ^ suc k ≡ 2 * 2 ^ k
    doubled = omega (arith, pow-suc 2 k)

    half_mask : (2 ^ suc k - 1) / 2 ≡ 2 ^ k - 1
    half_mask = omega (arith, pow-suc 2 k, one-le-pow k 2 (omega arith))

-- A mask of `k` low ones keeps the remainder by `2 ^ k`.
pub bit_and-mask : (k a : ℕ) → bit_and a (2 ^ k - 1) ≡ a % 2 ^ k
bit_and-mask k a = bit_and-bitwise a (2 ^ k - 1) ∙ and_mask_fuel a k a (omega arith)

pub and_not-mask : (k a : ℕ) → and_not a (2 ^ k - 1) ≡ a - a % 2 ^ k
and_not-mask k a = ap (λ t. a - t) (bit_and-mask k a)

or_fields_fuel :
    (n k q r : ℕ) → r ≤ n → r < 2 ^ k → digits (λ b. b) max n r (q * 2 ^ k) ≡ r + q * 2 ^ k
or_fields_fuel zero k q zero h lt = omega arith
or_fields_fuel zero k q (suc r) h lt = elim h [ ]
or_fields_fuel (suc n) k q zero h lt = omega arith
or_fields_fuel (suc n) zero q (suc r) h lt = absurd (omega arith)
or_fields_fuel (suc n) (suc k) q (suc r) h lt = omega (
  arith,
  or_fields_fuel n k q (suc r / 2) (omega arith) (omega (arith, pow-suc 2 k)),
  ap (λ b. digits (λ b. b) max n (suc r / 2) b) half,
  doubled,
)
  where
    doubled : q * 2 ^ suc k ≡ 2 * (q * 2 ^ k)
    doubled = omega (arith, ap (λ (t : ℕ). q * t) (pow-suc 2 k))

    half : (q * 2 ^ suc k) / 2 ≡ q * 2 ^ k
    half = omega (arith, doubled)

-- `low | (high << k)` is a sum where `low` fits `k` bits.
pub bit_or-fields : (k q r : ℕ) → r < 2 ^ k → bit_or r (q * 2 ^ k) ≡ r + q * 2 ^ k
bit_or-fields k q r lt = bit_or-bitwise r (q * 2 ^ k) ∙ or_fields_fuel r k q r (omega arith) lt

-- The lowest bit of a conjunction.
pub bit_and-low : (a b : ℕ) → bit_and a b % 2 ≡ min (a % 2) (b % 2)
bit_and-low zero b = omega (arith, bit_and-bitwise 0 b)
bit_and-low (suc a) b = omega (arith, bit_and-bitwise (suc a) b)

differ-low : (x y : ℕ) → x < 2 → y < 2 → differ x y ≡ (x + y) % 2
differ-low zero y hx hy = omega arith
differ-low (suc zero) zero hx hy = refl
differ-low (suc zero) (suc zero) hx hy = refl
differ-low (suc zero) (suc (suc y)) hx hy = absurd (omega arith)
differ-low (suc (suc x)) y hx hy = absurd (omega arith)

-- The lowest bit of an exclusive or.
pub bit_xor-low : (a b : ℕ) → bit_xor a b % 2 ≡ (a + b) % 2
bit_xor-low zero b = omega (arith, bit_xor-bitwise 0 b)
bit_xor-low (suc a) b =
    omega
      (arith, bit_xor-bitwise (suc a) b, differ-low (suc a % 2) (b % 2) (omega arith) (omega arith))

pub bit_and-one : (a : ℕ) → bit_and a 1 ≡ a % 2
bit_and-one a = bit_and-mask 1 a
