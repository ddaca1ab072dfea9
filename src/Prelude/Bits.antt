-- ===== src/Prelude/Bits.antt =====
-- Masks and bit fields as arithmetic, for every width.
use Prim.Native.Nat.{
  ℕ, zero, suc, ◌+◌, ◌-◌, ◌*◌, ◌/◌, ◌%◌, ◌^◌, ◌≤◌, ◌<◌, min, max, digits, bit_and, bit_or,
  bit_and-bitwise, bit_or-bitwise,
}
use mathlib.Core.Path.{◌≡◌, refl, ap, ◌∙◌}
use native.Mathlib.Nat.{pow-suc, one-le-pow, add-mod_left}
use native.Mathlib.Omega.{arith}

-- The digit recursion does not depend on its count of digits, once that is large enough.
module _ (z : ℕ → ℕ) (f : ℕ → ℕ → ℕ) where
  digits_count : (n m a b : ℕ) → a ≤ n → a ≤ m → digits z f n a b ≡ digits z f m a b
  digits_count zero zero a b p q = refl
  digits_count zero (suc m) zero b p q = refl
  digits_count zero (suc m) (suc a) b p q = absurd (omega arith)
  digits_count (suc n) zero zero b p q = refl
  digits_count (suc n) zero (suc a) b p q = absurd (omega arith)
  digits_count (suc n) (suc m) zero b p q = refl
  digits_count (suc n) (suc m) (suc a) b p q =
      rw (digits_count n m (suc a / 2) (b / 2) (omega arith) (omega arith))

-- One equation for the lowest digit.
pub bit_and-lowest : (a b : ℕ) → bit_and a b ≡ bit_and (a / 2) (b / 2) * 2 + min (a % 2) (b % 2)
bit_and-lowest zero b = omega (arith, bit_and-bitwise 0 b, bit_and-bitwise 0 (b / 2))
bit_and-lowest (suc a) b = omega (
  arith,
  bit_and-bitwise (suc a) b,
  bit_and-bitwise (suc a / 2) (b / 2),
  digits_count (λ _. 0) min a (suc a / 2) (suc a / 2) (b / 2) (omega arith) (omega arith),
)

pub bit_or-lowest : (a b : ℕ) → bit_or a b ≡ bit_or (a / 2) (b / 2) * 2 + max (a % 2) (b % 2)
bit_or-lowest zero b = omega (arith, bit_or-bitwise 0 b, bit_or-bitwise 0 (b / 2))
bit_or-lowest (suc a) b = omega (
  arith,
  bit_or-bitwise (suc a) b,
  bit_or-bitwise (suc a / 2) (b / 2),
  digits_count (λ y. y) max a (suc a / 2) (suc a / 2) (b / 2) (omega arith) (omega arith),
)

bit_and-zero_upto : (n a : ℕ) → a ≤ n → bit_and a 0 ≡ 0
bit_and-zero_upto n zero h = refl
bit_and-zero_upto zero (suc a) h = absurd (omega arith)
bit_and-zero_upto (suc n) (suc a) h =
    omega (arith, bit_and-lowest (suc a) 0, bit_and-zero_upto n (suc a / 2) (omega arith))

bit_or-zero_upto : (n a : ℕ) → a ≤ n → bit_or a 0 ≡ a
bit_or-zero_upto n zero h = refl
bit_or-zero_upto zero (suc a) h = absurd (omega arith)
bit_or-zero_upto (suc n) (suc a) h =
    omega (arith, bit_or-lowest (suc a) 0, bit_or-zero_upto n (suc a / 2) (omega arith))

pub mul-pow-suc : (q k : ℕ) → q * 2 ^ suc k ≡ 2 * (q * 2 ^ k)
mul-pow-suc q k = omega (arith, ap (λ (t : ℕ). q * t) (pow-suc 2 k))

-- `a & (2^k - 1)`, of a number by its high part and its low `k` bits.
and_low : (k q r : ℕ) → r < 2 ^ k → bit_and (q * 2 ^ k + r) (2 ^ k - 1) ≡ r
and_low zero q r h = omega (arith, bit_and-zero_upto (q * 1 + r) (q * 1 + r) (omega arith))
and_low (suc k) q r h = ground (
  arith,
  bit_and-lowest (q * 2 ^ suc k + r) (2 ^ suc k - 1),
  mul-pow-suc q k,
  pow-suc 2 k,
  one-le-pow k 2,
  and_low k q (r / 2) (omega (arith, pow-suc 2 k)),
)

-- `a | (2^k - 1)`: the low `k` bits are set.
or_low : (k q r : ℕ) → r < 2 ^ k → bit_or (q * 2 ^ k + r) (2 ^ k - 1) ≡ q * 2 ^ k + (2 ^ k - 1)
or_low zero q r h = omega (arith, bit_or-zero_upto (q * 1 + r) (q * 1 + r) (omega arith))
or_low (suc k) q r h = ground (
  arith,
  bit_or-lowest (q * 2 ^ suc k + r) (2 ^ suc k - 1),
  mul-pow-suc q k,
  pow-suc 2 k,
  one-le-pow k 2,
  or_low k q (r / 2) (omega (arith, pow-suc 2 k)),
)

-- `r | (q << k)` is a sum where `r` fits `k` bits.
pub bit_or_fields : (k q r : ℕ) → r < 2 ^ k → bit_or r (q * 2 ^ k) ≡ q * 2 ^ k + r
bit_or_fields zero q r h = ground (arith, bit_or-bitwise 0 (q * 1))
bit_or_fields (suc k) q r h = ground (
  arith,
  bit_or-lowest r (q * 2 ^ suc k),
  mul-pow-suc q k,
  bit_or_fields k q (r / 2) (omega (arith, pow-suc 2 k)),
)

-- `a & (2^k - 1)` is the remainder by 2^k.
pub bit_and_mask : (k a : ℕ) → bit_and a (2 ^ k - 1) ≡ a % 2 ^ k
bit_and_mask k a = ground (arith, one-le-pow k 2, and_low k (a / 2 ^ k) (a % 2 ^ k))

-- `a | (2^k - 1)` rounds up to the end of its block of 2^k.
pub bit_or_mask : (k a : ℕ) → bit_or a (2 ^ k - 1) ≡ a / 2 ^ k * 2 ^ k + (2 ^ k - 1)
bit_or_mask k a = ground (arith, one-le-pow k 2, or_low k (a / 2 ^ k) (a % 2 ^ k))

-- A remainder does not see a multiple.
pub mul-add-mod : (q m r : ℕ) → (q * m + r) % m ≡ r % m
mul-add-mod zero m r = ap (λ t. t % m) (omega arith)
mul-add-mod (suc q) m r =
    ap (λ t. t % m) (omega arith) ∙ add-mod_left m (q * m + r) ∙ mul-add-mod q m r

pub pow-add : (a b : ℕ) → 2 ^ (a + b) ≡ 2 ^ a * 2 ^ b
pow-add zero b = let e : 0 + b ≡ b = omega arith in ap (λ t. 2 ^ t) e ∙ omega arith
pow-add (suc a) b =
    let e : suc a + b ≡ suc (a + b) = omega arith in
    ap (λ t. 2 ^ t) e
    ∙ omega (arith, pow-suc 2 (a + b), pow-add a b, ap (λ (t : ℕ). t * 2 ^ b) (pow-suc 2 a))

-- The low `k` bits of a number are those of its low `k + j` bits.
pub mod-mod-pow : (j k q r : ℕ) → (q * 2 ^ (j + k) + r) % 2 ^ k ≡ r % 2 ^ k
mod-mod-pow j k q r =
    ap (λ t. (t + r) % 2 ^ k) (omega (arith, ap (λ (t : ℕ). q * t) (pow-add j k)))
    ∙ mul-add-mod (q * 2 ^ j) (2 ^ k) r
