-- ===== src/Base/Bits.antt =====
-- `&` and `|` at the masks of the paging structures, as arithmetic.
use Prim.Native.Nat.{
  ℕ, zero, suc, ◌+◌, ◌*◌, ◌/◌, ◌%◌, ◌^◌, ◌≤◌, ◌<◌, min, max, digits, bit_and, bit_or,
  bit_and-bitwise, bit_or-bitwise,
}
use mathlib.Core.Path.{◌≡◌, refl, ap}
use native.Mathlib.Nat.{pow-suc}
use native.Mathlib.Omega.{arith}

-- The fuel of the digit recursion does not matter once it covers the first number.
module _ (tail : ℕ → ℕ) (digit : ℕ → ℕ → ℕ) where
  digits_any_fuel :
      (m n x y : ℕ) → x ≤ m → x ≤ n → digits tail digit m x y ≡ digits tail digit n x y
  digits_any_fuel (suc m) (suc n) (suc x) y hm hn =
      omega (arith, digits_any_fuel m n (suc x / 2) (y / 2) (omega arith) (omega arith))
  digits_any_fuel (suc m) (suc n) zero y hm hn = refl
  digits_any_fuel (suc m) zero zero y hm hn = refl
  digits_any_fuel (suc m) zero (suc x) y hm hn = absurd (omega arith)
  digits_any_fuel zero (suc n) zero y hm hn = refl
  digits_any_fuel zero zero zero y hm hn = refl
  digits_any_fuel zero n (suc x) y hm hn = absurd (omega arith)

  low_digit :
      (x y : ℕ)
      → digits tail digit (suc x) (suc x) y
        ≡ digit (suc x % 2) (y % 2) + 2 * digits tail digit (suc x / 2) (suc x / 2) (y / 2)
  low_digit x y =
      omega (arith, digits_any_fuel x (suc x / 2) (suc x / 2) (y / 2) (omega arith) (omega arith))

-- The lowest digit of a conjunction, and what is above it.
pub bit_and_step : (x y : ℕ) → bit_and x y ≡ min (x % 2) (y % 2) + 2 * bit_and (x / 2) (y / 2)
bit_and_step zero y = ground (arith, bit_and-bitwise 0 y, bit_and-bitwise 0 (y / 2))
bit_and_step (suc x) y = omega (
  arith,
  bit_and-bitwise (suc x) y,
  bit_and-bitwise (suc x / 2) (y / 2),
  low_digit (λ _. 0) min x y,
)

-- The same of a disjunction.
pub bit_or_step : (x y : ℕ) → bit_or x y ≡ max (x % 2) (y % 2) + 2 * bit_or (x / 2) (y / 2)
bit_or_step zero y = ground (arith, bit_or-bitwise 0 y, bit_or-bitwise 0 (y / 2))
bit_or_step (suc x) y = omega (
  arith,
  bit_or-bitwise (suc x) y,
  bit_or-bitwise (suc x / 2) (y / 2),
  low_digit (λ r. r) max x y,
)

below-bit_or : (n a : ℕ) → a ≤ n → bit_or a 0 ≡ a
below-bit_or n zero h = refl
below-bit_or zero (suc a) h = absurd (omega arith)
below-bit_or (suc n) (suc a) h =
    omega (arith, bit_or_step (suc a) 0, below-bit_or n (suc a / 2) (omega arith))

pub bit_or-zero : (a : ℕ) → bit_or a 0 ≡ a
bit_or-zero a = below-bit_or a a (omega arith)

pub zero-bit_or : (b : ℕ) → bit_or 0 b ≡ b
zero-bit_or b = bit_or-bitwise 0 b

below-bit_and : (n a : ℕ) → a ≤ n → bit_and a 0 ≡ 0
below-bit_and n zero h = refl
below-bit_and zero (suc a) h = absurd (omega arith)
below-bit_and (suc n) (suc a) h =
    omega (arith, bit_and_step (suc a) 0, below-bit_and n (suc a / 2) (omega arith))

pub bit_and-zero : (a : ℕ) → bit_and a 0 ≡ 0
bit_and-zero a = below-bit_and a a (omega arith)

-- A multiple of a power of two, twice.
mul-two-pow : (q k : ℕ) → q * 2 ^ suc k ≡ q * 2 ^ k * 2
mul-two-pow q k = omega (arith, ap (λ (t : ℕ). q * t) (pow-suc 2 k))

-- Both numbers are split at bit `k`, and the halves are joined apart.
pub bit_or_split :
    (k q r p s : ℕ)
    → r < 2 ^ k
    → s < 2 ^ k
    → bit_or (q * 2 ^ k + r) (p * 2 ^ k + s) ≡ bit_or q p * 2 ^ k + bit_or r s
bit_or_split zero q r p s hr hs = ground arith
bit_or_split (suc k) q r p s hr hs = ground (
  arith,
  mul-two-pow q k,
  mul-two-pow p k,
  mul-two-pow (bit_or q p) k,
  pow-suc 2 k,
  bit_or_step (q * 2 ^ suc k + r) (p * 2 ^ suc k + s),
  bit_or_step r s,
  bit_or_split k q (r / 2) p (s / 2),
)

pub bit_and_split :
    (k q r p s : ℕ)
    → r < 2 ^ k
    → s < 2 ^ k
    → bit_and (q * 2 ^ k + r) (p * 2 ^ k + s) ≡ bit_and q p * 2 ^ k + bit_and r s
bit_and_split zero q r p s hr hs = ground arith
bit_and_split (suc k) q r p s hr hs = ground (
  arith,
  mul-two-pow q k,
  mul-two-pow p k,
  mul-two-pow (bit_and q p) k,
  pow-suc 2 k,
  bit_and_step (q * 2 ^ suc k + r) (p * 2 ^ suc k + s),
  bit_and_step r s,
  bit_and_split k q (r / 2) p (s / 2),
)

unfoldable pub ones : ℕ → ℕ
ones zero = 0
ones (suc k) = ones k * 2 + 1

-- A mask of `k` ones keeps the remainder by `2 ^ k`.
pub bit_and-ones : (k q r : ℕ) → r < 2 ^ k → bit_and (q * 2 ^ k + r) (ones k) ≡ r
unfolding ones
bit_and-ones zero q r h = rw bit_and-zero (omega arith)
bit_and-ones (suc k) q r h = ground (
  arith,
  mul-two-pow q k,
  pow-suc 2 k,
  bit_and_step (q * 2 ^ suc k + r) (ones k * 2 + 1),
  bit_and-ones k q (r / 2),
)

below-bit_or_same : (n a : ℕ) → a ≤ n → bit_or a a ≡ a
below-bit_or_same n zero h = refl
below-bit_or_same zero (suc a) h = absurd (omega arith)
below-bit_or_same (suc n) (suc a) h =
    omega (arith, bit_or_step (suc a) (suc a), below-bit_or_same n (suc a / 2) (omega arith))

pub bit_or-same : (a : ℕ) → bit_or a a ≡ a
bit_or-same a = below-bit_or_same a a (omega arith)

below-bit_and_same : (n a : ℕ) → a ≤ n → bit_and a a ≡ a
below-bit_and_same n zero h = refl
below-bit_and_same zero (suc a) h = absurd (omega arith)
below-bit_and_same (suc n) (suc a) h =
    omega (arith, bit_and_step (suc a) (suc a), below-bit_and_same n (suc a / 2) (omega arith))

pub bit_and-same : (a : ℕ) → bit_and a a ≡ a
bit_and-same a = below-bit_and_same a a (omega arith)
