-- ===== src/Masks.antt =====
-- The masks of kvm/imee.c: EPT_MASK, HPA_MASK and GPA_MASK, used as `x & ~MASK` and `x & MASK`.
use imee.Base.{
  ℕ, zero, suc, ◌+◌, ◌-◌, ◌*◌, ◌/◌, ◌%◌, ◌^◌, ◌<◌, ◌≡◌, arith, bit_and, bit_or, bit_or_split,
  bit_or_step, bit_and_split, bit_or-zero, zero-bit_or, bit_and-zero, bit_and-ones, ones,
}
use native.Mathlib.Nat.{pow-suc}

-- `x & ~EPT_MASK`, and `x & ~HPA_MASK`, which is the same mask: bits 12 to 62 of a 64-bit word.
unfoldable pub frame_bits : ℕ → ℕ
frame_bits x = bit_and x 0x7FFF_FFFF_FFFF_F000

-- `x & EPT_MASK`: bit 63 and bits 0 to 11.
unfoldable pub flag_bits : ℕ → ℕ
flag_bits x = bit_and x 0x8000_0000_0000_0FFF

-- `x & 0xFFFU`
unfoldable pub low_bits : ℕ → ℕ
low_bits x = bit_and x 0xFFF

-- `x & ~GPA_MASK` and `x & ~0xFFFU` of a 32-bit word.
unfoldable pub page_bits : ℕ → ℕ
page_bits x = bit_and x 0xFFFF_F000

pub frame_bits-add : (q r : ℕ) → q < 2 ^ 51 → r < 4096 → frame_bits (q * 4096 + r) ≡ q * 4096
unfolding frame_bits ones
frame_bits-add q r hq hr =
    ground (arith, bit_and_split 12 q r (2 ^ 51 - 1) 0, bit_and-zero r, bit_and-ones 51 0 q)

pub frame_bits_lem : (x : ℕ) → frame_bits x ≡ x / 4096 % 2 ^ 51 * 4096
unfolding frame_bits ones
frame_bits_lem x = ground (
  arith,
  bit_and_split 12 (x / 4096) (x % 4096) (2 ^ 51 - 1) 0,
  bit_and-zero (x % 4096),
  bit_and-ones 51 (x / 4096 / 2 ^ 51) (x / 4096 % 2 ^ 51),
)

pub low_bits_lem : (x : ℕ) → low_bits x ≡ x % 4096
unfolding low_bits ones
low_bits_lem x = ground (arith, bit_and-ones 12 (x / 4096) (x % 4096))

pub page_bits_lem : (x : ℕ) → x < 2 ^ 32 → page_bits x ≡ x / 4096 * 4096
unfolding page_bits ones
page_bits_lem x h = ground (
  arith,
  bit_and_split 12 (x / 4096) (x % 4096) (2 ^ 20 - 1) 0,
  bit_and-zero (x % 4096),
  bit_and-ones 20 0 (x / 4096),
)

-- `|` of an aligned number with a number below the page size is a sum.
pub bit_or-aligned : (q r : ℕ) → r < 4096 → bit_or (q * 4096) r ≡ q * 4096 + r
bit_or-aligned q r h = ground (arith, bit_or_split 12 q 0 0 r, bit_or-zero q, zero-bit_or r)

-- `|` of numbers below a power of two stays below it.
pub bit_or-lt : (k r s : ℕ) → r < 2 ^ k → s < 2 ^ k → bit_or r s < 2 ^ k
bit_or-lt zero r s hr hs =
    let er : r ≡ 0 = omega arith in let es : s ≡ 0 = omega arith in rw (er, es) (omega arith)
bit_or-lt (suc k) r s hr hs =
    ground (arith, pow-suc 2 k, bit_or_step r s, bit_or-lt k (r / 2) (s / 2))

-- The frame and the low flags of an entry `(hpa & ~EPT_MASK) | (perm & 0xFFF)`.
pub frame_bits-entry :
    (hpa perm : ℕ) → frame_bits (bit_or (frame_bits hpa) (low_bits perm)) ≡ frame_bits hpa
frame_bits-entry hpa perm = ground (
  arith,
  frame_bits_lem hpa,
  low_bits_lem perm,
  bit_or-aligned (hpa / 4096 % 2 ^ 51) (perm % 4096),
  frame_bits-add (hpa / 4096 % 2 ^ 51) (perm % 4096),
)

pub entry-mod : (hpa perm : ℕ) → bit_or (frame_bits hpa) (low_bits perm) % 8 ≡ perm % 8
entry-mod hpa perm = ground (
  arith,
  frame_bits_lem hpa,
  low_bits_lem perm,
  bit_or-aligned (hpa / 4096 % 2 ^ 51) (perm % 4096),
)

-- And with the memory type of a new entry.
new_entry :
    (hpa perm : ℕ)
    → bit_or (bit_or (frame_bits hpa) (low_bits perm)) 0x270
      ≡ hpa / 4096 % 2 ^ 51 * 4096 + bit_or (perm % 4096) 0x270
new_entry hpa perm = ground (
  arith,
  frame_bits_lem hpa,
  low_bits_lem perm,
  bit_or-aligned (hpa / 4096 % 2 ^ 51) (perm % 4096),
  bit_or_split 12 (hpa / 4096 % 2 ^ 51) (perm % 4096) 0 0x270,
  bit_or-zero (hpa / 4096 % 2 ^ 51),
)

pub frame_bits-new_entry :
    (hpa perm : ℕ)
    → frame_bits (bit_or (bit_or (frame_bits hpa) (low_bits perm)) 0x270) ≡ frame_bits hpa
frame_bits-new_entry hpa perm = ground (
  arith,
  new_entry hpa perm,
  frame_bits_lem hpa,
  bit_or-lt 12 (perm % 4096) 0x270,
  frame_bits-add (hpa / 4096 % 2 ^ 51) (bit_or (perm % 4096) 0x270),
)

pub new_entry-mod :
    (hpa perm : ℕ) → bit_or (bit_or (frame_bits hpa) (low_bits perm)) 0x270 % 8 ≡ perm % 8
new_entry-mod hpa perm = ground (
  arith,
  new_entry hpa perm,
  bit_or_split 3 (perm % 4096 / 8) (perm % 8) 78 0,
  bit_or-zero (perm % 8),
)

pub flag_bits_lem : (x : ℕ) → flag_bits x ≡ x / 2 ^ 63 % 2 * 2 ^ 63 + x % 4096
unfolding flag_bits ones
flag_bits_lem x = ground (
  arith,
  bit_and_split 63 (x / 2 ^ 63) (x % 2 ^ 63) 1 4095,
  bit_and-ones 1 (x / 2 ^ 63 / 2) (x / 2 ^ 63 % 2),
  bit_and-ones 12 (x % 2 ^ 63 / 4096) (x % 4096),
)
