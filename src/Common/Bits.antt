-- ===== src/Common/Bits.antt =====
-- `|` and `&` on words as arithmetic: both work on the high and the low part of their operands
-- apart, and a mask of ones keeps what stands under it.
mod Step
use Step.{bit_or_digit, bit_and_digit}
use mathlib.Core.Path.{ap}
use native.Mathlib.Nat.{pow-suc, one-le-pow, add-zero}
use os_assignment_hk.Common.{
  ℕ, zero, suc, ◌+◌, ◌-◌, ◌*◌, ◌/◌, ◌%◌, ◌^◌, ◌≤◌, ◌<◌, bit_and, bit_or, ◌≡◌, refl, arith,
}

shift_once : (k part : ℕ) → 2 * (part * 2 ^ k) ≡ part * 2 ^ suc k
shift_once k part = let two = pow-suc 2 k in omega (arith, ap (λ (power : ℕ). part * power) two)

bit_and-zero_below : (k a : ℕ) → a ≤ k → bit_and a 0 ≡ 0
bit_and-zero_below k zero h = refl
bit_and-zero_below zero (suc a) h = absurd (omega arith)
bit_and-zero_below (suc k) (suc a) h =
    omega (arith, bit_and_digit (suc a) 0, bit_and-zero_below k (suc a / 2) (omega arith))

pub bit_and-zero : (a : ℕ) → bit_and a 0 ≡ 0
bit_and-zero a = bit_and-zero_below a a (omega arith)

bit_or-zero_below : (k a : ℕ) → a ≤ k → bit_or a 0 ≡ a
bit_or-zero_below k zero h = refl
bit_or-zero_below zero (suc a) h = absurd (omega arith)
bit_or-zero_below (suc k) (suc a) h =
    omega (arith, bit_or_digit (suc a) 0, bit_or-zero_below k (suc a / 2) (omega arith))

pub bit_or-zero : (a : ℕ) → bit_or a 0 ≡ a
bit_or-zero a = bit_or-zero_below a a (omega arith)

zero-bit_or_below : (k a : ℕ) → a ≤ k → bit_or 0 a ≡ a
zero-bit_or_below k zero h = refl
zero-bit_or_below zero (suc a) h = absurd (omega arith)
zero-bit_or_below (suc k) (suc a) h =
    omega (arith, bit_or_digit 0 (suc a), zero-bit_or_below k (suc a / 2) (omega arith))

pub zero-bit_or : (a : ℕ) → bit_or 0 a ≡ a
zero-bit_or a = zero-bit_or_below a a (omega arith)

-- The parts of two words at the same place are combined apart.
pub bit_and_split :
    (k x y r s : ℕ)
    → r < 2 ^ k
    → s < 2 ^ k
    → bit_and (x * 2 ^ k + r) (y * 2 ^ k + s) ≡ bit_and x y * 2 ^ k + bit_and r s
bit_and_split zero x y r s hr hs = ground (arith, bit_and-zero 0)
bit_and_split (suc k) x y r s hr hs = ground (
  arith,
  bit_and_digit (x * 2 ^ suc k + r) (y * 2 ^ suc k + s),
  bit_and_digit r s,
  shift_once k x,
  shift_once k y,
  shift_once k (bit_and x y),
  pow-suc 2 k,
  bit_and_split k x y (r / 2) (s / 2) (omega arith) (omega arith),
)

pub bit_or_split :
    (k x y r s : ℕ)
    → r < 2 ^ k
    → s < 2 ^ k
    → bit_or (x * 2 ^ k + r) (y * 2 ^ k + s) ≡ bit_or x y * 2 ^ k + bit_or r s
bit_or_split zero x y r s hr hs = ground (arith, bit_or-zero 0)
bit_or_split (suc k) x y r s hr hs = ground (
  arith,
  bit_or_digit (x * 2 ^ suc k + r) (y * 2 ^ suc k + s),
  bit_or_digit r s,
  shift_once k x,
  shift_once k y,
  shift_once k (bit_or x y),
  pow-suc 2 k,
  bit_or_split k x y (r / 2) (s / 2) (omega arith) (omega arith),
)

-- A mask of `k` ones keeps a number below `2 ^ k`.
bit_and-ones_lt : (k a : ℕ) → a < 2 ^ k → bit_and a (2 ^ k - 1) ≡ a
bit_and-ones_lt zero a h = ground (arith, bit_and-zero 0)
bit_and-ones_lt (suc k) a h = ground (
  arith,
  bit_and_digit a (2 ^ suc k - 1),
  pow-suc 2 k,
  one-le-pow k 2,
  bit_and-ones_lt k (a / 2) (omega arith),
)

pub bit_and-ones : (k a : ℕ) → bit_and a (2 ^ k - 1) ≡ a % 2 ^ k
bit_and-ones k a = ground (
  arith,
  one-le-pow k 2,
  bit_and_split k (a / 2 ^ k) 0 (a % 2 ^ k) (2 ^ k - 1),
  bit_and-ones_lt k (a % 2 ^ k),
  bit_and-zero (a / 2 ^ k),
)

module _ (h w lo a f l : ℕ) (ha : a < 2 ^ h) (hf : f < 2 ^ w) (hl : l < 2 ^ lo) where
  -- A word in three parts, under a mask of ones on the outer two: the middle part is cleared.
  pub clear_middle :
      bit_and ((a * 2 ^ w + f) * 2 ^ lo + l) ((2 ^ h - 1) * 2 ^ w * 2 ^ lo + (2 ^ lo - 1))
      ≡ a * 2 ^ w * 2 ^ lo + l
  clear_middle = ground (
    arith,
    one-le-pow lo 2,
    one-le-pow w 2,
    bit_and_split lo (a * 2 ^ w + f) ((2 ^ h - 1) * 2 ^ w) l (2 ^ lo - 1),
    bit_and_split w a (2 ^ h - 1) f 0,
    bit_and-ones_lt h a,
    bit_and-ones_lt lo l,
    bit_and-zero f,
  )

  -- Under a mask of ones on the middle part alone that part is left.
  pub keep_middle : bit_and ((a * 2 ^ w + f) * 2 ^ lo + l) ((2 ^ w - 1) * 2 ^ lo) ≡ f * 2 ^ lo
  keep_middle = ground (
    arith,
    one-le-pow lo 2,
    bit_and_split lo (a * 2 ^ w + f) (2 ^ w - 1) l 0,
    one-le-pow w 2,
    bit_and_split w a 0 f (2 ^ w - 1),
    bit_and-ones_lt w f,
    bit_and-zero a,
    bit_and-zero l,
  )

  -- `|` of a word whose middle part is clear with a middle part alone joins the two.
  pub join_middle : bit_or (a * 2 ^ w * 2 ^ lo + l) (f * 2 ^ lo) ≡ (a * 2 ^ w + f) * 2 ^ lo + l
  join_middle = ground (
    arith,
    one-le-pow lo 2,
    one-le-pow w 2,
    bit_or_split lo (a * 2 ^ w) f l 0,
    bit_or_split w a 0 0 f,
    bit_or-zero a,
    zero-bit_or f,
    bit_or-zero l,
  )
