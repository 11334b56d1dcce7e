-- ===== src/Common/Bits/Step.antt =====
-- One equation for the lowest digit of `|` and `&`, from the digit recursion that the native
-- operations stand for.
use Prim.Native.Nat.{digits, bitwise, bit_and-bitwise, bit_or-bitwise}
use Prim.Native.Nat.{ℕ, zero, suc, ◌+◌, ◌*◌, ◌/◌, ◌%◌, ◌≤◌, min, max, bit_and, bit_or}
use mathlib.Core.Path.{◌≡◌, refl}
use native.Mathlib.Omega.{arith}

module _ (z : ℕ → ℕ) (f : ℕ → ℕ → ℕ) where
  -- Fuel past the first operand changes nothing.
  enough : (a b fuel more : ℕ) → a ≤ fuel → a ≤ more → digits z f fuel a b ≡ digits z f more a b
  enough zero b zero zero _ _ = refl
  enough zero b zero (suc more) _ _ = refl
  enough zero b (suc fuel) zero _ _ = refl
  enough zero b (suc fuel) (suc more) _ _ = refl
  enough (suc a) b zero more h _ = absurd (omega arith)
  enough (suc a) b (suc fuel) zero _ h = absurd (omega arith)
  enough (suc a) b (suc fuel) (suc more) h k =
      let half = suc a / 2 in
      let halves = enough half (b / 2) fuel more (omega arith) (omega arith) in rw halves

  low_digit :
      (a b : ℕ)
      → bitwise z f (suc a) b ≡ f (suc a % 2) (b % 2) + 2 * bitwise z f (suc a / 2) (b / 2)
  low_digit a b =
      let half = suc a / 2 in omega (arith, enough half (b / 2) a half (omega arith) (omega arith))

pub bit_or_digit : (a b : ℕ) → bit_or a b ≡ max (a % 2) (b % 2) + 2 * bit_or (a / 2) (b / 2)
bit_or_digit zero b = rw (bit_or-bitwise 0 b, bit_or-bitwise (0 / 2) (b / 2)) (omega arith)
bit_or_digit (suc a) b =
    rw (bit_or-bitwise (suc a) b, bit_or-bitwise (suc a / 2) (b / 2)) (low_digit _ max a b)

pub bit_and_digit : (a b : ℕ) → bit_and a b ≡ min (a % 2) (b % 2) + 2 * bit_and (a / 2) (b / 2)
bit_and_digit zero b = rw (bit_and-bitwise 0 b, bit_and-bitwise (0 / 2) (b / 2)) (omega arith)
bit_and_digit (suc a) b =
    rw (bit_and-bitwise (suc a) b, bit_and-bitwise (suc a / 2) (b / 2)) (low_digit _ min a b)
