-- ===== src/Common/Sum.antt =====
-- Sums of a family of numbers over the indices below a bound.
use Prim.Native.Nat.{ℕ, zero, suc, ◌+◌, ◌≤◌, ◌<◌}
use mathlib.Core.Path.{◌≡◌, refl}
use mathlib.Core.Logic.{◌≢◌}
use native.Mathlib.Decide.{ℕ_discrete}
use native.Mathlib.Omega.{arith}

unfoldable pub total : ℕ → (ℕ → ℕ) → ℕ
total zero f = 0
total (suc n) f = f n + total n f

pub total_congr : (n : ℕ) (f g : ℕ → ℕ) → ((j : ℕ) → j < n → f j ≡ g j) → total n f ≡ total n g
unfolding total
total_congr zero f g h = refl
total_congr (suc n) f g h =
    omega (arith, h n (omega arith), total_congr n f g (λ j lt. h j (omega arith)))

-- Two families that agree but at one index.
pub total_change :
    (n i : ℕ) (f g : ℕ → ℕ)
    → i < n
    → ((j : ℕ) → j ≢ i → f j ≡ g j)
    → total n f + g i ≡ total n g + f i
unfolding total
total_change zero i f g lt h = absurd (omega arith)
total_change (suc n) i f g lt h = elim (ℕ_discrete n i) [
  | yes e ↦
      let rest = total_congr n f g (λ j below. h j (λ p. absurd (omega arith))) in ground arith
  | no ne ↦ omega (arith, h n ne, total_change n i f g (ground arith) h)
]

pub total-eq-zero : (n : ℕ) (f : ℕ → ℕ) → ((j : ℕ) → j < n → f j ≡ 0) → total n f ≡ 0
unfolding total
total-eq-zero zero f h = refl
total-eq-zero (suc n) f h =
    omega (arith, h n (omega arith), total-eq-zero n f (λ j lt. h j (omega arith)))

-- One term is at most the sum.
pub le_total : (n i : ℕ) (f : ℕ → ℕ) → i < n → f i ≤ total n f
unfolding total
le_total zero i f lt = absurd (omega arith)
le_total (suc n) i f lt = elim (ℕ_discrete n i) [
  | yes e ↦ ground arith
  | no ne ↦ omega (arith, le_total n i f (ground arith))
]

-- Two terms are together at most the sum.
pub two_le_total : (n i j : ℕ) (f : ℕ → ℕ) → i < n → j < n → i ≢ j → f i + f j ≤ total n f
unfolding total
two_le_total zero i j f hi hj ne = absurd (omega arith)
two_le_total (suc n) i j f hi hj ne = elim (ℕ_discrete n i) [
  | yes e ↦ let rest = le_total n j f in ground arith
  | no ni ↦ elim (ℕ_discrete n j) [
    | yes e ↦ let rest = le_total n i f in ground arith
    | no nj ↦ omega (arith, two_le_total n i j f (ground arith) (ground arith) ne)
  ]
]
