-- ===== src/Common/Search.antt =====
-- The first index that passes a test.
use os_assignment_hk.Common.{
  ℕ, zero, suc, ◌+◌, ◌<◌, ◌≤◌, ◌≡◌, refl, arith, Bool, true, false, Option, none, some, inl, inr,
  Bool-cases, ◌==◌,
}

-- among `n` indices from `i` on
unfoldable pub first : (ℕ → Bool) → ℕ → ℕ → Option ℕ
first p zero i = none
first p (suc n) i = let later = first p n (i + 1) in elim (p i) [ true ↦ some i | false ↦ later ]

pub first_congr :
    (p q : ℕ → Bool) (n i : ℕ)
    → ((j : ℕ) → i ≤ j → j < i + n → p j ≡ q j)
    → first p n i ≡ first q n i
unfolding first
first_congr p q zero i h = refl
first_congr p q (suc n) i h =
    ground (arith, h i, first_congr p q n (i + 1) (λ j l u. h j (omega arith) (omega arith)))

-- What it means that `j` is the first index from `i` below `top`.
pub record IsFirst (p : ℕ → Bool) (i top j : ℕ) : Type 0 where
  pub from : i ≤ j
  pub below : j < top
  pub passes : p j ≡ true
  pub least : (k : ℕ) → i ≤ k → k < j → p k ≡ false

pub first-some :
    (p : ℕ → Bool) (n i top j : ℕ) → i + n ≡ top → first p n i ≡ some j → IsFirst p i top j
unfolding first
first-some p zero i top j e h = cc
first-some p (suc n) i top j e h = elim (Bool-cases (p i)) [
  | inl here ↦
      let same : i ≡ j = ground arith in
      record {
        from = omega arith;
        below = omega arith;
        passes = ground arith;
        least = λ k l u. absurd (omega arith);
      }
  | inr here ↦
      let rest : first p n (i + 1) ≡ some j = ground arith in
      let later = first-some p n (i + 1) top j (omega arith) rest in
      record {
        from = omega (arith, later.from);
        below = later.below;
        passes = later.passes;
        least = λ k l u. elim (Bool-cases (i == k)) [
          | inl same ↦ ground arith
          | inr other ↦ later.least k (ground arith) u
        ];
      }
]

pub first-none :
    (p : ℕ → Bool) (n i top : ℕ)
    → i + n ≡ top
    → first p n i ≡ none
    → (k : ℕ) → i ≤ k
    → k < top
    → p k ≡ false
unfolding first
first-none p zero i top e h k l u = absurd (omega arith)
first-none p (suc n) i top e h k l u = elim (Bool-cases (p i)) [
  | inl here ↦ ground arith
  | inr here ↦ elim (Bool-cases (i == k)) [
    | inl same ↦ ground arith
    | inr other ↦ first-none p n (i + 1) top (omega arith) (ground arith) k (ground arith) u
  ]
]
