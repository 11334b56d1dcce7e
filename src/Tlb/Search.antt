-- ===== src/Tlb/Search.antt =====
-- What the index found by a loop over the entries means.
use os_assignment_hk.Common.{
  ℕ, zero, suc, ◌<◌, ◌≡◌, arith, Bool, true, false, none, some, [], ◌∷◌, length, get_or, set, inl,
  inr, Bool-cases,
}
use os_assignment_hk.Tlb.{Tlb, find_index}

pub record Found (p : ℕ → Bool) (es : Tlb) (i : ℕ) : Type 0 where
  pub inside : i < length es
  pub passes : p (get_or es i 0) ≡ true
  pub least : (j : ℕ) → j < i → p (get_or es j 0) ≡ false

Found-cons :
    (p : ℕ → Bool) (e : ℕ) (es : Tlb) (i : ℕ)
    → p e ≡ false
    → Found p es i
    → Found p (e ∷ es) (suc i)
Found-cons p e es i h f = record {
  inside = omega (arith, f.inside);
  passes = f.passes;
  least = elim [ zero ↦ λ lt. h | suc j ↦ λ lt. f.least j (omega arith) ];
}

pub find_index-some : (p : ℕ → Bool) (es : Tlb) (i : ℕ) → find_index p es ≡ some i → Found p es i
unfolding find_index
find_index-some p [] i h = cc
find_index-some p (e ∷ es) zero h = elim (Bool-cases (p e)) [
  | inl t ↦ record { inside = omega arith; passes = t; least = λ j lt. absurd (omega arith) }
  | inr t ↦ ground arith
]
find_index-some p (e ∷ es) (suc i) h = elim (Bool-cases (p e)) [
  | inl t ↦ ground arith
  | inr t ↦ Found-cons p e es i t (find_index-some p es i (ground arith))
]

pub find_index-none :
    (p : ℕ → Bool) (es : Tlb)
    → find_index p es ≡ none
    → (j : ℕ) → j < length es
    → p (get_or es j 0) ≡ false
unfolding find_index
find_index-none p [] h j lt = absurd (omega arith)
find_index-none p (e ∷ es) h zero lt = ground arith
find_index-none p (e ∷ es) h (suc j) lt = find_index-none p es (ground arith) j (omega arith)

-- A passing entry stored where no earlier one passes is the one that is found.
pub find_index-set :
    (p : ℕ → Bool) (es : Tlb) (i v : ℕ)
    → i < length es
    → p v ≡ true
    → ((j : ℕ) → j < i → p (get_or es j 0) ≡ false)
    → find_index p (set es i v) ≡ some i
unfolding find_index
find_index-set p [] i v lt h before = absurd (omega arith)
find_index-set p (e ∷ es) zero v lt h before = ground arith
find_index-set p (e ∷ es) (suc i) v lt h before =
    let first : p e ≡ false = before 0 (omega arith) in
    let rest = find_index-set p es i v (omega arith) h (λ j k. before (suc j) (omega arith)) in
    ground arith
