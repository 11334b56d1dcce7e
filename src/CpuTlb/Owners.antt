-- ===== src/CpuTlb/Owners.antt =====
-- The frames that a page table has pages in, and those that it has not.
use mathlib.Core.Path.{subst}
use native.Mathlib.Decide.{dec_lt}
use os_assignment_hk.Common.{
  ℕ, zero, suc, ◌+◌, ◌-◌, ◌%◌, ◌^◌, ◌<◌, ◌≤◌, ◌≡◌, sym, ◌∙◌, ap, arith, List, [], ◌∷◌, ◌++◌, length,
  get_or, ◌⊎◌, inl, inr,
}
use os_assignment_hk.Pte.{page_present, page_swapped, pte_fpn}
use os_assignment_hk.Vm.Map.{Mapped, pushed}
use os_assignment_hk.CpuTlb.Agree.{At}

-- a page of the page table is in RAM at the frame
abbrev pub Owns : List ℕ → ℕ → Type 0
Owns pgd f = (pg : ℕ) × At pgd pg f

abbrev pub IsApart : List ℕ → List ℕ → Type 0
IsApart pgd pgd' = (f : ℕ) → Owns pgd f → Owns pgd' f → ⊥

-- No frame of the list is one of the page table, and each fits the field of an entry.
abbrev pub Spares : List ℕ → List ℕ → Type 0
Spares pgd [] = Unit
Spares pgd (f ∷ l) = (Owns pgd f → ⊥) × (f < 2 ^ 13) × Spares pgd l

pub Spares-append : (pgd l l' : List ℕ) → Spares pgd (l ++ l') → Spares pgd l × Spares pgd l'
Spares-append pgd [] l' h = (tt, h)
Spares-append pgd (f ∷ l) l' (a, b, h) = let (x, y) = Spares-append pgd l l' h in ((a, b, x), y)

pub Spares-pushed :
    (pgd taken l : List ℕ) → Spares pgd taken → Spares pgd l → Spares pgd (pushed taken l)
Spares-pushed pgd [] l h k = k
Spares-pushed pgd (f ∷ taken) l (a, b, h) k = Spares-pushed pgd taken (f ∷ l) h (a, b, k)

Spares-get_or :
    (pgd l : List ℕ) (i : ℕ)
    → i < length l
    → Spares pgd l
    → (Owns pgd (get_or l i 0) → ⊥) × (get_or l i 0 < 2 ^ 13)
Spares-get_or pgd [] i lt h = absurd (omega arith)
Spares-get_or pgd (f ∷ l) zero lt (a, b, h) = (a, b)
Spares-get_or pgd (f ∷ l) (suc i) lt (a, b, h) = Spares-get_or pgd l i (omega arith) h

-- Mapping pages to frames that the other has not keeps the two apart.
pub keeps_own_frames :
    (before after other : List ℕ) (pgn : ℕ) (frames : List ℕ)
    → Mapped before after pgn frames
    → Spares other frames
    → IsApart before other
    → IsApart after other
keeps_own_frames before after other pgn frames m spares apart f
      (pg, ((inside, present, online), frame)) own =
    elim (dec_lt pg pgn) [
      | yes lt ↦ old (inl lt)
      | no ge ↦ elim (dec_lt pg (pgn + length frames)) [
        | no above ↦ old (inr (omega arith))
        | yes below ↦
            let i = pg - pgn in
            let at : pgn + i ≡ pg = omega arith in
            let (free, small) = Spares-get_or other frames i (omega arith) spares in
            let new = m.frame i (omega arith) in
            let there : pte_fpn (get_or after pg 0) ≡ get_or frames i 0 % 2 ^ 13 =
              subst (λ k. pte_fpn (get_or after k 0) ≡ get_or frames i 0 % 2 ^ 13) at new in
            let same : f ≡ get_or frames i 0 = omega (arith, there, frame) in
            free (subst (Owns other) same own)
      ]
    ]
  where
    old : (pg < pgn) ⊎ (pgn + length frames ≤ pg) → ⊥
    old out =
        let kept = sym (m.others pg out) in
        apart f
          (
            pg,
            (
              (
                omega (arith, m.size),
                ap page_present kept ∙ present,
                ap page_swapped kept ∙ online,
              ),
              ap pte_fpn kept ∙ frame,
            ),
          )
          own
