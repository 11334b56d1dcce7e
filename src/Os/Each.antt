-- ===== src/Os/Each.antt =====
-- What holds of every CPU, when a step changes one of them.
use mathlib.Core.Path.{subst}
use os_assignment_hk.Common.{ℕ, sym, ◌==◌, if◌then◌else◌, inl, inr, Bool-cases}
use os_assignment_hk.Os.{Os, Cpu, with_cpu}

pub one_changed :
    {M P : Type 0} (Q : Cpu P → Type 0) (s : Os M P) (j : ℕ) (c : Cpu P)
    → Q c
    → ((i : ℕ) → Q (s.cpus i))
    → (i : ℕ) → Q ((with_cpu s j c).cpus i)
one_changed Q s j c h v i = elim (Bool-cases (j == i)) [
  | inl e ↦ subst (λ b. Q (if b then c else s.cpus i)) (sym e) h
  | inr e ↦ subst (λ b. Q (if b then c else s.cpus i)) (sym e) (v i)
]
