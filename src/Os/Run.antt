-- ===== src/Os/Run.antt =====
-- The interface `Process` of the threads, filled by src/cpu.c: `run` runs one instruction of a process.
use native.Mathlib.Decide.{dec_lt}
use os_assignment_hk.Common.{
  ℕ, ◌≡◌, ap, arith, ◌==◌, length, Result, ok, ◌>>=◌, Returns, Returns-chain,
}
use os_assignment_hk.Cpu.{Pcb, Machine, run}
use os_assignment_hk.Cpu.Run.{run_lem}
use os_assignment_hk.Os.{Process}

-- The threads do not look at the status of `run`.
abbrev pub run_process : ℕ → (ℕ → ℕ) → Machine → Pcb → Result (Machine × Pcb)
run_process cpu rand m p = run cpu rand m p >>= λ (status, m', q). ok (m', q)

pub run_process-pid :
    (cpu : ℕ) (rand : ℕ → ℕ) (m : Machine) (p : Pcb)
    → Returns (run_process cpu rand m p) (λ (m', q). q.pid ≡ p.pid)
run_process-pid cpu rand m p =
    Returns-chain _ _ _
      (λ (status, m', q) (steps, ends). elim (dec_lt p.pc (length p.code)) [
        | yes before ↦ (steps before).pid
        | no past ↦ ap (λ x. x.pid) (ends (omega arith)).2
      ])
      (run cpu rand m p) (run_lem cpu rand m p)

abbrev pub pcb_process : Process Machine Pcb
pcb_process = record {
  pid = λ p. p.pid;
  prio = λ p. p.prio;
  is_finished = λ p. p.pc == length p.code;
  run = run_process;
  run-pid = run_process-pid;
}
