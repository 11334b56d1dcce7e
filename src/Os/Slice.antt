-- ===== src/Os/Slice.antt =====
-- The time slot of a process.
use mathlib.Core.Path.{subst}
use os_assignment_hk.Common.{ℕ, ◌<◌, ◌≡◌, refl, arith, Option, none, some, List}
use os_assignment_hk.Os.Each.{one_changed}
use os_assignment_hk.Sched.{Sched, take_from}
use os_assignment_hk.Os.{
  Process, Os, Cpu, At, cpu, Step, tick, load, finish, put, keep, refill, take, nothing, stop, skip,
  run, wake, add, end_loading, Reach, here, next, start_os,
}

abbrev pub InSlice : {P : Type 0} → ℕ → Option P → ℕ → Type 0
InSlice time_slot none n = (n < time_slot) × (n ≡ 0)
InSlice time_slot (some p) n = n < time_slot

-- What is left of a time slot: nothing for a CPU that holds no process, and less than the whole for one
-- that does.
abbrev pub SliceOf : {P : Type 0} → ℕ → Cpu P → Type 0
SliceOf time_slot c = InSlice time_slot c.proc c.time_left

module _ {M P : Type 0} (io : Process M P) (time_slot num_cpus : ℕ) (positive : 0 < time_slot) where
  left :
      (s : Os M P) {j n : ℕ} {a : At} {p : Option P}
      → ((i : ℕ) → SliceOf time_slot (s.cpus i))
      → s.cpus j ≡ cpu a p n
      → SliceOf time_slot (cpu a p n)
  left s {j} v e = subst (SliceOf time_slot) e (v j)

  -- a process taken with nothing left
  fresh : {n : ℕ} (out : Option P) → InSlice {P = P} time_slot none n → InSlice time_slot out n
  fresh none h = h
  fresh (some p) h = h.0

  Step-SliceOf :
      {s t : Os M P}
      → Step io time_slot num_cpus s t
      → ((i : ℕ) → SliceOf time_slot (s.cpus i))
      → (i : ℕ) → SliceOf time_slot (t.cpus i)
  Step-SliceOf tick v = v
  Step-SliceOf {s} (load j n lt e) v = one_changed (SliceOf time_slot) s j _ (left s v e) v
  Step-SliceOf {s} (finish j n p lt e f) v =
      one_changed (SliceOf time_slot) s j _ (positive, refl) v
  Step-SliceOf {s} (put j p sched' lt e f added) v =
      one_changed (SliceOf time_slot) s j _ (positive, refl) v
  Step-SliceOf {s} (keep j n p lt e f) v = one_changed (SliceOf time_slot) s j _ (left s v e) v
  Step-SliceOf (refill j n b lt e) v = v
  Step-SliceOf {s} (take j n level b lt e below) v =
      one_changed (SliceOf time_slot) s j _ (fresh (take_from level s.sched).0 (left s v e)) v
  Step-SliceOf {s} (nothing j n b lt e) v = one_changed (SliceOf time_slot) s j _ (left s v e) v
  Step-SliceOf {s} (stop j n lt e d) v = one_changed (SliceOf time_slot) s j _ (left s v e) v
  Step-SliceOf {s} (skip j n lt e d) v = one_changed (SliceOf time_slot) s j _ (left s v e) v
  Step-SliceOf {s} (run j n p q m rand lt e ran) v =
      let below = left s v e in one_changed (SliceOf time_slot) s j _ (ground arith) v
  Step-SliceOf {s} (wake j n proc lt e) v = one_changed (SliceOf time_slot) s j _ (left s v e) v
  Step-SliceOf (add p start rest sched' e due added) v = v
  Step-SliceOf (end_loading e) v = v

  -- For a time slot above 0, from the start of the program and whatever the order of the steps: a CPU
  -- that holds no process has nothing left of an old time slot, so that a process that it fetches has
  -- a whole one; and no CPU ever has a whole time slot left after a run.
  pub time_left_bounded :
      (sched : Sched P) (machine : M) (todo : List (P × ℕ)) {t : Os M P}
      → Reach io time_slot num_cpus (start_os sched machine todo) t
      → (i : ℕ) → SliceOf time_slot (t.cpus i)
  unfolding start_os
  time_left_bounded sched machine todo here i = (positive, refl)
  time_left_bounded sched machine todo (next r st) i =
      Step-SliceOf st (time_left_bounded sched machine todo r) i
