-- ===== src/Os/Idle.antt =====
-- A CPU that finds no process: it looks at `done` only behind a process that it gave away or that ended.
use mathlib.Core.Path.{subst}
use os_assignment_hk.Common.{
  ℕ, ◌<◌, ◌≡◌, ◌≢◌, refl, sym, ◌∙◌, ap, arith, Bool, true, false, ◌==◌, none, some, List, [], inl,
  inr, Bool-cases,
}
use os_assignment_hk.Sched.{max_prio, take_from}
use os_assignment_hk.Sched.Levels.{
  Represents, update, take_from_empty, set_slot_for_queue-Represents,
}
use os_assignment_hk.Os.{
  Process, Os, Cpu, At, cpu, head, fetch, recheck, slot, stopped, with_cpu, fetched, Step, tick,
  load, finish, put, keep, refill, take, nothing, stop, skip, run, wake, add, end_loading, Reach,
  here, next,
}

-- in the part of the loop for `proc == NULL`
abbrev pub IsWaiting : At → Type 0
IsWaiting head = Unit
IsWaiting (fetch b) = b ≡ true
IsWaiting recheck = ⊥
IsWaiting slot = Unit
IsWaiting stopped = ⊥

-- All work is done, and CPU `i` looks for a process.
pub record IsQuiet {M P : Type 0} (num_cpus i : ℕ) (s : Os M P) : Type 0 where
  pub levels : ℕ → List P
  pub sched : Represents s.sched levels
  pub empty : (j : ℕ) → j < max_prio → levels j ≡ []
  pub loaded : s.todo ≡ []
  pub free : (j : ℕ) → j < num_cpus → (s.cpus j).proc ≡ none
  pub waits : IsWaiting (s.cpus i).at

module _ {M P : Type 0} (io : Process M P) (time_slot num_cpus i : ℕ) where
  -- A CPU goes on without a process, and CPU `i` keeps waiting.
  go_on :
      (s : Os M P) (j : ℕ) (c : Cpu P)
      → c.proc ≡ none
      → (j ≡ i → IsWaiting c.at)
      → IsQuiet num_cpus i s
      → IsQuiet num_cpus i (with_cpu s j c)
  go_on s j c e w v = record {
    levels = v.levels;
    sched = v.sched;
    empty = v.empty;
    loaded = v.loaded;
    free = λ k lt. elim (Bool-cases (j == k)) [ inl h ↦ rw h e | inr h ↦ rw h (v.free k lt) ];
    waits = elim (Bool-cases (j == i)) [ inl h ↦ rw h (w (ground arith)) | inr h ↦ rw h v.waits ];
  }

  -- No CPU holds a process.
  not_held :
      {s : Os M P} {j n : ℕ} {a : At} {p : P}
      → IsQuiet num_cpus i s
      → j < num_cpus
      → s.cpus j ≡ cpu a (some p) n
      → ⊥
  not_held {s} {j} v lt e = let f = v.free j lt in let g = ap (λ c. c.proc) e in cc

  -- where CPU `i` stands
  stands :
      {s : Os M P} {j : ℕ} {c : Cpu P}
      → IsQuiet num_cpus i s
      → s.cpus j ≡ c
      → j ≡ i
      → IsWaiting c.at
  stands {s} v e same = subst (λ c. IsWaiting c.at) (ap s.cpus (sym same) ∙ e) v.waits

  fetched-IsWaiting : (b : Bool) → b ≡ true → IsWaiting (fetched {P = P} b none)
  fetched-IsWaiting true e = tt
  fetched-IsWaiting false e = cc

  Step-IsQuiet :
      {s t : Os M P} → Step io time_slot num_cpus s t → IsQuiet num_cpus i s → IsQuiet num_cpus i t
  Step-IsQuiet tick v = record {
    levels = v.levels;
    sched = v.sched;
    empty = v.empty;
    loaded = v.loaded;
    free = v.free;
    waits = v.waits;
  }
  Step-IsQuiet {s} (load j n lt e) v = go_on s j _ refl (λ same. refl) v
  Step-IsQuiet (finish j n p lt e f) v = absurd (not_held v lt e)
  Step-IsQuiet (put j p sched' lt e f added) v = absurd (not_held v lt e)
  Step-IsQuiet (keep j n p lt e f) v = absurd (not_held v lt e)
  Step-IsQuiet (refill j n b lt e) v = record {
    levels = v.levels;
    sched = set_slot_for_queue-Represents v.sched;
    empty = v.empty;
    loaded = v.loaded;
    free = v.free;
    waits = v.waits;
  }
  Step-IsQuiet {s} (take j n level b lt e below) v =
      let (out, rep) = take_from_empty v.sched level below (v.empty level below) in
      go_on (record s { sched = (take_from level s.sched).1 }) j _ out
        (λ same. rw out (fetched-IsWaiting b (stands v e same)))
        (record {
          levels = update v.levels level [];
          sched = rep;
          empty = λ k h. elim (Bool-cases (level == k)) [
            | inl q ↦ rw q refl
            | inr q ↦ rw q (v.empty k h)
          ];
          loaded = v.loaded;
          free = v.free;
          waits = v.waits;
        })
  Step-IsQuiet {s} (nothing j n b lt e) v =
      go_on s j _ refl (λ same. fetched-IsWaiting b (stands v e same)) v
  Step-IsQuiet {s} (stop j n lt e d) v = go_on s j _ refl (λ same. absurd (stands v e same)) v
  Step-IsQuiet {s} (skip j n lt e d) v = go_on s j _ refl (λ same. absurd (stands v e same)) v
  Step-IsQuiet (run j n p q m rand lt e ran) v = absurd (not_held v lt e)
  Step-IsQuiet {s} (wake j n proc lt e) v =
      go_on s j _ (sym (ap (λ c. c.proc) e) ∙ v.free j lt) (λ same. tt) v
  Step-IsQuiet (add p start rest sched' e due added) v = let f = v.loaded in absurd (cc)
  Step-IsQuiet (end_loading e) v = record {
    levels = v.levels;
    sched = v.sched;
    empty = v.empty;
    loaded = v.loaded;
    free = v.free;
    waits = v.waits;
  }

  -- Once all work is done and a CPU looks for a process while it holds none, it never stops: in every
  -- state that the threads can still reach, it is in the same part of its loop, and no work has come.
  pub idle_never_stops :
      {s t : Os M P}
      → IsQuiet num_cpus i s
      → Reach io time_slot num_cpus s t
      → IsQuiet num_cpus i t × ((t.cpus i).at ≢ stopped)
  idle_never_stops {s} {t} v r = let w = quiet r in (w, λ e. subst IsWaiting e w.waits)
    where
      quiet : {u : Os M P} → Reach io time_slot num_cpus s u → IsQuiet num_cpus i u
      quiet here = v
      quiet (next r st) = Step-IsQuiet st (quiet r)
