-- ===== src/Os/Stopped.antt =====
-- A CPU that has stopped holds no process.
use mathlib.Core.Path.{subst}
use os_assignment_hk.Common.{ℕ, ◌≡◌, refl, true, false, Bool, Option, none, some, List}
use os_assignment_hk.Sched.{Sched, take_from}
use os_assignment_hk.Os.{
  Process, At, stopped, Os, Cpu, fetched, Step, tick, load, finish, put, keep, refill, take,
  nothing, stop, skip, run, wake, add, end_loading, Reach, here, next, start_os,
}
use os_assignment_hk.Os.Each.{one_changed}

abbrev FreeAt : {P : Type 0} → At → Option P → Type 0
FreeAt stopped proc = proc ≡ none
FreeAt at proc = Unit

abbrev FreeOf : {P : Type 0} → Cpu P → Type 0
FreeOf c = FreeAt c.at c.proc

fetched-FreeAt : {P : Type 0} (b : Bool) (proc : Option P) → FreeAt (fetched b proc) proc
fetched-FreeAt true none = tt
fetched-FreeAt true (some p) = tt
fetched-FreeAt false proc = tt

module _ {M P : Type 0} (io : Process M P) (time_slot num_cpus : ℕ) where
  Step-FreeOf :
      {s t : Os M P}
      → Step io time_slot num_cpus s t
      → ((i : ℕ) → FreeOf (s.cpus i))
      → (i : ℕ) → FreeOf (t.cpus i)
  Step-FreeOf tick v = v
  Step-FreeOf {s} (load j n lt e) v = one_changed FreeOf s j _ tt v
  Step-FreeOf {s} (finish j n p lt e f) v = one_changed FreeOf s j _ tt v
  Step-FreeOf {s} (put j p sched' lt e f added) v = one_changed FreeOf s j _ tt v
  Step-FreeOf {s} (keep j n p lt e f) v = one_changed FreeOf s j _ tt v
  Step-FreeOf (refill j n b lt e) v = v
  Step-FreeOf {s} (take j n level b lt e below) v =
      one_changed FreeOf s j _ (fetched-FreeAt b (take_from level s.sched).0) v
  Step-FreeOf {s} (nothing j n b lt e) v = one_changed FreeOf s j _ (fetched-FreeAt b none) v
  Step-FreeOf {s} (stop j n lt e d) v = one_changed FreeOf s j _ refl v
  Step-FreeOf {s} (skip j n lt e d) v = one_changed FreeOf s j _ tt v
  Step-FreeOf {s} (run j n p q m rand lt e ran) v = one_changed FreeOf s j _ tt v
  Step-FreeOf {s} (wake j n proc lt e) v = one_changed FreeOf s j _ tt v
  Step-FreeOf (add p start rest sched' e due added) v = v
  Step-FreeOf (end_loading e) v = v

  free_at : {at : At} {proc : Option P} → at ≡ stopped → FreeAt at proc → proc ≡ none
  free_at {at} {proc} e h = subst (λ a. FreeAt a proc) e h

  pub stopped_free :
      (sched : Sched P) (machine : M) (todo : List (P × ℕ)) {t : Os M P}
      → Reach io time_slot num_cpus (start_os sched machine todo) t
      → (i : ℕ) → (t.cpus i).at ≡ stopped
      → (t.cpus i).proc ≡ none
  unfolding start_os
  stopped_free sched machine todo {t} r i e = free_at e (all_free r i)
    where
      all_free :
          {u : Os M P}
          → Reach io time_slot num_cpus (start_os sched machine todo) u
          → (j : ℕ) → FreeOf (u.cpus j)
      all_free here j = tt
      all_free (next r st) j = Step-FreeOf st (all_free r) j
