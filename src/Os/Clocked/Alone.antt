-- ===== src/Os/Clocked/Alone.antt =====
-- What the threads and the timer do together, each of them does on its own.
use mathlib.Core.Path.{subst}
use os_assignment_hk.Common.{ℕ, ◌+◌, ◌-◌, ◌≡◌, ◌⊎◌, inl, inr, refl, sym, ◌∙◌, ap, arith}
use os_assignment_hk.Os.{Process, Os, Reach, here, next, tick, wake, add, end_loading}
use os_assignment_hk.Timer
use os_assignment_hk.Timer.{
  Timer, running, detached, ended, end_slot, resume, detach_event, start_timer,
}
use os_assignment_hk.Os.Clocked.{
  Clocked, ClockedStep, cpu_step, cpu_rests, cpu_wakes, cpu_leaves, loader_adds, loader_delays,
  loader_rests, loader_wakes, loader_ends, loader_leaves, timer_step, ClockedReach, origin, after,
}
use os_assignment_hk.Os.Clocked.Linked.{IsLinked, Step-IsLinked}

-- Only `tick` moves the clock.
Step-time : {n : ℕ} {t u : Timer} → Timer.Step n t u → (u.time ≡ t.time) ⊎ (u.time ≡ t.time + 1)
Step-time (Timer.tick fsh event e) = inr refl
Step-time (Timer.end_slot i slots done fsh lt e) = inl refl
Step-time (Timer.resume i slots fsh lt e) = inl refl
Step-time (Timer.detach_event i slots done fsh lt e) = inl refl
Step-time (Timer.enter e s) = inl refl
Step-time (Timer.leave e s) = inl refl
Step-time (Timer.finished i fsh event lt e f) = inl refl
Step-time (Timer.arrived i fsh event lt e f d) = inl refl
Step-time (Timer.clear i fsh event slots done gone point lt e d) = inl refl
Step-time (Timer.again fsh event e) = inl refl
Step-time (Timer.stop_timer h) = inl refl

pub Timer-trans :
    {n : ℕ} {t u v : Timer} → Timer.Reach n t u → Timer.Reach n u v → Timer.Reach n t v
Timer-trans r Timer.here = r
Timer-trans r (Timer.next q st) = Timer.next (Timer-trans r q) st

module _ {M P : Type 0} (io : Process M P) (time_slot num_cpus : ℕ) where
  Reach-trans :
      {s t u : Os M P}
      → Reach io time_slot num_cpus s t
      → Reach io time_slot num_cpus t u
      → Reach io time_slot num_cpus s u
  Reach-trans r here = r
  Reach-trans r (next q st) = next (Reach-trans r q) st

  os_step :
      {s t : Clocked M P}
      → ClockedStep io time_slot num_cpus s t
      → IsLinked num_cpus s
      → Reach io time_slot num_cpus s.os t.os
  os_step (cpu_step i u hi ns nt st same clock todo over) v = next here st
  os_step (cpu_rests i slots done fsh hi stands e) v = here
  os_step (cpu_wakes i n slots proc fsh hi stands e) v = next here (wake i n proc hi stands)
  os_step (cpu_leaves i slots done fsh hi stands e) v = here
  os_step (loader_adds p start rest sched' stands e due added) v =
      next here (add p start rest sched' e due added)
  os_step (loader_delays p start rest stands e due) v = here
  os_step (loader_rests slots done fsh stands e) v = here
  os_step (loader_wakes slots fsh stands e) v = here
  os_step (loader_ends stands e) v = next here (end_loading e)
  os_step (loader_leaves slots done fsh stands e) v = here
  os_step {s} (timer_step t st points slots) v = elim (Step-time st) [
    | inl e ↦
        subst (λ x. Reach io time_slot num_cpus s.os (record s.os { time = x })) (v.time ∙ sym e)
          here
    | inr e ↦
        subst (λ x. Reach io time_slot num_cpus s.os (record s.os { time = x }))
          (ap (λ x. x + 1) v.time ∙ sym e) (next here tick)
  ]

  timer_step_of :
      {s t : Clocked M P}
      → ClockedStep io time_slot num_cpus s t
      → Timer.Reach (num_cpus + 1) s.timer t.timer
  timer_step_of (cpu_step i u hi ns nt st same clock todo over) = Timer.here
  timer_step_of (cpu_rests i slots done fsh hi stands e) =
      Timer.next Timer.here (end_slot (num_cpus - i) slots done fsh (omega arith) e)
  timer_step_of (cpu_wakes i n slots proc fsh hi stands e) =
      Timer.next Timer.here (resume (num_cpus - i) slots fsh (omega arith) e)
  timer_step_of (cpu_leaves i slots done fsh hi stands e) =
      Timer.next Timer.here (detach_event (num_cpus - i) slots done fsh (omega arith) e)
  timer_step_of (loader_adds p start rest sched' stands e due added) = Timer.here
  timer_step_of (loader_delays p start rest stands e due) = Timer.here
  timer_step_of (loader_rests slots done fsh stands e) =
      Timer.next Timer.here (end_slot 0 slots done fsh (omega arith) e)
  timer_step_of (loader_wakes slots fsh stands e) =
      Timer.next Timer.here (resume 0 slots fsh (omega arith) e)
  timer_step_of (loader_ends stands e) = Timer.here
  timer_step_of (loader_leaves slots done fsh stands e) =
      Timer.next Timer.here (detach_event 0 slots done fsh (omega arith) e)
  timer_step_of (timer_step t st points slots) = Timer.next Timer.here st

  -- What the threads and the timer do together each of them does on its own.
  pub each_alone :
      {s t : Clocked M P}
      → IsLinked num_cpus s
      → ClockedReach io time_slot num_cpus s t
      → Reach io time_slot num_cpus s.os t.os
        × Timer.Reach (num_cpus + 1) s.timer t.timer
        × IsLinked num_cpus t
  each_alone v origin = (here, Timer.here, v)
  each_alone v (after r st) =
      let (threads, clock, w) = each_alone v r in
      (
        Reach-trans threads (os_step st w),
        Timer-trans clock (timer_step_of st),
        Step-IsLinked num_cpus io time_slot st w,
      )
