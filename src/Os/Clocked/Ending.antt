-- ===== src/Os/Clocked/Ending.antt =====
-- The program over time: one instruction in a slot, and what holds when the timer has come to its end.
use mathlib.Core.Path.{subst}
use os_assignment_hk.Common.{ℕ, ◌+◌, ◌-◌, ◌≤◌, ◌<◌, ◌≡◌, ◌≢◌, refl, ap, arith, true, List, []}
use os_assignment_hk.Common.Sum.{total-eq-zero}
use os_assignment_hk.Sched.{Sched, init_scheduler}
use os_assignment_hk.Sched.Levels.{Represents}
use os_assignment_hk.Os.{Process, At, head, fetch, recheck, slot, stopped, start_os}
use os_assignment_hk.Os.Tally.{count, held, queued, running as on_cpus, waiting}
use os_assignment_hk.Os.Conserved.{processes_conserved}
use os_assignment_hk.Os.Idle.{IsQuiet, idle_never_stops}
use os_assignment_hk.Os.Stopped.{stopped_free}
use os_assignment_hk.Timer.{running, detached, ended, start_timer}
use os_assignment_hk.Timer.Barrier.{running_at_time, ended_behind_all}
use os_assignment_hk.Os.Clocked.{Clocked, ClockedReach, start_clocked}
use os_assignment_hk.Os.Clocked.Fits.{PointFits, RunsFit, LoaderFits, not_slot}
use os_assignment_hk.Os.Clocked.Linked.{IsLinked}
use os_assignment_hk.Os.Clocked.Alone.{Timer-trans, each_alone}

at_bound : (at : At) (r n : ℕ) → RunsFit at r n → r ≤ n + 1
at_bound head r n h = omega arith
at_bound (fetch b) r n h = omega arith
at_bound recheck r n h = omega arith
at_bound slot r n h = h
at_bound stopped r n h = omega arith

module _ {M P : Type 0} (io : Process M P) (time_slot num_cpus : ℕ) where
  start-IsLinked :
      (sched : Sched P) (machine : M) (todo : List (P × ℕ))
      → IsLinked num_cpus (start_clocked sched machine todo)
  unfolding start_clocked start_os start_timer
  start-IsLinked sched machine todo = record {
    time = refl;
    cpus = λ i h. (tt, omega arith);
    loader = tt;
    done = λ e. absurd (cc);
  }

  -- From the start of the program, whatever the order of the steps: a CPU that is not in a wait of
  -- `next_slot` and has not left the timer has run at most one instruction for each slot that the timer
  -- has counted, and one more only when it is behind the instruction of the present slot.
  pub one_run_per_slot :
      (sched : Sched P) (machine : M) (todo : List (P × ℕ)) {t : Clocked M P} (i : ℕ)
      → ClockedReach io time_slot num_cpus (start_clocked sched machine todo) t
      → i < num_cpus
      → (t.timer.devices (num_cpus - i)).point ≡ running
      → (t.runs i ≤ t.timer.time + 1) × ((t.os.cpus i).at ≢ slot → t.runs i ≤ t.timer.time)
  unfolding start_clocked
  one_run_per_slot sched machine todo {t} i r lt on =
      let (threads, clock, v) =
        each_alone io time_slot num_cpus (start-IsLinked sched machine todo) r in
      let in_step = running_at_time (num_cpus + 1) t.timer (num_cpus - i) clock (omega arith) on in
      let fits = (v.cpus i lt).1 in
      (
        omega (
          arith,
          in_step,
          at_bound (t.os.cpus i).at (t.runs i) (t.timer.devices (num_cpus - i)).slots fits,
        ),
        λ ne. omega (
          arith,
          in_step,
          not_slot (t.os.cpus i).at (t.runs i) (t.timer.devices (num_cpus - i)).slots ne fits,
        ),
      )

  -- From the start of the program, whatever the order of the steps: when the timer's thread has ended, each
  -- CPU has stopped, the loader has added all its processes, and each id stands as often in the lists of
  -- the scheduler and among the processes that ended, taken together, as it was given to the loader.
  pub ended_all_done :
      (machine : M) (todo : List (P × ℕ)) {t : Clocked M P}
      → ClockedReach io time_slot num_cpus (start_clocked init_scheduler machine todo) t
      → t.timer.place ≡ ended
      → ((i : ℕ) → i < num_cpus → (t.os.cpus i).at ≡ stopped)
        × (t.os.done ≡ true)
        × (t.os.todo ≡ [])
        × ((levels : ℕ → List P) × Represents t.os.sched levels
            × ((k : ℕ) → queued io k levels + count io k t.os.gone ≡ waiting io k todo))
  unfolding start_clocked on_cpus
  ended_all_done machine todo {t} r over =
      let (threads, clock, v) =
        each_alone io time_slot num_cpus (start-IsLinked init_scheduler machine todo) r in
      let gone : (i : ℕ) → i < num_cpus + 1 → (t.timer.devices i).point ≡ detached =
        λ i lt. ended_behind_all (num_cpus + 1) t.timer i clock lt over in
      let all_stopped : (i : ℕ) → i < num_cpus → (t.os.cpus i).at ≡ stopped = λ i lt.
        subst (λ p. PointFits p (t.os.cpus i).at) (gone (num_cpus - i) (omega arith))
          (v.cpus i lt).0 in
      let left = subst (λ p. LoaderFits p t.loader) (gone 0 (omega arith)) v.loader in
      let (done, loaded) = v.done left in
      let sound = processes_conserved io time_slot num_cpus machine todo threads in
      let no_proc : (k : ℕ) → on_cpus io num_cpus k t.os.cpus ≡ 0 = λ k.
        total-eq-zero num_cpus _ (λ i lt. ap (held io k) (
          stopped_free io time_slot num_cpus init_scheduler machine todo threads i
            (all_stopped i lt))) in
      (
        all_stopped,
        done,
        loaded,
        (
          sound.levels,
          sound.sched,
          λ k. omega (arith, sound.kept k, no_proc k, ap (waiting io k) loaded),
        ),
      )

  -- From the start of the program, once all work is done while a CPU looks for a process and holds none:
  -- whatever the order of the later steps, that CPU never stops and the timer's thread never ends, so
  -- that `main`, which waits for both, never returns.
  pub quiet_never_ends :
      (sched : Sched P) (machine : M) (todo : List (P × ℕ)) {t u : Clocked M P} (i : ℕ)
      → ClockedReach io time_slot num_cpus (start_clocked sched machine todo) t
      → i < num_cpus
      → IsQuiet num_cpus i t.os
      → ClockedReach io time_slot num_cpus t u
      → ((u.os.cpus i).at ≢ stopped) × (u.timer.place ≢ ended)
  unfolding start_clocked
  quiet_never_ends sched machine todo {t} {u} i before lt quiet from_then =
      let (threads, clock, v) =
        each_alone io time_slot num_cpus (start-IsLinked sched machine todo) before in
      let (threads', clock', w) = each_alone io time_slot num_cpus v from_then in
      let goes_on = (idle_never_stops io time_slot num_cpus i quiet threads').1 in
      (
        goes_on,
        λ over.
            let left =
              ended_behind_all (num_cpus + 1) u.timer (num_cpus - i) (Timer-trans clock clock')
                (omega arith) over in
            goes_on (subst (λ p. PointFits p (u.os.cpus i).at) left (w.cpus i lt).0),
      )
