-- ===== src/Os/Clocked.antt =====
-- The threads of src/os.c at the barrier of src/timer.c. `attach_event` puts each device in front of the
-- others, and `main` calls it for the CPUs from 0 on and then for the loader: the loader is device 0 of
-- the timer's list, and CPU `i` is device `num_cpus - i`. A thread that calls `next_slot` is at rest until the timer lets it go on, and the
-- clock that the loader reads is that of the timer.
pub mod Fits
pub mod Linked
pub mod Alone
pub mod Ending
use os_assignment_hk.Common.{
  ℕ, suc, ◌+◌, ◌-◌, ◌≤◌, ◌<◌, ◌≡◌, ◌≢◌, Bool, true, false, ◌==◌, Option, none, some, List, [], ◌∷◌,
  ok, if◌then◌else◌,
}
use os_assignment_hk.Sched.{Sched, add_mlq_proc}
use os_assignment_hk.Os.{
  Process, At, head, slot, recheck, stopped, Cpu, cpu, Os, with_cpu, Step, start_os,
}
use os_assignment_hk.Timer
use os_assignment_hk.Timer.{Timer, running, waiting, detached, device, with_device, start_timer}

-- Where the loader stands: at the test of the time, in a call of `next_slot`, or behind its loop.
pub data LoaderAt : Type 0 where
  looking : LoaderAt
  resting : LoaderAt
  finished : LoaderAt

-- The threads with the timer. `runs` counts the instructions that each CPU has run.
pub record Clocked (M P : Type 0) : Type 0 where
  pub os : Os M P
  pub timer : Timer
  pub loader : LoaderAt
  pub runs : ℕ → ℕ

-- A CPU goes from the test behind its fetch into `next_slot` with a process: it has run an instruction.
abbrev pub ran : {P : Type 0} → At → Option P → At → ℕ
ran recheck (some p) slot = 1
ran from proc to = 0

module _ {M P : Type 0} where
  abbrev pub counted : Clocked M P → ℕ → Os M P → ℕ → ℕ
  counted s i u j =
      if i == j then s.runs i + ran (s.os.cpus i).at (s.os.cpus i).proc (u.cpus i).at else s.runs j

  module _ (io : Process M P) (time_slot num_cpus : ℕ) where
    -- One step of a thread between two calls of `next_slot`, of a call of `next_slot` or
    -- `detach_event`, or of the timer.
    pub data ClockedStep (s : Clocked M P) : Clocked M P → Type 0 where
      cpu_step :
          (i : ℕ) (u : Os M P)
          → i < num_cpus
          → (s.os.cpus i).at ≢ slot
          → (s.os.cpus i).at ≢ stopped
          → Step io time_slot num_cpus s.os u
          → ((j : ℕ) → i ≢ j → u.cpus j ≡ s.os.cpus j)
          → u.time ≡ s.os.time
          → u.todo ≡ s.os.todo
          → u.done ≡ s.os.done
          → ClockedStep s (record s { os = u; runs = counted s i u })
      cpu_rests :
          (i slots : ℕ) (done fsh : Bool)
          → i < num_cpus
          → (s.os.cpus i).at ≡ slot
          → s.timer.devices (num_cpus - i) ≡ device done fsh running slots
          → ClockedStep s (record s {
            timer = with_device s.timer (num_cpus - i) (device true fsh waiting slots);
          })
      cpu_wakes :
          (i n slots : ℕ) (proc : Option P) (fsh : Bool)
          → i < num_cpus
          → s.os.cpus i ≡ cpu slot proc n
          → s.timer.devices (num_cpus - i) ≡ device false fsh waiting slots
          → ClockedStep s (record s {
            os = with_cpu s.os i (cpu head proc n);
            timer = with_device s.timer (num_cpus - i) (device false fsh running (slots + 1));
          })
      cpu_leaves :
          (i slots : ℕ) (done fsh : Bool)
          → i < num_cpus
          → (s.os.cpus i).at ≡ stopped
          → s.timer.devices (num_cpus - i) ≡ device done fsh running slots
          → ClockedStep s (record s {
            timer = with_device s.timer (num_cpus - i) (device done true detached slots);
          })
      loader_adds :
          (p : P) (start : ℕ) (rest : List (P × ℕ)) (sched' : Sched P)
          → s.loader ≡ looking
          → s.os.todo ≡ (p, start) ∷ rest
          → start ≤ s.os.time
          → add_mlq_proc io.prio s.os.sched p ≡ ok sched'
          → ClockedStep s
              (record s { os = record s.os { sched = sched'; todo = rest }; loader = resting })
      loader_delays :
          (p : P) (start : ℕ) (rest : List (P × ℕ))
          → s.loader ≡ looking
          → s.os.todo ≡ (p, start) ∷ rest
          → s.os.time < start
          → ClockedStep s (record s { loader = resting })
      loader_rests :
          (slots : ℕ) (done fsh : Bool)
          → s.loader ≡ resting
          → s.timer.devices 0 ≡ device done fsh running slots
          → ClockedStep s
              (record s { timer = with_device s.timer 0 (device true fsh waiting slots) })
      loader_wakes :
          (slots : ℕ) (fsh : Bool)
          → s.loader ≡ resting
          → s.timer.devices 0 ≡ device false fsh waiting slots
          → ClockedStep s (record s {
            timer = with_device s.timer 0 (device false fsh running (slots + 1));
            loader = looking;
          })
      loader_ends :
          s.loader ≡ looking
          → s.os.todo ≡ []
          → ClockedStep s (record s { os = record s.os { done = true }; loader = finished })
      loader_leaves :
          (slots : ℕ) (done fsh : Bool)
          → s.loader ≡ finished
          → s.timer.devices 0 ≡ device done fsh running slots
          → ClockedStep s
              (record s { timer = with_device s.timer 0 (device done true detached slots) })
      timer_step :
          (t : Timer)
          → Timer.Step (num_cpus + 1) s.timer t
          → ((j : ℕ) → (t.devices j).point ≡ (s.timer.devices j).point)
          → ((j : ℕ) → (t.devices j).slots ≡ (s.timer.devices j).slots)
          → ClockedStep s (record s { os = record s.os { time = t.time }; timer = t })

    pub data ClockedReach (s : Clocked M P) : Clocked M P → Type 0 where
      origin : ClockedReach s s
      after : {t u : Clocked M P} → ClockedReach s t → ClockedStep t u → ClockedReach s u

  -- `main` behind `start_timer`
  unfoldable pub start_clocked : Sched P → M → List (P × ℕ) → Clocked M P
  start_clocked sched machine todo = record {
    os = start_os sched machine todo;
    timer = start_timer;
    loader = looking;
    runs = λ i. 0;
  }
