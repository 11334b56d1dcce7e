-- ===== src/Tests/Clocked.antt =====
-- The theorems on the threads and the timer: the round of Tests/Round, on to the end of the program, and
-- a CPU that finds nothing to do.
use os_assignment_hk.Common.{
  ℕ, ◌+◌, ◌≤◌, ◌<◌, ◌≡◌, ◌≢◌, refl, arith, true, false, none, some, List, [], ◌∷◌,
}
use os_assignment_hk.Sched.{init_scheduler}
use os_assignment_hk.Sched.Levels.{Represents}
use os_assignment_hk.Sched.Dispatch.{init_scheduler-Represents}
use os_assignment_hk.Cpu.{Pcb, Machine}
use os_assignment_hk.Os.{
  Os, head, fetch, recheck, slot, stopped, cpu, with_cpu, load, finish, nothing, stop, start_os,
}
use os_assignment_hk.Os.Run.{pcb_process}
use os_assignment_hk.Os.Tally.{queued, count, waiting as given}
use os_assignment_hk.Os.Idle.{IsQuiet}
use os_assignment_hk.Timer
use os_assignment_hk.Timer.{
  Timer, Point, Device, running, waiting, detached, device, with_device, collect, release, ended,
  start_timer,
}
use os_assignment_hk.Os.Clocked.{
  looking, finished, Clocked, counted, cpu_step, cpu_wakes, cpu_leaves, loader_wakes, loader_ends,
  loader_leaves, timer_step, ClockedReach, origin, after, start_clocked,
}
use os_assignment_hk.Os.Clocked.Ending.{one_run_per_slot, ended_all_done, quiet_never_ends}
use os_assignment_hk.Tests.Os.{machine}
use os_assignment_hk.Tests.Round.{
  p, todo, at_start, has_run, has_run-Reach, next_round, next_round-Reach, other_cpu, same_point,
  same_slots,
}

abbrev cpu_awake : Clocked Machine Pcb
cpu_awake = record next_round {
  os = with_cpu next_round.os 0 (cpu head (some p) 1);
  timer = with_device next_round.timer 1 (device false false running 1);
}

cpu_awake-Reach : ClockedReach pcb_process 2 1 at_start cpu_awake
cpu_awake-Reach = after next_round-Reach (cpu_wakes 0 1 0 (some p) false (omega arith) refl refl)

abbrev both_awake : Clocked Machine Pcb
both_awake = record cpu_awake {
  timer = with_device cpu_awake.timer 0 (device false false running 1);
  loader = looking;
}

both_awake-Reach : ClockedReach pcb_process 2 1 at_start both_awake
both_awake-Reach = after cpu_awake-Reach (loader_wakes 0 false refl refl)

abbrev loader_done : Clocked Machine Pcb
loader_done = record both_awake { os = record both_awake.os { done = true }; loader = finished }

loader_done-Reach : ClockedReach pcb_process 2 1 at_start loader_done
loader_done-Reach = after both_awake-Reach (loader_ends refl refl)

abbrev loader_left : Clocked Machine Pcb
loader_left = record loader_done {
  timer = with_device loader_done.timer 0 (device false true detached 1);
}

loader_left-Reach : ClockedReach pcb_process 2 1 at_start loader_left
loader_left-Reach = after loader_done-Reach (loader_leaves 1 false false refl refl)

abbrev freed : Clocked Machine Pcb
freed = record loader_left {
  os = with_cpu (record loader_left.os { gone = p ∷ [] }) 0 (cpu (fetch false) none 0);
  runs =
      counted loader_left 0
        (with_cpu (record loader_left.os { gone = p ∷ [] }) 0 (cpu (fetch false) none 0));
}

freed-Reach : ClockedReach pcb_process 2 1 at_start freed
freed-Reach = after loader_left-Reach (
    cpu_step 0 (with_cpu (record loader_left.os { gone = p ∷ [] }) 0 (cpu (fetch false) none 0))
      (omega arith) (λ e. absurd (cc)) (λ e. absurd (cc)) (finish 0 1 p (omega arith) refl refl)
      (λ j ne. other_cpu loader_left.os.cpus 0 _ j ne) refl refl refl)

abbrev found_none : Clocked Machine Pcb
found_none = record freed {
  os = with_cpu freed.os 0 (cpu recheck none 0);
  runs = counted freed 0 (with_cpu freed.os 0 (cpu recheck none 0));
}

found_none-Reach : ClockedReach pcb_process 2 1 at_start found_none
found_none-Reach = after freed-Reach (
    cpu_step 0 (with_cpu freed.os 0 (cpu recheck none 0)) (omega arith) (λ e. absurd (cc))
      (λ e. absurd (cc)) (nothing 0 0 false (omega arith) refl)
      (λ j ne. other_cpu freed.os.cpus 0 _ j ne) refl refl refl)

abbrev cpu_stopped : Clocked Machine Pcb
cpu_stopped = record found_none {
  os = with_cpu found_none.os 0 (cpu stopped none 0);
  runs = counted found_none 0 (with_cpu found_none.os 0 (cpu stopped none 0));
}

cpu_stopped-Reach : ClockedReach pcb_process 2 1 at_start cpu_stopped
cpu_stopped-Reach = after found_none-Reach (
    cpu_step 0 (with_cpu found_none.os 0 (cpu stopped none 0)) (omega arith) (λ e. absurd (cc))
      (λ e. absurd (cc)) (stop 0 0 (omega arith) refl refl)
      (λ j ne. other_cpu found_none.os.cpus 0 _ j ne) refl refl refl)

abbrev all_left : Clocked Machine Pcb
all_left = record cpu_stopped {
  timer = with_device cpu_stopped.timer 1 (device false true detached 1);
}

all_left-Reach : ClockedReach pcb_process 2 1 at_start all_left
all_left-Reach = after cpu_stopped-Reach (cpu_leaves 0 1 false false (omega arith) refl refl)

abbrev last_round : Clocked Machine Pcb
last_round = record all_left {
  os = record all_left.os { time = (record all_left.timer { place = collect 0 0 0 }).time };
  timer = record all_left.timer { place = collect 0 0 0 };
}

last_round-Reach : ClockedReach pcb_process 2 1 at_start last_round
last_round-Reach = after all_left-Reach (
    timer_step (record all_left.timer { place = collect 0 0 0 }) (Timer.enter refl refl) (λ j. refl)
      (λ j. refl))

abbrev one_gone : Clocked Machine Pcb
one_gone = record last_round {
  os = record last_round.os { time = (record last_round.timer { place = collect 1 1 1 }).time };
  timer = record last_round.timer { place = collect 1 1 1 };
}

one_gone-Reach : ClockedReach pcb_process 2 1 at_start one_gone
one_gone-Reach = after last_round-Reach (
    timer_step (record last_round.timer { place = collect 1 1 1 })
      (Timer.finished 0 0 0 (omega arith) refl refl) (λ j. refl) (λ j. refl))

abbrev two_gone : Clocked Machine Pcb
two_gone = record one_gone {
  os = record one_gone.os { time = (record one_gone.timer { place = collect 2 2 2 }).time };
  timer = record one_gone.timer { place = collect 2 2 2 };
}

two_gone-Reach : ClockedReach pcb_process 2 1 at_start two_gone
two_gone-Reach = after one_gone-Reach (
    timer_step (record one_gone.timer { place = collect 2 2 2 })
      (Timer.finished 1 1 1 (omega arith) refl refl) (λ j. refl) (λ j. refl))

abbrev last_tick : Clocked Machine Pcb
last_tick = record two_gone {
  os = record two_gone.os {
    time = (record two_gone.timer { time = 2; place = release 0 2 2 }).time;
  };
  timer = record two_gone.timer { time = 2; place = release 0 2 2 };
}

last_tick-Reach : ClockedReach pcb_process 2 1 at_start last_tick
last_tick-Reach = after two_gone-Reach (
    timer_step (record two_gone.timer { time = 2; place = release 0 2 2 }) (Timer.tick 2 2 refl)
      (λ j. refl) (λ j. refl))

abbrev one_cleared : Clocked Machine Pcb
one_cleared = record last_tick {
  os = record last_tick.os {
    time =
        (record (with_device last_tick.timer 0 (device false true detached 1)) {
          place = release 1 2 2;
        }).time;
  };
  timer = record (with_device last_tick.timer 0 (device false true detached 1)) {
    place = release 1 2 2;
  };
}

one_cleared-Reach : ClockedReach pcb_process 2 1 at_start one_cleared
one_cleared-Reach = after last_tick-Reach (
    timer_step
      (record (with_device last_tick.timer 0 (device false true detached 1)) {
        place = release 1 2 2;
      })
      (Timer.clear 0 2 2 1 false true detached (omega arith) refl refl)
      (same_point last_tick.timer 0 false true detached 1 refl)
      (same_slots last_tick.timer 0 false true detached 1 refl))

abbrev two_cleared : Clocked Machine Pcb
two_cleared = record one_cleared {
  os = record one_cleared.os {
    time =
        (record (with_device one_cleared.timer 1 (device false true detached 1)) {
          place = release 2 2 2;
        }).time;
  };
  timer = record (with_device one_cleared.timer 1 (device false true detached 1)) {
    place = release 2 2 2;
  };
}

two_cleared-Reach : ClockedReach pcb_process 2 1 at_start two_cleared
two_cleared-Reach = after one_cleared-Reach (
    timer_step
      (record (with_device one_cleared.timer 1 (device false true detached 1)) {
        place = release 2 2 2;
      })
      (Timer.clear 1 2 2 1 false true detached (omega arith) refl refl)
      (same_point one_cleared.timer 1 false true detached 1 refl)
      (same_slots one_cleared.timer 1 false true detached 1 refl))

abbrev over : Clocked Machine Pcb
over = record two_cleared {
  os = record two_cleared.os { time = (record two_cleared.timer { place = ended }).time };
  timer = record two_cleared.timer { place = ended };
}

over-Reach : ClockedReach pcb_process 2 1 at_start over
over-Reach = after two_cleared-Reach (
    timer_step (record two_cleared.timer { place = ended }) (Timer.again 2 2 refl) (λ j. refl)
      (λ j. refl))

one_run_per_slot_example : (1 ≤ 0 + 1) × (slot ≢ slot → 1 ≤ 0)
unfolding start_clocked start_os start_timer
one_run_per_slot_example =
    one_run_per_slot pcb_process 2 1 init_scheduler machine todo {t = has_run} 0 has_run-Reach
      (omega arith) refl

ended_all_done_example :
    ((i : ℕ) → i < 1 → (over.os.cpus i).at ≡ stopped)
    × (over.os.done ≡ true)
    × (over.os.todo ≡ [])
    × ((levels : ℕ → List Pcb) × Represents over.os.sched levels
        × ((k : ℕ)
            → queued pcb_process k levels + count pcb_process k over.os.gone
              ≡ given pcb_process k todo))
unfolding start_clocked start_os start_timer
ended_all_done_example = ended_all_done pcb_process 2 1 machine todo {t = over} over-Reach refl

-- A program without processes: the CPU has nothing to do.
abbrev no_work : Clocked Machine Pcb
no_work = record at_start { os = record at_start.os { todo = [] } }

abbrev idle : Clocked Machine Pcb
idle = record no_work { os = record no_work.os { done = true }; loader = finished }

idle-Reach : ClockedReach pcb_process 2 1 no_work idle
idle-Reach = after origin (loader_ends refl refl)

idle-IsQuiet : IsQuiet 1 0 idle.os
idle-IsQuiet = record {
  levels = λ _. [];
  sched = init_scheduler-Represents Pcb;
  empty = λ j h. refl;
  loaded = refl;
  free = λ j h. refl;
  waits = tt;
}

abbrev looks : Os Machine Pcb
looks = with_cpu idle.os 0 (cpu (fetch true) none 0)

abbrev idle_looks : Clocked Machine Pcb
idle_looks = record idle { os = looks; runs = counted idle 0 looks }

idle_looks-Reach : ClockedReach pcb_process 2 1 idle idle_looks
idle_looks-Reach = after origin (
    cpu_step 0 looks (omega arith) (λ e. absurd (cc)) (λ e. absurd (cc))
      (load 0 0 (omega arith) refl) (λ j ne. other_cpu idle.os.cpus 0 _ j ne) refl refl refl)

quiet_never_ends_example : ((looks.cpus 0).at ≢ stopped) × (idle_looks.timer.place ≢ ended)
unfolding start_clocked start_os start_timer
quiet_never_ends_example =
    quiet_never_ends pcb_process 2 1 init_scheduler machine [] {t = idle} {u = idle_looks} 0
      idle-Reach (omega arith) idle-IsQuiet idle_looks-Reach
