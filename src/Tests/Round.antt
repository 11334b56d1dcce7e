-- ===== src/Tests/Round.antt =====
-- The threads and the timer with one CPU and a process of no instruction, up to the end of the first
-- slot.
use os_assignment_hk.Common.{
  ℕ, ◌≡◌, ◌≢◌, refl, sym, ap, arith, Bool, true, false, Option, none, some, List, [], ◌∷◌,
}
use mathlib.Core.Path.{subst}
use os_assignment_hk.Sched.{Sched, init_scheduler, take_from}
use os_assignment_hk.Cpu.{Pcb, Machine, run}
use os_assignment_hk.Os.{
  Os, Cpu, set_cpu, head, fetch, recheck, slot, stopped, cpu, with_cpu, fetched, Step, load, take,
  finish, nothing, stop, start_os,
}
use os_assignment_hk.Os
use os_assignment_hk.Os.Run.{pcb_process}
use os_assignment_hk.Timer
use os_assignment_hk.Timer.{
  Timer, Point, Device, running, waiting, detached, device, with_device, collect, release, ended,
  start_timer,
}
use os_assignment_hk.Os.Clocked.{
  looking, resting, Clocked, counted, ClockedStep, cpu_step, cpu_rests, loader_adds, loader_rests,
  timer_step, ClockedReach, origin, after,
}
use os_assignment_hk.Os.Clocked.Fits.{at_device}
use os_assignment_hk.Tests.Program.{old_pcb}
use os_assignment_hk.Tests.Os.{machine}
use os_assignment_hk.Tests.Taken

-- a process of no instruction
abbrev pub p : Pcb
p = Taken.p machine (record old_pcb { pc = 0 }) 8 old_pcb.mm

abbrev pub sched : Sched Pcb
sched = (Taken.one_added machine (record old_pcb { pc = 0 }) 8 old_pcb.mm).0

abbrev pub todo : List (Pcb × ℕ)
todo = (p, 0) ∷ []

takes_p : (take_from 2 sched).0 ≡ some p
takes_p = Taken.only machine (record old_pcb { pc = 0 }) 8 old_pcb.mm

pub other_cpu :
    (cpus : ℕ → Cpu Pcb) (i : ℕ) (c : Cpu Pcb) (j : ℕ) → i ≢ j → set_cpu cpus i c j ≡ cpus j
other_cpu cpus i c j ne = ground arith

-- The clearing of a device keeps the points and the slots.
pub same_point :
    (t : Timer) (i : ℕ) (done gone : Bool) (point : Point) (slots : ℕ)
    → t.devices i ≡ device done gone point slots
    → (j : ℕ)
    → ((with_device t i (device false gone point slots)).devices j).point ≡ (t.devices j).point
same_point t i done gone point slots e j =
    at_device (λ x. x.point ≡ (t.devices j).point) t i j _
      (λ q. subst (λ k. point ≡ (t.devices k).point) q (ap (λ x. x.point) (sym e))) (λ ne. refl)

pub same_slots :
    (t : Timer) (i : ℕ) (done gone : Bool) (point : Point) (slots : ℕ)
    → t.devices i ≡ device done gone point slots
    → (j : ℕ)
    → ((with_device t i (device false gone point slots)).devices j).slots ≡ (t.devices j).slots
same_slots t i done gone point slots e j =
    at_device (λ x. x.slots ≡ (t.devices j).slots) t i j _
      (λ q. subst (λ k. slots ≡ (t.devices k).slots) q (ap (λ x. x.slots) (sym e))) (λ ne. refl)

-- GEN
abbrev pub at_start : Clocked Machine Pcb
at_start = record {
  os = record {
    sched = init_scheduler;
    machine = machine;
    done = false;
    time = 0;
    todo = todo;
    gone = [];
    cpus = λ i. cpu head none 0;
  };
  timer = record {
    place = Timer.head;
    time = 0;
    timer_stop = false;
    devices = λ i. device false false running 0;
  };
  loader = looking;
  runs = λ i. 0;
}

abbrev pub added : Clocked Machine Pcb
added = record at_start { os = record at_start.os { sched = sched; todo = [] }; loader = resting }

added-Reach : ClockedReach pcb_process 2 1 at_start added
added-Reach = after origin (
    loader_adds p 0 [] sched refl refl (omega arith)
      (Taken.one_added machine (record old_pcb { pc = 0 }) 8 old_pcb.mm).1)

abbrev pub asks : Clocked Machine Pcb
asks = record added {
  os = with_cpu added.os 0 (cpu (fetch true) none 0);
  runs = counted added 0 (with_cpu added.os 0 (cpu (fetch true) none 0));
}

asks-Reach : ClockedReach pcb_process 2 1 at_start asks
asks-Reach = after added-Reach (
    cpu_step 0 (with_cpu added.os 0 (cpu (fetch true) none 0)) (omega arith) (λ e. absurd (cc))
      (λ e. absurd (cc)) (load 0 0 (omega arith) refl) (λ j ne. other_cpu added.os.cpus 0 _ j ne)
      refl refl refl)

-- the CPU with what it took
abbrev pub with_out : Option Pcb → Os Machine Pcb
with_out o =
    with_cpu (record asks.os { sched = (take_from 2 sched).1 }) 0 (cpu (fetched true o) o 0)

abbrev pub taken : Option Pcb → Clocked Machine Pcb
taken o = record asks { os = with_out o; runs = counted asks 0 (with_out o) }

abbrev pub takes : Clocked Machine Pcb
takes = taken (some p)

takes-Reach : ClockedReach pcb_process 2 1 at_start takes
takes-Reach = after asks-Reach (
    subst (λ o. ClockedStep pcb_process 2 1 asks (taken o)) takes_p
      (cpu_step 0 (with_out (take_from 2 sched).0) (omega arith) (λ e. absurd (cc))
        (λ e. absurd (cc)) (take 0 0 2 true (omega arith) refl (omega arith))
        (λ j ne. other_cpu asks.os.cpus 0 _ j ne) refl refl refl))

abbrev pub has_run : Clocked Machine Pcb
has_run = record takes {
  os = with_cpu (record takes.os { machine = machine }) 0 (cpu slot (some p) 1);
  runs = counted takes 0 (with_cpu (record takes.os { machine = machine }) 0 (cpu slot (some p) 1));
}

pub has_run-Reach : ClockedReach pcb_process 2 1 at_start has_run
unfolding run
has_run-Reach = after takes-Reach (
    cpu_step 0 (with_cpu (record takes.os { machine = machine }) 0 (cpu slot (some p) 1))
      (omega arith) (λ e. absurd (cc)) (λ e. absurd (cc))
      (Os.run 0 0 p p machine (λ i. 0) (omega arith) refl refl)
      (λ j ne. other_cpu takes.os.cpus 0 _ j ne) refl refl refl)

abbrev pub rests : Clocked Machine Pcb
rests = record has_run { timer = with_device has_run.timer 1 (device true false waiting 0) }

rests-Reach : ClockedReach pcb_process 2 1 at_start rests
rests-Reach = after has_run-Reach (cpu_rests 0 0 false false (omega arith) refl refl)

abbrev pub both_rest : Clocked Machine Pcb
both_rest = record rests { timer = with_device rests.timer 0 (device true false waiting 0) }

both_rest-Reach : ClockedReach pcb_process 2 1 at_start both_rest
both_rest-Reach = after rests-Reach (loader_rests 0 false false refl refl)

abbrev pub entered : Clocked Machine Pcb
entered = record both_rest {
  os = record both_rest.os { time = (record both_rest.timer { place = collect 0 0 0 }).time };
  timer = record both_rest.timer { place = collect 0 0 0 };
}

entered-Reach : ClockedReach pcb_process 2 1 at_start entered
entered-Reach = after both_rest-Reach (
    timer_step (record both_rest.timer { place = collect 0 0 0 }) (Timer.enter refl refl)
      (λ j. refl) (λ j. refl))

abbrev pub one_counted : Clocked Machine Pcb
one_counted = record entered {
  os = record entered.os { time = (record entered.timer { place = collect 1 0 1 }).time };
  timer = record entered.timer { place = collect 1 0 1 };
}

one_counted-Reach : ClockedReach pcb_process 2 1 at_start one_counted
one_counted-Reach = after entered-Reach (
    timer_step (record entered.timer { place = collect 1 0 1 })
      (Timer.arrived 0 0 0 (omega arith) refl refl refl) (λ j. refl) (λ j. refl))

abbrev pub two_counted : Clocked Machine Pcb
two_counted = record one_counted {
  os = record one_counted.os { time = (record one_counted.timer { place = collect 2 0 2 }).time };
  timer = record one_counted.timer { place = collect 2 0 2 };
}

two_counted-Reach : ClockedReach pcb_process 2 1 at_start two_counted
two_counted-Reach = after one_counted-Reach (
    timer_step (record one_counted.timer { place = collect 2 0 2 })
      (Timer.arrived 1 0 1 (omega arith) refl refl refl) (λ j. refl) (λ j. refl))

abbrev pub ticked : Clocked Machine Pcb
ticked = record two_counted {
  os = record two_counted.os {
    time = (record two_counted.timer { time = 1; place = release 0 0 2 }).time;
  };
  timer = record two_counted.timer { time = 1; place = release 0 0 2 };
}

ticked-Reach : ClockedReach pcb_process 2 1 at_start ticked
ticked-Reach = after two_counted-Reach (
    timer_step (record two_counted.timer { time = 1; place = release 0 0 2 }) (Timer.tick 0 2 refl)
      (λ j. refl) (λ j. refl))

abbrev pub one_free : Clocked Machine Pcb
one_free = record ticked {
  os = record ticked.os {
    time =
        (record (with_device ticked.timer 0 (device false false waiting 0)) {
          place = release 1 0 2;
        }).time;
  };
  timer = record (with_device ticked.timer 0 (device false false waiting 0)) {
    place = release 1 0 2;
  };
}

one_free-Reach : ClockedReach pcb_process 2 1 at_start one_free
one_free-Reach = after ticked-Reach (
    timer_step
      (record (with_device ticked.timer 0 (device false false waiting 0)) { place = release 1 0 2 })
      (Timer.clear 0 0 2 0 true false waiting (omega arith) refl refl)
      (same_point ticked.timer 0 true false waiting 0 refl)
      (same_slots ticked.timer 0 true false waiting 0 refl))

abbrev pub two_free : Clocked Machine Pcb
two_free = record one_free {
  os = record one_free.os {
    time =
        (record (with_device one_free.timer 1 (device false false waiting 0)) {
          place = release 2 0 2;
        }).time;
  };
  timer = record (with_device one_free.timer 1 (device false false waiting 0)) {
    place = release 2 0 2;
  };
}

two_free-Reach : ClockedReach pcb_process 2 1 at_start two_free
two_free-Reach = after one_free-Reach (
    timer_step
      (record (with_device one_free.timer 1 (device false false waiting 0)) {
        place = release 2 0 2;
      })
      (Timer.clear 1 0 2 0 true false waiting (omega arith) refl refl)
      (same_point one_free.timer 1 true false waiting 0 refl)
      (same_slots one_free.timer 1 true false waiting 0 refl))

abbrev pub next_round : Clocked Machine Pcb
next_round = record two_free {
  os = record two_free.os { time = (record two_free.timer { place = Timer.head }).time };
  timer = record two_free.timer { place = Timer.head };
}

pub next_round-Reach : ClockedReach pcb_process 2 1 at_start next_round
next_round-Reach = after two_free-Reach (
    timer_step (record two_free.timer { place = Timer.head }) (Timer.again 0 2 refl) (λ j. refl)
      (λ j. refl))
