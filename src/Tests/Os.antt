-- ===== src/Tests/Os.antt =====
-- The theorems on the threads at a program with two CPUs and two processes of one instruction.
use os_assignment_hk.Common.{
  ℕ, ◌<◌, ◌≤◌, ◌≡◌, ◌≢◌, refl, ap, arith, true, none, some, List, [], ◌∷◌,
}
use os_assignment_hk.Sched.{init_scheduler, take_from}
use os_assignment_hk.Memphy.{Memphy}
use os_assignment_hk.Memphy
use os_assignment_hk.Cpu.{calc, Pcb, Machine, execute, run}
use os_assignment_hk.Os.{Os, slot, Reach, next, cpu, start_os, run as run_step, with_cpu, fetched}
use os_assignment_hk.Os.Run.{pcb_process}
use os_assignment_hk.Os.Tally.{waiting}
use os_assignment_hk.Os.Conserved.{IsSound, processes_conserved, one_place}
use os_assignment_hk.Tests.Taken
use os_assignment_hk.Os.Slice.{time_left_bounded}

abbrev pub ram : Memphy
ram = record { storage = []; maxsz = 0; rdmflg = true; cursor = 0; free_fp_list = Memphy.null }

abbrev pub machine : Machine
machine = record { mram = ram; mswp = []; tlb = []; owner = none }

-- a process of one `calc`, at an instruction
abbrev process : ℕ → ℕ → Pcb
process pid pc = record {
  pid = pid;
  priority = 0;
  code = record { opcode = calc; arg_0 = 0; arg_1 = 0; arg_2 = 0 } ∷ [];
  regs = [];
  pc = pc;
  prio = 2;
  mm = record { pgd = []; mmap = []; symrgtbl = []; fifo_pgn = [] };
  active_mswp = 0;
  bp = 1024;
}

abbrev todo : List (Pcb × ℕ)
todo = Taken.todo machine (process 7 0) 8 (process 8 0).mm

abbrev begun : Os Machine Pcb
begun = Taken.begun machine (process 7 0) 8 (process 8 0).mm

abbrev takes_0 : Os Machine Pcb
takes_0 = Taken.takes_0 machine (process 7 0) 8 (process 8 0).mm

takes_0-Reach : Reach pcb_process 2 2 begun takes_0
takes_0-Reach = Taken.takes_0-Reach machine (process 7 0) 8 (process 8 0).mm

abbrev takes_1 : Os Machine Pcb
takes_1 = Taken.takes_1 machine (process 7 0) 8 (process 8 0).mm

takes_1-Reach : Reach pcb_process 2 2 begun takes_1
takes_1-Reach = Taken.takes_1-Reach machine (process 7 0) 8 (process 8 0).mm

distinct : (k : ℕ) → waiting pcb_process k todo ≤ 1
distinct k = ground arith

first_takes :
    (take_from 2 (Taken.two_added machine (process 7 0) 8 (process 8 0).mm).0).0
    ≡ some (process 7 0)
first_takes = (Taken.first machine (process 7 0) 8 (process 8 0).mm).0

second_takes :
    (take_from 2 (Taken.rest machine (process 7 0) 8 (process 8 0).mm)).0 ≡ some (process 8 0)
second_takes = Taken.second machine (process 7 0) 8 (process 8 0).mm

processes_conserved_example : IsSound pcb_process 2 2 (λ k. waiting pcb_process k todo) takes_1
processes_conserved_example = processes_conserved pcb_process 2 2 machine todo takes_1-Reach

one_place_example : (process 7 0).pid ≢ (process 8 0).pid
unfolding start_os
one_place_example =
    one_place pcb_process 2 2 machine todo 0 1 (process 7 0) (process 8 0) distinct takes_1-Reach
      (omega arith) (omega arith) (omega arith) first_takes second_takes

-- CPU 0 runs its process
abbrev ran : Os Machine Pcb
ran = with_cpu takes_0 0 (cpu slot (some (process 7 1)) 1)

ran-Reach : Reach pcb_process 2 2 begun ran
unfolding start_os run execute
ran-Reach = next takes_0-Reach (
    run_step 0 0 (process 7 0) (process 7 1) machine (λ i. 0) (omega arith)
      (ap (λ o. cpu (fetched true o) o 0) first_takes) refl)

time_left_bounded_example : 1 < 2
unfolding start_os
time_left_bounded_example =
    time_left_bounded pcb_process 2 2 (omega arith) init_scheduler machine todo ran-Reach 0
