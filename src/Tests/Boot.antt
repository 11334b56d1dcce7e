-- ===== src/Tests/Boot.antt =====
-- The theorems on the start of the program: a configuration with two CPUs and two processes, whose
-- programs are one `calc`, and a program that asks for memory.
use Prim.Native.String.{String}
use text.Mathlib.Text.{◌==◌}
use os_assignment_hk.Common.{
  ℕ, ◌%◌, ◌^◌, ◌≡◌, ◌≢◌, refl, arith, true, Option, none, some, List, [], ◌∷◌, ok, if◌then◌else◌,
}
use os_assignment_hk.Common.Int.{pos}
use os_assignment_hk.Sched.{init_scheduler}
use os_assignment_hk.Tlb.Fresh.{tlb_valid_zero}
use os_assignment_hk.Vm.{null, region}
use os_assignment_hk.Vm.Page.{pg_getval}
use os_assignment_hk.Cpu.{calc, Pcb, Machine, enter, run}
use os_assignment_hk.Cpu.Run.{Stepped}
use os_assignment_hk.Loader.{no_space}
use os_assignment_hk.Loader.RoundTrip.{put_process}
use os_assignment_hk.Os.{Os, start_os}
use os_assignment_hk.Os.Config.{Config, read_config}
use os_assignment_hk.Os.Config.RoundTrip.{Line, jobs_of, AllFit, put_config, read_config-put_config}
use os_assignment_hk.Os.Boot.{Memory, fresh_mm, boot}
use os_assignment_hk.Os.Boot.Start.{boot-one_place}
use os_assignment_hk.Os.Boot.Ready.{
  Program, machine_of, process_of, todo_of, Loads, boot-put_config,
}
use os_assignment_hk.Os.Boot.First.{alloc_and_write, first_write}
use os_assignment_hk.Tests.Taken
use os_assignment_hk.Tests.Program.{Token, tokens, old_pcb, old_inst}

abbrev lines : List Line
lines =
    record { start_time = 0; name = "p0"; prio = 2 }
    ∷ record { start_time = 0; name = "p1"; prio = 2 }
    ∷ []

abbrev program : Program
program = record {
  priority = 1;
  code = record { opcode = calc; arg_0 = 0; arg_1 = 0; arg_2 = 0 } ∷ [];
}

abbrev config_file : List Token
config_file =
    put_config tokens (pos 2) (pos 2) (pos 1024) (pos 512 ∷ pos 0 ∷ pos 0 ∷ pos 0 ∷ []) lines []

abbrev program_file : List Token
program_file = put_process tokens 1 program.code []

abbrev fopen : String → Option (List Token)
fopen path =
    if path == "input/os"
    then some config_file
    else if path == "input/proc/p0"
    then some program_file
    else if path == "input/proc/p1"
    then some program_file
    else none

-- memory as `malloc` may leave it
abbrev memory : Memory
memory = record {
  prio = λ i. 9;
  cursor = λ i. 9;
  tlb = λ i. 0;
  pcb = λ i. old_pcb;
  size = λ i. 9;
  text = λ i. old_inst;
  pgd = λ i j. 0;
  symrgtbl = λ i j. region 0 0;
  freerg_list = λ i. null;
  fifo_pgn = λ i. [];
}

abbrev config : Config
config = record {
  time_slot = pos 2;
  num_cpus = pos 2;
  num_processes = pos 2;
  tlbsz = 0x10000;
  memramsz = pos 1024;
  memswpsz = pos 512 ∷ pos 0 ∷ pos 0 ∷ pos 0 ∷ [];
  ld_processes = jobs_of lines;
}

fit : AllFit lines
unfolding no_space
fit = (
  (omega arith, omega arith, (omega arith, refl), omega arith),
  ((omega arith, omega arith, (omega arith, refl), omega arith), tt),
)

read_config-put_config_example : read_config tokens (some config_file) memory.prio ≡ ok config
read_config-put_config_example =
    read_config-put_config tokens (pos 2) (pos 2) (pos 1024) (pos 512) (pos 0) (pos 0) (pos 0) lines
      [] memory.prio (omega arith) (omega arith) (omega arith)
      (omega arith, (omega arith, (omega arith, (omega arith, tt)))) (omega arith) fit

abbrev programs : List Program
programs = program ∷ program ∷ []

abbrev machine : Machine
machine = machine_of memory 1024 512 0 0 0

abbrev todo : List (Pcb × ℕ)
todo = todo_of tokens memory 0 1 lines programs

abbrev begun : Os Machine Pcb
begun = start_os init_scheduler machine todo

loads : Loads tokens memory fopen lines programs
loads = (
  [],
  refl,
  omega arith,
  omega arith,
  ((omega arith, omega arith, omega arith), tt),
  ([], refl, omega arith, omega arith, ((omega arith, omega arith, omega arith), tt), tt),
)

boot-put_config_example :
    boot tokens fopen memory ("os" ∷ "os" ∷ []) ≡ ok (some (config, begun, ok tt))
boot-put_config_example =
    boot-put_config tokens memory fopen "os" "os" (pos 2) (pos 2) 1024 512 0 0 0 lines programs []
      (omega arith) refl (omega arith) (omega arith) (omega arith) (omega arith) (omega arith)
      (omega arith) (omega arith) (omega arith) fit loads

-- the processes of ids 1 and 2 on the two CPUs
abbrev first_process : Pcb
first_process =
    process_of tokens memory 0 1 (record { start_time = 0; name = "p0"; prio = 2 }) program

abbrev second_process : Pcb
second_process =
    process_of tokens memory 1 2 (record { start_time = 0; name = "p1"; prio = 2 }) program

boot-one_place_example : first_process.pid ≢ second_process.pid
unfolding start_os
boot-one_place_example =
    boot-one_place tokens fopen memory ("os" ∷ "os" ∷ []) config begun
      {t = Taken.takes_1 machine first_process 2 (fresh_mm memory 1)} (ok tt) 0 1 first_process
      second_process boot-put_config_example (omega arith)
      (Taken.takes_1-Reach machine first_process 2 (fresh_mm memory 1)) (omega arith) (omega arith)
      (omega arith) (Taken.first machine first_process 2 (fresh_mm memory 1)).0
      (Taken.second machine first_process 2 (fresh_mm memory 1))

first_write_example :
    let p =
      process_of tokens memory 0 1
        (record { start_time = 0; name = "p0"; prio = 2 })
        (alloc_and_write 1 300 1 0 333 299 []) in
    (m' m'' : Machine) × (q q' : Pcb) × (run 0 (λ i. i) machine p ≡ ok (true, m', q))
    × Stepped p q
    × (run 0 (λ i. 7) m' q ≡ ok (true, m'', q'))
    × Stepped q q'
    × (m''.owner ≡ none)
    × (pg_getval (enter 0 m'' q').proc 299 ≡ ok (true, some (333 % 2 ^ 8), (enter 0 m'' q').proc))
first_write_example =
    first_write tokens memory 0 (λ i. i) (λ i. 7) 1024 512 0 0 0 0 1
      (record { start_time = 0; name = "p0"; prio = 2 }) 1 300 1 0 333 299 []
      (λ j. (omega arith, tlb_valid_zero)) (λ j. omega arith) refl (omega arith) (omega arith)
      (omega arith) (omega arith) (omega arith) (omega arith)
