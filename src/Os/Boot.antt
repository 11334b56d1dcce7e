-- ===== src/Os/Boot.antt =====
-- `main` of src/os.c up to the start of the threads, and what `ld_routine` makes of a process before
-- it adds it. `fopen` is a parameter. A device of a size below 0 would have no storage, and frames in
-- memory that was never written: it is taken to be undefined at once.
pub mod Start
pub mod Ready
pub mod First
use Prim.Native.String.{String}
use os_assignment_hk.Common.{
  ℕ, suc, ◌+◌, ◌%◌, ◌/◌, ◌^◌, true, Option, none, some, List, [], ◌∷◌, tabulate, Result, ok, exited,
  fault, timeout, ◌>>=◌,
}
use os_assignment_hk.Common.Int.{ℤ, pos, negsuc}
use os_assignment_hk.Word.{bit, div_round_up}
use os_assignment_hk.Pte.{paging_pagesz}
use os_assignment_hk.Memphy.{Memphy, init_memphy}
use os_assignment_hk.Tlb.{init_tlbmemphy}
use os_assignment_hk.Vm.{Region, RgList, Mm, paging_max_symtbl_sz, init_mm}
use os_assignment_hk.Cpu.{Inst, Pcb, Machine}
use os_assignment_hk.Loader.{Scanf, load}
use os_assignment_hk.Sched.{Sched, init_scheduler}
use os_assignment_hk.Os.Config.{Job, Config, strcat, read_config}
use os_assignment_hk.Os.{Os, start_os}

-- `PAGING_MAX_PGN`
abbrev pub paging_max_pgn : ℕ
paging_max_pgn = div_round_up (bit 22) paging_pagesz

-- What `malloc` and the stack leave in the objects that are not written as a whole: for the arrays by
-- index, and for what belongs to a process by its place in the configuration.
pub record Memory : Type 0 where
  pub prio : ℕ → ℕ
  pub cursor : ℕ → ℕ
  pub tlb : ℕ → ℕ
  pub pcb : ℕ → Pcb
  pub size : ℕ → ℕ
  pub text : ℕ → ℕ → Inst
  pub pgd : ℕ → ℕ → ℕ
  pub symrgtbl : ℕ → ℕ → Region
  pub freerg_list : ℕ → RgList
  pub fifo_pgn : ℕ → List ℕ

abbrev pub device_size : ℤ → Result ℕ
device_size (pos n) = ok n
device_size (negsuc n) = fault

-- the loop over `mswp`, from device `sit` on
unfoldable pub init_swaps : Memory → ℕ → List ℤ → Result (List Memphy)
init_swaps mem sit [] = ok []
init_swaps mem sit (z ∷ zs) = device_size z >>= λ n.
    init_swaps mem (sit + 1) zs >>= λ rest. ok (init_memphy n true (mem.cursor sit) ∷ rest)

-- the devices; the cursor of RAM stands behind those of the swap devices
unfoldable pub init_machine : Memory → Config → Result Machine
init_machine mem config = device_size config.memramsz >>= λ n.
    init_swaps mem 0 config.memswpsz >>= λ mswp. ok (record {
      mram = init_memphy n true (mem.cursor 4);
      mswp = mswp;
      tlb = init_tlbmemphy config.tlbsz mem.tlb;
      owner = none;
    })

-- `init_mm` for process `i`
unfoldable pub fresh_mm : Memory → ℕ → Mm
fresh_mm mem i =
    init_mm (tabulate paging_max_pgn 0 (mem.pgd i))
      (tabulate paging_max_symtbl_sz 0 (mem.symrgtbl i)) (mem.freerg_list i) (mem.fifo_pgn i)

-- what `main` has set up when it creates the threads
pub record Started : Type 0 where
  pub config : Config
  pub machine : Machine
  pub sched : Sched Pcb

-- how a loop ends that returns nothing
abbrev pub Outcome : Type 0
Outcome = Result {0} Unit

-- The process of a round, if its file loads, stands before those of the later rounds.
abbrev pub end_round :
    ℕ → Result (Pcb × ℕ) → (ℕ → List (Pcb × ℕ) × Outcome) → List (Pcb × ℕ) × Outcome
end_round start exited later = ([], exited)
end_round start fault later = ([], fault)
end_round start timeout later = ([], timeout)
end_round start (ok (p, avail_pid)) later =
    let (rest, end) = later avail_pid in ((p, start) ∷ rest, end)

module _ {ℓ} {File : Type ℓ} (io : Scanf File) (fopen : String → Option File) (mem : Memory) where
  -- The part of a round of `ld_routine` that makes a process: number `i`, with the next `avail_pid`.
  unfoldable pub load_process : ℕ → ℕ → Job → Result (Pcb × ℕ)
  load_process i avail_pid job =
      load io avail_pid (fopen job.path) (mem.pcb i) (mem.size i) (mem.text i) >>= λ (p, avail').
      ok (record p { prio = job.prio % 2 ^ 32; mm = fresh_mm mem i; active_mswp = 0 }, avail')

  -- The loop of `ld_routine`, which loads each process in its round, while the CPUs run: the processes
  -- with their start times up to the first file that does not load, and how the loop ends, by the
  -- failure of that file, or by `ok`.
  unfoldable pub load_processes : ℕ → ℕ → List Job → List (Pcb × ℕ) × Outcome
  load_processes i avail_pid [] = ([], ok tt)
  load_processes i avail_pid (job ∷ jobs) =
      end_round job.start_time (load_process i avail_pid job)
        (λ avail'. load_processes (i + 1) avail' jobs)

  -- `main`, which returns 1 when it has not just one argument
  unfoldable pub main : List String → Result (Option Started)
  main (program ∷ name ∷ []) = strcat "input/" name >>= λ path.
      read_config io (fopen path) mem.prio >>= λ config. init_machine mem config >>= λ machine.
      ok (some (record { config = config; machine = machine; sched = init_scheduler }))
  main argv = ok none

  -- The threads at their start, with the processes that the loader will add, and how its loop ends. A
  -- file that does not load ends the program when the loader comes to it, after it has added these
  -- processes; until then the CPUs do what they do when no further process is to come.
  unfoldable pub boot : List String → Result (Option (Config × Os Machine Pcb × Outcome))
  boot argv = main argv >>= λ started. elim started [
    | none ↦ ok none
    | some s ↦
        let (todo, end) = load_processes 0 1 s.config.ld_processes in
        ok (some (s.config, start_os s.sched s.machine todo, end))
  ]
