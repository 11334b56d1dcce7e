-- ===== src/Os/Boot/Ready.antt =====
-- A configuration and process files of the right form are enough for the threads to start.
use Prim.Native.String.{String, len}
use Prim.Native.String
use os_assignment_hk.Common.{
  ℕ, ◌+◌, ◌%◌, ◌^◌, ◌<◌, ◌≡◌, refl, arith, ltb, true, Option, none, some, List, [], ◌∷◌, length, ok,
}
use os_assignment_hk.Common.Int.{ℤ, pos}
use os_assignment_hk.Mem.{page_size}
use os_assignment_hk.Memphy.{init_memphy}
use os_assignment_hk.Tlb.{init_tlbmemphy}
use os_assignment_hk.Cpu.{Inst, Pcb, Machine}
use os_assignment_hk.Loader.{Scanf, IsInt}
use os_assignment_hk.Loader.RoundTrip
use os_assignment_hk.Loader.RoundTrip.{put_process, load-put_process, all_filled}
use os_assignment_hk.Sched.{init_scheduler}
use os_assignment_hk.Os.{start_os}
use os_assignment_hk.Os.Config.{strcat}
use os_assignment_hk.Os.Config.RoundTrip.{
  Line, job_of, jobs_of, AllFit, put_config, read_config-put_config,
}
use os_assignment_hk.Os.Boot.{
  Memory, fresh_mm, init_swaps, init_machine, load_process, load_processes, main, boot,
}

-- what a process file holds
pub record Program : Type 0 where
  pub priority : ℕ
  pub code : List Inst

-- the devices of a machine with a RAM of size `ram` and swap devices of sizes `a` to `d`
abbrev pub machine_of : Memory → ℕ → ℕ → ℕ → ℕ → ℕ → Machine
machine_of mem ram a b c d = record {
  mram = init_memphy ram true (mem.cursor 4);
  mswp =
      init_memphy a true (mem.cursor 0)
      ∷ init_memphy b true (mem.cursor 1)
      ∷ init_memphy c true (mem.cursor 2)
      ∷ init_memphy d true (mem.cursor 3)
      ∷ [];
  tlb = init_tlbmemphy 0x10000 mem.tlb;
  owner = none;
}

module _ {File : Type 0} (io : Scanf File) (mem : Memory) where
  -- process `i` of the configuration, as the loader adds it
  abbrev pub process_of : ℕ → ℕ → Line → Program → Pcb
  process_of i avail_pid l g = record (mem.pcb i) {
    pid = avail_pid;
    priority = g.priority;
    code = all_filled io (mem.text i) 0 g.code;
    pc = 0;
    bp = page_size;
    prio = l.prio % 2 ^ 32;
    mm = fresh_mm mem i;
    active_mswp = 0;
  }

  abbrev pub todo_of : ℕ → ℕ → List Line → List Program → List (Pcb × ℕ)
  todo_of i avail_pid [] gs = []
  todo_of i avail_pid (l ∷ ls) [] = []
  todo_of i avail_pid (l ∷ ls) (g ∷ gs) =
      (process_of i avail_pid l g, l.start_time) ∷ todo_of (i + 1) (avail_pid + 1) ls gs

  module _ (fopen : String → Option File) where
    -- The file of each line holds its program, with all numbers below 2^32.
    abbrev pub Loads : List Line → List Program → Type 0
    Loads [] [] = Unit
    Loads [] (g ∷ gs) = ⊥
    Loads (l ∷ ls) [] = ⊥
    Loads (l ∷ ls) (g ∷ gs) =
        (rest : File) × (fopen (job_of l).path ≡ some (put_process io g.priority g.code rest))
        × (g.priority < 2 ^ 32)
        × (length g.code < 2 ^ 32)
        × RoundTrip.AllFit io g.code
        × Loads ls gs

    load_processes_lem :
        (ls : List Line) (gs : List Program) (i avail_pid : ℕ)
        → avail_pid + length ls < 2 ^ 32
        → Loads ls gs
        → load_processes io fopen mem i avail_pid (jobs_of ls) ≡ (todo_of i avail_pid ls gs, ok tt)
    unfolding load_processes load_process
    load_processes_lem [] gs i avail_pid h loads = refl
    load_processes_lem (l ∷ ls) [] i avail_pid h loads = absurd (loads)
    load_processes_lem (l ∷ ls) (g ∷ gs) i avail_pid h (rest, file, small, short, fit, loads) =
        let follows : (avail_pid + 1) % 2 ^ 32 ≡ avail_pid + 1 = omega arith in
        rw file (
          rw
            (load-put_process io avail_pid g.priority g.code rest (mem.pcb i) (mem.size i)
              (mem.text i) small short fit)
            (rw follows
              (rw (load_processes_lem ls gs (i + 1) (avail_pid + 1) (omega arith) loads) refl)))

    pub boot-put_config :
        (program name : String) (time_slot num_cpus : ℤ) (ram a b c d : ℕ) (ls : List Line)
        (gs : List Program) (rest : File)
        → len name < 94
        → fopen (String.◌++◌ "input/" name)
          ≡ some (
              put_config io time_slot num_cpus
                (pos ram)
                (pos a ∷ pos b ∷ pos c ∷ pos d ∷ [])
                ls
                rest)
        → IsInt time_slot
        → IsInt num_cpus
        → ram < 2 ^ 31
        → a < 2 ^ 31
        → b < 2 ^ 31
        → c < 2 ^ 31
        → d < 2 ^ 31
        → length ls < 2 ^ 31
        → AllFit ls
        → Loads ls gs
        → boot io fopen mem (program ∷ name ∷ [])
          ≡ ok (
              some (
                record {
                  time_slot = time_slot;
                  num_cpus = num_cpus;
                  num_processes = pos (length ls);
                  tlbsz = 0x10000;
                  memramsz = pos ram;
                  memswpsz = pos a ∷ pos b ∷ pos c ∷ pos d ∷ [];
                  ld_processes = jobs_of ls;
                },
                start_os init_scheduler (machine_of mem ram a b c d) (todo_of 0 1 ls gs),
                ok tt,
              ))
    unfolding boot main strcat init_machine init_swaps
    boot-put_config program name ts nc ram a b c d ls gs rest short file ht hn hr ha hb hc hd few
          fit loads =
        let fits : ltb (len "input/" + len name) 100 ≡ true = ground arith in
        rw fits (
          rw file (
            rw
              (read_config-put_config io ts nc (pos ram) (pos a) (pos b) (pos c) (pos d) ls rest
                mem.prio ht hn hr (ha, (hb, (hc, (hd, tt)))) few fit)
              (rw (load_processes_lem ls gs 0 1 (omega arith) loads) refl)))
