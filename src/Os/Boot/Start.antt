-- ===== src/Os/Boot/Start.antt =====
-- What the threads start from: processes of different ids.
use mathlib.Core.Path.{subst}
use Prim.Native.String.{String}
use os_assignment_hk.Common.{
  ℕ, ◌+◌, ◌%◌, ◌^◌, ◌<◌, ◌≤◌, ◌≡◌, ◌≢◌, refl, sym, ap, arith, Option, none, some, List, [], ◌∷◌,
  length, Result, ok, exited, fault, timeout, Returns, Returns-bind, Returns-chain,
}
use os_assignment_hk.Common.Int.{rounds}
use os_assignment_hk.Cpu.{Inst, Pcb, Machine}
use os_assignment_hk.Sched.{init_scheduler}
use os_assignment_hk.Loader.{Scanf, load_code, load}
use os_assignment_hk.Os.{Os, Reach, start_os}
use os_assignment_hk.Os.Tally.{waiting}
use os_assignment_hk.Os.Conserved.{one_place}
use os_assignment_hk.Os.Run.{pcb_process}
use os_assignment_hk.Os.Config.{Job, Config, strcat, read_config}
use os_assignment_hk.Os.Boot.{
  Outcome, end_round, Memory, Started, load_process, init_machine, load_processes, main, boot,
}

-- the ids of the processes, from `avail_pid` on
abbrev pub Numbered : ℕ → List (Pcb × ℕ) → Type 0
Numbered k [] = Unit
Numbered k ((p, start) ∷ rest) = (p.pid ≡ k) × Numbered (k + 1) rest

Numbered-waiting :
    (k n : ℕ) (todo : List (Pcb × ℕ))
    → Numbered n todo
    → (waiting pcb_process k todo ≤ 1) × (k < n → waiting pcb_process k todo ≡ 0)
Numbered-waiting k n [] h = (omega arith, λ l. refl)
Numbered-waiting k n ((p, start) ∷ rest) (e, h) =
    let (few, none_before) = Numbered-waiting k (n + 1) rest h in (ground arith, λ l. ground arith)

-- A process was loaded with the next id.
abbrev pub HasNext : ℕ → Pcb × ℕ → Type 0
HasNext k r = (r.0.pid ≡ k) × (r.1 ≡ (k + 1) % 2 ^ 32)

abbrev IsReady : Option Started → Type 0
IsReady none = Unit
IsReady (some s) = s.sched ≡ init_scheduler

-- a start of the threads with numbered processes, if the configuration has a list that short
abbrev IsStart : Option (Config × Os Machine Pcb × Outcome) → Type 0
IsStart none = Unit
IsStart (some (config, s, end)) =
    length config.ld_processes + 1 < 2 ^ 32
    → (machine : Machine) × (todo : List (Pcb × ℕ)) × (s ≡ start_os init_scheduler machine todo)
      × Numbered 1 todo

end_round-Numbered :
    (k start : ℕ) (r : Result (Pcb × ℕ)) (later : ℕ → List (Pcb × ℕ) × Outcome)
    → Returns r (HasNext k)
    → ((avail_pid : ℕ) → avail_pid ≡ (k + 1) % 2 ^ 32 → Numbered (k + 1) (later avail_pid).0)
    → Numbered k (end_round start r later).0
end_round-Numbered k start (ok (p, avail_pid)) later (e, f) h = (e, h avail_pid f)
end_round-Numbered k start exited later n h = tt
end_round-Numbered k start fault later n h = tt
end_round-Numbered k start timeout later n h = tt

module _ {ℓ} {File : Type ℓ} (io : Scanf File) where
  load-HasNext :
      (avail_pid : ℕ) (file : Option File) (old_pcb : Pcb) (old_size : ℕ) (old : ℕ → Inst)
      → Returns (load io avail_pid file old_pcb old_size old) (HasNext avail_pid)
  unfolding load
  load-HasNext avail_pid none old_pcb old_size old = tt
  load-HasNext avail_pid (some file) old_pcb old_size old =
      Returns-bind (HasNext avail_pid) _ (λ code. (refl, refl)) (load_code io _ _ _ _ _)

  module _ (fopen : String → Option File) (mem : Memory) where
    load_process-HasNext :
        (i avail_pid : ℕ) (job : Job)
        → Returns (load_process io fopen mem i avail_pid job) (HasNext avail_pid)
    unfolding load_process
    load_process-HasNext i avail_pid job =
        Returns-chain (HasNext avail_pid) (HasNext avail_pid) _ (λ (p, avail') h. h)
          (load io avail_pid (fopen job.path) (mem.pcb i) (mem.size i) (mem.text i))
          (load-HasNext avail_pid (fopen job.path) (mem.pcb i) (mem.size i) (mem.text i))

    load_processes-Numbered :
        (jobs : List Job) (i avail_pid : ℕ)
        → avail_pid + length jobs < 2 ^ 32
        → Numbered avail_pid (load_processes io fopen mem i avail_pid jobs).0
    unfolding load_processes
    load_processes-Numbered [] i avail_pid h = tt
    load_processes-Numbered (job ∷ jobs) i avail_pid h =
        end_round-Numbered avail_pid job.start_time (load_process io fopen mem i avail_pid job)
          (λ avail'. load_processes io fopen mem (i + 1) avail' jobs)
          (load_process-HasNext i avail_pid job)
          (λ avail' f.
            let follows : avail' ≡ avail_pid + 1 = omega arith in
            subst (λ k. Numbered (avail_pid + 1) (load_processes io fopen mem (i + 1) k jobs).0)
              (sym follows) (load_processes-Numbered jobs (i + 1) (avail_pid + 1) (omega arith)))

    main-IsReady : (argv : List String) → Returns (main io fopen mem argv) IsReady
    unfolding main
    main-IsReady [] = tt
    main-IsReady (program ∷ []) = tt
    main-IsReady (program ∷ name ∷ []) =
        Returns-bind IsReady _
          (λ path.
            Returns-bind IsReady _
              (λ config. Returns-bind IsReady _ (λ machine. refl) (init_machine mem config))
              (read_config io (fopen path) mem.prio))
          (strcat "input/" name)
    main-IsReady (program ∷ name ∷ other ∷ rest) = tt

    boot-IsStart : (argv : List String) → Returns (boot io fopen mem argv) IsStart
    unfolding boot
    boot-IsStart argv =
        Returns-chain IsReady IsStart _ from (main io fopen mem argv) (main-IsReady argv)
      where
        from :
            (r : Option Started)
            → IsReady r
            → Returns
                (elim r [
                  | none ↦ ok none
                  | some s ↦
                      let (todo, end) = load_processes io fopen mem 0 1 s.config.ld_processes in
                      ok (some (s.config, start_os s.sched s.machine todo, end))
                ])
                IsStart
        from none h = tt
        from (some s) h = λ short. (
          s.machine,
          (load_processes io fopen mem 0 1 s.config.ld_processes).0,
          ap (λ x. start_os x s.machine (load_processes io fopen mem 0 1 s.config.ld_processes).0)
              h,
          load_processes-Numbered s.config.ld_processes 0 1 (omega arith),
        )

    -- From a configuration with fewer than 2^32 - 1 processes, whatever the process files and the memory
    -- hold: in every state that the threads reach, with the processes whose files load before the first
    -- that does not, if there is one, two CPUs never hold processes of the same id.
    pub boot-one_place :
        (argv : List String) (config : Config) (s : Os Machine Pcb) {t : Os Machine Pcb}
        (end : Outcome) (i j : ℕ) (p q : Pcb)
        → boot io fopen mem argv ≡ ok (some (config, s, end))
        → length config.ld_processes + 1 < 2 ^ 32
        → Reach pcb_process (rounds config.time_slot) (rounds config.num_cpus) s t
        → i < rounds config.num_cpus
        → j < rounds config.num_cpus
        → i ≢ j
        → (t.cpus i).proc ≡ some p
        → (t.cpus j).proc ≡ some q
        → p.pid ≢ q.pid
    boot-one_place argv config s {t} end i j p q booted short r hi hj ne ep eq =
        let (machine, todo, start, numbered) =
          subst (λ x. Returns x IsStart) booted (boot-IsStart argv) short in
        one_place pcb_process (rounds config.time_slot) (rounds config.num_cpus) machine todo i j p
          q (λ k. (Numbered-waiting k 1 todo numbered).0)
          (subst (λ x. Reach pcb_process (rounds config.time_slot) (rounds config.num_cpus) x t)
            start r)
          hi hj ne ep eq
