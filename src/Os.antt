-- ===== src/Os.antt =====
-- src/os.c: the threads of the CPUs and of the loader. A thread's code is cut into steps, each with one
-- access to what the threads share: a locked operation on the queues, one run of an instruction, or
-- a look at `done`. The scan of `get_mlq_proc` holds no lock, so while other threads move it may end
-- at any level, or find nothing, or refill the slots: a fetch may do each of these. Of a process only
-- its id, its priority, its end and `run` are used, through the interface `Process`. The time slot is
-- taken to be above 0, as every configuration has it: with 0 the code would count below 0.
pub mod Tally
pub mod Conserved
pub mod Idle
pub mod Each
pub mod Stopped
pub mod Slice
pub mod Run
pub mod Config
pub mod Boot
pub mod Clocked
use os_assignment_hk.Common.{
  ℕ, suc, ◌+◌, ◌-◌, ◌≤◌, ◌<◌, ◌≡◌, Bool, true, false, ◌==◌, Option, none, some, List, [], ◌∷◌,
  Result, ok, Returns, if◌then◌else◌,
}
use os_assignment_hk.Sched.{Sched, max_prio, set_slot_for_queue, take_from, add_mlq_proc}

-- What the threads use of processes `P` on devices `M`.
pub record Process (M P : Type 0) : Type 0 where
  pub pid : P → ℕ
  pub prio : P → ℕ
  pub is_finished : P → Bool
  pub run : ℕ → (ℕ → ℕ) → M → P → Result (M × P)
  pub run-pid :
      (cpu : ℕ) (rand : ℕ → ℕ) (m : M) (p : P)
      → Returns (run cpu rand m p) (λ (m', q). pid q ≡ pid p)

-- Where the code of `cpu_routine` stands: at the head of the loop, in `get_proc` (`idle` for the one of
-- a CPU with no process), behind it, in `next_slot`, or behind the loop.
pub data At : Type 0 where
  head : At
  fetch : Bool → At
  recheck : At
  slot : At
  stopped : At

-- The thread of a CPU. `proc` is NULL while its old process is given away and a new one fetched.
pub record Cpu (P : Type 0) : Type 0 where
  pub at : At
  pub proc : Option P
  pub time_left : ℕ

-- What the threads share, with the loader's list of processes and their start times. `gone` are the
-- processes that were freed.
pub record Os (M P : Type 0) : Type 0 where
  pub sched : Sched P
  pub machine : M
  pub done : Bool
  pub time : ℕ
  pub todo : List (P × ℕ)
  pub gone : List P
  pub cpus : ℕ → Cpu P

abbrev pub set_cpu : {P : Type 0} → (ℕ → Cpu P) → ℕ → Cpu P → ℕ → Cpu P
set_cpu cpus i c j = if i == j then c else cpus j

-- where a fetch leads
abbrev pub fetched : {P : Type 0} → Bool → Option P → At
fetched true none = slot
fetched true (some p) = recheck
fetched false proc = recheck

abbrev pub cpu : {P : Type 0} → At → Option P → ℕ → Cpu P
cpu at proc time_left = record { at = at; proc = proc; time_left = time_left }

module _ {M P : Type 0} where
  abbrev pub with_cpu : Os M P → ℕ → Cpu P → Os M P
  with_cpu s i c = record s { cpus = set_cpu s.cpus i c }

  module _ (io : Process M P) (time_slot num_cpus : ℕ) where
    -- a new time slot when the old one is used up
    abbrev pub slice : ℕ → ℕ
    slice n = if n == 0 then time_slot else n

    -- One step of a thread, or of the clock.
    pub data Step (s : Os M P) : Os M P → Type 0 where
      tick : Step s (record s { time = s.time + 1 })
      load :
          (i n : ℕ)
          → i < num_cpus
          → s.cpus i ≡ cpu head none n
          → Step s (with_cpu s i (cpu (fetch true) none n))
      finish :
          (i n : ℕ) (p : P)
          → i < num_cpus
          → s.cpus i ≡ cpu head (some p) n
          → io.is_finished p ≡ true
          → Step s (with_cpu (record s { gone = p ∷ s.gone }) i (cpu (fetch false) none 0))
      put :
          (i : ℕ) (p : P) (sched' : Sched P)
          → i < num_cpus
          → s.cpus i ≡ cpu head (some p) 0
          → io.is_finished p ≡ false
          → add_mlq_proc io.prio s.sched p ≡ ok sched'
          → Step s (with_cpu (record s { sched = sched' }) i (cpu (fetch false) none 0))
      keep :
          (i n : ℕ) (p : P)
          → i < num_cpus
          → s.cpus i ≡ cpu head (some p) (suc n)
          → io.is_finished p ≡ false
          → Step s (with_cpu s i (cpu recheck (some p) (suc n)))
      refill :
          (i n : ℕ) (b : Bool)
          → i < num_cpus
          → s.cpus i ≡ cpu (fetch b) none n
          → Step s (record s { sched = set_slot_for_queue s.sched })
      take :
          (i n level : ℕ) (b : Bool)
          → i < num_cpus
          → s.cpus i ≡ cpu (fetch b) none n
          → level < max_prio
          → Step s (
              with_cpu
                (record s { sched = (take_from level s.sched).1 })
                i
                (cpu (fetched b (take_from level s.sched).0) (take_from level s.sched).0 n))
      nothing :
          (i n : ℕ) (b : Bool)
          → i < num_cpus
          → s.cpus i ≡ cpu (fetch b) none n
          → Step s (with_cpu s i (cpu (fetched {P = P} b none) none n))
      stop :
          (i n : ℕ)
          → i < num_cpus
          → s.cpus i ≡ cpu recheck none n
          → s.done ≡ true
          → Step s (with_cpu s i (cpu stopped none n))
      skip :
          (i n : ℕ)
          → i < num_cpus
          → s.cpus i ≡ cpu recheck none n
          → s.done ≡ false
          → Step s (with_cpu s i (cpu slot none n))
      run :
          (i n : ℕ) (p q : P) (m : M) (rand : ℕ → ℕ)
          → i < num_cpus
          → s.cpus i ≡ cpu recheck (some p) n
          → io.run i rand s.machine p ≡ ok (m, q)
          → Step s (with_cpu (record s { machine = m }) i (cpu slot (some q) (slice n - 1)))
      wake :
          (i n : ℕ) (proc : Option P)
          → i < num_cpus
          → s.cpus i ≡ cpu slot proc n
          → Step s (with_cpu s i (cpu head proc n))
      add :
          (p : P) (start : ℕ) (rest : List (P × ℕ)) (sched' : Sched P)
          → s.todo ≡ (p, start) ∷ rest
          → start ≤ s.time
          → add_mlq_proc io.prio s.sched p ≡ ok sched'
          → Step s (record s { sched = sched'; todo = rest })
      end_loading : s.todo ≡ [] → Step s (record s { done = true })

    pub data Reach (s : Os M P) : Os M P → Type 0 where
      here : Reach s s
      next : {t u : Os M P} → Reach s t → Step t u → Reach s u

  -- `main`: each CPU at the head of its loop with no process
  unfoldable pub start_os : Sched P → M → List (P × ℕ) → Os M P
  start_os sched machine todo = record {
    sched = sched;
    machine = machine;
    done = false;
    time = 0;
    todo = todo;
    gone = [];
    cpus = λ i. cpu head none 0;
  }
