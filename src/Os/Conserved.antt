-- ===== src/Os/Conserved.antt =====
-- No process is lost, and none is in two places, whatever the order of the steps.
use mathlib.Core.Path.{subst}
use os_assignment_hk.Common.{
  ℕ, ◌+◌, ◌-◌, ◌≤◌, ◌<◌, ◌≡◌, ◌≢◌, refl, ap, arith, false, ◌==◌, none, some, List, [], ◌∷◌, ◌++◌,
  ok, Returns, if◌then◌else◌,
}
use os_assignment_hk.Common.Sum.{total-eq-zero, le_total, two_le_total}
use os_assignment_hk.Sched.Dispatch.{init_scheduler-Represents}
use os_assignment_hk.Sched.{init_scheduler, max_prio, take_from}
use os_assignment_hk.Sched.Levels.{Represents, set_slot_for_queue-Represents}
use os_assignment_hk.Os.Tally.{
  one, count, held, waiting, queued, running, queued-update, running-set, count-append, take_lem,
  add_lem,
}
use os_assignment_hk.Os.{
  Process, Os, Cpu, cpu, fetch, slot, with_cpu, fetched, slice, Step, tick, load, finish, put, keep,
  refill, take, nothing, stop, skip, run, wake, add, end_loading, Reach, here, next, start_os,
}

module _ {M P : Type 0} (io : Process M P) (time_slot num_cpus : ℕ) where
  -- how often the process of id `k` stands anywhere, with the lists `ls`
  abbrev pub tally : ℕ → Os M P → (ℕ → List P) → ℕ
  tally k s ls =
      queued io k ls + running io num_cpus k s.cpus + waiting io k s.todo + count io k s.gone

  -- The scheduler is well formed, and each process stands in as many places as `born` says.
  pub record IsSound (born : ℕ → ℕ) (s : Os M P) : Type 0 where
    pub levels : ℕ → List P
    pub sched : Represents s.sched levels
    pub kept : (k : ℕ) → tally k s levels ≡ born k

  -- A step of one CPU that does not touch the lists or change the process it holds.
  same_proc :
      (born : ℕ → ℕ) (s : Os M P) (i : ℕ) (c : Cpu P)
      → i < num_cpus
      → (s.cpus i).proc ≡ c.proc
      → IsSound born s
      → IsSound born (with_cpu s i c)
  same_proc born s i c lt e v = record {
    levels = v.levels;
    sched = v.sched;
    kept = λ k.
        let moved = running-set io num_cpus k i s.cpus c lt in
        let same = ap (held io k) e in omega (arith, v.kept k);
  }

  ran_pid :
      (i : ℕ) (rand : ℕ → ℕ) (m : M) (p : P) (m' : M) (q : P)
      → io.run i rand m p ≡ ok (m', q)
      → io.pid q ≡ io.pid p
  ran_pid i rand m p m' q e =
      subst (λ r. Returns r (λ (x, y). io.pid y ≡ io.pid p)) e (io.run-pid i rand m p)

  Step-IsSound :
      {born : ℕ → ℕ} {s t : Os M P}
      → Step io time_slot num_cpus s t
      → IsSound born s
      → IsSound born t
  Step-IsSound tick v = record { levels = v.levels; sched = v.sched; kept = v.kept }
  Step-IsSound {born} {s} (load i n lt e) v = same_proc born s i _ lt (ap (λ c. c.proc) e) v
  Step-IsSound {born} {s} (finish i n p lt e f) v = record {
    levels = v.levels;
    sched = v.sched;
    kept = λ k.
        let moved = running-set io num_cpus k i s.cpus (cpu (fetch false) none 0) lt in
        let before = ap (λ c. held io k c.proc) e in omega (arith, v.kept k);
  }
  Step-IsSound {born} {s} (put i p sched' lt e f added) v =
      let (j, below, rep) = add_lem io p v.sched added in
      record {
        levels = _;
        sched = rep;
        kept = λ k.
            let moved = running-set io num_cpus k i s.cpus (cpu (fetch false) none 0) lt in
            let before = ap (λ c. held io k c.proc) e in
            let lists = queued-update io k j v.levels (v.levels j ++ p ∷ []) below in
            omega (arith, v.kept k, count-append io k (v.levels j) p);
      }
  Step-IsSound {born} {s} (keep i n p lt e f) v = same_proc born s i _ lt (ap (λ c. c.proc) e) v
  Step-IsSound (refill i n b lt e) v = record {
    levels = v.levels;
    sched = set_slot_for_queue-Represents v.sched;
    kept = v.kept;
  }
  Step-IsSound {born} {s} (take i n level b lt e below) v =
      let (l, rep, took) = take_lem io v.sched level below in
      record {
        levels = _;
        sched = rep;
        kept = λ k.
            let moved =
              running-set io num_cpus k i s.cpus
                (cpu (fetched b (take_from level s.sched).0) (take_from level s.sched).0 n) lt in
            let before = ap (λ c. held io k c.proc) e in
            let lists = queued-update io k level v.levels l below in
            omega (arith, v.kept k, took k);
      }
  Step-IsSound {born} {s} (nothing i n b lt e) v = same_proc born s i _ lt (ap (λ c. c.proc) e) v
  Step-IsSound {born} {s} (stop i n lt e d) v = same_proc born s i _ lt (ap (λ c. c.proc) e) v
  Step-IsSound {born} {s} (skip i n lt e d) v = same_proc born s i _ lt (ap (λ c. c.proc) e) v
  Step-IsSound {born} {s} (run i n p q m rand lt e ran) v = record {
    levels = v.levels;
    sched = v.sched;
    kept = λ k.
        let moved =
          running-set io num_cpus k i s.cpus (cpu slot (some q) (slice io time_slot num_cpus n - 1))
            lt in
        let before = ap (λ c. held io k c.proc) e in
        let same : one io k q ≡ one io k p =
          ap (λ x. if x == k then 1 else 0) (ran_pid i rand s.machine p m q ran) in
        omega (arith, v.kept k);
  }
  Step-IsSound {born} {s} (wake i n proc lt e) v = same_proc born s i _ lt (ap (λ c. c.proc) e) v
  Step-IsSound {born} {s} (add p start rest sched' e due added) v =
      let (j, below, rep) = add_lem io p v.sched added in
      record {
        levels = _;
        sched = rep;
        kept = λ k.
            let before = ap (waiting io k) e in
            let lists = queued-update io k j v.levels (v.levels j ++ p ∷ []) below in
            omega (arith, v.kept k, count-append io k (v.levels j) p);
      }
  Step-IsSound (end_loading e) v = record { levels = v.levels; sched = v.sched; kept = v.kept }

  Reach-IsSound :
      {born : ℕ → ℕ} {s t : Os M P}
      → IsSound born s
      → Reach io time_slot num_cpus s t
      → IsSound born t
  Reach-IsSound v here = v
  Reach-IsSound v (next r st) = Step-IsSound st (Reach-IsSound v r)

  start-IsSound :
      (machine : M) (todo : List (P × ℕ))
      → IsSound (λ k. waiting io k todo) (start_os init_scheduler machine todo)
  unfolding start_os queued running
  start-IsSound machine todo = record {
    levels = λ _. [];
    sched = init_scheduler-Represents P;
    kept = λ k.
        let lists = total-eq-zero max_prio (λ j. 0) (λ j h. refl) in
        let held_none = total-eq-zero num_cpus (λ j. 0) (λ j h. refl) in omega arith;
  }

  -- From the start of the program, for any number of CPUs, with any order of the steps of the threads,
  -- even with scans of the queues that other threads overtake: the scheduler stays
  -- well formed, and each id stands as often in its lists, on the CPUs, with the loader and among
  -- the processes that ended, taken together, as it was given to the loader.
  pub processes_conserved :
      {t : Os M P} (machine : M) (todo : List (P × ℕ))
      → Reach io time_slot num_cpus (start_os init_scheduler machine todo) t
      → IsSound (λ k. waiting io k todo) t
  processes_conserved machine todo r = Reach-IsSound (start-IsSound machine todo) r

  -- From the start of the program, if the loader's processes have different ids: whatever the order of
  -- the steps, two CPUs never hold processes of the same id.
  pub one_place :
      {t : Os M P} (machine : M) (todo : List (P × ℕ)) (i j : ℕ) (p q : P)
      → ((k : ℕ) → waiting io k todo ≤ 1)
      → Reach io time_slot num_cpus (start_os init_scheduler machine todo) t
      → i < num_cpus
      → j < num_cpus
      → i ≢ j
      → (t.cpus i).proc ≡ some p
      → (t.cpus j).proc ≡ some q
      → io.pid p ≢ io.pid q
  unfolding queued running
  one_place {t} machine todo i j p q distinct r hi hj ne ep eq same =
      let v = processes_conserved machine todo r in
      let k = io.pid p in
      let both = two_le_total num_cpus i j (λ c. held io k (t.cpus c).proc) hi hj ne in
      let first = ap (held io k) ep in
      let second = ap (held io k) eq in
      let one_p : one io k p ≡ 1 = ground arith in
      let one_q : one io k q ≡ 1 = ground arith in absurd (omega (arith, v.kept k, distinct k))

  -- From the start of the program, if the loader's processes have different ids: whatever the order of
  -- the steps, the scheduler stands for some lists, and no list has an id that a CPU holds.
  pub running_not_queued :
      {t : Os M P} (machine : M) (todo : List (P × ℕ)) (i j : ℕ) (p : P)
      → ((k : ℕ) → waiting io k todo ≤ 1)
      → Reach io time_slot num_cpus (start_os init_scheduler machine todo) t
      → i < num_cpus
      → j < max_prio
      → (t.cpus i).proc ≡ some p
      → (levels : ℕ → List P) × Represents t.sched levels × (count io (io.pid p) (levels j) ≡ 0)
  unfolding queued running
  running_not_queued {t} machine todo i j p distinct r hi hj ep =
      let v = processes_conserved machine todo r in
      let k = io.pid p in
      let on_cpu = le_total num_cpus i (λ c. held io k (t.cpus c).proc) hi in
      let in_list = le_total max_prio j (λ l. count io k (v.levels l)) hj in
      let first = ap (held io k) ep in
      let one_p : one io k p ≡ 1 = ground arith in
      (v.levels, v.sched, omega (arith, v.kept k, distinct k))
