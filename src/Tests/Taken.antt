-- ===== src/Tests/Taken.antt =====
-- Two processes of priority 2 that are added and then taken by two CPUs, whatever the machine.
use os_assignment_hk.Common.{ℕ, ◌≡◌, refl, arith, true, none, some, List, [], ◌∷◌, ok}
use os_assignment_hk.Sched.{Sched, init_scheduler, take_from, add_mlq_proc}
use os_assignment_hk.Sched.Levels.{Represents, update, take_from_lem}
use os_assignment_hk.Sched.Dispatch.{add_mlq_proc_lem, init_scheduler-Represents}
use os_assignment_hk.Vm.{Mm}
use os_assignment_hk.Cpu.{Pcb, Machine}
use os_assignment_hk.Os.{
  Os, fetch, Reach, here, next, cpu, start_os, add, load, take, with_cpu, fetched,
}
use os_assignment_hk.Os.Run.{pcb_process}

module _ (machine : Machine) (any : Pcb) (pid : ℕ) (mm : Mm) where
  abbrev pub p : Pcb
  p = record any { prio = 2 }

  abbrev pub q : Pcb
  q = record any { prio = 2; pid = pid; mm = mm }

  abbrev pub todo : List (Pcb × ℕ)
  todo = (p, 0) ∷ (q, 0) ∷ []

  -- the scheduler with the processes added
  pub one_added :
      (s' : Sched Pcb) × (add_mlq_proc pcb_process.prio init_scheduler p ≡ ok s')
      × Represents s' (update (λ _. []) 2 (p ∷ []))
  one_added =
      add_mlq_proc_lem (init_scheduler-Represents Pcb) pcb_process.prio p (omega arith)
        (omega arith)

  pub two_added :
      (s' : Sched Pcb) × (add_mlq_proc pcb_process.prio one_added.0 q ≡ ok s')
      × Represents s' (update (update (λ _. []) 2 (p ∷ [])) 2 (p ∷ q ∷ []))
  two_added = add_mlq_proc_lem one_added.2 pcb_process.prio q (omega arith) (omega arith)

  -- the first one alone
  pub only : (take_from 2 one_added.0).0 ≡ some p
  only = (take_from_lem one_added.2 2 p [] (omega arith) refl).0

  -- what the CPUs take
  pub first :
      ((take_from 2 two_added.0).0 ≡ some p)
      × Represents
          (take_from 2 two_added.0).1
          (update (update (update (λ _. []) 2 (p ∷ [])) 2 (p ∷ q ∷ [])) 2 (q ∷ []))
  first = take_from_lem two_added.2 2 p (q ∷ []) (omega arith) refl

  abbrev pub rest : Sched Pcb
  rest = (take_from 2 two_added.0).1

  pub second : (take_from 2 rest).0 ≡ some q
  second = (take_from_lem first.1 2 q [] (omega arith) refl).0

  abbrev pub begun : Os Machine Pcb
  begun = start_os init_scheduler machine todo

  abbrev loaded : Os Machine Pcb
  loaded = record begun { sched = two_added.0; todo = [] }

  abbrev asks_0 : Os Machine Pcb
  asks_0 = with_cpu loaded 0 (cpu (fetch true) none 0)

  abbrev pub takes_0 : Os Machine Pcb
  takes_0 =
      with_cpu (record asks_0 { sched = rest }) 0
        (cpu (fetched true (take_from 2 two_added.0).0) (take_from 2 two_added.0).0 0)

  abbrev asks_1 : Os Machine Pcb
  asks_1 = with_cpu takes_0 1 (cpu (fetch true) none 0)

  abbrev pub takes_1 : Os Machine Pcb
  takes_1 =
      with_cpu (record asks_1 { sched = (take_from 2 rest).1 }) 1
        (cpu (fetched true (take_from 2 rest).0) (take_from 2 rest).0 0)

  loaded-Reach : Reach pcb_process 2 2 begun loaded
  unfolding start_os
  loaded-Reach =
      next (next here (add p 0 ((q, 0) ∷ []) one_added.0 refl (omega arith) one_added.1))
        (add q 0 [] two_added.0 refl (omega arith) two_added.1)

  pub takes_0-Reach : Reach pcb_process 2 2 begun takes_0
  unfolding start_os
  takes_0-Reach =
      next {t = asks_0} (next loaded-Reach (load 0 0 (omega arith) refl))
        (take 0 0 2 true (omega arith) refl (omega arith))

  pub takes_1-Reach : Reach pcb_process 2 2 begun takes_1
  unfolding start_os
  takes_1-Reach =
      next {t = asks_1} (next takes_0-Reach (load 1 0 (omega arith) refl))
        (take 1 0 2 true (omega arith) refl (omega arith))
