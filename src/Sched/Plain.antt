-- ===== src/Sched/Plain.antt =====
-- src/sched.c without MLQ_SCHED: two queues, and a process is taken from `run_queue` only when
-- `ready_queue` is empty. Each call holds `queue_lock` and is one step; `prio` is the field `priority`.
use os_assignment_hk.Common.{
  arith, ◌<◌, ◌≤◌, ◌≡◌, ◌≢◌, ◌⊎◌, inl, inr, refl, ℕ, true, false, Option, none, some, List, [], ◌∷◌,
  ◌++◌, length, Result, ok, ◌>>=◌,
}
use os_assignment_hk.Queue
use os_assignment_hk.Queue.{Queue, max_queue_size}
use os_assignment_hk.Queue.Refine.{of_list, enqueue-of_list}
use os_assignment_hk.Queue.Priority.{dequeue_highest}
use os_assignment_hk.Queue.Priority.Refine.{Highest, dequeue_highest_lem}

pub record Plain {ℓ} (P : Type ℓ) : Type ℓ where
  pub ready_queue : Queue P
  pub run_queue : Queue P

module _ {ℓ} {P : Type ℓ} where
  -- what the address of a static queue comes back as
  abbrev static_queue : Option (Queue P) → Queue P → Queue P
  static_queue none old = old
  static_queue (some q) old = q

  pub get_proc : (P → ℕ) → Plain P → Result (Option P × Plain P)
  get_proc prio s = elim (Queue.empty (some s.ready_queue)) [
    | true ↦ dequeue_highest prio (some s.run_queue) >>= λ r.
        ok (r.0, record s { run_queue = static_queue r.1 s.run_queue })
    | false ↦ dequeue_highest prio (some s.ready_queue) >>= λ r.
        ok (r.0, record s { ready_queue = static_queue r.1 s.ready_queue })
  ]

  pub put_proc : Plain P → P → Result (Plain P)
  put_proc s p = Queue.enqueue (some s.run_queue) p >>= λ q.
      ok (record s { run_queue = static_queue q s.run_queue })

  pub add_proc : Plain P → P → Result (Plain P)
  add_proc s p = Queue.enqueue (some s.ready_queue) p >>= λ q.
      ok (record s { ready_queue = static_queue q s.ready_queue })

  abbrev pub holding : List P → List P → Plain P
  holding ready run = record { ready_queue = of_list ready; run_queue = of_list run }

  put_proc_lem :
      (ready run : List P) (p : P)
      → length run < max_queue_size
      → put_proc (holding ready run) p ≡ ok (holding ready (run ++ p ∷ []))
  unfolding put_proc
  put_proc_lem ready run p room = rw (enqueue-of_list run p room) refl

  add_proc_lem :
      (ready run : List P) (p : P)
      → length ready < max_queue_size
      → add_proc (holding ready run) p ≡ ok (holding (ready ++ p ∷ []) run)
  unfolding add_proc
  add_proc_lem ready run p room = rw (enqueue-of_list ready p room) refl

  get_proc-none_ready :
      (prio : P → ℕ) (run : List P)
      → get_proc prio (holding [] run) ≡ (
          dequeue_highest prio (some (of_list run)) >>= λ r.
          ok (r.0, record { ready_queue = of_list []; run_queue = static_queue r.1 (of_list run) }))
  unfolding get_proc Queue.empty
  get_proc-none_ready prio run = refl

  get_proc-some_ready :
      (prio : P → ℕ) (p : P) (ready run : List P)
      → get_proc prio (holding (p ∷ ready) run) ≡ (
          dequeue_highest prio (some (of_list (p ∷ ready))) >>= λ r. ok (
            r.0,
            record {
              ready_queue = static_queue r.1 (of_list (p ∷ ready));
              run_queue = of_list run;
            },
          ))
  unfolding get_proc Queue.empty
  get_proc-some_ready prio p ready run = ground arith

  -- Without MLQ_SCHED, when the two queues hold two lists that fit in them: `get_proc` takes a
  -- process from the ready list, or, only when that is empty, from the list of those that have run. It
  -- is the first in the list of those with the least priority number, or NULL if the list is empty;
  -- every other process stays, in its order.
  pub get_proc_lem :
      (prio : P → ℕ) (ready run : List P)
      → length ready ≤ max_queue_size
      → length run ≤ max_queue_size
      → (o : Option P) × (ready' run' : List P) × (get_proc prio (holding ready run)
          ≡ ok (o, holding ready' run'))
        × (((ready ≡ []) × (ready' ≡ []) × Highest prio run o run')
            ⊎ ((ready ≢ []) × (run' ≡ run) × Highest prio ready o ready'))
  unfolding get_proc
  get_proc_lem prio [] run fits fits' =
      let (o, rest, h, e) = dequeue_highest_lem prio run fits' in
      (o, [], rest, rw (get_proc-none_ready prio run, e) refl, inl (refl, refl, h))
  get_proc_lem prio (p ∷ ready) run fits fits' =
      let (o, rest, h, e) = dequeue_highest_lem prio (p ∷ ready) fits in
      (o, rest, run, rw (get_proc-some_ready prio p ready run, e) refl, inr (λ q. cc, refl, h))
