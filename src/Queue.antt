-- ===== src/Queue.antt =====
-- src/queue.c: `struct queue_t`, an array of `MAX_QUEUE_SIZE` process pointers and a count. A
-- pointer to a queue is an `Option`, `none` for NULL; a slot of the array is an `Option`, `none`
-- for a NULL process. MLQ_SCHED is defined (include/os-cfg.h), so `dequeue` takes slot 0; Priority
-- has the other build.
pub mod Refine
pub mod Priority
use os_assignment_hk.Common.{
  ℕ, zero, suc, ◌+◌, ◌-◌, Bool, true, false, ◌==◌, Option, none, some, List, get_or, set, replicate,
  Result, ok, exited,
}

abbrev pub max_queue_size : ℕ
max_queue_size = 10

pub record Queue {ℓ} (P : Type ℓ) : Type ℓ where
  pub proc : List (Option P)
  pub size : ℕ

-- a static queue after `size = 0`
pub fresh {ℓ} : {P : Type ℓ} → Queue P
fresh = record { proc = replicate max_queue_size none; size = 0 }

module _ {ℓ} {P : Type ℓ} where
  unfoldable pub empty : Option (Queue P) → Bool
  empty none = true
  empty (some q) = q.size == 0

  -- `perror` and `exit(1)` when the queue is full
  pub enqueue : Option (Queue P) → P → Result (Option (Queue P))
  enqueue none p = ok none
  enqueue (some q) p = elim (q.size == max_queue_size) [
    | true ↦ exited
    | false ↦ ok (some (record { proc = set q.proc q.size (some p); size = q.size + 1 }))
  ]

  -- `for (i = 0; i < size - 1; i++) proc[i] = proc[i + 1];` with the rounds left
  pub shift : ℕ → ℕ → List (Option P) → List (Option P)
  shift zero i ps = ps
  shift (suc n) i ps = shift n (i + 1) (set ps i (get_or ps (i + 1) none))

  -- the process taken out (NULL if there is none) and the queue
  pub dequeue : Option (Queue P) → Option P × Option (Queue P)
  dequeue none = (none, none)
  dequeue (some q) = elim (empty (some q)) [
    | true ↦ (none, some q)
    | false ↦ (
      get_or q.proc 0 none,
      some (record {
        proc = set (shift (q.size - 1) 0 q.proc) (q.size - 1) none;
        size = q.size - 1;
      }),
    )
  ]
