-- ===== src/Queue/Priority.antt =====
-- src/queue.c without MLQ_SCHED: `dequeue` takes the process whose `priority` is the least number,
-- the first of these. `prio` is the field `priority` of a process.
pub mod Refine
use os_assignment_hk.Common.{
  ℕ, zero, suc, ◌+◌, ◌-◌, true, false, ltb, Option, none, some, List, get_or, set, Result, ok,
  ◌>>=◌, must, if◌then◌else◌,
}
use os_assignment_hk.Queue.{Queue, empty, shift}

module _ {ℓ} {P : Type ℓ} (prio : P → ℕ) where
  -- `for (i = 1; i < size; i++)` with the rounds left: a NULL process is dereferenced
  pub search_highest : ℕ → ℕ → ℕ → List (Option P) → Result ℕ
  search_highest zero i index ps = ok index
  search_highest (suc n) i index ps = must (get_or ps i none) >>= λ p.
      must (get_or ps index none) >>= λ best.
      search_highest n (i + 1) (if ltb (prio p) (prio best) then i else index) ps

  pub dequeue_highest : Option (Queue P) → Result (Option P × Option (Queue P))
  dequeue_highest none = ok (none, none)
  dequeue_highest (some q) = elim (empty (some q)) [
    | true ↦ ok (none, some q)
    | false ↦ search_highest (q.size - 1) 1 0 q.proc >>= λ index. ok (
      get_or q.proc index none,
      some (record {
        proc = set (shift (q.size - 1 - index) index q.proc) (q.size - 1) none;
        size = q.size - 1;
      }),
    )
  ]
