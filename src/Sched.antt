-- ===== src/Sched.antt =====
-- src/sched.c with MLQ_SCHED: one ready queue for each priority, and for each a slot count that a
-- dispatch uses up. Each call is one step here, although `get_mlq_proc` locks only where it dequeues:
-- Os has the calls that other threads overtake. A process is any type `P` with its field `prio`. A slot
-- is a number: the code never tells one below 0 from 0.

pub mod Pick
pub mod Levels
pub mod Dispatch
pub mod Plain
use os_assignment_hk.Common.{
  ℕ, zero, suc, ◌+◌, ◌-◌, ◌*◌, Bool, true, false, not, ◌&&◌, ltb, ◌==◌, Option, none, some, List,
  [], ◌∷◌, get_elem?, get_or, set, replicate, Result, ok, ◌>>=◌, must,
}
use os_assignment_hk.Queue
use os_assignment_hk.Queue.{Queue}

abbrev pub max_prio : ℕ
max_prio = 140

-- `mlq_ready_queue`, `slot`, and the two queues that only `queue_empty` still looks at
pub record Sched {ℓ} (P : Type ℓ) : Type ℓ where
  pub mlq : List (Queue P)
  pub slot : List ℕ
  pub ready_queue : Queue P
  pub run_queue : Queue P

-- `for (i = 0; i < MAX_PRIO; i++) slot[i] = MAX_PRIO - i;` with the rounds left
pub slots_from : ℕ → ℕ → List ℕ
slots_from zero i = []
slots_from (suc n) i = (max_prio - i) ∷ slots_from n (i + 1)

-- Two passes over the levels and the last test of `i < MAX_PRIO`.
abbrev pub get_fuel : ℕ
get_fuel = 2 * max_prio + 1

module _ {ℓ} {P : Type ℓ} where
  pub init_scheduler : Sched P
  init_scheduler = record {
    mlq = replicate max_prio Queue.fresh;
    slot = slots_from max_prio 0;
    ready_queue = Queue.fresh;
    run_queue = Queue.fresh;
  }

  pub set_slot_for_queue : Sched P → Sched P
  set_slot_for_queue s = record s { slot = slots_from max_prio 0 }

  abbrev pub level_empty : Sched P → ℕ → Bool
  level_empty s i = Queue.empty (get_elem? s.mlq i)

  abbrev pub slot_at : Sched P → ℕ → ℕ
  slot_at s i = get_or s.slot i 0

  -- The loop of `queue_empty` over the levels, with the levels left: `true` if each is empty.
  pub levels_empty : Sched P → ℕ → ℕ → Bool
  levels_empty s zero prio = true
  levels_empty s (suc n) prio = level_empty s prio && levels_empty s n (prio + 1)

  -- The value -1 of the early return counts as true where C tests it, as 1 does: `false` is 0.
  pub queue_empty : Sched P → Bool
  queue_empty s = elim (levels_empty s max_prio 0) [
    | false ↦ true
    | true ↦ Queue.empty (some s.ready_queue) && Queue.empty (some s.run_queue)
  ]

  -- a level that the test of `check_new_process` does not skip
  abbrev pub runnable : Sched P → ℕ → Bool
  runnable s j = not (level_empty s j) && ltb 0 (slot_at s j)

  -- `check_new_process` at level `j` with `n` levels left: `some j` stands for the return value
  -- `j - 1`, which the caller's `++i` turns into `j`, and `none` for -2.
  pub check_from : Sched P → ℕ → ℕ → Option ℕ
  check_from s zero j = none
  check_from s (suc n) j =
      let later = check_from s n (j + 1) in elim (runnable s j) [ true ↦ some j | false ↦ later ]

  pub check_new_process : Sched P → ℕ → Option ℕ
  check_new_process s i = check_from s i 0

  -- `proc = dequeue(&mlq_ready_queue[i]); slot[i]--;`
  pub take_from : ℕ → Sched P → Option P × Sched P
  take_from i s =
      let (proc, q) = Queue.dequeue (get_elem? s.mlq i) in
      (
        proc,
        record s {
          mlq = elim q [ none ↦ s.mlq | some q' ↦ set s.mlq i q' ];
          slot = set s.slot i (slot_at s i - 1);
        },
      )

  -- The loop of `get_mlq_proc` at level `i`; `none` means that the fuel ran out.
  pub get_loop : ℕ → ℕ → Bool → Sched P → Option (Option P × Sched P)
  get_loop zero i flag s = none
  get_loop (suc fuel) i flag s = elim (ltb i max_prio) [
    | false ↦ some (none, s)
    | true ↦ elim (check_new_process s i) [
      | some j ↦ get_loop fuel j flag s
      | none ↦ elim (level_empty s i) [
        | true ↦ elim (flag && i == max_prio - 1) [
          | true ↦ get_loop fuel 0 false (set_slot_for_queue s)
          | false ↦ get_loop fuel (i + 1) flag s
        ]
        | false ↦ elim (ltb 0 (slot_at s i)) [
          | true ↦ some (take_from i s)
          | false ↦ elim (i == max_prio - 1) [
            | true ↦ get_loop fuel 0 false (set_slot_for_queue s)
            | false ↦ get_loop fuel (i + 1) true s
          ]
        ]
      ]
    ]
  ]

  pub get_mlq_proc : Sched P → Option (Option P × Sched P)
  get_mlq_proc s = get_loop get_fuel 0 false s

  -- `put_mlq_proc` and `add_mlq_proc` have the same body. A priority without a level indexes
  -- outside the array.
  pub add_mlq_proc : (P → ℕ) → Sched P → P → Result (Sched P)
  add_mlq_proc prio s p = must (get_elem? s.mlq (prio p)) >>= λ level.
      Queue.enqueue (some level) p >>= λ q.
      ok (record s { mlq = elim q [ none ↦ s.mlq | some q' ↦ set s.mlq (prio p) q' ] })
