-- ===== src/Sched/Dispatch.antt =====
-- What `init_scheduler`, `add_proc`, `put_proc` and `get_proc` do to the lists of processes.
use os_assignment_hk.Common.{
  ℕ, zero, suc, ◌<◌, ◌≤◌, ◌≡◌, refl, sym, ◌∙◌, ap, arith, true, false, ◌==◌, Option, some, List, [],
  ◌∷◌, ◌++◌, length, length-append, get_elem?, set, replicate, length-replicate, get_elem?-none, ok,
  exited, fault, ◌⊎◌, inl, inr, Bool-cases, Option-cases,
}
use os_assignment_hk.Common.Search.{first, first-some, first-none}
use os_assignment_hk.Queue
use os_assignment_hk.Queue.{Queue, max_queue_size}
use os_assignment_hk.Queue.Refine.{of_list, fresh-eq-of_list, enqueue_refines}
use os_assignment_hk.Sched.{
  Sched, max_prio, init_scheduler, set_slot_for_queue, slot_at, runnable, take_from, get_mlq_proc,
  add_mlq_proc,
}
use os_assignment_hk.Sched.Pick.{
  ready, pick, get_mlq_proc-eq-pick, length-slots_from, refilled_slot,
}
use os_assignment_hk.Sched.Levels.{
  Represents, update, Dispatch, taken, idle, nil_of, cons_of, level_empty-is_nil, take_from_lem,
  with_level, set_slot_for_queue-Represents,
}

module _ {ℓ} {P : Type ℓ} {s : Sched P} {ls : ℕ → List P} (r : Represents s ls) where
  not_ready : (j : ℕ) → j < max_prio → ready s j ≡ false → ls j ≡ []
  not_ready j h e = nil_of (ls j) (sym (level_empty-is_nil r j h) ∙ ground arith)

  is_ready : (j : ℕ) → j < max_prio → ready s j ≡ true → (p : P) × (l : List P) × (ls j ≡ p ∷ l)
  is_ready j h e = cons_of (ls j) (sym (level_empty-is_nil r j h) ∙ ground arith)

  not_runnable : (j : ℕ) → j < max_prio → runnable s j ≡ false → (ls j ≡ []) ⊎ (slot_at s j ≡ 0)
  not_runnable j h e = elim (Bool-cases (ready s j)) [
    | inl y ↦ inr (ground arith)
    | inr n ↦ inl (not_ready j h n)
  ]

  pick_budgeted :
      (i : ℕ)
      → first (runnable s) max_prio 0 ≡ some i
      → Dispatch s ls (take_from i s).0 (take_from i s).1
  pick_budgeted i e =
      let f = first-some (runnable s) max_prio 0 max_prio i refl e in
      let (p, l, here) = is_ready i f.below (ground (arith, f.passes)) in
      let (out, rep) = take_from_lem r i p l f.below here in
      taken i p l f.below here out rep
        (λ j lt. not_runnable j (omega (arith, f.below)) (f.least j (omega arith) lt))

  pick_refilled :
      (i : ℕ)
      → first (ready s) max_prio 0 ≡ some i
      → Dispatch s ls (take_from i (set_slot_for_queue s)).0 (take_from i (set_slot_for_queue s)).1
  pick_refilled i e =
      let f = first-some (ready s) max_prio 0 max_prio i refl e in
      let (p, l, here) = is_ready i f.below f.passes in
      let (out, rep) = take_from_lem (set_slot_for_queue-Represents r) i p l f.below here in
      taken i p l f.below here out rep
        (λ j lt. inl (not_ready j (omega (arith, f.below)) (f.least j (omega arith) lt)))

  pick-Dispatch : Dispatch s ls (pick s).0 (pick s).1
  unfolding pick
  pick-Dispatch = elim (Option-cases (first (runnable s) max_prio 0)) [
    | inr (i, e) ↦ rw (e, pick) (pick_budgeted i e)
    | inl e ↦ elim (Option-cases (first (ready s) max_prio 0)) [
      | inr (i, e') ↦ rw (e, e', pick) (pick_refilled i e')
      | inl e' ↦
          let none_ready = first-none (ready s) max_prio 0 max_prio refl e' in
          rw (e, e', pick) (idle (λ i h. not_ready i h (none_ready i (omega arith) h)) refl refl)
    ]
  ]

  -- `get_proc` on a well-formed scheduler returns. Either it returns the first process of a level
  -- and takes just that one out, and each level of a higher priority is empty or has used up its
  -- slots; or every level is empty, it returns NULL and changes nothing. In the first case too the
  -- scheduler is well formed afterwards.
  pub get_mlq_proc-Dispatch :
      (out : Option P) × (s' : Sched P) × (get_mlq_proc s ≡ some (out, s')) × Dispatch s ls out s'
  get_mlq_proc-Dispatch = ((pick s).0, (pick s).1, get_mlq_proc-eq-pick s, pick-Dispatch)

  module _ (prio : P → ℕ) (p : P) where
    -- On a well-formed scheduler, adding a process or putting it back, with a priority below MAX_PRIO
    -- whose list is not full, appends it to that list, leaves the other lists as they are and gives
    -- a well-formed scheduler.
    pub add_mlq_proc_lem :
        prio p < max_prio
        → length (ls (prio p)) < max_queue_size
        → (s' : Sched P) × (add_mlq_proc prio s p ≡ ok s')
          × Represents s' (update ls (prio p) (ls (prio p) ++ p ∷ []))
    unfolding add_mlq_proc
    add_mlq_proc_lem h room =
        let i = prio p in
        let l = ls i ++ p ∷ [] in
        let enq = enqueue_refines (ls i) p (r.room i h) in
        let full : (length (ls i) == max_queue_size) ≡ false = ground arith in
        (
          record s { mlq = set s.mlq i (of_list l) },
          rw (r.level i h) (rw enq (rw full)),
          with_level r i l s.slot h (omega (arith, length-append (ls i) (p ∷ []))) r.slots r.budget,
        )

    pub add_mlq_proc_full :
        prio p < max_prio → length (ls (prio p)) ≡ max_queue_size → add_mlq_proc prio s p ≡ exited
    unfolding add_mlq_proc
    add_mlq_proc_full h e =
        let i = prio p in
        let enq = enqueue_refines (ls i) p (r.room i h) in
        let full : (length (ls i) == max_queue_size) ≡ true = ground arith in
        rw (r.level i h) (rw enq (rw full))

    pub add_mlq_proc_outside : max_prio ≤ prio p → add_mlq_proc prio s p ≡ fault
    unfolding add_mlq_proc
    add_mlq_proc_outside h =
        let none_there = get_elem?-none s.mlq (prio p) (omega (arith, r.levels)) in rw none_there

get_elem?-replicate {ℓ} :
    {A : Type ℓ} (n i : ℕ) (a : A) → i < n → get_elem? (replicate n a) i ≡ some a
get_elem?-replicate zero i a h = absurd (omega arith)
get_elem?-replicate (suc n) zero a h = refl
get_elem?-replicate (suc n) (suc i) a h = get_elem?-replicate n i a (omega arith)

-- After `init_scheduler` the scheduler is well formed and holds no process.
pub init_scheduler-Represents {ℓ} : (P : Type ℓ) → Represents (init_scheduler {P = P}) (λ _. [])
unfolding init_scheduler
init_scheduler-Represents P = record {
  levels = length-replicate max_prio (Queue.fresh {P = P});
  slots = length-slots_from max_prio 0;
  level = λ i h. get_elem?-replicate max_prio i (Queue.fresh {P = P}) h ∙ ap some fresh-eq-of_list;
  room = λ i h. omega arith;
  budget = λ i h. omega (arith, refilled_slot max_prio 0 i h);
}
