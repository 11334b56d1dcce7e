-- ===== src/Sched/Pick.antt =====
-- `get_mlq_proc` against a plain description of the scheduling policy.
use os_assignment_hk.Common.{
  length, ap, ℕ, zero, suc, ◌+◌, ◌-◌, ◌<◌, ◌≡◌, refl, arith, Bool, true, false, not, ◌||◌, ◌==◌,
  Option, none, some, get_or, inl, inr, Bool-cases,
}
use os_assignment_hk.Common.Search.{first, first_congr}
use os_assignment_hk.Sched.{
  Sched, max_prio, slots_from, set_slot_for_queue, level_empty, runnable, check_from,
  check_new_process, take_from, get_loop, get_mlq_proc,
}

abbrev pub is_some {ℓ} : {A : Type ℓ} → Option A → Bool
is_some none = false
is_some (some a) = true

pub length-slots_from : (n i : ℕ) → length (slots_from n i) ≡ n
unfolding slots_from
length-slots_from zero i = refl
length-slots_from (suc n) i = ap suc (length-slots_from n (i + 1))

pub refilled_slot : (n i k : ℕ) → k < n → get_or (slots_from n i) k 0 ≡ max_prio - (i + k)
unfolding slots_from
refilled_slot zero i k h = absurd (omega arith)
refilled_slot (suc n) i zero h = omega arith
refilled_slot (suc n) i (suc k) h = omega (arith, refilled_slot n (i + 1) k (omega arith))

module _ {ℓ} {P : Type ℓ} where
  -- a level that has a process
  abbrev pub ready : Sched P → ℕ → Bool
  ready s i = not (level_empty s i)

  -- The policy: the first level that has a process and slots left; if no level has both, the slots
  -- are refilled and the first level that has a process is taken.
  unfoldable pub pick : Sched P → Option P × Sched P
  pick s = elim (first (runnable s) max_prio 0) [
    | some i ↦ take_from i s
    | none ↦ elim (first (ready s) max_prio 0) [
      | some i ↦ take_from i (set_slot_for_queue s)
      | none ↦ (none, s)
    ]
  ]

  -- no level below `i` is runnable
  abbrev Quiet : Sched P → ℕ → Type 0
  Quiet s i = (j : ℕ) → j < i → runnable s j ≡ false

  check_from-none :
      (s : Sched P) (n i top : ℕ) → i + n ≡ top → Quiet s top → check_from s n i ≡ none
  unfolding check_from
  check_from-none s zero i top e h = refl
  check_from-none s (suc n) i top e h =
      let here = h i (omega arith) in
      let rest = check_from-none s n (i + 1) top (omega arith) h in ground arith

  check_new_process-none : (s : Sched P) (i : ℕ) → Quiet s i → check_new_process s i ≡ none
  unfolding check_new_process
  check_new_process-none s i h = check_from-none s i 0 i (omega arith) h

  Quiet-suc : (s : Sched P) (i : ℕ) → Quiet s i → runnable s i ≡ false → Quiet s (i + 1)
  Quiet-suc s i h r j lt = elim (Bool-cases (j == i)) [
    | inl e ↦ ground arith
    | inr e ↦ h j (ground arith)
  ]

  module _ (s : Sched P) (f i : ℕ) (flag : Bool) (quiet : Quiet s i) where
    loop_take :
        i < max_prio → runnable s i ≡ true → get_loop (suc f) i flag s ≡ some (take_from i s)
    unfolding get_loop
    loop_take lt r = ground (arith, check_new_process-none s i quiet)

    loop_next :
        i + 1 < max_prio
        → runnable s i ≡ false
        → get_loop (suc f) i flag s ≡ get_loop f (i + 1) (flag || ready s i) s
    unfolding get_loop
    loop_next lt r = ground (arith, check_new_process-none s i quiet)

    loop_restart :
        i + 1 ≡ max_prio
        → runnable s i ≡ false
        → (flag || ready s i) ≡ true
        → get_loop (suc f) i flag s ≡ get_loop f 0 false (set_slot_for_queue s)
    unfolding get_loop
    loop_restart lt r fl = ground (arith, check_new_process-none s i quiet)

    loop_leave :
        i + 1 ≡ max_prio
        → runnable s i ≡ false
        → (flag || ready s i) ≡ false
        → get_loop (suc f) i flag s ≡ get_loop f (i + 1) flag s
    unfolding get_loop
    loop_leave lt r fl = ground (arith, check_new_process-none s i quiet)

  loop_end :
      (s : Sched P) (f i : ℕ) (flag : Bool)
      → i ≡ max_prio
      → get_loop (suc f) i flag s ≡ some (none, s)
  unfolding get_loop
  loop_end s f i flag e = ground arith

  -- What a pass from level `i` ends in: the first runnable level, or a second pass with the slots
  -- refilled if some level had a process, or no process.
  abbrev pass_end : ℕ → Bool → Sched P → Option ℕ → Option (Option P × Sched P)
  pass_end g flag s (some j) = some (take_from j s)
  pass_end g true s none = get_loop (suc g) 0 false (set_slot_for_queue s)
  pass_end g false s none = some (none, s)

  pass :
      (m g f i : ℕ) (flag : Bool) (s : Sched P)
      → i + suc m ≡ max_prio
      → f ≡ m + suc g
      → Quiet s i
      → get_loop (suc f) i flag s
        ≡ pass_end g (flag || is_some (first (ready s) (suc m) i)) s (first (runnable s) (suc m) i)
  unfolding first
  pass zero g f i flag s e ef q =
      let tail : f ≡ suc g = omega arith in
      let stop : i + 1 ≡ max_prio = omega arith in
      rw tail (
        ground (
          arith,
          loop_take s (suc g) i flag q,
          loop_restart s (suc g) i flag q,
          loop_leave s (suc g) i flag q,
          loop_end s g (i + 1) flag stop,
        ))
  pass (suc m) g zero i flag s e ef q = absurd (omega arith)
  pass (suc m) g (suc f) i flag s e ef q = elim (Bool-cases (runnable s i)) [
    | inl r ↦ ground (arith, loop_take s (suc f) i flag q)
    | inr r ↦
        let rest =
          pass m g f (i + 1) (flag || ready s i) s (omega arith) (omega arith)
            (Quiet-suc s i q r) in
        let next = loop_next s (suc f) i flag q (omega arith) r in ground arith
  ]

  -- With the slots refilled a level is runnable exactly when it has a process.
  pub runnable-refilled :
      (s : Sched P) (j : ℕ) → j < max_prio → runnable (set_slot_for_queue s) j ≡ ready s j
  unfolding set_slot_for_queue
  runnable-refilled s j h = ground (arith, refilled_slot max_prio 0 j)

  first-refilled :
      (s : Sched P)
      → first (runnable (set_slot_for_queue s)) max_prio 0 ≡ first (ready s) max_prio 0
  first-refilled s =
      first_congr (runnable (set_slot_for_queue s)) (ready s) max_prio 0
        (λ j l u. runnable-refilled s j (omega arith))

  -- `get_mlq_proc` ends within the fuel, and does what the policy says: it takes the first process
  -- of the first level that has a process and slots left, refills the slots when no such level is
  -- left but some level has a process, and otherwise returns NULL and changes nothing.
  pub get_mlq_proc-eq-pick : (s : Sched P) → get_mlq_proc s ≡ some (pick s)
  unfolding get_mlq_proc pick
  get_mlq_proc-eq-pick s =
      let full = set_slot_for_queue s in
      let one = pass 139 140 280 0 false s refl refl (λ j h. absurd (omega arith)) in
      let two = pass 139 0 140 0 false full refl refl (λ j h. absurd (omega arith)) in
      let same = first-refilled s in ground arith
