-- ===== src/Sched/Levels.antt =====
-- The scheduler as a list of processes for each priority: what `add_mlq_proc` and `get_mlq_proc` do
-- to those lists.
use os_assignment_hk.Common.{
  ℕ, suc, ◌-◌, ◌<◌, ◌≤◌, ◌≡◌, refl, sym, ◌∙◌, ap, arith, Bool, true, false, ◌==◌, Option, none,
  some, List, [], ◌∷◌, length, get_elem?, get_or, set, length-set, get_elem?-set_self,
  get_elem?-set_ne, get_or-set_self, get_or-set_ne, ◌⊎◌, inl, inr, Bool-cases, if◌then◌else◌,
}
use os_assignment_hk.Queue
use os_assignment_hk.Queue.{Queue, max_queue_size}
use os_assignment_hk.Queue.Refine.{of_list, empty-of_list_cons, dequeue_refines}
use os_assignment_hk.Sched.{Sched, max_prio, set_slot_for_queue, level_empty, slot_at, take_from}
use os_assignment_hk.Sched.Pick.{refilled_slot, length-slots_from}

module _ {ℓ} {P : Type ℓ} where
  -- The scheduler holds the processes `ls i` at priority `i`, and a level has at most as many slots
  -- as a refill gives it.
  pub record Represents (s : Sched P) (ls : ℕ → List P) : Type ℓ where
    pub levels : length s.mlq ≡ max_prio
    pub slots : length s.slot ≡ max_prio
    pub level : (i : ℕ) → i < max_prio → get_elem? s.mlq i ≡ some (of_list (ls i))
    pub room : (i : ℕ) → i < max_prio → length (ls i) ≤ max_queue_size
    pub budget : (i : ℕ) → i < max_prio → slot_at s i ≤ max_prio - i

  -- the levels with the one at `i` replaced
  abbrev pub update : (ℕ → List P) → ℕ → List P → ℕ → List P
  update ls i l j = if i == j then l else ls j

  pub is_nil : List P → Bool
  is_nil [] = true
  is_nil (p ∷ l) = false

  empty-of_list : (l : List P) → Queue.empty (some (of_list l)) ≡ is_nil l
  unfolding is_nil Queue.empty
  empty-of_list [] = refl
  empty-of_list (p ∷ l) = empty-of_list_cons p l

  module _ {s : Sched P} {ls : ℕ → List P} (r : Represents s ls) where
    pub level_empty-is_nil : (i : ℕ) → i < max_prio → level_empty s i ≡ is_nil (ls i)
    level_empty-is_nil i h = ap Queue.empty (r.level i h) ∙ empty-of_list (ls i)

    pub with_level :
        (i : ℕ) (l : List P) (sl : List ℕ)
        → i < max_prio
        → length l ≤ max_queue_size
        → length sl ≡ max_prio
        → ((j : ℕ) → j < max_prio → get_or sl j 0 ≤ max_prio - j)
        → Represents (record s { mlq = set s.mlq i (of_list l); slot = sl }) (update ls i l)
    with_level i l sl h fits len within = record {
      levels = length-set s.mlq i (of_list l) ∙ r.levels;
      slots = len;
      level = λ j hj. elim (Bool-cases (i == j)) [
        | inl e ↦
            let here : i ≡ j = ground arith in
            rw e (
              ap (get_elem? (set s.mlq i (of_list l))) (sym here)
              ∙ get_elem?-set_self s.mlq i (of_list l) (omega (arith, r.levels)))
        | inr e ↦ rw e (get_elem?-set_ne s.mlq i j (of_list l) (ground arith) ∙ r.level j hj)
      ];
      room = λ j hj. elim (Bool-cases (i == j)) [ inl e ↦ rw e fits | inr e ↦ rw e (r.room j hj) ];
      budget = within;
    }

    -- The slots after one of them is lowered.
    lowered : (i j : ℕ) → j < max_prio → get_or (set s.slot i (slot_at s i - 1)) j 0 ≤ max_prio - j
    lowered i j h = ground (
      arith,
      r.slots,
      r.budget j,
      get_or-set_self s.slot i (slot_at s i - 1) 0,
      get_or-set_ne s.slot i j (slot_at s i - 1) 0,
    )

    -- What a dispatch from a level with processes does.
    pub take_from_lem :
        (i : ℕ) (p : P) (l : List P)
        → i < max_prio
        → ls i ≡ p ∷ l
        → ((take_from i s).0 ≡ some p) × Represents (take_from i s).1 (update ls i l)
    unfolding take_from
    take_from_lem i p l h e =
        let fits : suc (length l) ≤ max_queue_size = rw e at (r.room i h) in
        let out : Queue.dequeue (get_elem? s.mlq i) ≡ (some p, some (of_list l)) =
          ap Queue.dequeue (r.level i h)
          ∙ ap (λ x. Queue.dequeue (some (of_list x))) e
          ∙ dequeue_refines (p ∷ l) fits in
        rw out (
          refl,
          with_level i l (set s.slot i (slot_at s i - 1)) h (omega arith)
              (length-set s.slot i (slot_at s i - 1) ∙ r.slots) (lowered i),
        )

    -- A dispatch from an empty level finds no process.
    pub take_from_empty :
        (i : ℕ)
        → i < max_prio
        → ls i ≡ []
        → ((take_from i s).0 ≡ none) × Represents (take_from i s).1 (update ls i [])
    unfolding take_from
    take_from_empty i h e =
        let out : Queue.dequeue (get_elem? s.mlq i) ≡ (none, some (of_list [])) =
          ap Queue.dequeue (r.level i h)
          ∙ ap (λ x. Queue.dequeue (some (of_list x))) e
          ∙ dequeue_refines [] (omega arith) in
        rw out (
          refl,
          with_level i [] (set s.slot i (slot_at s i - 1)) h (omega arith)
              (length-set s.slot i (slot_at s i - 1) ∙ r.slots) (lowered i),
        )

    pub set_slot_for_queue-Represents : Represents (set_slot_for_queue s) ls
    unfolding set_slot_for_queue
    set_slot_for_queue-Represents = record {
      levels = r.levels;
      slots = length-slots_from max_prio 0;
      level = r.level;
      room = r.room;
      budget = λ i h. omega (arith, refilled_slot max_prio 0 i h);
    }

  -- What `get_mlq_proc` may come to. Either it takes the first process `p` of a level `i`, and each
  -- level before `i` is empty or has no slot left; or all levels are empty and nothing changes.
  pub data Dispatch (s : Sched P) (ls : ℕ → List P) (out : Option P) (s' : Sched P) : Type ℓ where
    taken :
        (i : ℕ) (p : P) (l : List P)
        → i < max_prio
        → ls i ≡ p ∷ l
        → out ≡ some p
        → Represents s' (update ls i l)
        → ((j : ℕ) → j < i → (ls j ≡ []) ⊎ (slot_at s j ≡ 0))
        → Dispatch s ls out s'
    idle : ((i : ℕ) → i < max_prio → ls i ≡ []) → out ≡ none → s' ≡ s → Dispatch s ls out s'

  pub nil_of : (l : List P) → is_nil l ≡ true → l ≡ []
  unfolding is_nil
  nil_of [] h = refl
  nil_of (p ∷ l) h = cc

  pub cons_of : (l : List P) → is_nil l ≡ false → (p : P) × (t : List P) × (l ≡ p ∷ t)
  unfolding is_nil
  cons_of [] h = cc
  cons_of (p ∷ l) h = (p, l, refl)
