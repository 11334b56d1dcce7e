-- ===== src/Os/Tally.antt =====
-- How often a process stands in the lists, on the CPUs, with the loader and among those that ended.
use mathlib.Core.Path.{subst}
use native.Mathlib.Decide.{dec_lt}
use os_assignment_hk.Common.{
  ℕ, ◌+◌, ◌<◌, ◌≡◌, refl, sym, ◌∙◌, ap, arith, false, ◌==◌, Option, none, some, List, [], ◌∷◌, ◌++◌,
  length, ok, ok_inj, if◌then◌else◌,
}
use os_assignment_hk.Common.Sum.{total, total_change}
use os_assignment_hk.Queue.{max_queue_size}
use os_assignment_hk.Sched.{Sched, max_prio, take_from, add_mlq_proc}
use os_assignment_hk.Sched.Levels.{Represents, update, take_from_lem, take_from_empty}
use os_assignment_hk.Sched.Dispatch.{add_mlq_proc_lem, add_mlq_proc_full, add_mlq_proc_outside}
use os_assignment_hk.Os.{Process, Cpu, set_cpu}

module _ {M P : Type 0} (io : Process M P) where
  abbrev pub one : ℕ → P → ℕ
  one k p = if io.pid p == k then 1 else 0

  abbrev pub count : ℕ → List P → ℕ
  count k [] = 0
  count k (p ∷ l) = one k p + count k l

  abbrev pub held : ℕ → Option P → ℕ
  held k none = 0
  held k (some p) = one k p

  abbrev pub waiting : ℕ → List (P × ℕ) → ℕ
  waiting k [] = 0
  waiting k ((p, start) ∷ l) = one k p + waiting k l

  unfoldable pub queued : ℕ → (ℕ → List P) → ℕ
  queued k ls = total max_prio (λ j. count k (ls j))

  unfoldable pub running : ℕ → ℕ → (ℕ → Cpu P) → ℕ
  running num_cpus k cpus = total num_cpus (λ i. held k (cpus i).proc)

  pub count-append : (k : ℕ) (l : List P) (p : P) → count k (l ++ p ∷ []) ≡ count k l + one k p
  count-append k [] p = omega arith
  count-append k (x ∷ l) p = omega (arith, count-append k l p)

  -- One level changed.
  pub queued-update :
      (k i : ℕ) (ls : ℕ → List P) (l : List P)
      → i < max_prio
      → queued k (update ls i l) + count k (ls i) ≡ queued k ls + count k l
  unfolding queued
  queued-update k i ls l h =
      let same : (if i == i then l else ls i) ≡ l = ground arith in
      total_change max_prio i (λ j. count k (update ls i l j)) (λ j. count k (ls j)) h
        (λ j ne. let other : (i == j) ≡ false = ground arith in rw other refl)
      ∙ ap (λ x. queued k ls + count k x) same

  -- One CPU changed.
  pub running-set :
      (n k i : ℕ) (cpus : ℕ → Cpu P) (c : Cpu P)
      → i < n
      → running n k (set_cpu cpus i c) + held k (cpus i).proc ≡ running n k cpus + held k c.proc
  unfolding running
  running-set n k i cpus c h =
      let same : (if i == i then c else cpus i) ≡ c = ground arith in
      total_change n i (λ j. held k (set_cpu cpus i c j).proc) (λ j. held k (cpus j).proc) h
        (λ j ne. let other : (i == j) ≡ false = ground arith in rw other refl)
      ∙ ap (λ x. running n k cpus + held k x.proc) same

  -- A dispatch from any level, even an empty one, moves its first process out of the lists.
  pub take_lem :
      {s : Sched P} {ls : ℕ → List P}
      → Represents s ls
      → (i : ℕ) → i < max_prio
      → (l : List P) × Represents (take_from i s).1 (update ls i l)
        × ((k : ℕ) → held k (take_from i s).0 + count k l ≡ count k (ls i))
  take_lem {s} {ls} r i h = of_list (ls i) refl
    where
      of_list :
          (l : List P)
          → ls i ≡ l
          → (l' : List P) × Represents (take_from i s).1 (update ls i l')
            × ((k : ℕ) → held k (take_from i s).0 + count k l' ≡ count k (ls i))
      of_list [] e = let (out, rep) = take_from_empty r i h e in ([], rep, λ k. rw out (rw e refl))
      of_list (p ∷ l) e =
          let (out, rep) = take_from_lem r i p l h e in (l, rep, λ k. rw out (rw e refl))

  -- An added process stands at the end of the list of its priority.
  pub add_lem :
      {s s' : Sched P} {ls : ℕ → List P} (p : P)
      → Represents s ls
      → add_mlq_proc io.prio s p ≡ ok s'
      → (i : ℕ) × (i < max_prio) × Represents s' (update ls i (ls i ++ p ∷ []))
  add_lem {s} {s'} {ls} p r e = elim (dec_lt (io.prio p) max_prio) [
    | no outside ↦ let f = add_mlq_proc_outside r io.prio p (omega arith) in absurd (cc)
    | yes inside ↦ elim (dec_lt (length (ls (io.prio p))) max_queue_size) [
      | no full ↦
          let x = add_mlq_proc_full r io.prio p inside (omega (arith, r.room (io.prio p) inside)) in
          absurd (cc)
      | yes room ↦
          let (s₁, added, rep) = add_mlq_proc_lem r io.prio p inside room in
          (
            io.prio p,
            inside,
            subst (λ x. Represents x (update ls (io.prio p) (ls (io.prio p) ++ p ∷ [])))
                (ok_inj (sym added ∙ e)) rep,
          )
    ]
  ]
