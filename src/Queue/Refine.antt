-- ===== src/Queue/Refine.antt =====
-- A queue of src/queue.c behaves as the list of the processes in it, first in, first out.
use os_assignment_hk.Common.{
  ℕ, zero, suc, ◌+◌, ◌-◌, ◌<◌, ◌≤◌, ◌≡◌, refl, ◌∙◌, ap, arith, false, ◌==◌, Option, none, some,
  List, [], ◌∷◌, ◌++◌, length, length-append, if◌then◌else◌, Bool-cases, ==_iff, inl, inr, set,
  get_or, replicate, ok, exited,
}
use os_assignment_hk.Queue.{Queue, max_queue_size, fresh, empty, enqueue, shift, dequeue}

module _ {ℓ} {P : Type ℓ} where
  -- the array: the processes of a list, then `k` NULLs
  abbrev pub slots : List P → ℕ → List (Option P)
  slots [] k = replicate k none
  slots (p ∷ l) k = some p ∷ slots l k

  -- the queue that holds just the processes of a list, in order
  abbrev pub of_list : List P → Queue P
  of_list l = record { proc = slots l (max_queue_size - length l); size = length l }

  set-slots :
      (l : List P) (k : ℕ) (p : P)
      → set (slots l (suc k)) (length l) (some p) ≡ slots (l ++ p ∷ []) k
  set-slots [] k p = refl
  set-slots (x ∷ l) k p = ap (◌∷◌ (some x)) (set-slots l k p)

  pub shift-suc :
      (n i : ℕ) (x : Option P) (ps : List (Option P)) → shift n (suc i) (x ∷ ps) ≡ x ∷ shift n i ps
  unfolding shift
  shift-suc zero i x ps = refl
  shift-suc (suc n) i x ps =
      let next : suc i + 1 ≡ suc (i + 1) = omega arith in
      rw next (shift-suc n (i + 1) x (set ps i (get_or ps (i + 1) none)))

  pub shift-slots :
      (p : P) (l : List P) (k : ℕ)
      → set (shift (length l) 0 (some p ∷ slots l k)) (length l) none ≡ slots l (suc k)
  unfolding shift
  shift-slots p [] k = refl
  shift-slots p (x ∷ l) k =
      ap (λ ps. set ps (suc (length l)) none) (shift-suc (length l) 0 (some x) (some x ∷ slots l k))
      ∙ ap (◌∷◌ (some x)) (shift-slots x l k)

  pub fresh-eq-of_list : fresh {P = P} ≡ of_list []
  unfolding fresh
  fresh-eq-of_list = refl

  pub empty-of_list_cons : (p : P) (l : List P) → empty (some (of_list (p ∷ l))) ≡ false
  unfolding empty
  empty-of_list_cons p l = ground arith

  -- With room left, `enqueue` appends the process at the end.
  pub enqueue-of_list :
      (l : List P) (p : P)
      → length l < max_queue_size
      → enqueue (some (of_list l)) p ≡ ok (some (of_list (l ++ p ∷ [])))
  unfolding enqueue
  enqueue-of_list l p h =
      let size = length-append l (p ∷ []) in
      let room : max_queue_size - length l ≡ suc (max_queue_size - length (l ++ p ∷ [])) =
        omega arith in
      let array =
        ap (λ k. set (slots l k) (length l) (some p)) room
        ∙ set-slots l (max_queue_size - length (l ++ p ∷ [])) p in
      ground arith

  -- A full queue ends the program.
  pub enqueue-of_list_full :
      (l : List P) (p : P) → length l ≡ max_queue_size → enqueue (some (of_list l)) p ≡ exited
  unfolding enqueue
  enqueue-of_list_full l p h = ground arith

  -- Of a queue that is not empty `dequeue` takes the first process, and the rest keeps its order.
  pub dequeue-of_list :
      (p : P) (l : List P)
      → length l < max_queue_size
      → dequeue (some (of_list (p ∷ l))) ≡ (some p, some (of_list l))
  unfolding dequeue empty
  dequeue-of_list p l h =
      let less : suc (length l) - 1 ≡ length l = omega arith in
      let room : suc (max_queue_size - suc (length l)) ≡ max_queue_size - length l = omega arith in
      let array = shift-slots p l (max_queue_size - suc (length l)) ∙ ap (slots l) room in
      ground arith

  -- For a queue of at most `MAX_QUEUE_SIZE` processes, `enqueue` ends the program if the queue is
  -- full, and otherwise gives the queue with the process at the end.
  pub enqueue_refines :
      (l : List P) (p : P)
      → length l ≤ max_queue_size
      → enqueue (some (of_list l)) p
        ≡ (if length l == max_queue_size then exited else ok (some (of_list (l ++ p ∷ []))))
  enqueue_refines l p h = elim (Bool-cases (length l == max_queue_size)) [
    | inl e ↦ rw e (enqueue-of_list_full l p ((==_iff _ _).0 e))
    | inr e ↦ rw e (enqueue-of_list l p (ground arith))
  ]

  abbrev pub head? : List P → Option P
  head? [] = none
  head? (p ∷ l) = some p

  abbrev pub tail : List P → List P
  tail [] = []
  tail (p ∷ l) = l

  -- For a queue of at most `MAX_QUEUE_SIZE` processes, `dequeue` returns the first process, NULL if
  -- there is none, and leaves the queue of the others in their order.
  pub dequeue_refines :
      (l : List P)
      → length l ≤ max_queue_size
      → dequeue (some (of_list l)) ≡ (head? l, some (of_list (tail l)))
  unfolding dequeue empty
  dequeue_refines [] h = refl
  dequeue_refines (p ∷ l) h = dequeue-of_list p l h
