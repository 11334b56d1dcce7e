-- ===== src/Queue/Priority/Refine.antt =====
-- `dequeue` without MLQ_SCHED takes the first process of the least priority number out of the list.
use os_assignment_hk.Common.{
  ℕ, suc, ◌+◌, ◌-◌, ◌<◌, ◌≤◌, ◌≡◌, refl, sym, ◌∙◌, ap, ap₂, arith, false, ltb, ◌==◌, Option, none,
  some, List, [], ◌∷◌, ◌++◌, length, length-append, Bool-cases, inl, inr, set, get_or, ok,
}
use os_assignment_hk.Queue.{max_queue_size, empty, shift}
use os_assignment_hk.Queue.Refine.{slots, of_list, shift-suc, shift-slots}
use os_assignment_hk.Queue.Priority.{search_highest, dequeue_highest}

append_assoc {ℓ} : {A : Type ℓ} (xs ys zs : List A) → (xs ++ ys) ++ zs ≡ xs ++ (ys ++ zs)
append_assoc [] ys zs = refl
append_assoc (x ∷ xs) ys zs = ap (◌∷◌ x) (append_assoc xs ys zs)

append_nil {ℓ} : {A : Type ℓ} (xs : List A) → xs ++ [] ≡ xs
append_nil [] = refl
append_nil (x ∷ xs) = ap (◌∷◌ x) (append_nil xs)

get_or-slots {ℓ} :
    {P : Type ℓ} (xs : List P) (p : P) (ys : List P) (k : ℕ)
    → get_or (slots (xs ++ p ∷ ys) k) (length xs) none ≡ some p
get_or-slots [] p ys k = refl
get_or-slots (x ∷ xs) p ys k = get_or-slots xs p ys k

-- The processes behind the one taken out move up by one.
shift-taken {ℓ} :
    {P : Type ℓ} (xs : List P) (p : P) (ys : List P) (k : ℕ)
    → set (shift (length ys) (length xs) (slots (xs ++ p ∷ ys) k)) (length xs + length ys) none
      ≡ slots (xs ++ ys) (suc k)
unfolding shift
shift-taken [] p ys k =
    let place : 0 + length ys ≡ length ys = omega arith in rw (place) (shift-slots p ys k)
shift-taken (x ∷ xs) p ys k =
    let place : suc (length xs) + length ys ≡ suc (length xs + length ys) = omega arith in
    rw (place, shift-suc (length ys) (length xs) (some x) (slots (xs ++ p ∷ ys) k))
      (ap (◌∷◌ (some x)) (shift-taken xs p ys k))

module _ {ℓ} {P : Type ℓ} (prio : P → ℕ) where
  abbrev pub AtLeast : ℕ → List P → Type 0
  AtLeast n [] = Unit
  AtLeast n (p ∷ l) = (n ≤ prio p) × AtLeast n l

  AtLeast-le : (m n : ℕ) (l : List P) → m ≤ n → AtLeast n l → AtLeast m l
  AtLeast-le m n [] h a = tt
  AtLeast-le m n (p ∷ l) h (a, b) = (omega arith, AtLeast-le m n l h b)

  AtLeast-append : (n : ℕ) (xs ys : List P) → AtLeast n xs → AtLeast n ys → AtLeast n (xs ++ ys)
  AtLeast-append n [] ys a b = b
  AtLeast-append n (x ∷ xs) ys (h, a) b = (h, AtLeast-append n xs ys a b)

  -- What a scan over the list finds: nothing in an empty list, or the first of the processes with
  -- the least priority number, and the others in their order.
  pub data Highest : List P → Option P → List P → Type ℓ where
    nothing : Highest [] none []
    first :
        (xs : List P) (p : P) (ys : List P)
        → AtLeast (suc (prio p)) xs
        → AtLeast (prio p) ys
        → Highest (xs ++ p ∷ ys) (some p) (xs ++ ys)

  -- The loop has seen `seen`, and `b` between `xs` and `ys` is the first of the least in it.
  record IsBest (seen xs : List P) (b : P) (ys : List P) : Type ℓ where
    pub parts : seen ≡ xs ++ b ∷ ys
    pub above : AtLeast (suc (prio b)) xs
    pub behind : AtLeast (prio b) ys

  IsBest-next_new :
      (seen xs : List P) (b : P) (ys : List P) (p : P)
      → IsBest seen xs b ys
      → prio p < prio b
      → IsBest (seen ++ p ∷ []) seen p []
  IsBest-next_new seen xs b ys p f h = record {
    parts = refl;
    above = rw (f.parts) (
        AtLeast-append (suc (prio p)) xs (b ∷ ys)
          (AtLeast-le (suc (prio p)) (suc (prio b)) xs (omega arith) f.above)
          (omega arith, AtLeast-le (suc (prio p)) (prio b) ys (omega arith) f.behind));
    behind = tt;
  }

  IsBest-next_old :
      (seen xs : List P) (b : P) (ys : List P) (p : P)
      → IsBest seen xs b ys
      → prio b ≤ prio p
      → IsBest (seen ++ p ∷ []) xs b (ys ++ p ∷ [])
  IsBest-next_old seen xs b ys p f h = record {
    parts = rw (f.parts) (append_assoc xs (b ∷ ys) (p ∷ []));
    above = f.above;
    behind = AtLeast-append (prio b) ys (p ∷ []) f.behind (h, tt);
  }

  search_highest_lem :
      (l : List P) (k : ℕ) (seen rest xs : List P) (b : P) (ys : List P)
      → l ≡ seen ++ rest
      → IsBest seen xs b ys
      → (xs' : List P) × (b' : P) × (ys' : List P) × IsBest l xs' b' ys'
        × (search_highest prio (length rest) (length seen) (length xs) (slots l k)
            ≡ ok (length xs'))
  unfolding search_highest
  search_highest_lem l k seen [] xs b ys e f = (
    xs,
    b,
    ys,
    record { parts = e ∙ append_nil seen ∙ f.parts; above = f.above; behind = f.behind },
    refl,
  )
  search_highest_lem l k seen (p ∷ rest) xs b ys e f =
      let here_p : get_or (slots l k) (length seen) none ≡ some p =
        rw (e) (get_or-slots seen p rest k) in
      let here_b : get_or (slots l k) (length xs) none ≡ some b =
        rw (e, f.parts, append_assoc xs (b ∷ ys) (p ∷ rest))
          (get_or-slots xs b (ys ++ p ∷ rest) k) in
      let next : l ≡ (seen ++ p ∷ []) ++ rest = e ∙ sym (append_assoc seen (p ∷ []) rest) in
      let at_next : length (seen ++ p ∷ []) ≡ length seen + 1 = length-append seen (p ∷ []) in
      elim (Bool-cases (ltb (prio p) (prio b))) [
        | inl t ↦
            rw (here_p, here_b, t, sym at_next)
              (search_highest_lem l k (seen ++ p ∷ []) rest seen p [] next
                (IsBest-next_new seen xs b ys p f (ground arith)))
        | inr t ↦
            rw (here_p, here_b, t, sym at_next)
              (search_highest_lem l k (seen ++ p ∷ []) rest xs b (ys ++ p ∷ []) next
                (IsBest-next_old seen xs b ys p f (ground arith)))
      ]

  dequeue_taken :
      (l xs : List P) (b : P) (ys : List P)
      → l ≡ xs ++ b ∷ ys
      → length l ≤ max_queue_size
      → search_highest prio (length l - 1) 1 0 (slots l (max_queue_size - length l))
        ≡ ok (length xs)
      → dequeue_highest prio (some (of_list l)) ≡ ok (some b, some (of_list (xs ++ ys)))
  unfolding dequeue_highest empty
  dequeue_taken l xs b ys e fits found =
      let total : length l ≡ length xs + suc (length ys) = rw (e) (length-append xs (b ∷ ys)) in
      let left = length-append xs ys in
      let rounds : length l - 1 - length xs ≡ length ys = omega arith in
      let last : length l - 1 ≡ length xs + length ys = omega arith in
      let room : max_queue_size - length (xs ++ ys) ≡ suc (max_queue_size - length l) =
        omega arith in
      let filled : (length l == 0) ≡ false = ground arith in
      let here_b : get_or (slots l (max_queue_size - length l)) (length xs) none ≡ some b =
        rw (e) (get_or-slots xs b ys (max_queue_size - length (xs ++ b ∷ ys))) in
      let array : set
            (shift (length l - 1 - length xs) (length xs) (slots l (max_queue_size - length l)))
            (length l - 1) none
          ≡ slots (xs ++ ys) (max_queue_size - length (xs ++ ys)) =
        rw (rounds, last, room, e) (shift-taken xs b ys (max_queue_size - length (xs ++ b ∷ ys))) in
      let size : length l - 1 ≡ length (xs ++ ys) = omega arith in
      rw (filled, dequeue_highest, empty, found)
        (ap₂ (λ o q. ok (o, some q)) here_b
          (ap₂ (λ ps n. record { proc = ps; size = n }) array size))

  -- Of a queue that holds a list, `dequeue` without MLQ_SCHED returns the first process of the least
  -- priority number, or NULL when there is none, and the queue holds the others in their order.
  pub dequeue_highest_lem :
      (l : List P)
      → length l ≤ max_queue_size
      → (o : Option P) × (rest : List P) × Highest l o rest
        × (dequeue_highest prio (some (of_list l)) ≡ ok (o, some (of_list rest)))
  unfolding dequeue_highest empty
  dequeue_highest_lem [] fits = (none, [], nothing, refl)
  dequeue_highest_lem (a ∷ l) fits =
      let start : IsBest (a ∷ []) [] a [] = record { parts = refl; above = tt; behind = tt } in
      let sz : suc (length l) - 1 ≡ length l = omega arith in
      let (xs, b, ys, best, found) =
        search_highest_lem (a ∷ l) (max_queue_size - length (a ∷ l)) (a ∷ []) l [] a [] refl
          start in
      (
        some b,
        xs ++ ys,
        rw (best.parts) (first xs b ys best.above best.behind),
        dequeue_taken (a ∷ l) xs b ys best.parts fits (rw (sz) found),
      )
