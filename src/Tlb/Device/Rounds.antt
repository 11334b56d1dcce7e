-- ===== src/Tlb/Device/Rounds.antt =====
-- What each loop over the device does from an index on.
use os_assignment_hk.Common.{
  ℕ, suc, ◌+◌, ◌<◌, ◌≡◌, refl, sym, ◌∙◌, ap, ap₂, arith, Bool, true, false, ◌&&◌, ◌||◌, ◌==◌,
  Option, none, some, [], ◌∷◌, ◌++◌, length, get_or, get_elem?, set, ok, inl, inr, Bool-cases,
  length-append,
}
use os_assignment_hk.Tlb.{
  Tlb, tlb_valid, tlb_pid, set_tlb_valid, sign_extend, hits, find_index, tlb_cache_read,
  invalidate_all,
}
use os_assignment_hk.Tlb.Device.{
  TlbMemphy, tlbmemphy_read, tlbmemphy_write, read_entry, write_entry, read_loop, write_loop,
  tag_matches, is_target, invalidate_loop,
}

get_elem?-append : (pre rest : Tlb) (e : ℕ) → get_elem? (pre ++ e ∷ rest) (length pre) ≡ some e
get_elem?-append [] rest e = refl
get_elem?-append (p ∷ pre) rest e = get_elem?-append pre rest e

set-append : (pre rest : Tlb) (e v : ℕ) → set (pre ++ e ∷ rest) (length pre) v ≡ pre ++ v ∷ rest
set-append [] rest e v = refl
set-append (p ∷ pre) rest e v = ap (λ es. p ∷ es) (set-append pre rest e v)

append_one : (pre rest : Tlb) (e : ℕ) → (pre ++ e ∷ []) ++ rest ≡ pre ++ e ∷ rest
append_one [] rest e = refl
append_one (p ∷ pre) rest e = ap (λ es. p ∷ es) (append_one pre rest e)

length_one : (pre : Tlb) (e : ℕ) → length (pre ++ e ∷ []) ≡ length pre + 1
length_one pre e = length-append pre (e ∷ [])

-- `es` is `pre` and then `rest`, and `index` is where `rest` begins.
pub record IsAt (es : Tlb) (index : ℕ) (pre rest : Tlb) : Type 0 where
  pub parts : es ≡ pre ++ rest
  pub place : index ≡ length pre

IsAt-next :
    {es : Tlb} {index : ℕ} (pre rest : Tlb) (e : ℕ)
    → IsAt es index pre (e ∷ rest)
    → IsAt es (index + 1) (pre ++ e ∷ []) rest
IsAt-next pre rest e p = record {
  parts = p.parts ∙ sym (append_one pre rest e);
  place = omega (arith, p.place, length_one pre e);
}

IsAt-set :
    {es : Tlb} {index : ℕ} (pre rest : Tlb) (e v : ℕ)
    → IsAt es index pre (e ∷ rest)
    → IsAt (set es index v) index pre (v ∷ rest)
IsAt-set pre rest e v p = record {
  parts = rw (p.parts, p.place) (set-append pre rest e v);
  place = p.place;
}

-- What depends on the index found, where the search began one entry later.
later_index {ℓ} :
    {A : Type ℓ} (nowhere : A) (f g : ℕ → A)
    → ((i : ℕ) → f i ≡ g (suc i))
    → (o : Option ℕ)
    → elim o [ none ↦ nowhere | some i ↦ f i ]
      ≡ elim (elim o as (λ x. Option ℕ) [ none ↦ none | some i ↦ some (suc i) ]) [
        | none ↦ nowhere
        | some i ↦ g i
      ]
later_index nowhere f g h none = refl
later_index nowhere f g h (some i) = h i

is_target_page : (e pid pgnum : ℕ) → is_target pid (some pgnum) e ≡ hits pid pgnum e
unfolding is_target tag_matches hits
is_target_page e pid pgnum = elim (Bool-cases (tlb_valid e)) [
  | inl t ↦ ground arith
  | inr t ↦ ground arith
]

is_target_all : (e pid : ℕ) → is_target pid none e ≡ (tlb_valid e && tlb_pid e == sign_extend pid)
unfolding is_target tag_matches
is_target_all e pid = ground arith

or_false : (b : Bool) → b ≡ (b || false)
or_false true = refl
or_false false = refl

or_true : (b : Bool) → true ≡ (b || true)
or_true true = refl
or_true false = refl

pub start_of : (es : Tlb) → IsAt es 0 [] es
start_of es = record { parts = refl; place = refl }

module _ (maxsz : ℕ) where
  abbrev pub at : Tlb → TlbMemphy
  at es = record { storage = es; maxsz = maxsz }

  read_entry_lem :
      (es : Tlb) (index : ℕ) (pre rest : Tlb) (e : ℕ)
      → IsAt es index pre (e ∷ rest)
      → read_entry (at es) index ≡ ok e
  unfolding read_entry tlbmemphy_read
  read_entry_lem es index pre rest e p = rw (p.parts, p.place, get_elem?-append pre rest e) refl

  write_entry_lem :
      (es : Tlb) (index : ℕ) (pre rest : Tlb) (e v : ℕ)
      → IsAt es index pre (e ∷ rest)
      → write_entry (at es) index v ≡ ok (at (set es index v))
  unfolding write_entry tlbmemphy_write
  write_entry_lem es index pre rest e v p =
      let fits : index < length es =
        rw (p.parts, p.place) (omega (arith, length-append pre (e ∷ rest))) in
      ground arith

  pub read_loop_lem :
      (es : Tlb) (index : ℕ) (pre rest : Tlb) (pid pgnum : ℕ)
      → IsAt es index pre rest
      → read_loop (length rest) index (at es) pid pgnum ≡ ok (tlb_cache_read rest pid pgnum)
  unfolding read_loop tlb_cache_read find_index
  read_loop_lem es index pre [] pid pgnum p = refl
  read_loop_lem es index pre (e ∷ rest) pid pgnum p =
      let entry = read_entry_lem es index pre rest e p in
      let later =
        read_loop_lem es (index + 1) (pre ++ e ∷ []) rest pid pgnum (IsAt-next pre rest e p) in
      elim (Bool-cases (hits pid pgnum e)) [
        | inl t ↦ rw (entry, t) (ground arith)
        | inr t ↦ rw (entry, t, later) (ground arith)
      ]

  pub write_loop_lem :
      (test : ℕ → Bool) (es : Tlb) (index : ℕ) (pre rest : Tlb) (new : ℕ)
      → IsAt es index pre rest
      → write_loop test (length rest) index (at es) new
        ≡ ok (elim (find_index test rest) [
          | none ↦ none
          | some i ↦ some (at (set es (index + i) new))
        ])
  unfolding write_loop find_index
  write_loop_lem test es index pre [] new p = refl
  write_loop_lem test es index pre (e ∷ rest) new p =
      let entry = read_entry_lem es index pre rest e p in
      let written = write_entry_lem es index pre rest e new p in
      let later =
        write_loop_lem test es (index + 1) (pre ++ e ∷ []) rest new (IsAt-next pre rest e p) in
      elim (Bool-cases (test e)) [
        | inl t ↦ rw (entry, t, written) (ap (λ i. ok (some (at (set es i new)))) (omega arith))
        | inr t ↦
            rw (entry, t, later)
              (ap ok (
                later_index none _ _ (λ i. ap (λ j. some (at (set es j new))) (omega arith))
                  (find_index test rest)))
      ]

  pub invalidate_page_lem :
      (es : Tlb) (index : ℕ) (pre rest : Tlb) (pid pgnum : ℕ)
      → IsAt es index pre rest
      → invalidate_loop (length rest) index (at es) pid (some pgnum) false
        ≡ ok (elim (find_index (hits pid pgnum) rest) [
          | none ↦ (false, at es)
          | some i ↦ (true, at (set es (index + i) (set_tlb_valid (get_or rest i 0) 0)))
        ])
  unfolding invalidate_loop find_index
  invalidate_page_lem es index pre [] pid pgnum p = refl
  invalidate_page_lem es index pre (e ∷ rest) pid pgnum p =
      let entry = read_entry_lem es index pre rest e p in
      let written = write_entry_lem es index pre rest e (set_tlb_valid e 0) p in
      let later =
        invalidate_page_lem es (index + 1) (pre ++ e ∷ []) rest pid pgnum
          (IsAt-next pre rest e p) in
      elim (Bool-cases (hits pid pgnum e)) [
        | inl t ↦
            rw (entry, is_target_page e pid pgnum, t, written)
              (ap (λ i. ok (true, at (set es i (set_tlb_valid e 0)))) (omega arith))
        | inr t ↦
            rw (entry, is_target_page e pid pgnum, t, later)
              (ap ok (
                later_index (false, at es) _ _
                  (λ i.
                    ap (λ j. (true, at (set es j (set_tlb_valid (get_or rest i 0) 0))))
                      (omega arith))
                  (find_index (hits pid pgnum) rest)))
      ]

  pub invalidate_all_lem :
      (es : Tlb) (index : ℕ) (pre rest : Tlb) (pid : ℕ) (found : Bool)
      → IsAt es index pre rest
      → invalidate_loop (length rest) index (at es) pid none found
        ≡ ok (found || (invalidate_all rest pid).0, at (pre ++ (invalidate_all rest pid).1))
  unfolding invalidate_loop invalidate_all
  invalidate_all_lem es index pre [] pid found p =
      ap₂ (λ b xs. ok (b, at xs)) (or_false found) p.parts
  invalidate_all_lem es index pre (e ∷ rest) pid found p =
      let entry = read_entry_lem es index pre rest e p in
      let new = set_tlb_valid e 0 in
      let written = write_entry_lem es index pre rest e new p in
      let next = IsAt-next pre rest new (IsAt-set pre rest e new p) in
      let cleared =
        invalidate_all_lem (set es index new) (index + 1) (pre ++ new ∷ []) rest pid true next in
      let kept =
        invalidate_all_lem es (index + 1) (pre ++ e ∷ []) rest pid found (IsAt-next pre rest e p) in
      elim (Bool-cases (tlb_valid e && tlb_pid e == sign_extend pid)) [
        | inl t ↦
            rw (entry, is_target_all e pid, t, written, cleared)
              (ap₂ (λ b xs. ok (b, at xs)) (or_true found)
                (append_one pre (invalidate_all rest pid).1 new))
        | inr t ↦
            rw (entry, is_target_all e pid, t, kept)
              (ap (λ xs. ok (found || (invalidate_all rest pid).0, at xs))
                (append_one pre (invalidate_all rest pid).1 e))
      ]
