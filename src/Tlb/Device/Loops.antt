-- ===== src/Tlb/Device/Loops.antt =====
-- The loops over the device agree with the TLB as a list.
use os_assignment_hk.Common.{
  ℕ, ◌/◌, ◌%◌, ◌<◌, ◌≡◌, refl, ap, arith, Bool, true, false, not, ◌==◌, Option, none, some, [],
  length, get_or, set, ok, fault, ◌>>=◌, if◌then◌else◌, inl, inr, Bool-cases, get_elem?-eq-get_or,
  Option-cases,
}
use os_assignment_hk.Tlb.{
  Tlb, tlb_valid, set_tlb_valid, set_tlb_entry, hits, find_index, tlb_cache_read, slot_for,
  tlb_cache_write, tlb_cache_invalidate,
}
use os_assignment_hk.Tlb.Device.Rounds.{
  start_of, read_loop_lem, write_loop_lem, invalidate_page_lem, invalidate_all_lem,
}
use os_assignment_hk.Tlb.Device.{
  TlbMemphy, storage_sz, tlbmemphy_read, tlbmemphy_write, read_entry, write_entry, cache_read,
  replace_any, cache_write, cache_invalidate,
}

-- The storage has the entries that `maxsz` counts.
abbrev pub IsSized : TlbMemphy → Type 0
IsSized tlb = tlb.maxsz / 8 ≡ length tlb.storage

abbrev stored : TlbMemphy → Tlb → TlbMemphy
stored tlb es = record tlb { storage = es }

module _ (tlb : TlbMemphy) (sized : IsSized tlb) where
  size : storage_sz tlb ≡ length tlb.storage
  unfolding storage_sz
  size = sized

  replace_any_lem :
      (new r : ℕ)
      → replace_any tlb new r ≡ (
          if length tlb.storage == 0
          then fault
          else ok (stored tlb (set tlb.storage (r % length tlb.storage) new)))
  unfolding replace_any read_entry write_entry tlbmemphy_read tlbmemphy_write
  replace_any_lem new r = rw (size) (elim (Bool-cases (length tlb.storage == 0)) [
    | inl t ↦ rw (t) refl
    | inr t ↦
        let inside : r % length tlb.storage < length tlb.storage = ground arith in
        let entry = get_elem?-eq-get_or tlb.storage (r % length tlb.storage) 0 inside in
        rw (t, entry) (ground arith)
  ])

  read_agrees :
      (pid pgnum : ℕ) → cache_read (some tlb) pid pgnum ≡ ok (tlb_cache_read tlb.storage pid pgnum)
  unfolding cache_read
  read_agrees pid pgnum =
      rw (size)
        (read_loop_lem tlb.maxsz tlb.storage 0 [] tlb.storage pid pgnum (start_of tlb.storage))

  write_agrees :
      (pid pgnum value r : ℕ)
      → cache_write (some tlb) pid pgnum value r
        ≡ (tlb_cache_write tlb.storage pid pgnum value r >>= λ es. ok (stored tlb es))
  unfolding cache_write tlb_cache_write slot_for
  write_agrees pid pgnum value r =
      let new = set_tlb_entry 1 pgnum pid value in
      let free : ℕ → Bool = λ e. not (tlb_valid e) in
      let existing =
        write_loop_lem tlb.maxsz (hits pid pgnum) tlb.storage 0 [] tlb.storage new
          (start_of tlb.storage) in
      let space =
        write_loop_lem tlb.maxsz free tlb.storage 0 [] tlb.storage new (start_of tlb.storage) in
      let other = replace_any_lem new r in
      elim (Option-cases (find_index (hits pid pgnum) tlb.storage)) [
        | inr (i, t) ↦ rw (size, existing, t) (ground arith)
        | inl t ↦
            rw (size, existing, t)
              (rw (size, space)
                (elim (Option-cases (find_index free tlb.storage)) [
                  | inr (i, u) ↦ rw (u) (ground arith)
                  | inl u ↦ rw (u, other) (ground arith)
                ]))
      ]

  invalidate_agrees :
      (pid : ℕ) (page : Option ℕ)
      → cache_invalidate (some tlb) pid page
        ≡ ok (
          (tlb_cache_invalidate tlb.storage pid page).0,
          stored tlb (tlb_cache_invalidate tlb.storage pid page).1,
        )
  unfolding cache_invalidate tlb_cache_invalidate
  invalidate_agrees pid none =
      rw (size)
        (invalidate_all_lem tlb.maxsz tlb.storage 0 [] tlb.storage pid false (start_of tlb.storage))
  invalidate_agrees pid (some pgnum) =
      let loop =
        invalidate_page_lem tlb.maxsz tlb.storage 0 [] tlb.storage pid pgnum
          (start_of tlb.storage) in
      elim (Option-cases (find_index (hits pid pgnum) tlb.storage)) [
        | inr (i, t) ↦
            rw (size, loop, t, tlb_cache_invalidate)
              (ap
                (λ j.
                  ok (
                    true,
                    stored tlb (set tlb.storage j (set_tlb_valid (get_or tlb.storage i 0) 0)),
                  ))
                (omega arith))
        | inl t ↦ rw (size, loop, t, tlb_cache_invalidate) refl
      ]

-- Where the storage has the entries that `maxsz` counts, the loops over the indices give what the
-- TLB as a list gives: the same read, which is never a fault, the same write, faults included, and
-- the same status and TLB after an invalidation, of a page or of a process, which is never a fault.
pub loops_agree :
    (tlb : TlbMemphy) (pid pgnum value r : ℕ) (page : Option ℕ)
    → IsSized tlb
    → (cache_read (some tlb) pid pgnum ≡ ok (tlb_cache_read tlb.storage pid pgnum))
      × (cache_write (some tlb) pid pgnum value r
          ≡ (tlb_cache_write tlb.storage pid pgnum value r >>= λ es. ok (stored tlb es)))
      × (cache_invalidate (some tlb) pid page
          ≡ ok (
            (tlb_cache_invalidate tlb.storage pid page).0,
            stored tlb (tlb_cache_invalidate tlb.storage pid page).1,
          ))
loops_agree tlb pid pgnum value r page sized = (
  read_agrees tlb sized pid pgnum,
  write_agrees tlb sized pid pgnum value r,
  invalidate_agrees tlb sized pid page,
)
