-- ===== src/Tlb/Flush.antt =====
-- The invalidation of every entry of a process.
use os_assignment_hk.Common.{
  ℕ, suc, ◌^◌, ◌<◌, ◌≡◌, ◌≢◌, refl, sym, ◌∙◌, arith, false, Option, none, some, [], ◌∷◌, length,
  get_or, inl, inr, Bool-cases, Option-cases, ◌==◌, ◌&&◌, if◌then◌else◌,
}
use os_assignment_hk.Tlb.{
  Tlb, tlb_valid, tlb_pid, tlb_frmnum, set_tlb_valid, sign_extend, hits, find_index, tlb_cache_read,
  invalidate_all, tlb_cache_invalidate,
}
use os_assignment_hk.Tlb.Entry.{hits-cleared, sign_extend_inj}

read_cons :
    (e : ℕ) (es : Tlb) (pid pg : ℕ)
    → tlb_cache_read (e ∷ es) pid pg
      ≡ (if hits pid pg e then some (tlb_frmnum e) else tlb_cache_read es pid pg)
unfolding tlb_cache_read find_index
read_cons e es pid pg = elim (Bool-cases (hits pid pg e)) [
  | inl h ↦ ground arith
  | inr h ↦ elim (Option-cases (find_index (hits pid pg) es)) [
    | inl n ↦ ground arith
    | inr (i, s) ↦ ground arith
  ]
]

module _ (pid : ℕ) where
  -- the entry that `invalidate_all` leaves for an entry
  cleared : ℕ → ℕ
  cleared e = if tlb_valid e && tlb_pid e == sign_extend pid then set_tlb_valid e 0 else e

  invalidate_cons :
      (e : ℕ) (es : Tlb) → (invalidate_all (e ∷ es) pid).1 ≡ cleared e ∷ (invalidate_all es pid).1
  unfolding invalidate_all cleared
  invalidate_cons e es = elim (Bool-cases (tlb_valid e && tlb_pid e == sign_extend pid)) [
    | inl h ↦ ground arith
    | inr h ↦ ground arith
  ]

  cleared_own : (e pg : ℕ) → e < 2 ^ 64 → hits pid pg (cleared e) ≡ false
  unfolding cleared hits
  cleared_own e pg h = elim (Bool-cases (tlb_valid e && tlb_pid e == sign_extend pid)) [
    | inl own ↦ let miss = (hits-cleared e pid pg h).1 in ground arith
    | inr other ↦ ground arith
  ]

  -- An entry reads the same for another process.
  cleared_other :
      (e pid' pg : ℕ) (rest rest' : Option ℕ)
      → e < 2 ^ 64
      → pid' ≢ pid
      → rest ≡ rest'
      → (if hits pid' pg (cleared e) then some (tlb_frmnum (cleared e)) else rest)
        ≡ (if hits pid' pg e then some (tlb_frmnum e) else rest')
  unfolding cleared hits
  cleared_other e pid' pg rest rest' h ne same =
      let apart : sign_extend pid' ≢ sign_extend pid = λ x. ne (sign_extend_inj pid' pid x) in
      elim (Bool-cases (tlb_valid e && tlb_pid e == sign_extend pid)) [
        | inl own ↦ let miss = (hits-cleared e pid' pg h).1 in ground arith
        | inr other ↦ ground arith
      ]

  nothing_left : (pg : ℕ) → tlb_cache_read (invalidate_all [] pid).1 pid pg ≡ none
  unfolding invalidate_all tlb_cache_read find_index
  nothing_left pg = refl

  still_empty :
      (pid' pg : ℕ) → tlb_cache_read (invalidate_all [] pid).1 pid' pg ≡ tlb_cache_read [] pid' pg
  unfolding invalidate_all
  still_empty pid' pg = refl

  flush_own :
      (es : Tlb) (pg : ℕ)
      → ((i : ℕ) → i < length es → get_or es i 0 < 2 ^ 64)
      → tlb_cache_read (invalidate_all es pid).1 pid pg ≡ none
  flush_own [] pg words = nothing_left pg
  flush_own (e ∷ es) pg words =
      let miss = cleared_own e pg (words 0 (omega arith)) in
      let rest = flush_own es pg (λ i h. words (suc i) (omega arith)) in
      rw (invalidate_cons e es)
        (read_cons (cleared e) (invalidate_all es pid).1 pid pg ∙ ground arith)

  flush_other :
      (es : Tlb) (pid' pg : ℕ)
      → ((i : ℕ) → i < length es → get_or es i 0 < 2 ^ 64)
      → pid' ≢ pid
      → tlb_cache_read (invalidate_all es pid).1 pid' pg ≡ tlb_cache_read es pid' pg
  flush_other [] pid' pg words ne = still_empty pid' pg
  flush_other (e ∷ es) pid' pg words ne =
      let rest = flush_other es pid' pg (λ i h. words (suc i) (omega arith)) ne in
      rw (invalidate_cons e es) (
        read_cons (cleared e) (invalidate_all es pid).1 pid' pg
        ∙ cleared_other e pid' pg (tlb_cache_read (invalidate_all es pid).1 pid' pg)
            (tlb_cache_read es pid' pg) (words 0 (omega arith)) ne rest
        ∙ sym (read_cons e es pid' pg))

-- For a TLB of 64-bit words, after the invalidation of every entry of a process a read of any of its
-- pages finds nothing, and a read for any other process gives what it gave before.
pub tlb_cache_invalidate_process :
    (tlb : Tlb) (pid : ℕ)
    → ((i : ℕ) → i < length tlb → get_or tlb i 0 < 2 ^ 64)
    → let (found, tlb') = tlb_cache_invalidate tlb pid none in
      ((pg : ℕ) → tlb_cache_read tlb' pid pg ≡ none)
      × ((pid' pg : ℕ) → pid' ≢ pid → tlb_cache_read tlb' pid' pg ≡ tlb_cache_read tlb pid' pg)
unfolding tlb_cache_invalidate
tlb_cache_invalidate_process tlb pid words =
    (λ pg. flush_own pid tlb pg words, λ pid' pg ne. flush_other pid tlb pid' pg words ne)
