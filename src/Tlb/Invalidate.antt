-- ===== src/Tlb/Invalidate.antt =====
-- What `tlb_cache_invalidate` removes, and what it keeps.
use os_assignment_hk.Common.{
  ℕ, ◌<◌, ◌≡◌, ◌≢◌, refl, sym, ◌∙◌, arith, true, false, none, some, length, get_or, set, length-set,
  get_or-set_self, get_or-set_ne, inl, inr, Bool-cases, Option-cases, ◌==◌, ◌⊎◌,
}
use os_assignment_hk.Tlb.{
  Tlb, set_tlb_valid, sign_extend, hits, find_index, tlb_cache_read, tlb_cache_invalidate,
}
use os_assignment_hk.Tlb.Entry.{hits-cleared, sign_extend_inj}
use os_assignment_hk.Tlb.Search.{Found, find_index-some, find_index-none}
use os_assignment_hk.Tlb.Laws.{IsValid}
use os_assignment_hk.Tlb.Stale.{read-hits, read-some, read-none}

read-none_miss :
    (tlb : Tlb) (pid pg : ℕ)
    → tlb_cache_read tlb pid pg ≡ none
    → (j : ℕ) → j < length tlb
    → hits pid pg (get_or tlb j 0) ≡ false
unfolding tlb_cache_read
read-none_miss tlb pid pg h = find_index-none (hits pid pg) tlb (ground arith)

hits_same :
    (e pid pg pid' pg' : ℕ)
    → hits pid pg e ≡ true
    → hits pid' pg' e ≡ true
    → (pid' ≡ pid) × (pg' ≡ pg)
unfolding hits
hits_same e pid pg pid' pg' h k =
    let same : sign_extend pid' ≡ sign_extend pid = ground arith in
    (sign_extend_inj pid' pid same, ground arith)

module _ (tlb : Tlb) (pid pg i : ℕ) (valid : IsValid tlb) (f : Found (hits pid pg) tlb i) where
  abbrev after : Tlb
  after = set tlb i (set_tlb_valid (get_or tlb i 0) 0)

  size : length after ≡ length tlb
  size = length-set tlb i (set_tlb_valid (get_or tlb i 0) 0)

  kept : (j : ℕ) → j ≢ i → get_or after j 0 ≡ get_or tlb j 0
  kept j ne = get_or-set_ne tlb i j (set_tlb_valid (get_or tlb i 0) 0) 0 (λ p. ne (sym p))

  cleared : get_or after i 0 ≡ set_tlb_valid (get_or tlb i 0) 0
  cleared = get_or-set_self tlb i (set_tlb_valid (get_or tlb i 0) 0) 0 f.inside

  -- An entry that hits afterwards is another one, and hit before.
  survivor :
      (pid' pg' j : ℕ)
      → j < length tlb
      → hits pid' pg' (get_or after j 0) ≡ true
      → (j ≢ i) × (get_or after j 0 ≡ get_or tlb j 0)
  survivor pid' pg' j lt h = elim (Bool-cases (j == i)) [
    | inl p ↦
        let same : j ≡ i = ground arith in
        let gone = (hits-cleared (get_or tlb i 0) pid' pg' (valid.words i f.inside)).1 in
        let now = cleared in absurd (ground arith)
    | inr p ↦ let other : j ≢ i = ground arith in (other, kept j other)
  ]

  after-IsValid : IsValid after
  after-IsValid = record {
    words = λ j lt. elim (Bool-cases (j == i)) [
      | inl p ↦
          let same : j ≡ i = ground arith in
          let word = (hits-cleared (get_or tlb i 0) pid pg (valid.words i f.inside)).0 in
          let now = cleared in ground arith
      | inr p ↦ let old = kept j (ground arith) in let n = size in ground (arith, valid.words j)
    ];
    unique = λ pid' pg' a b la lb ha hb.
        let n = size in
        let (_, ea) = survivor pid' pg' a (omega arith) ha in
        let (_, eb) = survivor pid' pg' b (omega arith) hb in
        valid.unique pid' pg' a b (omega arith) (omega arith) (cc) (cc);
  }

  after_page : tlb_cache_read after pid pg ≡ none
  after_page = read-none after pid pg λ j lt. elim (Bool-cases (hits pid pg (get_or after j 0))) [
    | inr miss ↦ miss
    | inl hit ↦
        let n = size in
        let (other, e) = survivor pid pg j (omega arith) hit in
        absurd (other (valid.unique pid pg j i (omega arith) f.inside (cc) f.passes))
  ]

  after_others :
      (pid' pg' : ℕ)
      → (pid' ≢ pid) ⊎ (pg' ≢ pg)
      → tlb_cache_read after pid' pg' ≡ tlb_cache_read tlb pid' pg'
  after_others pid' pg' ne = elim (Option-cases (tlb_cache_read tlb pid' pg')) [
    | inr (x, e) ↦
        let n = size in
        let (j, lt, hit, frame) = read-some tlb pid' pg' x e in
        let other : j ≢ i = λ p.
          let here : hits pid' pg' (get_or tlb i 0) ≡ true = cc in
          let (a, b) = hits_same (get_or tlb i 0) pid pg pid' pg' f.passes here in ground arith in
        let old = kept j other in
        let now = read-hits after pid' pg' j after-IsValid (omega arith) (cc) in cc
    | inl e ↦
        let n = size in
        read-none after pid' pg' (λ j lt. elim (Bool-cases (hits pid' pg' (get_or after j 0))) [
          | inr miss ↦ miss
          | inl hit ↦
              let (_, same) = survivor pid' pg' j (omega arith) hit in
              let miss = read-none_miss tlb pid' pg' e j (omega arith) in cc
        ])
        ∙ sym e
  ]

-- After an invalidation of a page of a process in a valid TLB the TLB is valid, a read of that page
-- finds nothing, and every other page or process reads as before.
pub tlb_cache_invalidate_page :
    (tlb : Tlb) (pid pg : ℕ)
    → IsValid tlb
    → let (found, tlb') = tlb_cache_invalidate tlb pid (some pg) in
      IsValid tlb'
      × (tlb_cache_read tlb' pid pg ≡ none)
      × ((pid' pg' : ℕ)
          → (pid' ≢ pid) ⊎ (pg' ≢ pg)
          → tlb_cache_read tlb' pid' pg' ≡ tlb_cache_read tlb pid' pg')
unfolding tlb_cache_invalidate
tlb_cache_invalidate_page tlb pid pg valid = elim (Option-cases (find_index (hits pid pg) tlb)) [
  | inr (i, e) ↦
      let f = find_index-some (hits pid pg) tlb i e in
      rw (e, tlb_cache_invalidate)
        (
          after-IsValid tlb pid pg i valid f,
          after_page tlb pid pg i valid f,
          after_others tlb pid pg i valid f,
        )
  | inl e ↦
      rw (e, tlb_cache_invalidate)
        (valid, read-none tlb pid pg (find_index-none (hits pid pg) tlb e), λ pid' pg' ne. refl)
]
