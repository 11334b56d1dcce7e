-- ===== src/Tlb/Stale.antt =====
-- A read never returns a frame that was not stored for its page, and none after an invalidation.
use os_assignment_hk.Common.{
  ℕ, ◌^◌, ◌<◌, ◌≤◌, ◌≡◌, ◌≢◌, sym, arith, true, false, none, some, length, get_or, set, length-set,
  get_or-set_self, get_or-set_ne, ok, inl, inr, Bool-cases, Option-cases, ◌==◌, ◌⊎◌,
}
use os_assignment_hk.Tlb.{
  Tlb, tlb_frmnum, set_tlb_entry, hits, find_index, tlb_cache_read, tlb_cache_write,
}
use os_assignment_hk.Tlb.Entry.{set_tlb_entry_reads, hits-set_tlb_entry_only, hits_high}
use os_assignment_hk.Tlb.Search.{find_index-some, find_index-none}
use os_assignment_hk.Tlb.Laws.{IsValid, Slot, slot_for_lem}

-- In a valid TLB the entry that hits is the one that is read.
pub read-hits :
    (tlb : Tlb) (pid pg j : ℕ)
    → IsValid tlb
    → j < length tlb
    → hits pid pg (get_or tlb j 0) ≡ true
    → tlb_cache_read tlb pid pg ≡ some (tlb_frmnum (get_or tlb j 0))
unfolding tlb_cache_read
read-hits tlb pid pg j v lt h = elim (Option-cases (find_index (hits pid pg) tlb)) [
  | inr (i, e) ↦
      let f = find_index-some (hits pid pg) tlb i e in
      let same = v.unique pid pg i j f.inside lt f.passes h in ground arith
  | inl e ↦ let miss = find_index-none (hits pid pg) tlb e j lt in ground arith
]

-- What is read was found at some entry.
pub read-some :
    (tlb : Tlb) (pid pg f : ℕ)
    → tlb_cache_read tlb pid pg ≡ some f
    → (j : ℕ) × (j < length tlb)
      × (hits pid pg (get_or tlb j 0) ≡ true)
      × (tlb_frmnum (get_or tlb j 0) ≡ f)
unfolding tlb_cache_read
read-some tlb pid pg f h = elim (Option-cases (find_index (hits pid pg) tlb)) [
  | inr (i, e) ↦
      let found = find_index-some (hits pid pg) tlb i e in
      (i, found.inside, found.passes, ground arith)
  | inl e ↦ ground arith
]

pub read-none :
    (tlb : Tlb) (pid pg : ℕ)
    → ((j : ℕ) → j < length tlb → hits pid pg (get_or tlb j 0) ≡ false)
    → tlb_cache_read tlb pid pg ≡ none
unfolding tlb_cache_read
read-none tlb pid pg h = elim (Option-cases (find_index (hits pid pg) tlb)) [
  | inr (i, e) ↦
      let f = find_index-some (hits pid pg) tlb i e in
      let miss = h i f.inside in ground (arith, f.passes)
  | inl e ↦ ground arith
]

-- A process number that is negative as an `int` never hits.
pub read_high :
    (tlb : Tlb) (pid pg : ℕ) → IsValid tlb → 2 ^ 31 ≤ pid → tlb_cache_read tlb pid pg ≡ none
read_high tlb pid pg valid high =
    read-none tlb pid pg (λ j lt. hits_high (get_or tlb j 0) pid pg (valid.words j lt) high)

module _ (tlb : Tlb) (pid pg v r : ℕ) (valid : IsValid tlb) (some_entry : 0 < length tlb)
    (hp : pg < 2 ^ 14) (hd : pid < 2 ^ 32) where
  stored_unique :
      (i : ℕ)
      → Slot tlb pid pg r i
      → (pid' pg' b : ℕ) → b < length tlb
      → b ≢ i
      → hits pid' pg' (set_tlb_entry 1 pg pid v) ≡ true
      → hits pid' pg' (get_or tlb b 0) ≡ true
      → ⊥
  stored_unique i s pid' pg' b lt ne he hb =
      let (same_pid, same_pg) = hits-set_tlb_entry_only pg pid v pg' pid' hp hd he in
      let h : hits pid pg (get_or tlb b 0) ≡ true = cc in
      elim s.others [
        | inl miss ↦ let m = miss b lt in cc
        | inr old ↦ ne (valid.unique pid pg b i lt s.inside h old)
      ]

  stored :
      (i : ℕ)
      → Slot tlb pid pg r i
      → get_or (set tlb i (set_tlb_entry 1 pg pid v)) i 0 ≡ set_tlb_entry 1 pg pid v
  stored i s = get_or-set_self tlb i (set_tlb_entry 1 pg pid v) 0 s.inside

  kept : (i j : ℕ) → j ≢ i → get_or (set tlb i (set_tlb_entry 1 pg pid v)) j 0 ≡ get_or tlb j 0
  kept i j ne = get_or-set_ne tlb i j (set_tlb_entry 1 pg pid v) 0 (λ p. ne (sym p))

  new_unique :
      (i : ℕ)
      → Slot tlb pid pg r i
      → (pid' pg' a b : ℕ) → a < length tlb
      → b < length tlb
      → hits pid' pg' (get_or (set tlb i (set_tlb_entry 1 pg pid v)) a 0) ≡ true
      → hits pid' pg' (get_or (set tlb i (set_tlb_entry 1 pg pid v)) b 0) ≡ true
      → a ≡ b
  new_unique i s pid' pg' a b la lb ha hb = elim (Bool-cases (a == i)) [
    | inl p ↦ elim (Bool-cases (b == i)) [
      | inl q ↦ ground arith
      | inr q ↦
          let same : a ≡ i = ground arith in
          let other : b ≢ i = ground arith in
          let old = kept i b other in
          let new = stored i s in absurd (stored_unique i s pid' pg' b lb other (cc) (cc))
    ]
    | inr p ↦
        let other : a ≢ i = ground arith in
        let old = kept i a other in
        elim (Bool-cases (b == i)) [
          | inl q ↦
              let same : b ≡ i = ground arith in
              let new = stored i s in absurd (stored_unique i s pid' pg' a la other (cc) (cc))
          | inr q ↦
              let other' : b ≢ i = ground arith in
              let old' = kept i b other' in valid.unique pid' pg' a b la lb (cc) (cc)
        ]
  ]

  stored-IsValid : (i : ℕ) → Slot tlb pid pg r i → IsValid (set tlb i (set_tlb_entry 1 pg pid v))
  stored-IsValid i s =
      let e = set_tlb_entry 1 pg pid v in
      let size = length-set tlb i e in
      let word = (set_tlb_entry_reads pg pid v).0 in
      record {
        words = λ j lt. elim (Bool-cases (j == i)) [
          | inl p ↦ let same : j ≡ i = ground arith in let new = stored i s in ground arith
          | inr p ↦ let old = kept i j (ground arith) in ground (arith, valid.words j)
        ];
        unique = λ pid' pg' a b la lb ha hb.
            new_unique i s pid' pg' a b (omega arith) (omega arith) ha hb;
      }

  other_read :
      (i : ℕ)
      → Slot tlb pid pg r i
      → (pid' pg' f : ℕ) → (pid' ≢ pid) ⊎ (pg' ≢ pg)
      → tlb_cache_read (set tlb i (set_tlb_entry 1 pg pid v)) pid' pg' ≡ some f
      → tlb_cache_read tlb pid' pg' ≡ some f
  other_read i s pid' pg' f ne h =
      let e = set_tlb_entry 1 pg pid v in
      let size = length-set tlb i e in
      let (j, lt, hit, frame) = read-some (set tlb i e) pid' pg' f h in
      elim (Bool-cases (j == i)) [
        | inl p ↦
            let same : j ≡ i = ground arith in
            let new = stored i s in
            let (a, b) = hits-set_tlb_entry_only pg pid v pg' pid' hp hd (cc) in ground arith
        | inr p ↦
            let old = kept i j (ground arith) in
            let before = read-hits tlb pid' pg' j valid (omega arith) (cc) in cc
      ]

  -- For a valid TLB of at least one entry, a page below 2^14 and a process below 2^32, storing a frame
  -- succeeds and keeps the TLB valid, and a read that hits for any other page or process afterwards
  -- gave the same frame before, whatever `rand` returns.
  pub tlb_cache_write_others :
      (tlb' : Tlb) × (tlb_cache_write tlb pid pg v r ≡ ok tlb')
      × IsValid tlb'
      × ((pid' pg' f : ℕ)
          → (pid' ≢ pid) ⊎ (pg' ≢ pg)
          → tlb_cache_read tlb' pid' pg' ≡ some f
          → tlb_cache_read tlb pid' pg' ≡ some f)
  unfolding tlb_cache_write
  tlb_cache_write_others =
      let (i, s) = slot_for_lem tlb pid pg r some_entry in
      let e = set_tlb_entry 1 pg pid v in
      (
        set tlb i e,
        ground (arith, s.chosen),
        stored-IsValid i s,
        λ pid' pg' f ne h. other_read i s pid' pg' f ne h,
      )
