-- ===== src/Tlb/Laws.antt =====
-- The TLB as a partial map from process and page to frame: what storing and invalidating do to it.
use os_assignment_hk.Common.{
  ℕ, ◌%◌, ◌^◌, ◌<◌, ◌≡◌, arith, true, false, some, length, get_or, set, length-set, get_or-set_self,
  ok, inl, inr, Option-cases, not, ◌⊎◌,
}
use os_assignment_hk.Tlb.{
  Tlb, tlb_valid, set_tlb_entry, hits, find_index, tlb_cache_read, slot_for, tlb_cache_write,
}
use os_assignment_hk.Tlb.Entry.{set_tlb_entry_reads, hits-set_tlb_entry}
use os_assignment_hk.Tlb.Search.{find_index-some, find_index-none, find_index-set}

-- Entries are 64-bit words, and no two of them hit for the same page.
pub record IsValid (tlb : Tlb) : Type 0 where
  pub words : (i : ℕ) → i < length tlb → get_or tlb i 0 < 2 ^ 64
  pub unique :
      (pid pg i j : ℕ)
      → i < length tlb
      → j < length tlb
      → hits pid pg (get_or tlb i 0) ≡ true
      → hits pid pg (get_or tlb j 0) ≡ true
      → i ≡ j

-- the chosen place: in range, and no entry of the page stands before it or elsewhere
pub record Slot (tlb : Tlb) (pid pg r i : ℕ) : Type 0 where
  pub chosen : slot_for tlb pid pg r ≡ some i
  pub inside : i < length tlb
  pub before : (j : ℕ) → j < i → hits pid pg (get_or tlb j 0) ≡ false
  pub others :
      ((j : ℕ) → j < length tlb → hits pid pg (get_or tlb j 0) ≡ false)
      ⊎ (hits pid pg (get_or tlb i 0) ≡ true)

pub slot_for_lem : (tlb : Tlb) (pid pg r : ℕ) → 0 < length tlb → (i : ℕ) × Slot tlb pid pg r i
unfolding slot_for
slot_for_lem tlb pid pg r h = elim (Option-cases (find_index (hits pid pg) tlb)) [
  | inr (i, e) ↦
      let f = find_index-some (hits pid pg) tlb i e in
      (
        i,
        record {
          chosen = ground arith;
          inside = f.inside;
          before = f.least;
          others = inr f.passes;
        },
      )
  | inl e ↦
      let miss = find_index-none (hits pid pg) tlb e in
      elim (Option-cases (find_index (λ x. not (tlb_valid x)) tlb)) [
        | inr (i, e') ↦
            let f = find_index-some (λ x. not (tlb_valid x)) tlb i e' in
            (
              i,
              record {
                chosen = ground arith;
                inside = f.inside;
                before = λ j lt. miss j (omega (arith, f.inside));
                others = inl miss;
              },
            )
        | inl e' ↦
            let inside : r % length tlb < length tlb = omega arith in
            (
              r % length tlb,
              record {
                chosen = ground arith;
                inside = inside;
                before = λ j lt. miss j (omega arith);
                others = inl miss;
              },
            )
      ]
]

-- Storing a frame succeeds and keeps the size.
pub tlb_cache_write_lem :
    (tlb : Tlb) (pid pg v r : ℕ)
    → 0 < length tlb
    → (tlb' : Tlb) × (tlb_cache_write tlb pid pg v r ≡ ok tlb') × (length tlb' ≡ length tlb)
unfolding tlb_cache_write
tlb_cache_write_lem tlb pid pg v r some_entry =
    let (i, s) = slot_for_lem tlb pid pg r some_entry in
    let e = set_tlb_entry 1 pg pid v in (set tlb i e, ground (arith, s.chosen), length-set tlb i e)

module _ (tlb : Tlb) (pid pg v r : ℕ) (some_entry : 0 < length tlb) (hp : pg < 2 ^ 14)
    (hd : pid < 2 ^ 31) where
  -- For a TLB of at least one entry, a page below 2^14 and a process below 2^31, whatever the entries
  -- are and `rand` returns, storing a frame succeeds, keeps the size, and a read of that page then
  -- gives the low 13 bits of the frame number.
  pub tlb_cache_read-write :
      (tlb' : Tlb) × (tlb_cache_write tlb pid pg v r ≡ ok tlb')
      × (tlb_cache_read tlb' pid pg ≡ some (v % 2 ^ 13))
      × (length tlb' ≡ length tlb)
  unfolding tlb_cache_write tlb_cache_read
  tlb_cache_read-write =
      let (i, s) = slot_for_lem tlb pid pg r some_entry in
      let e = set_tlb_entry 1 pg pid v in
      let found =
        find_index-set (hits pid pg) tlb i e s.inside (hits-set_tlb_entry pg pid v hp hd)
          s.before in
      let stored = get_or-set_self tlb i e 0 s.inside in
      (
        set tlb i e,
        ground (arith, s.chosen),
        ground (arith, set_tlb_entry_reads pg pid v),
        length-set tlb i e,
      )
