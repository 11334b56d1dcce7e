-- ===== src/Pte/RoundTrip.antt =====
-- What a reader of the page table (`pg_getpage`, `alloc_pages_range`) gets back from an entry that
-- `pte_set_fpn`, `pte_set_swap`, `init_pte` or `__free` wrote.
use os_assignment_hk.Common.{
  ℕ, ◌+◌, ◌-◌, ◌*◌, ◌/◌, ◌%◌, ◌^◌, ◌<◌, ◌≡◌, ◌≢◌, ◌↔◌, arith, true, false, none, some,
}
use os_assignment_hk.Word.{setbit, clrbit, setval}
use os_assignment_hk.Pte.{
  page_present, page_swapped, pte_fpn, pte_swptyp, paging_swp, paging_pgn, paging_offst,
  pte_set_swap, pte_set_fpn, pte_clear_present, init_pte,
}
use os_assignment_hk.Pte.Laws.{
  page_present_lem, page_swapped_lem, pte_fpn_lem, pte_swptyp_lem, paging_swp_lem, paging_pgn_lem,
  paging_offst_lem, set_present, clear_swapped, clear_dirty, set_fpn, pte_set_fpn_value,
  pte_set_swap_value, pte_clear_present_value,
}

-- For every 32-bit entry, `pte_set_fpn` makes it a 32-bit entry that is present, not swapped, has
-- the frame number modulo 2^13, and keeps bits 13 to 29.
pub pte_set_fpn_reads :
    (v fpn : ℕ)
    → v < 2 ^ 32
    → (pte_set_fpn v fpn < 2 ^ 32)
      × (page_present (pte_set_fpn v fpn) ≡ true)
      × (page_swapped (pte_set_fpn v fpn) ≡ false)
      × (pte_fpn (pte_set_fpn v fpn) ≡ fpn % 2 ^ 13)
      × (pte_set_fpn v fpn / 2 ^ 13 % 2 ^ 17 ≡ v / 2 ^ 13 % 2 ^ 17)
pte_set_fpn_reads v fpn h =
    let e = pte_set_fpn_value v fpn h in
    let w = pte_set_fpn v fpn in
    (
      omega arith,
      ground (arith, page_present_lem w),
      ground (arith, page_swapped_lem w),
      omega (arith, pte_fpn_lem w (omega arith)),
      omega arith,
    )

-- For every 32-bit entry, `pte_set_swap` makes it a 32-bit entry that is present and swapped, has
-- the swap number modulo 32, and of the offset `PAGING_SWP` reads back the low 9 bits.
pub pte_set_swap_reads :
    (v typ off : ℕ)
    → v < 2 ^ 32
    → (pte_set_swap v typ off < 2 ^ 32)
      × (page_present (pte_set_swap v typ off) ≡ true)
      × (page_swapped (pte_set_swap v typ off) ≡ true)
      × (pte_swptyp (pte_set_swap v typ off) ≡ typ % 32)
      × (paging_swp (pte_set_swap v typ off) ≡ off % 512)
pte_set_swap_reads v typ off h =
    let e = pte_set_swap_value v typ off h in
    let w = pte_set_swap v typ off in
    (
      omega arith,
      ground (arith, page_present_lem w),
      ground (arith, page_swapped_lem w),
      omega (arith, pte_swptyp_lem w (omega arith)),
      omega (arith, paging_swp_lem w (omega arith)),
    )

-- For every 32-bit entry, the swap offset that `pte_set_swap` writes is the one that `PAGING_SWP`
-- reads back exactly when it is below 512.
pub paging_swp_iff :
    (v typ off : ℕ) → v < 2 ^ 32 → (paging_swp (pte_set_swap v typ off) ≡ off) ↔ (off < 512)
paging_swp_iff v typ off h =
    let e = (pte_set_swap_reads v typ off h).4 in (λ p. omega arith, λ p. omega arith)

-- For every 32-bit entry, clearing the present flag as `__free` does makes the page absent, and a
-- later `pte_set_fpn` makes it present again with its new frame number modulo 2^13.
pub pte_clear_present_reads :
    (v fpn : ℕ)
    → v < 2 ^ 32
    → (page_present (pte_clear_present v) ≡ false)
      × (page_present (pte_set_fpn (pte_clear_present v) fpn) ≡ true)
      × (pte_fpn (pte_set_fpn (pte_clear_present v) fpn) ≡ fpn % 2 ^ 13)
pte_clear_present_reads v fpn h =
    let e = pte_clear_present_value v h in
    let w = pte_clear_present v in
    let r = pte_set_fpn_reads w fpn (omega arith) in (ground (arith, page_present_lem w), r.1, r.3)

-- For every 32-bit address, the offset that `PAGING_OFFST` gives is below 256, the page number that
-- `PAGING_PGN` gives is below 2^14, and together they give the address modulo 2^22 back.
pub paging_pgn-offst :
    (x : ℕ)
    → x < 2 ^ 32
    → (paging_pgn x * 256 + paging_offst x ≡ x % 2 ^ 22)
      × (paging_offst x < 256)
      × (paging_pgn x < 2 ^ 14)
paging_pgn-offst x h = let p = paging_pgn_lem x h in let o = paging_offst_lem x h in omega arith

-- `init_pte` fails exactly for a present page that is not swapped and has frame number 0.
pub init_pte-eq-none_iff :
    (v pre fpn drt swp typ off : ℕ)
    → (init_pte v pre fpn drt swp typ off ≡ none) ↔ ((pre ≢ 0) × (swp ≡ 0) × (fpn ≡ 0))
unfolding init_pte
init_pte-eq-none_iff v pre fpn drt swp typ off =
    (λ h. (ground arith, ground arith, ground arith), λ (p, q, r). ground arith)

-- For every 32-bit entry and a present page that is not swapped, with a frame number other than 0,
-- `init_pte` gives a 32-bit entry that is present, not swapped, not dirty and has the frame number
-- modulo 2^13, whatever `drt`, `swptyp` and `swpoff` are.
pub init_pte_online :
    (v pre fpn drt typ off : ℕ)
    → v < 2 ^ 32
    → pre ≢ 0
    → fpn ≢ 0
    → (w : ℕ) × (init_pte v pre fpn drt 0 typ off ≡ some w)
      × (w < 2 ^ 32)
      × (page_present w ≡ true)
      × (page_swapped w ≡ false)
      × (w / 2 ^ 28 % 2 ≡ 0)
      × (pte_fpn w ≡ fpn % 2 ^ 13)
unfolding init_pte
init_pte_online v pre fpn drt typ off h hp hf =
    let online = clrbit 32 (setbit v (2 ^ 31)) (2 ^ 30) in
    let clean = clrbit 32 online (2 ^ 28) in
    let w = setval 32 clean fpn (2 ^ 13 - 1) 0 in
    let e₁ = set_present v h in
    let e₂ = clear_swapped (setbit v (2 ^ 31)) (omega arith) in
    let e₃ = clear_dirty online (omega arith) in
    let e₄ = set_fpn clean fpn (omega arith) in
    (
      w,
      ground arith,
      omega arith,
      ground (arith, page_present_lem w),
      ground (arith, page_swapped_lem w),
      omega arith,
      omega (arith, pte_fpn_lem w (omega arith)),
    )
