-- ===== src/Pte.antt =====
-- Page table entries (src/mm.c) and the address macros of include/mm.h. A function that updates
-- `*pte` returns the new entry; its status 0 is left out where no other is returned.
pub mod Laws
pub mod RoundTrip
use os_assignment_hk.Common.{ℕ, ◌-◌, ◌*◌, Bool, ltb, ◌==◌, Option, none, some, if◌then◌else◌}
use os_assignment_hk.Word.{
  bit, genmask, setbit, clrbit, setval, getval, is_set, div_round_up, nbits,
}

abbrev pub paging_pagesz : ℕ
paging_pagesz = 256

abbrev pub paging_cpu_bus_width : ℕ
paging_cpu_bus_width = 22

abbrev paging_memswpsz : ℕ
paging_memswpsz = bit 14

abbrev paging_swpfpn_offset : ℕ
paging_swpfpn_offset = 5

-- `PAGING_PAGE_ALIGNSZ(sz)`
abbrev pub page_alignsz : ℕ → ℕ
page_alignsz sz = div_round_up sz paging_pagesz * paging_pagesz

abbrev pub paging_max_pgn : ℕ
paging_max_pgn = div_round_up (bit paging_cpu_bus_width) paging_pagesz

abbrev pub pte_present_mask : ℕ
pte_present_mask = bit 31

abbrev pub pte_swapped_mask : ℕ
pte_swapped_mask = bit 30

abbrev pub pte_dirty_mask : ℕ
pte_dirty_mask = bit 28

abbrev pub pte_fpn_mask : ℕ
pte_fpn_mask = genmask 32 12 0

abbrev pub pte_swptyp_mask : ℕ
pte_swptyp_mask = genmask 32 4 0

abbrev pub pte_swpoff_mask : ℕ
pte_swpoff_mask = genmask 32 25 5

-- `PAGING_PAGE_PRESENT(pte)`
pub page_present : ℕ → Bool
page_present pte = is_set pte pte_present_mask

-- `GETVAL(pte, PAGING_PTE_SWAPPED_MASK, 0) > 0`
pub page_swapped : ℕ → Bool
page_swapped pte = ltb 0 (getval pte pte_swapped_mask 0)

-- `GETVAL(pte, PAGING_PTE_FPN_MASK, PAGING_PTE_FPN_LOBIT)`
pub pte_fpn : ℕ → ℕ
pte_fpn pte = getval pte pte_fpn_mask 0

-- `GETVAL(pte, PAGING_PTE_SWPTYP_MASK, PAGING_PTE_SWPTYP_LOBIT)`
pub pte_swptyp : ℕ → ℕ
pte_swptyp pte = getval pte pte_swptyp_mask 0

-- `PAGING_SWP(pte)`, whose mask ends at bit `NBITS(PAGING_MEMSWPSZ) - 1`
pub paging_swp : ℕ → ℕ
paging_swp pte =
    getval pte (genmask 32 (nbits paging_memswpsz - 1) paging_swpfpn_offset) paging_swpfpn_offset

-- `PAGING_PGN(x)` and `PAGING_OFFST(x)`
pub paging_pgn : ℕ → ℕ
paging_pgn x =
    getval x (genmask 32 (paging_cpu_bus_width - 1) (nbits paging_pagesz)) (nbits paging_pagesz)

pub paging_offst : ℕ → ℕ
paging_offst x = getval x (genmask 32 (nbits paging_pagesz - 1) 0) 0

pub pte_set_swap : ℕ → ℕ → ℕ → ℕ
pte_set_swap pte swptyp swpoff =
    let present = setbit pte pte_present_mask in
    let swapped = setbit present pte_swapped_mask in
    let typed = setval 32 swapped swptyp pte_swptyp_mask 0 in
    setval 32 typed swpoff pte_swpoff_mask 5

pub pte_set_fpn : ℕ → ℕ → ℕ
pte_set_fpn pte fpn =
    let present = setbit pte pte_present_mask in
    let online = clrbit 32 present pte_swapped_mask in setval 32 online fpn pte_fpn_mask 0

-- `CLRBIT(pte, PAGING_PTE_PRESENT_MASK)`, as `__free` does it
pub pte_clear_present : ℕ → ℕ
pte_clear_present pte = clrbit 32 pte pte_present_mask

-- The flags `pre` and `swp` are tested against 0; `none` is the status -1.
pub init_pte : ℕ → ℕ → ℕ → ℕ → ℕ → ℕ → ℕ → Option ℕ
init_pte pte pre fpn drt swp swptyp swpoff =
    if pre == 0
    then some pte
    else if swp == 0
    then (if fpn == 0 then none else some (setval 32 online fpn pte_fpn_mask 0))
    else some (setval 32 (setval 32 swapped swptyp pte_swptyp_mask 0) swpoff pte_swpoff_mask 5)
  where
    present : ℕ
    present = setbit pte pte_present_mask

    online : ℕ
    online = clrbit 32 (clrbit 32 present pte_swapped_mask) pte_dirty_mask

    swapped : ℕ
    swapped = clrbit 32 (setbit present pte_swapped_mask) pte_dirty_mask
