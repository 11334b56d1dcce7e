-- ===== src/Pte/Laws.antt =====
-- Reading back what was written into a page table entry.
use os_assignment_hk.Common.{ℕ, ◌+◌, ◌-◌, ◌*◌, ◌/◌, ◌%◌, ◌^◌, ◌<◌, ◌≡◌, refl, ◌∙◌, arith, ◌==◌}
use os_assignment_hk.Word.{setbit, clrbit, setval}
use os_assignment_hk.Word.Fields.{
  getval-field, getval_flag, setval-field, clrbit-field, setbit-field, is_set-field,
}
use os_assignment_hk.Pte.{
  page_present, page_swapped, pte_fpn, pte_swptyp, paging_swp, paging_pgn, paging_offst,
  pte_set_swap, pte_set_fpn, pte_clear_present, pte_swpoff_mask,
}

pub page_present_lem : (v : ℕ) → v < 2 ^ 32 → page_present v ≡ (v / 2 ^ 31 % 2 == 1)
unfolding page_present
page_present_lem v h = is_set-field 0 31 v (omega arith)

pub page_swapped_lem : (v : ℕ) → v < 2 ^ 32 → page_swapped v ≡ (v / 2 ^ 30 % 2 == 1)
unfolding page_swapped
page_swapped_lem v h = ground (arith, getval_flag 1 30 v)

pub pte_fpn_lem : (v : ℕ) → v < 2 ^ 32 → pte_fpn v ≡ v % 2 ^ 13
unfolding pte_fpn
pte_fpn_lem v h = getval-field 19 13 0 v (omega arith) ∙ omega arith

pub pte_swptyp_lem : (v : ℕ) → v < 2 ^ 32 → pte_swptyp v ≡ v % 2 ^ 5
unfolding pte_swptyp
pte_swptyp_lem v h = getval-field 27 5 0 v (omega arith) ∙ omega arith

pub paging_swp_lem : (v : ℕ) → v < 2 ^ 32 → paging_swp v ≡ v / 2 ^ 5 % 2 ^ 9
unfolding paging_swp
paging_swp_lem v h = getval-field 18 9 5 v (omega arith)

pub paging_pgn_lem : (v : ℕ) → v < 2 ^ 32 → paging_pgn v ≡ v / 2 ^ 8 % 2 ^ 14
unfolding paging_pgn
paging_pgn_lem v h = getval-field 10 14 8 v (omega arith)

pub paging_offst_lem : (v : ℕ) → v < 2 ^ 32 → paging_offst v ≡ v % 2 ^ 8
unfolding paging_offst
paging_offst_lem v h = getval-field 24 8 0 v (omega arith) ∙ omega arith

pub set_present : (v : ℕ) → v < 2 ^ 32 → setbit v (2 ^ 31) ≡ 2 ^ 31 + v % 2 ^ 31
set_present v h = setbit-field 31 v ∙ omega arith

set_swapped : (v : ℕ) → v < 2 ^ 32 → setbit v (2 ^ 30) ≡ v / 2 ^ 31 * 2 ^ 31 + 2 ^ 30 + v % 2 ^ 30
set_swapped v h = setbit-field 30 v ∙ omega arith

pub clear_swapped : (v : ℕ) → v < 2 ^ 32 → clrbit 32 v (2 ^ 30) ≡ v / 2 ^ 31 * 2 ^ 31 + v % 2 ^ 30
clear_swapped v h = clrbit-field 1 30 32 v (omega arith) refl ∙ omega arith

pub clear_dirty : (v : ℕ) → v < 2 ^ 32 → clrbit 32 v (2 ^ 28) ≡ v / 2 ^ 29 * 2 ^ 29 + v % 2 ^ 28
clear_dirty v h = clrbit-field 3 28 32 v (omega arith) refl ∙ omega arith

pub set_fpn :
    (v x : ℕ) → v < 2 ^ 32 → setval 32 v x (2 ^ 13 - 1) 0 ≡ v / 2 ^ 13 * 2 ^ 13 + x % 2 ^ 13
set_fpn v x h = setval-field 19 13 0 32 v x (omega arith) (omega arith) refl ∙ omega arith

set_swptyp : (v x : ℕ) → v < 2 ^ 32 → setval 32 v x (2 ^ 5 - 1) 0 ≡ v / 2 ^ 5 * 2 ^ 5 + x % 2 ^ 5
set_swptyp v x h = setval-field 27 5 0 32 v x (omega arith) (omega arith) refl ∙ omega arith

set_swpoff :
    (v x : ℕ)
    → v < 2 ^ 32
    → setval 32 v x pte_swpoff_mask 5 ≡ v / 2 ^ 26 * 2 ^ 26 + x % 2 ^ 21 * 2 ^ 5 + v % 2 ^ 5
set_swpoff v x h = setval-field 6 21 5 32 v x (omega arith) (omega arith) refl ∙ omega arith

-- The new entry as arithmetic: the present flag, bits 13 to 29 kept, the frame number.
pub pte_set_fpn_value :
    (v fpn : ℕ)
    → v < 2 ^ 32
    → pte_set_fpn v fpn ≡ 2 ^ 31 + v / 2 ^ 13 % 2 ^ 17 * 2 ^ 13 + fpn % 2 ^ 13
unfolding pte_set_fpn
pte_set_fpn_value v fpn h = ground (
  arith,
  set_present v,
  clear_swapped (setbit v (2 ^ 31)),
  set_fpn (clrbit 32 (setbit v (2 ^ 31)) (2 ^ 30)) fpn,
)

-- Both flags, bits 26 to 29 kept, the offset and the number of the swap device.
pub pte_set_swap_value :
    (v typ off : ℕ)
    → v < 2 ^ 32
    → pte_set_swap v typ off
      ≡ 3 * 2 ^ 30 + v / 2 ^ 26 % 2 ^ 4 * 2 ^ 26 + off % 2 ^ 21 * 2 ^ 5 + typ % 2 ^ 5
unfolding pte_set_swap
pte_set_swap_value v typ off h =
    let swapped = setbit (setbit v (2 ^ 31)) (2 ^ 30) in
    ground (
      arith,
      set_present v,
      set_swapped (setbit v (2 ^ 31)),
      set_swptyp swapped typ,
      set_swpoff (setval 32 swapped typ (2 ^ 5 - 1) 0) off,
    )

pub pte_clear_present_value : (v : ℕ) → v < 2 ^ 32 → pte_clear_present v ≡ v % 2 ^ 31
unfolding pte_clear_present
pte_clear_present_value v h = clrbit-field 0 31 32 v (omega arith) refl ∙ omega arith
