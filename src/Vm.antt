-- ===== src/Vm.antt =====
-- The memory of a process (include/os-mm.h), and the functions of src/mm.c and src/mm-vm.c that work
-- on its lists. A pointer to a region or an area is its index. `none` is a status below 0.
pub mod FreeList
pub mod Fit
pub mod Copy
pub mod Bytes
pub mod Map
pub mod Shortage
pub mod Swap
pub mod SwapBack
pub mod Page
pub mod Ops
pub mod ReadWrite
pub mod Release
pub mod Place
pub mod Alloc
pub mod Use
pub mod Forward
use os_assignment_hk.Common.{
  ℕ, zero, suc, ◌+◌, ◌*◌, Bool, true, false, leb, ltb, ◌==◌, Option, none, some, List, [], ◌∷◌,
  get_elem?, set, Result, ok, ◌>>=◌, must, if◌then◌else◌,
}
use os_assignment_hk.Pte.{paging_pagesz}
use os_assignment_hk.Memphy.{Memphy, memphy_read, memphy_write}
use os_assignment_hk.Tlb.{Tlb}

-- `struct vm_rg_struct` without its link
pub record Region : Type 0 where
  pub rg_start : ℕ
  pub rg_end : ℕ

-- A list of regions. `wild` is a pointer to memory that is not a region: one that was never written,
-- or the address of a variable of a call that has returned.
pub data RgList : Type 0 where
  null : RgList
  node : Region → RgList → RgList
  wild : RgList

-- `struct vm_area_struct` without `vm_id`, `vm_mm` and its link
pub record Vma : Type 0 where
  pub vm_start : ℕ
  pub vm_end : ℕ
  pub sbrk : ℕ
  pub vm_freerg_list : RgList

pub record Mm : Type 0 where
  pub pgd : List ℕ
  pub mmap : List Vma
  pub symrgtbl : List Region
  pub fifo_pgn : List ℕ

-- A process and the devices that it reaches. `active_mswp` is the offset from `mswp`.
pub record Proc : Type 0 where
  pub pid : ℕ
  pub mm : Mm
  pub mram : Memphy
  pub mswp : List Memphy
  pub tlb : Tlb
  pub active_mswp : ℕ

abbrev pub paging_max_symtbl_sz : ℕ
paging_max_symtbl_sz = 30

abbrev pub paging_max_mmswp : ℕ
paging_max_mmswp = 4

abbrev pub region : ℕ → ℕ → Region
region s e = record { rg_start = s; rg_end = e }

-- `init_mm`. `malloc` leaves the page table, the symbol table and the link of the new area as they
-- were in the memory that it returns: those contents are arguments.
unfoldable pub init_mm : List ℕ → List Region → RgList → List ℕ → Mm
init_mm old_pgd old_symrgtbl old_list old_fifo = record {
  pgd = old_pgd;
  mmap =
      record { vm_start = 0; vm_end = 0; sbrk = 0; vm_freerg_list = node (region 0 0) old_list }
      ∷ [];
  symrgtbl = old_symrgtbl;
  fifo_pgn = old_fifo;
}

-- `get_vma_by_num`: area `vmaid`, NULL past the end of the list
unfoldable pub get_vma_by_num : Mm → ℕ → Option Vma
get_vma_by_num mm vmaid = get_elem? mm.mmap vmaid

-- The returned pointer is an index, which may lie outside the table.
unfoldable pub get_symrg_byid : ℕ → Option ℕ
get_symrg_byid rgid = if ltb paging_max_symtbl_sz rgid then none else some rgid

-- the region at that pointer
unfoldable pub symrg : Mm → ℕ → Result Region
symrg mm i = must (get_elem? mm.symrgtbl i)

unfoldable pub set_symrg : Proc → ℕ → Region → Result Proc
set_symrg p i r = must (get_elem? p.mm.symrgtbl i) >>= λ _.
    ok (record p { mm = record p.mm { symrgtbl = set p.mm.symrgtbl i r } })

-- `enlist_vm_freerg_list`, onto the list of the first area; `link` is what the list begins with
-- afterwards.
pub enlist_vm_freerg_list : Proc → Region → (RgList → RgList) → Result (Bool × Proc)
enlist_vm_freerg_list p r link = must (get_elem? p.mm.mmap 0) >>= λ vma.
    if leb r.rg_end r.rg_start
    then ok (false, p)
    else ok (
      true,
      record p {
        mm = record p.mm {
          mmap = set p.mm.mmap 0 (record vma { vm_freerg_list = link vma.vm_freerg_list });
        };
      },
    )

-- the last element of a list, and the others
pub split_last : List ℕ → Option (ℕ × List ℕ)
split_last [] = none
split_last (x ∷ xs) = elim (split_last xs) [ none ↦ some (x, []) | some (y, ys) ↦ some (y, x ∷ ys) ]

-- The oldest page is at the end of `fifo_pgn`.
pub find_victim_page : Mm → Option (ℕ × Mm)
find_victim_page mm = elim (split_last mm.fifo_pgn) [
  | none ↦ none
  | some (pgn, rest) ↦ some (pgn, record mm { fifo_pgn = rest })
]

unfoldable pub enlist_pgn_node : Mm → ℕ → Mm
enlist_pgn_node mm pgn = record mm { fifo_pgn = pgn ∷ mm.fifo_pgn }

pub remove_first : ℕ → List ℕ → List ℕ
remove_first pgn [] = []
remove_first pgn (x ∷ xs) = let rest = remove_first pgn xs in if x == pgn then xs else x ∷ rest

-- the status -1 for an empty list is not looked at by the caller
unfoldable pub clear_pgn_node : Mm → ℕ → Mm
clear_pgn_node mm pgn = record mm { fifo_pgn = remove_first pgn mm.fifo_pgn }

-- One round of the loop of `__swap_cp_page`. A byte that was not read is not written.
pub copy_cell : Memphy → ℕ → Memphy → ℕ → Result (Memphy × Memphy)
copy_cell src from dst to = memphy_read (some src) from >>= λ (v, src'). must src' >>= λ s.
    must v >>= λ byte.
    memphy_write (some dst) to byte >>= λ (status, dst'). must dst' >>= λ d. ok (s, d)

pub copy_loop : ℕ → ℕ → Memphy → ℕ → Memphy → ℕ → Result (Memphy × Memphy)
copy_loop zero cellidx src srcfpn dst dstfpn = ok (src, dst)
copy_loop (suc n) cellidx src srcfpn dst dstfpn =
    copy_cell src (srcfpn * paging_pagesz + cellidx) dst (dstfpn * paging_pagesz + cellidx)
    >>= λ (s, d). copy_loop n (cellidx + 1) s srcfpn d dstfpn

-- `__swap_cp_page`; the two devices are different ones
pub swap_cp_page : Memphy → ℕ → Memphy → ℕ → Result (Memphy × Memphy)
swap_cp_page src srcfpn dst dstfpn = copy_loop paging_pagesz 0 src srcfpn dst dstfpn
