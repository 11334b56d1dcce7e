-- ===== src/Vm/Forward.antt =====
-- The other functions of src/mm-vm.c and src/mm.c: the operations of a build with MM_PAGING and without
-- CPU_TLB, which forward, two small helpers, and `free_pcb_memph`, which nothing calls.
use os_assignment_hk.Common.{
  ℕ, zero, suc, ◌+◌, Bool, true, false, get_elem?, set, Result, ok, ◌>>=◌, must,
}
use os_assignment_hk.Pte.{page_present, pte_fpn, paging_swp, paging_max_pgn}
use os_assignment_hk.Memphy.{put_freefp}
use os_assignment_hk.Vm.{Region, region, RgList, node, Mm, Proc, get_vma_by_num}
use os_assignment_hk.Vm.FreeList.{add_ulong}
use os_assignment_hk.Vm.Page.{active_swap}
use os_assignment_hk.Vm.Ops.{free, read, write}

pub pgfree_data : Proc → ℕ → Result (Bool × Proc)
pgfree_data p reg_index = free p reg_index

-- The byte goes into the parameter `destination` and is lost.
pub pgread : Proc → ℕ → ℕ → Result (Bool × Proc)
pgread p source offset = read p 0 source offset >>= λ (status, value, q). ok (status, q)

pub pgwrite : Proc → ℕ → ℕ → ℕ → Result (Bool × Proc)
pgwrite p data_byte destination offset = write p 0 destination offset data_byte

-- `enlist_vm_rg_node`
pub enlist_vm_rg_node : RgList → Region → RgList
enlist_vm_rg_node rglist rgnode = node rgnode rglist

-- `get_vm_area_node_at_brk` for a size that is not negative
pub get_vm_area_node_at_brk : Mm → ℕ → ℕ → Result Region
get_vm_area_node_at_brk mm vmaid size =
    must (get_vma_by_num mm vmaid) >>= λ vma. ok (region vma.sbrk (add_ulong vma.sbrk size))

-- The loop of `free_pcb_memph` with the rounds left, from page `pgn` on. It gives back the frame of a
-- page that is not present, and the swap offset of one that is.
pub free_pcb_loop : ℕ → ℕ → Proc → Result Proc
free_pcb_loop zero pgn p = ok p
free_pcb_loop (suc n) pgn p = must (get_elem? p.mm.pgd pgn) >>= λ pte. elim (page_present pte) [
  | false ↦ free_pcb_loop n (pgn + 1) (record p { mram = put_freefp p.mram (pte_fpn pte) })
  | true ↦ active_swap p p.active_mswp >>= λ (i, mp).
      free_pcb_loop n (pgn + 1) (record p { mswp = set p.mswp i (put_freefp mp (paging_swp pte)) })
]

pub free_pcb_memph : Proc → Result Proc
free_pcb_memph p = free_pcb_loop paging_max_pgn 0 p
