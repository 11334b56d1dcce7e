-- ===== src/Vm/Ops.antt =====
-- `__alloc`, `__free`, `__read` and `__write` of src/mm-vm.c, with the limit of the area. Sizes are
-- below 2^31 and the values of addresses are written as they are cut to an `int` and widened back.
use os_assignment_hk.Common.{
  ℕ, zero, suc, ◌+◌, ◌-◌, ◌/◌, ◌%◌, ◌^◌, Bool, true, false, not, leb, ltb, ◌==◌, Option, none, some,
  get_elem?, set, Result, ok, fault, ◌>>=◌, must, if◌then◌else◌,
}
use os_assignment_hk.Pte.{page_alignsz, paging_pagesz, paging_pgn, pte_clear_present}
use os_assignment_hk.Memphy.{put_freefp}
use os_assignment_hk.Vm.{
  Region, region, node, wild, Vma, Proc, get_vma_by_num, get_symrg_byid, symrg, set_symrg,
  enlist_vm_freerg_list, clear_pgn_node,
}
use os_assignment_hk.Vm.FreeList.{add_ulong, get_free_vmrg_area, validate_overlap_vm_area}
use os_assignment_hk.Vm.Page.{set_pgd, vm_map_ram, pg_getpage, pg_getval, pg_setval}

-- the 32 bits of an `int` that holds an `unsigned long`
abbrev pub to_int : ℕ → ℕ
to_int v = v % 2 ^ 32

-- an `int` as an `unsigned long`: the sign bit is copied up
abbrev pub to_ulong : ℕ → ℕ
to_ulong w = if ltb w (2 ^ 31) then w else w + 2 ^ 64 - 2 ^ 32

abbrev pub pages : ℕ → ℕ
pages sz = page_alignsz sz / paging_pagesz

unfoldable pub set_vma : Proc → ℕ → Vma → Proc
set_vma p vmaid vma = record p { mm = record p.mm { mmap = set p.mm.mmap vmaid vma } }

-- `inc_vma_limit`; `true` for 0
unfoldable pub inc_vma_limit : Proc → ℕ → ℕ → Result (Bool × Proc)
inc_vma_limit p vmaid inc_sz = must (get_vma_by_num p.mm vmaid) >>= λ vma.
    if not
      (validate_overlap_vm_area p.mm vmaid (to_int vma.sbrk) (to_int (add_ulong vma.sbrk inc_sz)))
    then ok (false, p)
    else vm_map_ram
        (set_vma p vmaid
          (record vma { vm_end = add_ulong vma.vm_end inc_sz; sbrk = add_ulong vma.sbrk inc_sz }))
        (to_int vma.vm_end) (pages inc_sz)

-- `__alloc` with a region of the free list; the address is `none` for -1. When the pages cannot be
-- mapped, the address of the local `rgnode` goes onto the free list.
unfoldable pub alloc_reuse : Proc → ℕ → Region → Result (Option ℕ × Proc)
alloc_reuse p rgid r = set_symrg p rgid r >>= λ q.
    vm_map_ram q (to_int r.rg_start) (pages (r.rg_end - r.rg_start)) >>= λ (mapped, q').
    if mapped
    then ok (some (to_int r.rg_start), q')
    else (enlist_vm_freerg_list q' r (λ old. wild) >>= λ (status, q'').
        set_symrg q'' rgid (region 0 0) >>= λ out. ok (none, out))

-- `__alloc` past the end of the area
unfoldable pub alloc_grow : Proc → ℕ → ℕ → ℕ → Result (Option ℕ × Proc)
alloc_grow p vmaid rgid size = must (get_vma_by_num p.mm vmaid) >>= λ vma.
    let old_sbrk = to_int vma.sbrk in
    inc_vma_limit p vmaid (page_alignsz size) >>= λ (grown, q).
    if not grown
    then ok (none, q)
    else (set_symrg q rgid (region old_sbrk (old_sbrk + size)) >>= λ q'.
        must (get_vma_by_num q'.mm vmaid) >>= λ remain.
        let rest = region (old_sbrk + page_alignsz size) remain.sbrk in
        if ltb rest.rg_start remain.sbrk
        then (enlist_vm_freerg_list q' rest (node rest) >>= λ (status, q'').
            ok (some old_sbrk, q''))
        else ok (some old_sbrk, q'))

-- `__alloc`. A size whose rounding overflows an `int` is undefined; a negative one is left out.
unfoldable pub alloc : Proc → ℕ → ℕ → ℕ → Result (Option ℕ × Proc)
alloc p vmaid rgid size =
    if leb (2 ^ 31) (size + (paging_pagesz - 1))
    then fault
    else (must (get_vma_by_num p.mm vmaid) >>= λ vma.
        get_free_vmrg_area vma (page_alignsz size) >>= λ (found, vma').
        let q = set_vma p vmaid vma' in
        elim found [ some r ↦ alloc_reuse q rgid r | none ↦ alloc_grow q vmaid rgid size ])

pub pgalloc : Proc → ℕ → ℕ → Result (Option ℕ × Proc)
pgalloc p size reg_index = alloc p 0 reg_index size

-- The loop of `__free` with the rounds left, from page `pgn` on; `false` for the early return -1.
unfoldable pub free_pages : ℕ → ℕ → Proc → Result (Bool × Proc)
free_pages zero pgn p = ok (true, p)
free_pages (suc n) pgn p = pg_getpage p pgn >>= λ (frame, q). elim frame [
  | none ↦ ok (false, q)
  | some fpn ↦ must (get_elem? q.mm.pgd pgn) >>= λ pte. free_pages n (pgn + 1) (record q {
    mram = put_freefp q.mram fpn;
    mm = clear_pgn_node (set_pgd q.mm pgn (pte_clear_present pte)) pgn;
  })
]

-- `__free`; `true` for 0
unfoldable pub free : Proc → ℕ → Result (Bool × Proc)
free p rgid = elim (get_symrg_byid rgid) [
  | none ↦ ok (false, p)
  | some i ↦ symrg p.mm i >>= λ r.
      if r.rg_end == 0
      then ok (false, p)
      else (free_pages (pages (r.rg_end - r.rg_start)) (paging_pgn r.rg_start) p >>= λ (freed, q).
          if not freed
          then ok (false, q)
          else (set_symrg q i (region 0 0) >>= λ q'.
              enlist_vm_freerg_list q' r (node r) >>= λ (status, out). ok (true, out)))
]

-- `__read`: the status is `true` for 0, and the byte is `none` where it is not written. A region
-- number past the table is read through NULL before it is compared with NULL.
unfoldable pub read : Proc → ℕ → ℕ → ℕ → Result (Bool × Option ℕ × Proc)
read p vmaid rgid offset = must (get_symrg_byid rgid) >>= λ i. symrg p.mm i >>= λ r.
    elim (get_vma_by_num p.mm vmaid) [
      | none ↦ ok (false, none, p)
      | some vma ↦
          let addr = to_int (add_ulong r.rg_start offset) in
          if leb r.rg_end r.rg_start
          then ok (false, none, p)
          else if ltb r.rg_end (to_ulong addr)
          then ok (false, none, p)
          else (pg_getval p addr >>= λ (status, v, q). ok (true, v, q))
    ]

-- `__write`; `true` for 0
unfoldable pub write : Proc → ℕ → ℕ → ℕ → ℕ → Result (Bool × Proc)
write p vmaid rgid offset value = elim (get_symrg_byid rgid) [
  | none ↦ ok (false, p)
  | some i ↦ elim (get_vma_by_num p.mm vmaid) [
    | none ↦ ok (false, p)
    | some vma ↦ symrg p.mm i >>= λ r.
        let addr = to_int (add_ulong r.rg_start offset) in
        if ltb r.rg_end (to_ulong addr)
        then ok (false, p)
        else (pg_setval p addr value >>= λ (status, q). ok (true, q))
  ]
]
