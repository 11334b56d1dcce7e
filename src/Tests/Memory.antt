-- ===== src/Tests/Memory.antt =====
-- The theorems on the memory of a process at a process with a few pages: page 0 is in RAM at frame 0,
-- page 1 is in swap, page 2 is absent.
use os_assignment_hk.Common.{
  ℕ, zero, suc, ◌+◌, ◌<◌, ◌≡◌, ◌≢◌, ◌⊎◌, refl, ap, arith, true, false, Option, none, some, List, [],
  ◌∷◌, get_elem?, replicate, ok,
}
use os_assignment_hk.Pte.{paging_pgn, paging_offst, pte_set_fpn, pte_set_swap, pte_clear_present}
use os_assignment_hk.Pte.Laws.{pte_clear_present_value}
use os_assignment_hk.Pte.RoundTrip.{pte_set_fpn_reads, pte_set_swap_reads, paging_pgn-offst}
use os_assignment_hk.Memphy.{Memphy}
use os_assignment_hk.Memphy.Frames.{of_frames}
use os_assignment_hk.Vm.{Region, region, RgList, null, node, Vma, Mm, Proc}
use os_assignment_hk.Vm.FreeList.{get_free_vmrg_area}
use os_assignment_hk.Vm.Fit.{IsTame, IsDrained, Covers, get_free_vmrg_area_lem}
use os_assignment_hk.Vm.Bytes.{Resident, pg_getpage_full}
use os_assignment_hk.Vm.Page.{pg_getpage, pg_getval, pg_setval, alloc_pages_range}
use os_assignment_hk.Vm.Map.{IsTable}
use os_assignment_hk.Vm.Shortage.{alloc_pages_range_fails}
use os_assignment_hk.Vm.Ops.{read, write, free}
use os_assignment_hk.Vm.ReadWrite.{InRegion, read-write}
use os_assignment_hk.Vm.Release.{Loaded, Unmapped, free_lem}

abbrev ram : ℕ → List ℕ → Memphy
ram byte frames = record {
  storage = replicate 512 byte;
  maxsz = 512;
  rdmflg = true;
  cursor = 0;
  free_fp_list = of_frames frames;
}

abbrev area : Vma
area = record { vm_start = 0; vm_end = 768; sbrk = 768; vm_freerg_list = node (region 0 600) null }

abbrev online_pte : ℕ
online_pte = pte_set_fpn 0 0

abbrev swapped_pte : ℕ
swapped_pte = pte_set_swap 0 0 7

abbrev absent_pte : ℕ
absent_pte = pte_clear_present 0

abbrev memory : List ℕ → Mm
memory fifo = record {
  pgd = online_pte ∷ swapped_pte ∷ absent_pte ∷ [];
  mmap = area ∷ [];
  symrgtbl = region 0 20 ∷ region 512 600 ∷ [];
  fifo_pgn = fifo;
}

-- the process with a list of free frames and a FIFO list
abbrev process : List ℕ → List ℕ → Proc
process frames fifo = record {
  pid = 1;
  mm = memory fifo;
  mram = ram 0 frames;
  mswp = [];
  tlb = [];
  active_mswp = 0;
}

page_zero : (x : ℕ) → x < 256 → (paging_pgn x ≡ 0) × (paging_offst x ≡ x)
page_zero x h = let r = paging_pgn-offst x (omega arith) in omega arith

process-Resident : (frames fifo : List ℕ) (x : ℕ) → x < 256 → Resident (process frames fifo) x x
process-Resident frames fifo x h =
    let (page, offset) = page_zero x h in
    let (word, present, online, frame, kept) = pte_set_fpn_reads 0 0 (omega arith) in
    record {
      pte = online_pte;
      entry = ap (get_elem? (memory fifo).pgd) page;
      present = present;
      online = online;
      random = refl;
      place = omega (arith, frame, offset);
      inside = omega arith;
    }

get_free_vmrg_area_lem_example :
    (found : Option Region) × (l : RgList) × (get_free_vmrg_area area 256
      ≡ ok (found, record area { vm_freerg_list = l }))
    × IsTame l
    × IsDrained 256 l
    × (((found ≡ none) × IsDrained 256 (node (region 0 600) null))
        ⊎ ((s : ℕ) × (found ≡ some (region s (s + 256)))
            × Covers (node (region 0 600) null) s (s + 256)))
get_free_vmrg_area_lem_example =
    get_free_vmrg_area_lem area 256 (omega arith) (omega arith) (omega arith, omega arith, tt)

-- Page 1 is in swap.
page_one : paging_pgn 256 ≡ 1
page_one = omega (arith, paging_pgn-offst 256 (omega arith))

-- a swap device with a free frame
abbrev can_swap : Proc
can_swap = record (process [] (2 ∷ 0 ∷ [])) { mswp = ram 0 (1 ∷ []) ∷ [] }

pg_getpage_full_example :
    let q = record (process [] (2 ∷ [])) { mswp = ram 0 (1 ∷ []) ∷ [] } in
    (pg_getpage can_swap (paging_pgn 256) ≡ ok (none, q))
    × (pg_getval can_swap 256 ≡ ok (false, none, q))
    × (pg_setval can_swap 256 5 ≡ ok (false, q))
pg_getpage_full_example =
    pg_getpage_full can_swap 256 5 swapped_pte 0 online_pte (2 ∷ [])
      (ap (get_elem? can_swap.mm.pgd) page_one) ((pte_set_swap_reads 0 0 7 (omega arith)).1)
      ((pte_set_swap_reads 0 0 7 (omega arith)).2) (omega arith) refl refl refl

memory-IsTable : (fifo : List ℕ) → IsTable (memory fifo).pgd
memory-IsTable fifo zero h = (pte_set_fpn_reads 0 0 (omega arith)).0
memory-IsTable fifo (suc zero) h = (pte_set_swap_reads 0 0 7 (omega arith)).0
memory-IsTable fifo (suc (suc zero)) h = omega (arith, pte_clear_present_value 0)
memory-IsTable fifo (suc (suc (suc j))) h = absurd (omega arith)

alloc_pages_range_fails_example :
    alloc_pages_range 3 [] (process (4 ∷ 5 ∷ []) []) ≡ ok (none, process (4 ∷ 5 ∷ []) [])
alloc_pages_range_fails_example =
    alloc_pages_range_fails (process (4 ∷ 5 ∷ []) []) (4 ∷ 5 ∷ []) 3 (omega arith) refl refl
      (omega arith)

-- a place in the region of symbol 0
process-InRegion : (offset : ℕ) → offset < 20 → InRegion (process [] []) 0 0 offset (region 0 20)
process-InRegion offset h = record {
  vma = area;
  area = refl;
  symbol = refl;
  in_table = omega arith;
  low = omega arith;
  fits = omega arith;
  in_use = omega arith;
}

read-write_example :
    (q : Proc) × (write (process [] []) 0 0 5 77 ≡ ok (true, q))
    × (read q 0 0 5 ≡ ok (true, some 77, q))
    × ((rgid' offset' phys' : ℕ) (r' : Region)
        → InRegion (process [] []) 0 rgid' offset' r'
        → Resident (process [] []) (r'.rg_start + offset') phys'
        → 5 ≢ phys'
        → (byte : ℕ) × (read (process [] []) 0 rgid' offset' ≡ ok (true, some byte, process [] []))
          × (read q 0 rgid' offset' ≡ ok (true, some byte, q)))
read-write_example =
    read-write (process [] []) 0 0 5 77 5 (region 0 20) (process-InRegion 5 (omega arith))
      (process-Resident [] [] 5 (omega arith))

-- symbol 1 lies in page 2
absent-InRegion : InRegion (process [] []) 0 1 3 (region 512 600)
absent-InRegion = record {
  vma = area;
  area = refl;
  symbol = refl;
  in_table = omega arith;
  low = omega arith;
  fits = omega arith;
  in_use = omega arith;
}

page_two : paging_pgn 515 ≡ 2
page_two = let r = paging_pgn-offst 515 (omega arith) in omega arith

memory-Loaded : (pgn : ℕ) → pgn ≡ 0 → Loaded (memory (0 ∷ [])).pgd pgn (0 ∷ [])
memory-Loaded zero h =
    let (word, present, online, frame, kept) = pte_set_fpn_reads 0 0 (omega arith) in
    record {
      inside = omega arith;
      word = elim [ zero ↦ λ h. word | suc i ↦ λ h. absurd (omega arith) ];
      present = elim [ zero ↦ λ h. present | suc i ↦ λ h. absurd (omega arith) ];
      online = elim [ zero ↦ λ h. online | suc i ↦ λ h. absurd (omega arith) ];
      frame = elim [ zero ↦ λ h. frame | suc i ↦ λ h. absurd (omega arith) ];
    }
memory-Loaded (suc pgn) h = absurd (omega arith)

free_lem_example :
    (q : Proc) × (free (process (4 ∷ []) (0 ∷ [])) 0 ≡ ok (true, q))
    × Unmapped (memory (0 ∷ [])).pgd q.mm.pgd (paging_pgn 0) 1
    × (q.mram.free_fp_list ≡ of_frames (0 ∷ 4 ∷ []))
    × (get_elem? q.mm.symrgtbl 0 ≡ some (region 0 0))
    × (get_elem? q.mm.mmap 0
        ≡ some (record area { vm_freerg_list = node (region 0 20) area.vm_freerg_list }))
    × (q.tlb ≡ (process (4 ∷ []) (0 ∷ [])).tlb)
    × (q.pid ≡ (process (4 ∷ []) (0 ∷ [])).pid)
free_lem_example =
    free_lem (process (4 ∷ []) (0 ∷ [])) 0 (region 0 20) area (0 ∷ []) (4 ∷ []) (omega arith) refl
      (omega arith) refl refl (memory-Loaded (paging_pgn 0) (page_zero 0 (omega arith)).0) refl
