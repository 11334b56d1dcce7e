-- ===== src/Tests/Apart.antt =====
-- The theorems on two processes over one RAM of four frames: one has page 0 at frame 0, the other at
-- frame 3, and the frames 1 and 2 are free.
use os_assignment_hk.Common.{
  ℕ, zero, suc, ◌%◌, ◌^◌, ◌<◌, ◌≡◌, refl, arith, ap, true, some, [], ◌∷◌, get_elem?, replicate, ok,
}
use os_assignment_hk.Pte.{paging_pgn, paging_offst, pte_set_fpn}
use os_assignment_hk.Pte.Laws.{page_present_lem}
use os_assignment_hk.Pte.RoundTrip.{pte_set_fpn_reads, paging_pgn-offst}
use os_assignment_hk.Memphy.Frames.{of_frames}
use os_assignment_hk.Vm.{region, null, Vma, Proc}
use os_assignment_hk.Vm.Map.{IsTable}
use os_assignment_hk.Vm.Bytes.{Resident}
use os_assignment_hk.Vm.Page.{pg_getval}
use os_assignment_hk.Vm.ReadWrite.{InRegion}
use os_assignment_hk.Vm.Ops.{alloc, write}
use os_assignment_hk.CpuTlb.Owners.{Owns, IsApart, Spares}
use os_assignment_hk.CpuTlb.Apart.{over, alloc_disjoint, write_apart}

abbrev area : Vma
area = record { vm_start = 0; vm_end = 256; sbrk = 256; vm_freerg_list = null }

-- a process whose page 0 is at a frame
abbrev at_frame : ℕ → Proc
at_frame fpn = record {
  pid = fpn;
  mm = record {
    pgd = pte_set_fpn 0 fpn ∷ 0 ∷ 0 ∷ [];
    mmap = area ∷ [];
    symrgtbl = region 0 20 ∷ region 0 0 ∷ [];
    fifo_pgn = 0 ∷ [];
  };
  mram = record {
    storage = replicate 1024 6;
    maxsz = 1024;
    rdmflg = true;
    cursor = 0;
    free_fp_list = of_frames (1 ∷ 2 ∷ []);
  };
  mswp = [];
  tlb = [];
  active_mswp = 0;
}

only_frame : (fpn f : ℕ) → Owns (at_frame fpn).mm.pgd f → f ≡ fpn % 2 ^ 13
only_frame fpn f (zero, (here, frame)) =
    let reads = pte_set_fpn_reads 0 fpn (omega arith) in omega (arith, frame, reads.3)
only_frame fpn f (suc zero, ((inside, present, online), frame)) =
    let off = page_present_lem 0 (omega arith) in absurd (ground arith)
only_frame fpn f (suc (suc zero), ((inside, present, online), frame)) =
    let off = page_present_lem 0 (omega arith) in absurd (ground arith)
only_frame fpn f (suc (suc (suc j)), ((inside, present, online), frame)) = absurd (omega arith)

apart : IsApart (at_frame 0).mm.pgd (at_frame 3).mm.pgd
apart f mine theirs = absurd (omega (arith, only_frame 0 f mine, only_frame 3 f theirs))

spares : Spares (at_frame 3).mm.pgd (1 ∷ 2 ∷ [])
spares = (
  λ o. absurd (omega (arith, only_frame 3 1 o)),
  omega arith,
  (λ o. absurd (omega (arith, only_frame 3 2 o)), omega arith, tt),
)

table : IsTable (at_frame 0).mm.pgd
table zero h = (pte_set_fpn_reads 0 0 (omega arith)).0
table (suc zero) h = omega arith
table (suc (suc zero)) h = omega arith
table (suc (suc (suc j))) h = absurd (omega arith)

alloc_disjoint_example :
    (addr : ℕ) × (q : Proc) × (alloc (at_frame 0) 0 1 300 ≡ ok (some addr, q))
    × IsApart q.mm.pgd (at_frame 3).mm.pgd
    × (q.mram.free_fp_list ≡ of_frames [])
    × Spares (at_frame 3).mm.pgd []
    × ((addr' phys' : ℕ)
        → Resident (over (at_frame 3) (at_frame 0)) addr' phys'
        → (byte : ℕ) × (pg_getval (over (at_frame 3) (at_frame 0)) addr'
            ≡ ok (true, some byte, over (at_frame 3) (at_frame 0)))
          × (pg_getval (over (at_frame 3) q) addr' ≡ ok (true, some byte, over (at_frame 3) q)))
alloc_disjoint_example =
    alloc_disjoint (at_frame 0) (at_frame 3) area 1 300 (1 ∷ 2 ∷ []) [] refl refl tt (omega arith)
      (omega arith) (omega arith) (omega arith) refl table (omega arith) (omega arith) apart spares

byte_five : (paging_pgn 5 ≡ 0) × (paging_offst 5 ≡ 5)
byte_five = let r = paging_pgn-offst 5 (omega arith) in (omega arith, omega arith)

stands : Resident (at_frame 0) 5 5
stands =
    let (page, offset) = byte_five in
    let (word, present, online, frame, kept) = pte_set_fpn_reads 0 0 (omega arith) in
    record {
      pte = pte_set_fpn 0 0;
      entry = ap (get_elem? (at_frame 0).mm.pgd) page;
      present = present;
      online = online;
      random = refl;
      place = omega (arith, frame, offset);
      inside = omega arith;
    }

fits : InRegion (at_frame 0) 0 0 5 (region 0 20)
fits = record {
  vma = area;
  area = refl;
  symbol = refl;
  in_table = omega arith;
  low = omega arith;
  fits = omega arith;
  in_use = omega arith;
}

write_apart_example :
    (q : Proc) × (write (at_frame 0) 0 0 5 77 ≡ ok (true, q))
    × (q.mm.pgd ≡ (at_frame 0).mm.pgd)
    × ((addr' phys' : ℕ)
        → addr' < 2 ^ 32
        → Resident (over (at_frame 3) (at_frame 0)) addr' phys'
        → (byte : ℕ) × (pg_getval (over (at_frame 3) (at_frame 0)) addr'
            ≡ ok (true, some byte, over (at_frame 3) (at_frame 0)))
          × (pg_getval (over (at_frame 3) q) addr' ≡ ok (true, some byte, over (at_frame 3) q)))
write_apart_example = write_apart (at_frame 0) (at_frame 3) 0 5 77 5 (region 0 20) apart fits stands
