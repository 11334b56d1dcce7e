-- ===== src/Tests/Cpu.antt =====
-- The theorems on the memory operations of a CPU at a process with one page in RAM.
use os_assignment_hk.Common.{
  ℕ, zero, suc, ◌<◌, ◌≡◌, refl, ap, inl, arith, true, false, none, some, [], ◌∷◌, get_elem?, get_or,
  replicate, ok, timeout,
}
use os_assignment_hk.Pte.{pte_set_fpn, paging_pgn, paging_offst}
use os_assignment_hk.Pte.RoundTrip.{pte_set_fpn_reads, paging_pgn-offst}
use os_assignment_hk.Memphy.{Memphy}
use os_assignment_hk.Memphy
use os_assignment_hk.Tlb.Entry.{hits_zero}
use os_assignment_hk.Tlb.Stale.{read-none}
use os_assignment_hk.Vm.{region, null, Vma, Proc}
use os_assignment_hk.Vm.Page.{pg_getval}
use os_assignment_hk.Vm.Bytes.{Resident}
use os_assignment_hk.Vm.ReadWrite.{InRegion}
use os_assignment_hk.CpuTlb.{Thread, tlbread, tlbwrite, tlbfree_data}
use os_assignment_hk.CpuTlb.Lock.{bad_symbol_locks}
use os_assignment_hk.Cpu.{write, Pcb, Machine, enter, run}
use os_assignment_hk.Cpu.Run.{Stepped, run_write}
use os_assignment_hk.CpuTlb.Agree.{Agrees}
use os_assignment_hk.CpuTlb.Free.{tlbfree_data_lem}
use os_assignment_hk.Memphy.Frames.{of_frames}
use os_assignment_hk.Tlb.Laws.{IsValid}
use os_assignment_hk.Vm.Release.{Loaded, Unmapped}
use os_assignment_hk.Tests.{empty_tlb-IsValid}
use os_assignment_hk.CpuTlb.Coherent.{IsCoherent, tlbread-tlbwrite}

abbrev whole : Vma
whole = record { vm_start = 0; vm_end = 256; sbrk = 256; vm_freerg_list = null }

-- a TLB of two entries that were never written
abbrev process : Proc
process = record {
  pid = 3;
  mm = record {
    pgd = pte_set_fpn 0 0 ∷ [];
    mmap = whole ∷ [];
    symrgtbl = region 0 20 ∷ [];
    fifo_pgn = 0 ∷ [];
  };
  mram = record {
    storage = replicate 256 0;
    maxsz = 256;
    rdmflg = true;
    cursor = 0;
    free_fp_list = Memphy.null;
  };
  mswp = [];
  tlb = 0 ∷ 0 ∷ [];
  active_mswp = 0;
}

abbrev thread : Thread
thread = record { locked = false; proc = process }

bad_symbol_locks_example :
    (t' : Thread) × (tlbwrite thread 0 7 31 0 ≡ ok (false, t'))
    × (tlbfree_data thread 31 ≡ ok (false, t'))
    × ((r' value' rgid' offset' : ℕ)
        → (tlbwrite t' r' value' rgid' offset' ≡ timeout) × (tlbfree_data t' rgid' ≡ timeout))
bad_symbol_locks_example = bad_symbol_locks thread 0 7 31 0 refl (omega arith)

byte_five : (paging_pgn 5 ≡ 0) × (paging_offst 5 ≡ 5)
byte_five = let r = paging_pgn-offst 5 (omega arith) in omega arith

abbrev process-Resident : Resident process 5 5
process-Resident =
    let (page, offset) = byte_five in
    let (word, present, online, frame, kept) = pte_set_fpn_reads 0 0 (omega arith) in
    record {
      pte = pte_set_fpn 0 0;
      entry = ap (get_elem? process.mm.pgd) page;
      present = present;
      online = online;
      random = refl;
      place = omega (arith, frame, offset);
      inside = omega arith;
    }

empty_entry : (i : ℕ) → i < 2 → get_or process.tlb i 0 ≡ 0
empty_entry zero h = refl
empty_entry (suc zero) h = refl
empty_entry (suc (suc i)) h = absurd (omega arith)

process-IsCoherent : IsCoherent process 5 (pte_set_fpn 0 0)
process-IsCoherent = record {
  cached = inl (
      read-none process.tlb 3 (paging_pgn 5)
        (λ j h. let e = empty_entry j h in let miss = hits_zero 3 (paging_pgn 5) in cc));
  word = (pte_set_fpn_reads 0 0 (omega arith)).0;
  some_entry = omega arith;
}

process-InRegion : InRegion process 0 0 5 (region 0 20)
process-InRegion = record {
  vma = whole;
  area = refl;
  symbol = refl;
  in_table = omega arith;
  low = omega arith;
  fits = omega arith;
  in_use = omega arith;
}

tlbread-tlbwrite_example :
    (q : Proc) × (tlbwrite thread 1 77 0 5 ≡ ok (true, record { locked = false; proc = q }))
    × (tlbread (record { locked = false; proc = q }) 1 0 5
        ≡ ok (true, some 77, record { locked = false; proc = q }))
    × (pg_getval q 5 ≡ ok (true, some 77, q))
    × (q.pid ≡ 3)
tlbread-tlbwrite_example =
    tlbread-tlbwrite process 0 5 77 5 1 1 (region 0 20) process-InRegion process-Resident
      process-IsCoherent (omega arith)

-- the process with a program that writes 300 to the offset 5 of its region 0
abbrev storing : Pcb
storing = record {
  pid = 3;
  priority = 0;
  code = record { opcode = write; arg_0 = 300; arg_1 = 0; arg_2 = 5 } ∷ [];
  regs = [];
  pc = 0;
  prio = 2;
  mm = process.mm;
  active_mswp = 0;
  bp = 1024;
}

abbrev devices : Machine
devices = record { mram = process.mram; mswp = []; tlb = process.tlb; owner = none }

run_write_example :
    (m' : Machine) × (q : Pcb) × (run 1 (λ i. i) devices storing ≡ ok (true, m', q))
    × Stepped storing q
    × (m'.owner ≡ none)
    × (pg_getval (enter 1 m' q).proc 5 ≡ ok (true, some 44, (enter 1 m' q).proc))
run_write_example =
    run_write 1 (λ i. i) devices storing 300 0 5 5 (region 0 20) refl refl process-InRegion
      process-Resident process-IsCoherent

process-Loaded : (pgn : ℕ) → pgn ≡ 0 → Loaded process.mm.pgd pgn (0 ∷ [])
process-Loaded zero h =
    let (word, present, online, frame, kept) = pte_set_fpn_reads 0 0 (omega arith) in
    record {
      inside = omega arith;
      word = elim [ zero ↦ λ h. word | suc i ↦ λ h. absurd (omega arith) ];
      present = elim [ zero ↦ λ h. present | suc i ↦ λ h. absurd (omega arith) ];
      online = elim [ zero ↦ λ h. online | suc i ↦ λ h. absurd (omega arith) ];
      frame = elim [ zero ↦ λ h. frame | suc i ↦ λ h. absurd (omega arith) ];
    }
process-Loaded (suc pgn) h = absurd (omega arith)

-- Its TLB has no frame.
process-Agrees : Agrees process.tlb 3 process.mm.pgd 0 0
process-Agrees pg f out h =
    let miss =
      read-none process.tlb 3 pg
        (λ j lt. let e = empty_entry j lt in let n = hits_zero 3 pg in cc) in
    absurd (cc)

tlbfree_data_lem_example :
    (q : Proc) × (tlbfree_data thread 0 ≡ ok (true, record { locked = false; proc = q }))
    × Unmapped process.mm.pgd q.mm.pgd (paging_pgn 0) 1
    × (q.mram.free_fp_list ≡ of_frames (0 ∷ []))
    × IsValid q.tlb
    × Agrees q.tlb q.pid q.mm.pgd 0 0
tlbfree_data_lem_example =
    tlbfree_data_lem process 0 (region 0 20) whole (0 ∷ []) [] (omega arith) refl (omega arith) refl
      refl (process-Loaded (paging_pgn 0) (let r = paging_pgn-offst 0 (omega arith) in omega arith))
      refl empty_tlb-IsValid process-Agrees
