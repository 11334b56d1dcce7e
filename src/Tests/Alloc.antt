-- ===== src/Tests/Alloc.antt =====
-- The theorems on `__alloc` at a new process that asks for 300 bytes, with three free frames.
use os_assignment_hk.Common.{
  ℕ, zero, suc, ◌+◌, ◌≡◌, ◌⊎◌, inl, inr, refl, arith, true, false, none, some, [], ◌∷◌, length,
  replicate, ok,
}
use os_assignment_hk.Memphy.Frames.{of_frames}
use os_assignment_hk.Vm.{region, null, node, Vma, Proc}
use os_assignment_hk.Vm.Fit.{IsDrained, Covers}
use os_assignment_hk.Vm.Map.{IsTable}
use os_assignment_hk.Vm.Ops.{alloc, read, write}
use os_assignment_hk.Vm.Place.{Allocated}
use os_assignment_hk.Vm.Alloc.{alloc_lem}
use os_assignment_hk.Tlb.{tlb_cache_read}
use os_assignment_hk.Tlb.Entry.{hits_zero}
use os_assignment_hk.Tlb.Stale.{read-none}
use os_assignment_hk.Tlb.Laws.{IsValid}
use os_assignment_hk.CpuTlb.{tlballoc}
use os_assignment_hk.CpuTlb.Agree.{Agrees}
use os_assignment_hk.CpuTlb.Alloc.{tlballoc_lem}
use os_assignment_hk.Cpu.{alloc as alloc_code, write as write_code, Pcb, Machine, enter, run}
use os_assignment_hk.Cpu.Run.{Stepped}
use os_assignment_hk.Cpu.Program.{run_alloc-write}
use os_assignment_hk.Vm.Page.{pg_getval}
use os_assignment_hk.Tests.{empty_tlb, empty_tlb_entry, empty_tlb-IsValid}
use os_assignment_hk.Vm.Use.{alloc-write-read}

abbrev area : Vma
area = record { vm_start = 0; vm_end = 0; sbrk = 0; vm_freerg_list = node (region 0 0) null }

abbrev new_process : Proc
new_process = record {
  pid = 3;
  mm = record {
    pgd = 0 ∷ 0 ∷ 0 ∷ 0 ∷ [];
    mmap = area ∷ [];
    symrgtbl = region 0 0 ∷ region 0 0 ∷ [];
    fifo_pgn = [];
  };
  mram = record {
    storage = replicate 768 0;
    maxsz = 768;
    rdmflg = true;
    cursor = 0;
    free_fp_list = of_frames (0 ∷ 1 ∷ 2 ∷ []);
  };
  mswp = [];
  tlb = 0 ∷ 0 ∷ [];
  active_mswp = 0;
}

table : IsTable new_process.mm.pgd
table zero h = omega arith
table (suc zero) h = omega arith
table (suc (suc zero)) h = omega arith
table (suc (suc (suc zero))) h = omega arith
table (suc (suc (suc (suc j)))) h = absurd (omega arith)

alloc_lem_example :
    (addr : ℕ) × (q : Proc) × (alloc new_process 0 1 300 ≡ ok (some addr, q))
    × Allocated new_process q 1 300 addr (0 ∷ 1 ∷ []) (2 ∷ [])
    × (q.tlb ≡ new_process.tlb)
    × (q.pid ≡ 3)
    × (((addr ≡ 0) × IsDrained 512 area.vm_freerg_list)
        ⊎ Covers area.vm_freerg_list addr (addr + 512))
alloc_lem_example =
    alloc_lem new_process area 1 300 (0 ∷ 1 ∷ []) (2 ∷ []) refl refl (omega arith, omega arith, tt)
      (omega arith) (omega arith) (omega arith) (omega arith) refl table (omega arith) (omega arith)

gave :
    (addr : ℕ) × (q : Proc) × (alloc new_process 0 1 300 ≡ ok (some addr, q))
    × ((addr ≡ 0) ⊎ Covers area.vm_freerg_list addr (addr + 512))
gave =
    let (addr, q, returns, a, same_tlb, same_pid, place) =
      alloc_lem new_process area 1 300 (0 ∷ 1 ∷ []) (2 ∷ []) refl refl
        (omega arith, omega arith, tt) (omega arith) (omega arith) (omega arith) (omega arith) refl
        table (omega arith) (omega arith) in
    (addr, q, returns, elim place [ inl x ↦ inl x.0 | inr x ↦ inr x ])

at_zero : (addr : ℕ) → (addr ≡ 0) ⊎ Covers area.vm_freerg_list addr (addr + 512) → addr ≡ 0
at_zero addr (inl e) = e
at_zero addr (inr (inl (a, b))) = omega arith
at_zero addr (inr (inr c)) = absurd (c)

alloc-write-read_example :
    (q' : Proc) × (write gave.1 0 1 299 77 ≡ ok (true, q'))
    × (read q' 0 1 299 ≡ ok (true, some 77, q'))
alloc-write-read_example =
    alloc-write-read new_process gave.1 area 1 300 gave.0 299 77 (0 ∷ 1 ∷ []) (2 ∷ []) refl refl
      (omega arith, omega arith, tt) (omega arith) (omega arith) (omega arith) (omega arith) refl
      refl (omega arith, (omega arith, tt)) table (omega arith) (omega arith) gave.2 (omega arith)
      (omega (arith, at_zero gave.0 gave.3))

-- a TLB of two entries that were never written has no frame
new_process-Agrees : Agrees new_process.tlb 3 new_process.mm.pgd 0 0
new_process-Agrees pg f out h =
    let miss : tlb_cache_read empty_tlb 3 pg ≡ none =
      read-none empty_tlb 3 pg
        (λ j lt. let e = empty_tlb_entry j lt in let n = hits_zero 3 pg in cc) in
    absurd (cc)

tlballoc_lem_example :
    (addr : ℕ) × (q : Proc) × (tlballoc
        (record { locked = false; proc = new_process })
        (λ i. i)
        300
        1
      ≡ ok (true, record { locked = false; proc = q }))
    × Allocated new_process q 1 300 addr (0 ∷ 1 ∷ []) (2 ∷ [])
    × IsValid q.tlb
    × (q.pid ≡ 3)
    × Agrees q.tlb q.pid q.mm.pgd 0 0
    × (length q.tlb ≡ 2)
    × (((addr ≡ 0) × IsDrained 512 area.vm_freerg_list)
        ⊎ Covers area.vm_freerg_list addr (addr + 512))
tlballoc_lem_example =
    tlballoc_lem new_process area 1 300 (0 ∷ 1 ∷ []) (2 ∷ []) (λ i. i) refl refl
      (omega arith, omega arith, tt) (omega arith) (omega arith) (omega arith) (omega arith)
      (omega arith) refl table (omega arith) (omega arith) empty_tlb-IsValid (omega arith)
      (omega arith) new_process-Agrees

-- the process with a program that asks for 300 bytes and writes to the last one
abbrev asking : Pcb
asking = record {
  pid = 3;
  priority = 0;
  code =
      record { opcode = alloc_code; arg_0 = 300; arg_1 = 1; arg_2 = 0 }
      ∷ record { opcode = write_code; arg_0 = 333; arg_1 = 1; arg_2 = 299 }
      ∷ [];
  regs = [];
  pc = 0;
  prio = 2;
  mm = new_process.mm;
  active_mswp = 0;
  bp = 1024;
}

abbrev machine : Machine
machine = record { mram = new_process.mram; mswp = []; tlb = new_process.tlb; owner = none }

run_alloc-write_example :
    (m' m'' : Machine) × (q q' : Pcb) × (run 0 (λ i. i) machine asking ≡ ok (true, m', q))
    × Stepped asking q
    × (run 0 (λ i. 7) m' q ≡ ok (true, m'', q'))
    × Stepped q q'
    × (m''.owner ≡ none)
    × (pg_getval (enter 0 m'' q').proc 299 ≡ ok (true, some 77, (enter 0 m'' q').proc))
run_alloc-write_example =
    run_alloc-write 0 (λ i. i) (λ i. 7) machine asking area 300 1 0 333 299 (0 ∷ 1 ∷ []) (2 ∷ [])
      refl refl refl refl refl (omega arith, omega arith, tt) (omega arith, tt) (omega arith)
      (omega arith) (omega arith) (omega arith) refl refl (omega arith, (omega arith, tt)) table
      (omega arith) (omega arith) empty_tlb-IsValid (omega arith) (omega arith) new_process-Agrees
      (omega arith) (omega arith)
