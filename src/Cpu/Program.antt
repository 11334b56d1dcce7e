-- ===== src/Cpu/Program.antt =====
-- An allocation and a write as instructions: the memory that a process asked for is there for it.
use mathlib.Core.Path.{subst}
use os_assignment_hk.Common.{
  ℕ, ◌+◌, ◌*◌, ◌%◌, ◌^◌, ◌<◌, ◌≤◌, ◌≡◌, refl, sym, ◌∙◌, ap, arith, true, false, none, some, List,
  [], ◌∷◌, ◌++◌, length, get_elem?, get_or, get_elem?-eq-get_or, get_elem?-some_lt, Option-cases,
  ok, inl, inr,
}
use mathlib.Core.Option.{some-injective}
use os_assignment_hk.Pte.{paging_pgn, pte_fpn}
use os_assignment_hk.Memphy.Frames.{of_frames}
use os_assignment_hk.Tlb.{tlb_cache_read}
use os_assignment_hk.Tlb.Laws.{IsValid}
use os_assignment_hk.Vm.{RgList, null, node, wild, region, Vma, Proc}
use os_assignment_hk.Vm.Fit.{IsDrained, Covers}
use os_assignment_hk.Vm.Bytes.{Resident}
use os_assignment_hk.Vm.Map.{IsTable}
use os_assignment_hk.Vm.Page.{pg_getval}
use os_assignment_hk.Vm.Ops.{pages}
use os_assignment_hk.Vm.Place.{Allocated, pgn_bound}
use os_assignment_hk.Vm.Alloc.{IsWithin}
use os_assignment_hk.Vm.Use.{InStorage, Allocated-InRegion, Allocated-Resident}
use os_assignment_hk.CpuTlb.{tlballoc}
use os_assignment_hk.CpuTlb.Coherent.{IsCoherent}
use os_assignment_hk.CpuTlb.Agree.{Agrees}
use os_assignment_hk.CpuTlb.Alloc.{tlballoc_lem, with_tlb-Allocated}
use os_assignment_hk.Cpu.{alloc, write, Pcb, Machine, enter, execute, run}
use os_assignment_hk.Cpu.Run.{Stepped, run_write}

-- A list with no room for a size has no region of that size.
not_covered : (size s : ℕ) (l : RgList) → IsDrained size l → Covers l s (s + size) → ⊥
not_covered size s null d c = c
not_covered size s wild d c = d
not_covered size s (node r next) (a, d) (inl (x, y)) = absurd (omega arith)
not_covered size s (node r next) (a, d) (inr c) = not_covered size s next d c

-- A TLB that agrees with the page table does so at an address in RAM.
Agrees-IsCoherent :
    (p : Proc) (addr phys : ℕ) (d : Resident p addr phys)
    → Agrees p.tlb p.pid p.mm.pgd 0 0
    → IsTable p.mm.pgd
    → 0 < length p.tlb
    → p.pid < 2 ^ 32
    → IsCoherent p addr d.pte
Agrees-IsCoherent p addr phys d agree t some_entry owner =
    let pg = paging_pgn addr in
    let inside = get_elem?-some_lt p.mm.pgd pg d.entry in
    let same : get_or p.mm.pgd pg 0 ≡ d.pte =
      some-injective (get_or p.mm.pgd pg 0) d.pte
        (sym (get_elem?-eq-get_or p.mm.pgd pg 0 inside) ∙ d.entry) in
    record {
      cached = elim (Option-cases (tlb_cache_read p.tlb p.pid pg)) [
        | inl miss ↦ inl miss
        | inr (f, hit) ↦
            inr (hit ∙ ap some (sym (agree pg f (inr (omega arith)) hit).1 ∙ ap pte_fpn same))
      ];
      word = subst (λ x. x < 2 ^ 32) same (t pg inside);
      some_entry = some_entry;
    }

-- An allocation instruction is a `tlballoc`.
run_of_alloc :
    (cpu : ℕ) (rand : ℕ → ℕ) (m : Machine) (p : Pcb) (size rgid unused : ℕ) (t : Proc)
    → m.owner ≡ none
    → get_elem? p.code p.pc
      ≡ some (record { opcode = alloc; arg_0 = size; arg_1 = rgid; arg_2 = unused })
    → tlballoc (record { locked = false; proc = (enter cpu m p).proc }) rand size rgid
      ≡ ok (true, record { locked = false; proc = t })
    → run cpu rand m p
      ≡ ok (
        true,
        record { mram = t.mram; mswp = t.mswp; tlb = t.tlb; owner = none },
        record p { pc = p.pc + 1; mm = t.mm; active_mswp = t.active_mswp },
      )
unfolding run execute
run_of_alloc cpu rand m p size rgid unused t unlocked code called = ground arith

-- For a CPU with `tlb_lock` free and a process below 2^32 at two instructions, of which the first asks
-- for memory and the second writes a byte at an offset below that size: with the conditions under which
-- `tlballoc` succeeds, no free region with room, a limit that leaves the offset in the pages that are
-- mapped, a random-access RAM and frames that lie in it, both runs succeed, go on to the next
-- instruction and leave the lock free, and the byte, cut to 8 bits, is what the page table gives at that
-- offset behind the old limit.
pub run_alloc-write :
    (cpu : ℕ) (rand rand' : ℕ → ℕ) (m : Machine) (p : Pcb) (vma : Vma)
    (size rgid unused value offset : ℕ) (taken rest : List ℕ)
    → m.owner ≡ none
    → get_elem? p.code p.pc
      ≡ some (record { opcode = alloc; arg_0 = size; arg_1 = rgid; arg_2 = unused })
    → get_elem? p.code (p.pc + 1)
      ≡ some (record { opcode = write; arg_0 = value; arg_1 = rgid; arg_2 = offset })
    → p.mm.mmap ≡ vma ∷ []
    → vma.vm_end ≡ vma.sbrk
    → IsWithin vma.sbrk vma.vm_freerg_list
    → IsDrained (256 * length taken) vma.vm_freerg_list
    → rgid < length p.mm.symrgtbl
    → rgid < 30
    → length taken ≡ pages size
    → 0 < m.mram.maxsz
    → m.mram.free_fp_list ≡ of_frames (taken ++ rest)
    → m.mram.rdmflg ≡ true
    → InStorage (length m.mram.storage) taken
    → IsTable p.mm.pgd
    → length p.mm.pgd ≤ 2 ^ 14
    → vma.sbrk + 256 * length taken ≤ 256 * length p.mm.pgd
    → IsValid m.tlb
    → 0 < length m.tlb
    → p.pid < 2 ^ 32
    → Agrees m.tlb p.pid p.mm.pgd 0 0
    → offset < size
    → vma.sbrk % 256 + offset < 256 * length taken
    → (m' m'' : Machine) × (q q' : Pcb) × (run cpu rand m p ≡ ok (true, m', q))
      × Stepped p q
      × (run cpu rand' m' q ≡ ok (true, m'', q'))
      × Stepped q q'
      × (m''.owner ≡ none)
      × (pg_getval (enter cpu m'' q').proc (vma.sbrk + offset)
          ≡ ok (true, some (value % 2 ^ 8), (enter cpu m'' q').proc))
run_alloc-write cpu rand rand' m p vma size rgid unused value offset taken rest unlocked code code'
      one level within no_room sym_in in_table full pos e flag stored t small bound valid some_entry
      owner agree inside mapped =
    let (addr, t', called, a, valid', same_pid, agree', size', place) =
      tlballoc_lem (enter cpu m p).proc vma rgid size taken rest rand one level within sym_in
        in_table (omega arith) full pos e t small bound valid some_entry owner agree in
    let at_limit : addr ≡ vma.sbrk = elim place [
      | inl (x, y) ↦ x
      | inr c ↦ absurd (not_covered (256 * length taken) addr vma.vm_freerg_list no_room c)
    ] in
    let before = (enter cpu m p).proc in
    let after : Proc = record t' { tlb = t'.tlb; pid = p.pid } in
    let a' : Allocated before after rgid size vma.sbrk taken rest =
      subst (λ x. Allocated before after rgid size x taken rest) at_limit
        (with_tlb-Allocated before t' t'.tlb p.pid rgid size addr taken rest a) in
    let m' : Machine = record { mram = t'.mram; mswp = t'.mswp; tlb = t'.tlb; owner = none } in
    let q : Pcb = record p { pc = p.pc + 1; mm = t'.mm; active_mswp = t'.active_mswp } in
    let (phys, here) =
      Allocated-Resident before after rgid size vma.sbrk offset taken rest a' small flag stored
        (omega arith) mapped (pgn_bound vma.sbrk (length taken) (length p.mm.pgd) bound small) in
    let coherent =
      Agrees-IsCoherent after (vma.sbrk + offset) phys here
        (subst (λ i. Agrees t'.tlb i t'.mm.pgd 0 0) same_pid agree') a'.mapped.table (omega arith)
        owner in
    let (m'', q', wrote, stepped, free_lock, byte) =
      run_write cpu rand' m' q value rgid offset phys (region vma.sbrk (vma.sbrk + a'.extent)) refl
        code'
        (Allocated-InRegion before after rgid size vma.sbrk offset taken rest a' sym_in in_table
          small inside)
        here coherent in
    (
      m',
      m'',
      q,
      q',
      run_of_alloc cpu rand m p size rgid unused t' unlocked code called,
      record { pid = refl; prio = refl; code = refl; pc = refl },
      wrote,
      stepped,
      free_lock,
      byte,
    )
