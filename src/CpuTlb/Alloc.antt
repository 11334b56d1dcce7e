-- ===== src/CpuTlb/Alloc.antt =====
-- `tlballoc`: allocation with the frames of the new pages stored in the TLB, which then agrees with the
-- page table everywhere.
use mathlib.Core.Path.{subst}
use native.Mathlib.Decide.{dec_lt}
use os_assignment_hk.Common.{
  ℕ, ◌+◌, ◌*◌, ◌^◌, ◌<◌, ◌≤◌, ◌≡◌, sym, ◌∙◌, ap, arith, true, false, some, List, ◌∷◌, [], ◌++◌,
  length, get_elem?, get_or, ok, inl, inr, ◌⊎◌,
}
use os_assignment_hk.Pte.{page_present, page_swapped, pte_fpn, paging_pgn}
use os_assignment_hk.Memphy.Frames.{of_frames}
use os_assignment_hk.Tlb.{Tlb}
use os_assignment_hk.Tlb.Laws.{IsValid}
use os_assignment_hk.Vm.{Mm, Vma, Proc, get_vma_by_num, get_symrg_byid}
use os_assignment_hk.Vm.Fit.{IsDrained, Covers}
use os_assignment_hk.Vm.Map.{IsTable, pushed, length-pushed}
use os_assignment_hk.Vm.Ops.{pages, alloc}
use os_assignment_hk.Vm.Place.{pgn_bound, Allocated}
use os_assignment_hk.Vm.Alloc.{IsWithin, alloc_lem}
use os_assignment_hk.CpuTlb.{Thread, lock, cache_pages, tlballoc}
use os_assignment_hk.CpuTlb.Agree.{Agrees, cache_pages_lem}

-- The pages that an allocation has not mapped are as they were.
Agrees-Allocated :
    (p q : Proc) (rgid size addr : ℕ) (taken rest : List ℕ)
    → Allocated p q rgid size addr taken rest
    → Agrees p.tlb p.pid p.mm.pgd 0 0
    → Agrees p.tlb p.pid q.mm.pgd (paging_pgn addr) (paging_pgn addr + length taken)
Agrees-Allocated p q rgid size addr taken rest a agree pg f out h =
    let count : length (pushed taken []) ≡ length taken = omega (arith, length-pushed taken []) in
    let ((inside, present, online), frame) = agree pg f (inr (omega arith)) h in
    let same : get_or q.mm.pgd pg 0 ≡ get_or p.mm.pgd pg 0 =
      a.mapped.others pg (elim out [ inl x ↦ inl x | inr x ↦ inr (omega arith) ]) in
    let size_q = a.mapped.size in
    (
      (omega arith, ap page_present same ∙ present, ap page_swapped same ∙ online),
      ap pte_fpn same ∙ frame,
    )

symbol_known : (rgid : ℕ) → rgid < 30 → get_symrg_byid rgid ≡ some rgid
unfolding get_symrg_byid
symbol_known rgid h = ground arith

first_area : (mm : Mm) (vma : Vma) → get_elem? mm.mmap 0 ≡ some vma → get_vma_by_num mm 0 ≡ some vma
unfolding get_vma_by_num
first_area mm vma e = e

tlballoc_of :
    (p q : Proc) (r : ℕ → ℕ) (size rgid addr : ℕ) (vma : Vma) (out : Thread)
    → alloc p 0 rgid size ≡ ok (some addr, q)
    → get_symrg_byid rgid ≡ some rgid
    → get_vma_by_num q.mm 0 ≡ some vma
    → cache_pages (pages size) (paging_pgn addr) r (record { locked = true; proc = q })
      ≡ ok (true, out)
    → tlballoc (record { locked = false; proc = p }) r size rgid ≡ ok (true, out)
unfolding tlballoc lock
tlballoc_of p q r size rgid addr vma out returns known area looped = ground arith

pub with_tlb-Allocated :
    (p q : Proc) (tlb : Tlb) (pid rgid size addr : ℕ) (taken rest : List ℕ)
    → Allocated p q rgid size addr taken rest
    → Allocated p (record q { tlb = tlb; pid = pid }) rgid size addr taken rest
with_tlb-Allocated p q tlb pid rgid size addr taken rest a = record {
  extent = a.extent;
  symbol = a.symbol;
  room = a.room;
  covered = a.covered;
  mapped = a.mapped;
  frames = a.frames;
  area = a.area;
  first = a.first;
  storage = a.storage;
  random = a.random;
  low = a.low;
}

Agrees-whole :
    (tlb : Tlb) (pid : ℕ) (pgd : List ℕ) (k : ℕ) → Agrees tlb pid pgd k k → Agrees tlb pid pgd 0 0
Agrees-whole tlb pid pgd k agree pg f out h = elim (dec_lt pg k) [
  | yes lt ↦ agree pg f (inl lt) h
  | no ge ↦ agree pg f (inr (omega arith)) h
]

-- With the conditions under which `__alloc` succeeds, a valid TLB of at least one entry and a process
-- below 2^32, if all that the TLB has for the process agrees with the page table: `tlballoc` succeeds,
-- releases the lock, allocates as `__alloc` does, and the TLB is valid and agrees with the new page
-- table again, even where it had an old frame of a page, and keeps its size. What `rand` returns
-- plays no part.
pub tlballoc_lem :
    (p : Proc) (vma : Vma) (rgid size : ℕ) (taken rest : List ℕ) (r : ℕ → ℕ)
    → p.mm.mmap ≡ vma ∷ []
    → vma.vm_end ≡ vma.sbrk
    → IsWithin vma.sbrk vma.vm_freerg_list
    → rgid < length p.mm.symrgtbl
    → rgid < 30
    → 0 < size
    → length taken ≡ pages size
    → 0 < p.mram.maxsz
    → p.mram.free_fp_list ≡ of_frames (taken ++ rest)
    → IsTable p.mm.pgd
    → length p.mm.pgd ≤ 2 ^ 14
    → vma.sbrk + 256 * length taken ≤ 256 * length p.mm.pgd
    → IsValid p.tlb
    → 0 < length p.tlb
    → p.pid < 2 ^ 32
    → Agrees p.tlb p.pid p.mm.pgd 0 0
    → (addr : ℕ) × (q : Proc) × (tlballoc (record { locked = false; proc = p }) r size rgid
        ≡ ok (true, record { locked = false; proc = q }))
      × Allocated p q rgid size addr taken rest
      × IsValid q.tlb
      × (q.pid ≡ p.pid)
      × Agrees q.tlb q.pid q.mm.pgd 0 0
      × (length q.tlb ≡ length p.tlb)
      × (((addr ≡ vma.sbrk) × IsDrained (256 * length taken) vma.vm_freerg_list)
          ⊎ Covers vma.vm_freerg_list addr (addr + 256 * length taken))
tlballoc_lem p vma rgid size taken rest r one level within sym_in in_table some_byte full pos e t
      small bound valid some_entry owner agree =
    let (addr, q, returns, a, same_tlb, same_pid, place) =
      alloc_lem p vma rgid size taken rest one level within sym_in some_byte full pos e t small
        bound in
    let count : length (pushed taken []) ≡ length taken = omega (arith, length-pushed taken []) in
    let in_table_pages = pgn_bound addr (length taken) (length p.mm.pgd) a.low small in
    let size_q = a.mapped.size in
    let before : Agrees q.tlb q.pid q.mm.pgd (paging_pgn addr) (paging_pgn addr + length taken) =
      subst (λ x. Agrees x q.pid q.mm.pgd (paging_pgn addr) (paging_pgn addr + length taken))
        (sym same_tlb)
        (subst (λ i. Agrees p.tlb i q.mm.pgd (paging_pgn addr) (paging_pgn addr + length taken))
          (sym same_pid) (Agrees-Allocated p q rgid size addr taken rest a agree)) in
    let (tlb, cached, valid', size', agree') =
      cache_pages_lem (length taken) (paging_pgn addr) r q (subst IsValid (sym same_tlb) valid)
        (subst (λ x. 0 < length x) (sym same_tlb) some_entry) (omega arith) (omega arith)
        a.mapped.table
        (λ i lt. (omega arith, a.mapped.present i (omega arith), a.mapped.online i (omega arith)))
        before in
    let known = symbol_known rgid in_table in
    let area : get_vma_by_num q.mm 0 ≡ some a.area = first_area q.mm a.area a.first in
    let looped : cache_pages (pages size) (paging_pgn addr) r (record { locked = true; proc = q })
        ≡ ok (true, record { locked = false; proc = record q { tlb = tlb } }) =
      ap (λ n. cache_pages n (paging_pgn addr) r (record { locked = true; proc = q })) (sym full)
      ∙ cached in
    (
      addr,
      record q { tlb = tlb },
      tlballoc_of p q r size rgid addr a.area _ returns known area looped,
      with_tlb-Allocated p q tlb q.pid rgid size addr taken rest a,
      valid',
      same_pid,
      Agrees-whole tlb q.pid q.mm.pgd (paging_pgn addr + length taken) agree',
      size' ∙ ap length same_tlb,
      place,
    )
