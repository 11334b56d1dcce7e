-- ===== src/Vm/Alloc.antt =====
-- `__alloc` as a whole, while RAM has enough free frames.
use os_assignment_hk.Common.{
  ℕ, ◌+◌, ◌-◌, ◌*◌, ◌^◌, ◌<◌, ◌≤◌, ◌≡◌, refl, ◌∙◌, ap, arith, false, some, List, [], ◌∷◌, ◌++◌,
  length, get_elem?, set, ok, ◌⊎◌, inl, inr, leb,
}
use os_assignment_hk.Pte.{page_alignsz, paging_pagesz}
use os_assignment_hk.Memphy.Frames.{of_frames}
use os_assignment_hk.Vm.{RgList, null, node, wild, Vma, Proc, get_vma_by_num}
use os_assignment_hk.Vm.FreeList.{get_free_vmrg_area}
use os_assignment_hk.Vm.Fit.{IsTame, IsDrained, Covers, get_free_vmrg_area_lem}
use os_assignment_hk.Vm.Map.{IsTable}
use os_assignment_hk.Vm.Ops.{pages, set_vma, alloc}
use os_assignment_hk.Vm.Place.{Allocated, alloc_reuse_lem, alloc_grow_lem}

-- every region of the list ends at `bound` or before
abbrev pub IsWithin : ℕ → RgList → Type 0
IsWithin bound null = Unit
IsWithin bound wild = ⊥
IsWithin bound (node r next) = (r.rg_start ≤ bound) × (r.rg_end ≤ bound) × IsWithin bound next

IsWithin-IsTame : (bound : ℕ) (l : RgList) → bound < 2 ^ 63 → IsWithin bound l → IsTame l
IsWithin-IsTame bound null h w = tt
IsWithin-IsTame bound wild h w = w
IsWithin-IsTame bound (node r next) h (a, b, w) =
    (omega arith, omega arith, IsWithin-IsTame bound next h w)

Covers-IsWithin : (bound s e : ℕ) (l : RgList) → IsWithin bound l → Covers l s e → e ≤ bound
Covers-IsWithin bound s e null w c = absurd (c)
Covers-IsWithin bound s e wild w c = absurd (c)
Covers-IsWithin bound s e (node r next) (a, b, w) (inl (x, y)) = omega arith
Covers-IsWithin bound s e (node r next) (a, b, w) (inr c) = Covers-IsWithin bound s e next w c

-- The free list of the area does not matter to what is allocated.
from_list :
    (p q : Proc) (vma' : Vma) (rgid size addr : ℕ) (taken rest : List ℕ)
    → Allocated (set_vma p 0 vma') q rgid size addr taken rest
    → Allocated p q rgid size addr taken rest
unfolding set_vma
from_list p q vma' rgid size addr taken rest a = record {
  extent = a.extent;
  symbol = a.symbol;
  room = a.room;
  covered = a.covered;
  mapped = a.mapped;
  frames = a.frames;
  area = a.area;
  first = a.first;
  storage = a.storage;
  random = a.random;
  low = a.low;
}

-- For a process with one area, whose end is its limit and whose free regions end at the limit or before,
-- a symbol in the table, a size above 0, at least as many free frames as the pages of the size, and a
-- page table of 32-bit words, of at most 2^14 entries, with room for the pages above the limit:
-- `__alloc` succeeds. The address is in a free region with room for the pages, or else the limit, when
-- no free region has room. The symbol becomes a region there with room for the size, its pages are
-- present at the first free frames, no other entry of the page table changes, and neither does the
-- TLB.
pub alloc_lem :
    (p : Proc) (vma : Vma) (rgid size : ℕ) (taken rest : List ℕ)
    → p.mm.mmap ≡ vma ∷ []
    → vma.vm_end ≡ vma.sbrk
    → IsWithin vma.sbrk vma.vm_freerg_list
    → rgid < length p.mm.symrgtbl
    → 0 < size
    → length taken ≡ pages size
    → 0 < p.mram.maxsz
    → p.mram.free_fp_list ≡ of_frames (taken ++ rest)
    → IsTable p.mm.pgd
    → length p.mm.pgd ≤ 2 ^ 14
    → vma.sbrk + 256 * length taken ≤ 256 * length p.mm.pgd
    → (addr : ℕ) × (q : Proc) × (alloc p 0 rgid size ≡ ok (some addr, q))
      × Allocated p q rgid size addr taken rest
      × (q.tlb ≡ p.tlb)
      × (q.pid ≡ p.pid)
      × (((addr ≡ vma.sbrk) × IsDrained (256 * length taken) vma.vm_freerg_list)
          ⊎ Covers vma.vm_freerg_list addr (addr + 256 * length taken))
unfolding alloc get_vma_by_num set_vma
alloc_lem p vma rgid size taken rest one level within sym_in some_byte full pos e t small bound =
    let n = length taken in
    let aligned : page_alignsz size ≡ 256 * n = omega arith in
    let sane : leb (2 ^ 31) (size + (paging_pagesz - 1)) ≡ false = ground arith in
    let area : get_elem? p.mm.mmap 0 ≡ some vma = ap (λ l. get_elem? l 0) one in
    let (found, l, search, tame, drained, outcome) =
      get_free_vmrg_area_lem vma (256 * n) (omega arith) (omega arith)
        (IsWithin-IsTame vma.sbrk vma.vm_freerg_list (omega arith) within) in
    let vma' : Vma = record vma { vm_freerg_list = l } in
    let searched : get_free_vmrg_area vma (page_alignsz size) ≡ ok (found, vma') =
      ap (get_free_vmrg_area vma) aligned ∙ search in
    elim outcome [
      | inl (nothing, no_room) ↦
          let (q, returns, a, same_tlb, same_pid) =
            alloc_grow_lem (set_vma p 0 vma') vma' rgid size taken rest (ap (λ x. set x 0 vma') one)
              level sym_in some_byte full pos e t small bound in
          (
            vma.sbrk,
            q,
            rw sane (rw area (rw searched (rw nothing returns))),
            from_list p q vma' rgid size vma.sbrk taken rest a,
            same_tlb,
            same_pid,
            inl (refl, no_room),
          )
      | inr (s, taken_from, covers) ↦
          let below = Covers-IsWithin vma.sbrk s (s + 256 * n) vma.vm_freerg_list within covers in
          let (q, returns, a, same_tlb, same_pid) =
            alloc_reuse_lem (set_vma p 0 vma') vma' rgid size s taken rest
              (ap (λ x. get_elem? (set x 0 vma') 0) one) sym_in (omega arith) pos e t small
              (omega arith) in
          (
            s,
            q,
            rw sane (rw area (rw searched (rw taken_from returns))),
            from_list p q vma' rgid size s taken rest a,
            same_tlb,
            same_pid,
            inr covers,
          )
    ]
