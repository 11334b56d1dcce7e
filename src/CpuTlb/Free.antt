-- ===== src/CpuTlb/Free.antt =====
-- `tlbfree_data`: the frames of the freed pages leave the TLB, which agrees with the page table
-- afterwards.
use mathlib.Core.Path.{subst}
use native.Mathlib.Decide.{dec_lt}
use os_assignment_hk.Common.{
  ℕ, zero, suc, ◌+◌, ◌-◌, ◌<◌, ◌≤◌, ◌≡◌, ◌≢◌, refl, sym, ◌∙◌, ap, arith, true, false, some, List,
  length, get_elem?, get_or, ok, must, ◌⊎◌, inl, inr,
}
use os_assignment_hk.Pte.{page_present, page_swapped, pte_fpn, paging_pgn}
use os_assignment_hk.Memphy.Frames.{of_frames}
use os_assignment_hk.Tlb.{Tlb, tlb_cache_read, tlb_cache_invalidate}
use os_assignment_hk.Tlb.Laws.{IsValid}
use os_assignment_hk.Tlb.Invalidate.{tlb_cache_invalidate_page}
use os_assignment_hk.Vm.{Region, Vma, Proc, get_vma_by_num, get_symrg_byid, symrg}
use os_assignment_hk.Vm.Map.{pushed}
use os_assignment_hk.Vm.Release.{Loaded, Unmapped, free_lem}
use os_assignment_hk.Vm.Ops.{free, pages}
use os_assignment_hk.CpuTlb.{lock, unlock, leave, invalidate_pages, tlbfree_data}
use os_assignment_hk.CpuTlb.Agree.{Agrees}

-- After the loop, the TLB has what it had for pages outside it, and nothing for those in it.
invalidate_pages_lem :
    (n pgn : ℕ) (p : Proc)
    → IsValid p.tlb
    → (tlb : Tlb) × (invalidate_pages n pgn p ≡ record p { tlb = tlb })
      × IsValid tlb
      × ((pg f : ℕ)
          → tlb_cache_read tlb p.pid pg ≡ some f
          → ((pg < pgn) ⊎ (pgn + n ≤ pg)) × (tlb_cache_read p.tlb p.pid pg ≡ some f))
unfolding invalidate_pages
invalidate_pages_lem zero pgn p valid = (
  p.tlb,
  refl,
  valid,
  λ pg f h. (elim (dec_lt pg pgn) [ yes lt ↦ inl lt | no ge ↦ inr (omega arith) ], h),
)
invalidate_pages_lem (suc n) pgn p valid =
    let (valid', gone, others) = tlb_cache_invalidate_page p.tlb p.pid pgn valid in
    let (tlb, same, valid'', old) =
      invalidate_pages_lem n (pgn + 1)
        (record p { tlb = (tlb_cache_invalidate p.tlb p.pid (some pgn)).1 }) valid' in
    (
      tlb,
      same,
      valid'',
      λ pg f h.
          let (out, before) = old pg f h in
          let other : pg ≢ pgn = λ e.
            let now = ap (tlb_cache_read (tlb_cache_invalidate p.tlb p.pid (some pgn)).1 p.pid) e in
            cc in
          (
            elim out [ inl x ↦ inl (omega arith) | inr x ↦ inr (omega arith) ],
            sym (others p.pid pg (inr other)) ∙ before,
          ),
    )

tlbfree_of :
    (p : Proc) (rgid : ℕ) (vma : Vma) (r : Region) (q out : Proc)
    → get_symrg_byid rgid ≡ some rgid
    → get_vma_by_num p.mm 0 ≡ some vma
    → symrg p.mm rgid ≡ ok r
    → invalidate_pages (pages (r.rg_end - r.rg_start)) (paging_pgn r.rg_start) p ≡ q
    → free q rgid ≡ ok (true, out)
    → tlbfree_data (record { locked = false; proc = p }) rgid
      ≡ ok (true, record { locked = false; proc = out })
unfolding tlbfree_data lock leave unlock
tlbfree_of p rgid vma r q out known area symbol wiped freed = ground arith

known_symbol : (rgid : ℕ) → rgid < 30 → get_symrg_byid rgid ≡ some rgid
unfolding get_symrg_byid
known_symbol rgid h = ground arith

-- With the conditions under which `__free` succeeds and a valid TLB, if all that the TLB has for the
-- process agrees with the page table: `tlbfree_data` succeeds, releases the lock and frees as `__free`
-- does, and the TLB is valid and agrees with the new page table, so that it has no frame of a page that
-- was freed.
pub tlbfree_data_lem :
    (p : Proc) (rgid : ℕ) (r : Region) (vma : Vma) (frames l : List ℕ)
    → rgid < 30
    → get_elem? p.mm.symrgtbl rgid ≡ some r
    → r.rg_start < r.rg_end
    → get_elem? p.mm.mmap 0 ≡ some vma
    → length frames ≡ pages (r.rg_end - r.rg_start)
    → Loaded p.mm.pgd (paging_pgn r.rg_start) frames
    → p.mram.free_fp_list ≡ of_frames l
    → IsValid p.tlb
    → Agrees p.tlb p.pid p.mm.pgd 0 0
    → (q : Proc) × (tlbfree_data (record { locked = false; proc = p }) rgid
        ≡ ok (true, record { locked = false; proc = q }))
      × Unmapped p.mm.pgd q.mm.pgd (paging_pgn r.rg_start) (length frames)
      × (q.mram.free_fp_list ≡ of_frames (pushed frames l))
      × IsValid q.tlb
      × Agrees q.tlb q.pid q.mm.pgd 0 0
unfolding symrg get_vma_by_num
tlbfree_data_lem p rgid r vma frames l low symbol in_use area count d e valid agree =
    let pgn = paging_pgn r.rg_start in
    let (tlb, wiped, valid', old) = invalidate_pages_lem (length frames) pgn p valid in
    let (q, freed, u, frames', symbol', area', same_tlb, same_pid) =
      free_lem (record p { tlb = tlb }) rgid r vma frames l low symbol in_use area count d e in
    let wiped' : invalidate_pages (pages (r.rg_end - r.rg_start)) pgn p ≡ record p { tlb = tlb } =
      ap (λ n. invalidate_pages n pgn p) (sym count) ∙ wiped in
    let size = u.size in
    (
      q,
      tlbfree_of p rgid vma r (record p { tlb = tlb }) q (known_symbol rgid low) area
          (ap must symbol) wiped' freed,
      u,
      frames',
      subst IsValid (sym same_tlb) valid',
      λ pg f any h.
          let cached : tlb_cache_read tlb p.pid pg ≡ some f =
            ap (λ x. tlb_cache_read x p.pid pg) (sym same_tlb)
            ∙ ap (λ i. tlb_cache_read q.tlb i pg) (sym same_pid)
            ∙ h in
          let (out, before) = old pg f cached in
          let ((inside, present, online), frame) = agree pg f any before in
          let same : get_or q.mm.pgd pg 0 ≡ get_or p.mm.pgd pg 0 = u.others pg out in
          (
            (omega arith, ap page_present same ∙ present, ap page_swapped same ∙ online),
            ap pte_fpn same ∙ frame,
          ),
    )
