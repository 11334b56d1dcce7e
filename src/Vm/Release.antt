-- ===== src/Vm/Release.antt =====
-- Freeing the pages of a region: the loop of `__free`, and `__free` on a region that is in RAM.
use os_assignment_hk.Common.{
  ℕ, zero, suc, ◌+◌, ◌-◌, ◌^◌, ◌<◌, ◌≤◌, ◌≡◌, refl, sym, ◌∙◌, ap, arith, true, false, some, List,
  [], ◌∷◌, length, get_elem?, get_or, set, length-set, get_or-set_self, get_or-set_ne,
  get_elem?-eq-get_or, get_elem?-set_self, get_elem?-some_lt, ok, ◌⊎◌, inl, inr,
}
use os_assignment_hk.Pte.{page_present, page_swapped, pte_fpn, pte_clear_present, paging_pgn}
use os_assignment_hk.Pte.RoundTrip.{pte_clear_present_reads}
use os_assignment_hk.Memphy
use os_assignment_hk.Memphy.{Memphy, put_freefp}
use os_assignment_hk.Memphy.Frames.{of_frames}
use os_assignment_hk.Vm.{
  Region, region, Vma, Proc, node, clear_pgn_node, remove_first, get_symrg_byid, symrg, set_symrg,
  enlist_vm_freerg_list,
}
use os_assignment_hk.Vm.Page.{pg_getpage}
use os_assignment_hk.Vm.Map.{pushed}
use os_assignment_hk.Vm.Ops.{free, free_pages, pages}

-- From page `pgn` on the pages are in RAM, at the frames of the list.
pub record Loaded (pgd : List ℕ) (pgn : ℕ) (frames : List ℕ) : Type 0 where
  pub inside : pgn + length frames ≤ length pgd
  pub word : (i : ℕ) → i < length frames → get_or pgd (pgn + i) 0 < 2 ^ 32
  pub present : (i : ℕ) → i < length frames → page_present (get_or pgd (pgn + i) 0) ≡ true
  pub online : (i : ℕ) → i < length frames → page_swapped (get_or pgd (pgn + i) 0) ≡ false
  pub frame : (i : ℕ) → i < length frames → pte_fpn (get_or pgd (pgn + i) 0) ≡ get_or frames i 0

-- The `n` pages from `pgn` on are absent, and the other entries are as they were.
pub record Unmapped (before after : List ℕ) (pgn n : ℕ) : Type 0 where
  pub size : length after ≡ length before
  pub absent : (i : ℕ) → i < n → page_present (get_or after (pgn + i) 0) ≡ false
  pub others : (j : ℕ) → (j < pgn) ⊎ (pgn + n ≤ j) → get_or after j 0 ≡ get_or before j 0

-- the FIFO list without the pages
abbrev pub delisted : ℕ → ℕ → List ℕ → List ℕ
delisted zero pgn fifo = fifo
delisted (suc n) pgn fifo = delisted n (pgn + 1) (remove_first pgn fifo)

module _ (pgd : List ℕ) (pgn f : ℕ) (frames : List ℕ) (l : Loaded pgd pgn (f ∷ frames))
    (v : ℕ) where
  moved : (i : ℕ) → get_or (set pgd pgn v) (pgn + 1 + i) 0 ≡ get_or pgd (pgn + suc i) 0
  moved i =
      get_or-set_ne pgd pgn (pgn + 1 + i) v 0 (omega arith) ∙ ap (λ j. get_or pgd j 0) (omega arith)

  Loaded-set : Loaded (set pgd pgn v) (pgn + 1) frames
  Loaded-set = record {
    inside = omega (arith, length-set pgd pgn v, l.inside);
    word = λ i h. omega (arith, moved i, l.word (suc i) (omega arith));
    present = λ i h. ap page_present (moved i) ∙ l.present (suc i) (omega arith);
    online = λ i h. ap page_swapped (moved i) ∙ l.online (suc i) (omega arith);
    frame = λ i h. ap pte_fpn (moved i) ∙ l.frame (suc i) (omega arith);
  }

unmap_step :
    (before after : List ℕ) (pgn n v : ℕ)
    → pgn < length before
    → page_present v ≡ false
    → Unmapped (set before pgn v) after (pgn + 1) n
    → Unmapped before after pgn (suc n)
unmap_step before after pgn n v h gone u = record {
  size = u.size ∙ length-set before pgn v;
  absent = elim [
    | zero ↦ λ lt.
        ap (λ j. page_present (get_or after j 0)) (omega arith)
        ∙ ap page_present (u.others pgn (inl (omega arith)) ∙ get_or-set_self before pgn v 0 h)
        ∙ gone
    | suc i ↦
        λ lt. ap (λ j. page_present (get_or after j 0)) (omega arith) ∙ u.absent i (omega arith)
  ];
  others = λ j out.
      u.others j (elim out [ inl x ↦ inl (omega arith) | inr x ↦ inr (omega arith) ])
      ∙ get_or-set_ne before pgn j v 0 (elim out [ inl x ↦ omega arith | inr x ↦ omega arith ]);
}

getpage_loaded :
    (p : Proc) (pgn pte f : ℕ)
    → get_elem? p.mm.pgd pgn ≡ some pte
    → page_present pte ≡ true
    → page_swapped pte ≡ false
    → pte_fpn pte ≡ f
    → pg_getpage p pgn ≡ ok (some f, p)
unfolding pg_getpage
getpage_loaded p pgn pte f entry present online frame = ground arith

-- For pages that are in RAM, with 32-bit entries in the page table and a proper list of free frames,
-- the loop of `__free` ends well: the pages are absent, the other entries are as they were, their
-- frames are free again, the pages are off the FIFO list, and the symbols, the areas and
-- the TLB are as they were.
pub free_pages_lem :
    (frames l : List ℕ) (pgn : ℕ) (p : Proc)
    → Loaded p.mm.pgd pgn frames
    → p.mram.free_fp_list ≡ of_frames l
    → (q : Proc) × (free_pages (length frames) pgn p ≡ ok (true, q))
      × Unmapped p.mm.pgd q.mm.pgd pgn (length frames)
      × (q.mram.free_fp_list ≡ of_frames (pushed frames l))
      × (q.mm.fifo_pgn ≡ delisted (length frames) pgn p.mm.fifo_pgn)
      × (q.mm.symrgtbl ≡ p.mm.symrgtbl)
      × (q.mm.mmap ≡ p.mm.mmap)
      × (q.tlb ≡ p.tlb)
      × (q.pid ≡ p.pid)
unfolding free_pages put_freefp clear_pgn_node
free_pages_lem [] l pgn p d e = (
  p,
  refl,
  record { size = refl; absent = λ i h. absurd (omega arith); others = λ j h. refl },
  e,
  refl,
  refl,
  refl,
  refl,
  refl,
)
free_pages_lem (f ∷ frames) l pgn p d e =
    let pte = get_or p.mm.pgd pgn 0 in
    let below : pgn < length p.mm.pgd = omega (arith, d.inside) in
    let entry : get_elem? p.mm.pgd pgn ≡ some pte = get_elem?-eq-get_or p.mm.pgd pgn 0 below in
    let here : get_or p.mm.pgd (pgn + 0) 0 ≡ pte = ap (λ j. get_or p.mm.pgd j 0) (omega arith) in
    let present : page_present pte ≡ true =
      sym (ap page_present here) ∙ d.present 0 (omega arith) in
    let online : page_swapped pte ≡ false = sym (ap page_swapped here) ∙ d.online 0 (omega arith) in
    let frame : pte_fpn pte ≡ f = sym (ap pte_fpn here) ∙ d.frame 0 (omega arith) in
    let word : pte < 2 ^ 32 = omega (arith, here, d.word 0 (omega arith)) in
    let v = pte_clear_present pte in
    let p' : Proc = record p {
      mram = put_freefp p.mram f;
      mm = clear_pgn_node (record p.mm { pgd = set p.mm.pgd pgn v }) pgn;
    } in
    let (q, returns, u, frames', fifo, symbols, areas, same_tlb, same_pid) =
      free_pages_lem frames (f ∷ l) (pgn + 1) p' (Loaded-set p.mm.pgd pgn f frames d v)
        (ap (λ k. Memphy.node f k) e) in
    let got : pg_getpage p pgn ≡ ok (some f, p) =
      getpage_loaded p pgn pte f entry present online frame in
    (
      q,
      rw got (rw entry returns),
      unmap_step p.mm.pgd q.mm.pgd pgn (length frames) v below
          ((pte_clear_present_reads pte 0 word).0) u,
      frames',
      fifo,
      symbols,
      areas,
      same_tlb,
      same_pid,
    )

-- For a region in use of a symbol below 30, all of whose pages are in RAM with 32-bit entries, and
-- a proper list of free frames, `__free` succeeds: its pages are absent and the other entries as they
-- were, its frames are free again, the symbol is the region (0, 0), the region is the first on the
-- free list of area 0, and the TLB is as it was.
pub free_lem :
    (p : Proc) (rgid : ℕ) (r : Region) (vma : Vma) (frames l : List ℕ)
    → rgid < 30
    → get_elem? p.mm.symrgtbl rgid ≡ some r
    → r.rg_start < r.rg_end
    → get_elem? p.mm.mmap 0 ≡ some vma
    → length frames ≡ pages (r.rg_end - r.rg_start)
    → Loaded p.mm.pgd (paging_pgn r.rg_start) frames
    → p.mram.free_fp_list ≡ of_frames l
    → (q : Proc) × (free p rgid ≡ ok (true, q))
      × Unmapped p.mm.pgd q.mm.pgd (paging_pgn r.rg_start) (length frames)
      × (q.mram.free_fp_list ≡ of_frames (pushed frames l))
      × (get_elem? q.mm.symrgtbl rgid ≡ some (region 0 0))
      × (get_elem? q.mm.mmap 0 ≡ some (record vma { vm_freerg_list = node r vma.vm_freerg_list }))
      × (q.tlb ≡ p.tlb)
      × (q.pid ≡ p.pid)
unfolding free get_symrg_byid symrg set_symrg enlist_vm_freerg_list
free_lem p rgid r vma frames l low symbol in_use area count d e =
    let (q, returns, u, frames', fifo, symbols, areas, same_tlb, same_pid) =
      free_pages_lem frames l (paging_pgn r.rg_start) p d e in
    let freed : free_pages (pages (r.rg_end - r.rg_start)) (paging_pgn r.rg_start) p
        ≡ ok (true, q) =
      ap (λ n. free_pages n (paging_pgn r.rg_start) p) (sym count) ∙ returns in
    let symbol' : get_elem? q.mm.symrgtbl rgid ≡ some r =
      ap (λ t. get_elem? t rgid) symbols ∙ symbol in
    let area' : get_elem? q.mm.mmap 0 ≡ some vma = ap (λ t. get_elem? t 0) areas ∙ area in
    (
      record q {
        mm = record q.mm {
          symrgtbl = set q.mm.symrgtbl rgid (region 0 0);
          mmap = set q.mm.mmap 0 (record vma { vm_freerg_list = node r vma.vm_freerg_list });
        };
      },
      ground (arith, freed, symbol', area'),
      u,
      frames',
      get_elem?-set_self q.mm.symrgtbl rgid (region 0 0)
          (get_elem?-some_lt q.mm.symrgtbl rgid symbol'),
      get_elem?-set_self q.mm.mmap 0 (record vma { vm_freerg_list = node r vma.vm_freerg_list })
          (get_elem?-some_lt q.mm.mmap 0 area'),
      same_tlb,
      same_pid,
    )
