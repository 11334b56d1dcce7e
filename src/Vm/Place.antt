-- ===== src/Vm/Place.antt =====
-- The two ways of `__alloc` while RAM has enough free frames: a region of the free list, and one past the
-- end of the area.
use os_assignment_hk.Common.{
  ℕ, ◌+◌, ◌-◌, ◌*◌, ◌^◌, ◌<◌, ◌≤◌, ◌≡◌, refl, ◌∙◌, ap, arith, true, false, some, List, [], ◌∷◌,
  ◌++◌, length, get_elem?, set, get_elem?-eq-get_or, get_or, ok, ltb, leb,
}
use os_assignment_hk.Pte.{paging_pgn, page_alignsz}
use os_assignment_hk.Pte.RoundTrip.{paging_pgn-offst}
use os_assignment_hk.Memphy.Frames.{of_frames}
use os_assignment_hk.Vm.{region, Vma, Proc, get_vma_by_num, set_symrg}
use os_assignment_hk.Vm.FreeList.{add_ulong, validate_overlap_vm_area, no_overlap}
use os_assignment_hk.Vm.Page.{vm_map_ram}
use os_assignment_hk.Vm.Map.{IsTable, Mapped, pushed, with_pages, vm_map_ram-with_pages}
use os_assignment_hk.Vm.Ops.{to_int, pages, set_vma, inc_vma_limit, alloc_reuse, alloc_grow}

-- What a successful `__alloc` leaves: the symbol is a region at the address with room for the size,
-- its pages are mapped to the first free frames, the other frames are still free, and the bytes of RAM
-- are as they were.
pub record Allocated (p q : Proc) (rgid size addr : ℕ) (taken rest : List ℕ) : Type 0 where
  pub extent : ℕ
  pub symbol : q.mm.symrgtbl ≡ set p.mm.symrgtbl rgid (region addr (addr + extent))
  pub room : size ≤ extent
  pub covered : extent ≤ 256 * length taken
  pub mapped : Mapped p.mm.pgd q.mm.pgd (paging_pgn addr) (pushed taken [])
  pub frames : q.mram.free_fp_list ≡ of_frames rest
  pub area : Vma
  pub first : get_elem? q.mm.mmap 0 ≡ some area
  pub storage : q.mram.storage ≡ p.mram.storage
  pub random : q.mram.rdmflg ≡ p.mram.rdmflg
  pub low : addr + 256 * length taken ≤ 256 * length p.mm.pgd

-- the page of an address in a page table
pub pgn_bound :
    (addr n len : ℕ) → addr + 256 * n ≤ 256 * len → len ≤ 2 ^ 14 → paging_pgn addr + n ≤ len
pgn_bound addr n len h small = let r = paging_pgn-offst addr (omega arith) in omega arith

pub alloc_reuse_lem :
    (p : Proc) (area : Vma) (rgid size addr : ℕ) (taken rest : List ℕ)
    → get_elem? p.mm.mmap 0 ≡ some area
    → rgid < length p.mm.symrgtbl
    → size ≤ 256 * length taken
    → 0 < p.mram.maxsz
    → p.mram.free_fp_list ≡ of_frames (taken ++ rest)
    → IsTable p.mm.pgd
    → length p.mm.pgd ≤ 2 ^ 14
    → addr + 256 * length taken ≤ 256 * length p.mm.pgd
    → (q : Proc) × (alloc_reuse p rgid (region addr (addr + 256 * length taken))
        ≡ ok (some addr, q))
      × Allocated p q rgid size addr taken rest
      × (q.tlb ≡ p.tlb)
      × (q.pid ≡ p.pid)
unfolding alloc_reuse set_symrg
alloc_reuse_lem p area rgid size addr taken rest first sym_in fits pos e t small bound =
    let n = length taken in
    let old = get_or p.mm.symrgtbl rgid (region 0 0) in
    let entry : get_elem? p.mm.symrgtbl rgid ≡ some old =
      get_elem?-eq-get_or p.mm.symrgtbl rgid (region 0 0) sym_in in
    let stored : Proc = record p {
      mm = record p.mm { symrgtbl = set p.mm.symrgtbl rgid (region addr (addr + 256 * n)) };
    } in
    let whole : to_int addr ≡ addr = omega arith in
    let count : pages (addr + 256 * n - addr) ≡ n = omega arith in
    let (pgd, returns, m) =
      vm_map_ram-with_pages stored addr taken rest pos e t
        (pgn_bound addr n (length p.mm.pgd) bound small) in
    let mapping : vm_map_ram stored (to_int addr) (pages (addr + 256 * n - addr))
        ≡ ok (true, with_pages stored pgd (paging_pgn addr) taken rest) =
      ap (vm_map_ram stored (to_int addr)) count
      ∙ ap (λ x. vm_map_ram stored x n) whole
      ∙ returns in
    (
      with_pages stored pgd (paging_pgn addr) taken rest,
      rw entry (
          rw mapping
            (ap (λ x. ok (some x, with_pages stored pgd (paging_pgn addr) taken rest)) whole)),
      record {
        extent = 256 * n;
        symbol = refl;
        room = fits;
        covered = omega arith;
        mapped = m;
        frames = refl;
        area = area;
        first = first;
        storage = refl;
        random = refl;
        low = bound;
      },
      refl,
      refl,
    )

-- the only area of a process with its end moved on
abbrev grown : Proc → Vma → ℕ → Proc
grown p vma inc_sz =
    set_vma p 0
      (record vma { vm_end = add_ulong vma.vm_end inc_sz; sbrk = add_ulong vma.sbrk inc_sz })

inc_vma_limit_lem :
    (p : Proc) (vma : Vma) (taken rest : List ℕ)
    → p.mm.mmap ≡ vma ∷ []
    → vma.vm_end ≡ vma.sbrk
    → 0 < length taken
    → 0 < p.mram.maxsz
    → p.mram.free_fp_list ≡ of_frames (taken ++ rest)
    → IsTable p.mm.pgd
    → length p.mm.pgd ≤ 2 ^ 14
    → vma.sbrk + 256 * length taken ≤ 256 * length p.mm.pgd
    → (pgd : List ℕ) × (inc_vma_limit p 0 (256 * length taken)
        ≡ ok (
          true,
          with_pages (grown p vma (256 * length taken)) pgd (paging_pgn vma.sbrk) taken rest,
        ))
      × Mapped p.mm.pgd pgd (paging_pgn vma.sbrk) (pushed taken [])
unfolding inc_vma_limit get_vma_by_num validate_overlap_vm_area no_overlap set_vma
inc_vma_limit_lem p vma taken rest one level some_page pos e t small bound =
    let n = length taken in
    let area : get_elem? p.mm.mmap 0 ≡ some vma = ap (λ l. get_elem? l 0) one in
    let whole : to_int vma.vm_end ≡ vma.sbrk = omega arith in
    let count : pages (256 * n) ≡ n = omega arith in
    let above : leb (to_int (add_ulong vma.sbrk (256 * n))) (to_int vma.sbrk) ≡ false =
      ground arith in
    let alone : no_overlap p.mm.mmap 0 0 (to_int vma.sbrk) (to_int (add_ulong vma.sbrk (256 * n)))
        ≡ true =
      ap (λ l. no_overlap l 0 0 (to_int vma.sbrk) (to_int (add_ulong vma.sbrk (256 * n)))) one in
    let (pgd, returns, m) =
      vm_map_ram-with_pages (grown p vma (256 * n)) vma.sbrk taken rest pos e t
        (pgn_bound vma.sbrk n (length p.mm.pgd) bound small) in
    let mapping : vm_map_ram (grown p vma (256 * n)) (to_int vma.vm_end) (pages (256 * n))
        ≡ ok (true, with_pages (grown p vma (256 * n)) pgd (paging_pgn vma.sbrk) taken rest) =
      ap (vm_map_ram (grown p vma (256 * n)) (to_int vma.vm_end)) count
      ∙ ap (λ x. vm_map_ram (grown p vma (256 * n)) x n) whole
      ∙ returns in
    (pgd, rw area (rw above (rw alone mapping)), m)

pub alloc_grow_lem :
    (p : Proc) (vma : Vma) (rgid size : ℕ) (taken rest : List ℕ)
    → p.mm.mmap ≡ vma ∷ []
    → vma.vm_end ≡ vma.sbrk
    → rgid < length p.mm.symrgtbl
    → 0 < size
    → length taken ≡ pages size
    → 0 < p.mram.maxsz
    → p.mram.free_fp_list ≡ of_frames (taken ++ rest)
    → IsTable p.mm.pgd
    → length p.mm.pgd ≤ 2 ^ 14
    → vma.sbrk + 256 * length taken ≤ 256 * length p.mm.pgd
    → (q : Proc) × (alloc_grow p 0 rgid size ≡ ok (some vma.sbrk, q))
      × Allocated p q rgid size vma.sbrk taken rest
      × (q.tlb ≡ p.tlb)
      × (q.pid ≡ p.pid)
unfolding alloc_grow set_symrg get_vma_by_num set_vma
alloc_grow_lem p vma rgid size taken rest one level sym_in some_byte full pos e t small bound =
    let n = length taken in
    let whole : to_int vma.sbrk ≡ vma.sbrk = omega arith in
    let aligned : page_alignsz size ≡ 256 * n = omega arith in
    let area : get_elem? p.mm.mmap 0 ≡ some vma = ap (λ l. get_elem? l 0) one in
    let old = get_or p.mm.symrgtbl rgid (region 0 0) in
    let entry : get_elem? p.mm.symrgtbl rgid ≡ some old =
      get_elem?-eq-get_or p.mm.symrgtbl rgid (region 0 0) sym_in in
    let (pgd, returns, m) =
      inc_vma_limit_lem p vma taken rest one level (omega arith) pos e t small bound in
    let limit : inc_vma_limit p 0 (page_alignsz size)
        ≡ ok (true, with_pages (grown p vma (256 * n)) pgd (paging_pgn vma.sbrk) taken rest) =
      ap (inc_vma_limit p 0) aligned ∙ returns in
    let q = with_pages (grown p vma (256 * n)) pgd (paging_pgn vma.sbrk) taken rest in
    let r = region (to_int vma.sbrk) (to_int vma.sbrk + size) in
    let no_rest : ltb (to_int vma.sbrk + page_alignsz size) (add_ulong vma.sbrk (256 * n)) ≡ false =
      ground arith in
    let after : get_elem?
          (set p.mm.mmap 0 (record vma {
            vm_end = add_ulong vma.vm_end (256 * n);
            sbrk = add_ulong vma.sbrk (256 * n);
          }))
          0
        ≡ some (record vma {
          vm_end = add_ulong vma.vm_end (256 * n);
          sbrk = add_ulong vma.sbrk (256 * n);
        }) =
      ap
        (λ l.
          get_elem?
            (set l 0 (record vma {
              vm_end = add_ulong vma.vm_end (256 * n);
              sbrk = add_ulong vma.sbrk (256 * n);
            }))
            0)
        one in
    let done : Proc = record q { mm = record q.mm { symrgtbl = set p.mm.symrgtbl rgid r } } in
    (
      done,
      rw area (rw limit (rw entry (rw after (rw no_rest (ap (λ x. ok (some x, done)) whole))))),
      record {
        extent = size;
        symbol = ap (λ x. set p.mm.symrgtbl rgid (region x (x + size))) whole;
        room = omega arith;
        covered = omega arith;
        mapped = m;
        frames = refl;
        area = record vma {
          vm_end = add_ulong vma.vm_end (256 * n);
          sbrk = add_ulong vma.sbrk (256 * n);
        };
        first = after;
        storage = refl;
        random = refl;
        low = bound;
      },
      refl,
      refl,
    )
