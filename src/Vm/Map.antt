-- ===== src/Vm/Map.antt =====
-- Mapping pages while RAM has enough free frames: `alloc_pages_range`, `vmap_page_range` and
-- `vm_map_ram`.
use os_assignment_hk.Common.{
  ℕ, zero, suc, ◌+◌, ◌%◌, ◌^◌, ◌<◌, ◌≤◌, ◌≡◌, refl, sym, ◌∙◌, ap, arith, true, false, ◌==◌, some,
  List, [], ◌∷◌, ◌++◌, length, get_elem?, get_or, set, length-set, get_or-set_self, get_or-set_ne,
  get_elem?-eq-get_or, ok, ◌⊎◌, inl, inr, Bool-cases,
}
use os_assignment_hk.Pte.{page_present, page_swapped, pte_fpn, paging_pgn, pte_set_fpn}
use os_assignment_hk.Pte.RoundTrip.{pte_set_fpn_reads}
use os_assignment_hk.Memphy.Frames.{of_frames, get_freefp_lem}
use os_assignment_hk.Vm.{Mm, Proc, enlist_pgn_node}
use os_assignment_hk.Vm.Page.{alloc_pages_range, set_pgd, vmap_loop, vmap_page_range, vm_map_ram}

-- the frames of `taken`, pushed one by one onto a list
abbrev pub pushed : List ℕ → List ℕ → List ℕ
pushed [] l = l
pushed (f ∷ taken) l = pushed taken (f ∷ l)

abbrev pub with_frames : Proc → List ℕ → Proc
with_frames p l = record p { mram = record p.mram { free_fp_list = of_frames l } }

-- With as many free frames as pages, the pages get the first free frames, the last one first.
pub alloc_pages_range_lem :
    (taken rest l : List ℕ) (p : Proc)
    → 0 < p.mram.maxsz
    → p.mram.free_fp_list ≡ of_frames (taken ++ rest)
    → alloc_pages_range (length taken) l p ≡ ok (some (pushed taken l), with_frames p rest)
unfolding alloc_pages_range
alloc_pages_range_lem [] rest l p pos e = ground arith
alloc_pages_range_lem (f ∷ taken) rest l p pos e =
    let got = (get_freefp_lem p.mram (f ∷ taken ++ rest) pos e).0 in
    let next = alloc_pages_range_lem taken rest (f ∷ l) (with_frames p (taken ++ rest)) pos refl in
    rw got next

-- every entry of the page table is a 32-bit word
abbrev pub IsTable : List ℕ → Type 0
IsTable pgd = (j : ℕ) → j < length pgd → get_or pgd j 0 < 2 ^ 32

-- What `vmap_page_range` makes of a page table: page `pgn + i` is in RAM at the frame `i` of the list,
-- and the others are as they were.
pub record Mapped (before after : List ℕ) (pgn : ℕ) (frames : List ℕ) : Type 0 where
  pub size : length after ≡ length before
  pub table : IsTable after
  pub present : (i : ℕ) → i < length frames → page_present (get_or after (pgn + i) 0) ≡ true
  pub online : (i : ℕ) → i < length frames → page_swapped (get_or after (pgn + i) 0) ≡ false
  pub frame :
      (i : ℕ) → i < length frames → pte_fpn (get_or after (pgn + i) 0) ≡ get_or frames i 0 % 2 ^ 13
  pub others :
      (j : ℕ) → (j < pgn) ⊎ (pgn + length frames ≤ j) → get_or after j 0 ≡ get_or before j 0

IsTable-set : (pgd : List ℕ) (j v : ℕ) → IsTable pgd → v < 2 ^ 32 → IsTable (set pgd j v)
IsTable-set pgd j v t h k lt = elim (Bool-cases (j == k)) [
  | inl e ↦
      let same : j ≡ k = ground arith in
      let len = length-set pgd j v in
      let now = get_or-set_self pgd j v 0 (omega arith) in ground arith
  | inr e ↦
      let len = length-set pgd j v in
      let old = get_or-set_ne pgd j k v 0 (ground arith) in ground (arith, t k)
]

-- one page, then the others
map_step :
    (before after : List ℕ) (pgn f : ℕ) (frames : List ℕ)
    → IsTable before
    → pgn < length before
    → Mapped (set before pgn (pte_set_fpn (get_or before pgn 0) f)) after (pgn + 1) frames
    → Mapped before after pgn (f ∷ frames)
map_step before after pgn f frames t h m =
    let pte = pte_set_fpn (get_or before pgn 0) f in
    let (word, pre, onl, fr, keep) = pte_set_fpn_reads (get_or before pgn 0) f (t pgn h) in
    let here : get_or after (pgn + 0) 0 ≡ pte =
      ap (λ j. get_or after j 0) (omega arith)
      ∙ m.others pgn (inl (omega arith))
      ∙ get_or-set_self before pgn pte 0 h in
    let shifted : (k : ℕ) → get_or after (pgn + suc k) 0 ≡ get_or after (pgn + 1 + k) 0 =
      λ k. ap (λ j. get_or after j 0) (omega arith) in
    record {
      size = m.size ∙ length-set before pgn pte;
      table = m.table;
      present = elim [
        | zero ↦ λ lt. ap page_present here ∙ pre
        | suc k ↦ λ lt. ap page_present (shifted k) ∙ m.present k (omega arith)
      ];
      online = elim [
        | zero ↦ λ lt. ap page_swapped here ∙ onl
        | suc k ↦ λ lt. ap page_swapped (shifted k) ∙ m.online k (omega arith)
      ];
      frame = elim [
        | zero ↦ λ lt. ap pte_fpn here ∙ fr
        | suc k ↦ λ lt. ap pte_fpn (shifted k) ∙ m.frame k (omega arith)
      ];
      others = λ j out.
          m.others j (elim out [ inl x ↦ inl (omega arith) | inr x ↦ inr (omega arith) ])
          ∙ get_or-set_ne before pgn j pte 0
              (elim out [ inl x ↦ omega arith | inr x ↦ omega arith ]);
    }

-- the pages from `pgn` on, one for each frame, pushed onto the FIFO list
abbrev pub enlisted : List ℕ → ℕ → List ℕ → List ℕ
enlisted [] pgn fifo = fifo
enlisted (f ∷ frames) pgn fifo = enlisted frames (pgn + 1) (pgn ∷ fifo)

vmap_loop_lem :
    (frames : List ℕ) (pgn : ℕ) (mm : Mm)
    → IsTable mm.pgd
    → pgn + length frames ≤ length mm.pgd
    → (pgd : List ℕ) × (vmap_loop (length frames) pgn frames mm
        ≡ ok (record mm { pgd = pgd; fifo_pgn = enlisted frames pgn mm.fifo_pgn }))
      × Mapped mm.pgd pgd pgn frames
unfolding vmap_loop enlist_pgn_node
vmap_loop_lem [] pgn mm t h = (
  mm.pgd,
  refl,
  record {
    size = refl;
    table = t;
    present = λ i lt. absurd (omega arith);
    online = λ i lt. absurd (omega arith);
    frame = λ i lt. absurd (omega arith);
    others = λ j out. refl;
  },
)
vmap_loop_lem (f ∷ frames) pgn mm t h =
    let pte = get_or mm.pgd pgn 0 in
    let entry : get_elem? mm.pgd pgn ≡ some pte = get_elem?-eq-get_or mm.pgd pgn 0 (omega arith) in
    let mm' = enlist_pgn_node (set_pgd mm pgn (pte_set_fpn pte f)) pgn in
    let word = (pte_set_fpn_reads pte f (t pgn (omega arith))).0 in
    let len = length-set mm.pgd pgn (pte_set_fpn pte f) in
    let (pgd, returns, m) =
      vmap_loop_lem frames (pgn + 1) mm' (IsTable-set mm.pgd pgn (pte_set_fpn pte f) t word)
        (omega arith) in
    (pgd, rw entry returns, map_step mm.pgd pgd pgn f frames t (omega arith) m)

pub length-pushed : (taken l : List ℕ) → length (pushed taken l) ≡ length taken + length l
length-pushed [] l = omega arith
length-pushed (f ∷ taken) l = omega (arith, length-pushed taken (f ∷ l))

-- the process with the pages from `pgn` on mapped to the frames `taken`, in the page table `pgd`
abbrev pub with_pages : Proc → List ℕ → ℕ → List ℕ → List ℕ → Proc
with_pages p pgd pgn taken rest = record (with_frames p rest) {
  mm = record p.mm { pgd = pgd; fifo_pgn = enlisted (pushed taken []) pgn p.mm.fifo_pgn };
}

pub vm_map_ram-with_pages :
    (p : Proc) (mapstart : ℕ) (taken rest : List ℕ)
    → 0 < p.mram.maxsz
    → p.mram.free_fp_list ≡ of_frames (taken ++ rest)
    → IsTable p.mm.pgd
    → paging_pgn mapstart + length taken ≤ length p.mm.pgd
    → (pgd : List ℕ) × (vm_map_ram p mapstart (length taken)
        ≡ ok (true, with_pages p pgd (paging_pgn mapstart) taken rest))
      × Mapped p.mm.pgd pgd (paging_pgn mapstart) (pushed taken [])
unfolding vm_map_ram vmap_page_range
vm_map_ram-with_pages p mapstart taken rest pos e t h =
    let frames = pushed taken [] in
    let count : length frames ≡ length taken = omega (arith, length-pushed taken []) in
    let pgn = paging_pgn mapstart in
    let (pgd, returns, m) = vmap_loop_lem frames pgn p.mm t (omega arith) in
    let mapped : vmap_loop (length taken) pgn frames p.mm
        ≡ ok (record p.mm { pgd = pgd; fifo_pgn = enlisted frames pgn p.mm.fifo_pgn }) =
      ap (λ n. vmap_loop n pgn frames p.mm) (sym count) ∙ returns in
    let got = alloc_pages_range_lem taken rest [] p pos e in (pgd, rw got (rw mapped refl), m)

-- When RAM has as many free frames as pages are asked for, each page table entry is a 32-bit word and
-- the pages lie in the page table, `vm_map_ram` succeeds: it takes the first free frames and leaves
-- the others free, maps the pages from that of the address on to those frames, the last one taken
-- first, keeps every other entry of the page table, and enlists the pages.
pub vm_map_ram_lem :
    (p : Proc) (mapstart : ℕ) (taken rest : List ℕ)
    → 0 < p.mram.maxsz
    → p.mram.free_fp_list ≡ of_frames (taken ++ rest)
    → IsTable p.mm.pgd
    → paging_pgn mapstart + length taken ≤ length p.mm.pgd
    → (q : Proc) × (vm_map_ram p mapstart (length taken) ≡ ok (true, q))
      × Mapped p.mm.pgd q.mm.pgd (paging_pgn mapstart) (pushed taken [])
      × (q.mram.free_fp_list ≡ of_frames rest)
      × (q.mm.fifo_pgn ≡ enlisted (pushed taken []) (paging_pgn mapstart) p.mm.fifo_pgn)
vm_map_ram_lem p mapstart taken rest pos e t h =
    let (pgd, returns, m) = vm_map_ram-with_pages p mapstart taken rest pos e t h in
    (with_pages p pgd (paging_pgn mapstart) taken rest, returns, m, refl, refl)
