-- ===== src/Vm/Use.antt =====
-- Memory that `__alloc` gave is memory that `__write` and `__read` can use.
use mathlib.Core.Path.{subst}
use os_assignment_hk.Common.{
  ℕ, zero, suc, ◌+◌, ◌-◌, ◌*◌, ◌%◌, ◌^◌, ◌<◌, ◌≤◌, ◌≡◌, refl, sym, ◌∙◌, ap, arith, true, Option,
  none, some, List, [], ◌∷◌, ◌++◌, length, get_elem?, set, length-set, get_elem?-eq-get_or, get_or,
  get_or-set_self, ok, ok_inj,
}
use os_assignment_hk.Pte.{paging_pgn, paging_offst, pte_fpn}
use os_assignment_hk.Pte.RoundTrip.{paging_pgn-offst}
use os_assignment_hk.Memphy.Frames.{of_frames}
use os_assignment_hk.Vm.{region, Vma, Proc}
use os_assignment_hk.Vm.Page.{phyaddr}
use os_assignment_hk.Vm.Bytes.{Resident}
use os_assignment_hk.Vm.Map.{IsTable, pushed, length-pushed}
use os_assignment_hk.Vm.Ops.{pages, alloc, read, write}
use os_assignment_hk.Vm.ReadWrite.{InRegion, read-write}
use os_assignment_hk.Vm.Place.{pgn_bound, Allocated}
use os_assignment_hk.Vm.Alloc.{IsWithin, alloc_lem}

-- every frame of the list lies in a storage of `size` bytes
abbrev pub InStorage : ℕ → List ℕ → Type 0
InStorage size [] = Unit
InStorage size (f ∷ frames) = (f * 256 + 256 ≤ size) × InStorage size frames

InStorage-pushed :
    (size : ℕ) (taken l : List ℕ)
    → InStorage size taken
    → InStorage size l
    → InStorage size (pushed taken l)
InStorage-pushed size [] l h k = k
InStorage-pushed size (f ∷ taken) l (a, h) k = InStorage-pushed size taken (f ∷ l) h (a, k)

InStorage-get_or :
    (size i : ℕ) (l : List ℕ) → i < length l → InStorage size l → get_or l i 0 * 256 + 256 ≤ size
InStorage-get_or size i [] lt h = absurd (omega arith)
InStorage-get_or size zero (f ∷ l) lt (a, h) = a
InStorage-get_or size (suc i) (f ∷ l) lt (a, h) = InStorage-get_or size i l (omega arith) h

-- An allocated place is in a region in use.
pub Allocated-InRegion :
    (p q : Proc) (rgid size addr offset : ℕ) (taken rest : List ℕ)
    → (a : Allocated p q rgid size addr taken rest) → rgid < length p.mm.symrgtbl
    → rgid < 30
    → length p.mm.pgd ≤ 2 ^ 14
    → offset < size
    → InRegion q 0 rgid offset (region addr (addr + a.extent))
Allocated-InRegion p q rgid size addr offset taken rest a sym_in in_table small inside =
    let r = region addr (addr + a.extent) in
    let len = length-set p.mm.symrgtbl rgid r in
    record {
      vma = a.area;
      area = a.first;
      symbol =
          ap (λ t. get_elem? t rgid) a.symbol
          ∙ get_elem?-eq-get_or (set p.mm.symrgtbl rgid r) rgid (region 0 0) (omega arith)
          ∙ ap some (get_or-set_self p.mm.symrgtbl rgid r (region 0 0) sym_in);
      in_table = in_table;
      low = omega (arith, a.low, a.covered);
      fits = omega (arith, a.room);
      in_use = omega (arith, a.room);
    }

-- Its bytes in the pages that were mapped are in RAM.
pub Allocated-Resident :
    (p q : Proc) (rgid size addr offset : ℕ) (taken rest : List ℕ)
    → (a : Allocated p q rgid size addr taken rest) → length p.mm.pgd ≤ 2 ^ 14
    → p.mram.rdmflg ≡ true
    → InStorage (length p.mram.storage) taken
    → addr + offset < 2 ^ 22
    → addr % 256 + offset < 256 * length taken
    → paging_pgn addr + length taken ≤ length p.mm.pgd
    → (phys : ℕ) × Resident q (addr + offset) phys
Allocated-Resident p q rgid size addr offset taken rest a small flag stored low within table =
    let frames = pushed taken [] in
    let count : length frames ≡ length taken = omega (arith, length-pushed taken []) in
    let first = paging_pgn-offst addr (omega arith) in
    let (split, off, bound) = paging_pgn-offst (addr + offset) (omega arith) in
    let i = paging_pgn (addr + offset) - paging_pgn addr in
    let place : paging_pgn (addr + offset) ≡ paging_pgn addr + i = omega (arith, first) in
    let below : i < length frames = omega (arith, first) in
    let pte = get_or q.mm.pgd (paging_pgn addr + i) 0 in
    let size_q = a.mapped.size in
    let frame = a.mapped.frame i below in
    let room =
      InStorage-get_or (length p.mram.storage) i frames below
        (InStorage-pushed (length p.mram.storage) taken [] stored tt) in
    let same_size : length q.mram.storage ≡ length p.mram.storage = ap length a.storage in
    (
      phyaddr (pte_fpn pte) (paging_offst (addr + offset)),
      record {
        pte = pte;
        entry =
            ap (get_elem? q.mm.pgd) place
            ∙ get_elem?-eq-get_or q.mm.pgd (paging_pgn addr + i) 0 (omega arith);
        present = a.mapped.present i below;
        online = a.mapped.online i below;
        random = a.random ∙ flag;
        place = refl;
        inside = omega arith;
      },
    )

abbrev address : Option ℕ → ℕ
address none = 0
address (some a) = a

-- With the conditions under which `__alloc` succeeds, a random-access RAM and frames that lie in it: at
-- an offset below the size and in the pages that were mapped, of the region that a call of `__alloc`
-- gave, `__write` succeeds and `__read` then gives the value.
pub alloc-write-read :
    (p q : Proc) (vma : Vma) (rgid size addr offset v : ℕ) (taken rest : List ℕ)
    → p.mm.mmap ≡ vma ∷ []
    → vma.vm_end ≡ vma.sbrk
    → IsWithin vma.sbrk vma.vm_freerg_list
    → rgid < length p.mm.symrgtbl
    → rgid < 30
    → length taken ≡ pages size
    → 0 < p.mram.maxsz
    → p.mram.free_fp_list ≡ of_frames (taken ++ rest)
    → p.mram.rdmflg ≡ true
    → InStorage (length p.mram.storage) taken
    → IsTable p.mm.pgd
    → length p.mm.pgd ≤ 2 ^ 14
    → vma.sbrk + 256 * length taken ≤ 256 * length p.mm.pgd
    → alloc p 0 rgid size ≡ ok (some addr, q)
    → offset < size
    → addr % 256 + offset < 256 * length taken
    → (q' : Proc) × (write q 0 rgid offset v ≡ ok (true, q'))
      × (read q' 0 rgid offset ≡ ok (true, some v, q'))
alloc-write-read p q vma rgid size addr offset v taken rest one level within sym_in in_table full
      pos e flag stored t small bound called inside mapped =
    let (addr', q', returns, a', same_tlb, same_pid, place) =
      alloc_lem p vma rgid size taken rest one level within sym_in (omega arith) full pos e t small
        bound in
    let same : (some addr', q') ≡ (some addr, q) = ok_inj (sym returns ∙ called) in
    let a : Allocated p q rgid size addr taken rest =
      subst (λ x. Allocated p x.1 rgid size (address x.0) taken rest) same a' in
    let (phys, here) =
      Allocated-Resident p q rgid size addr offset taken rest a small flag stored
        (omega (arith, a.low, a.room, a.covered)) mapped
        (pgn_bound addr (length taken) (length p.mm.pgd) a.low small) in
    let (out, wrote, read_back, others) =
      read-write q 0 rgid offset v phys (region addr (addr + a.extent))
        (Allocated-InRegion p q rgid size addr offset taken rest a sym_in in_table small inside)
        here in
    (out, wrote, read_back)
