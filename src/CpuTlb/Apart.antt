-- ===== src/CpuTlb/Apart.antt =====
-- Two processes over one RAM: what one of them does leaves the bytes of the other, as long as they have no
-- frame in common and the free frames are nobody's.
use mathlib.Core.Path.{subst}
use mathlib.Core.Option.{some-injective}
use os_assignment_hk.Common.{
  ℕ, ◌+◌, ◌*◌, ◌^◌, ◌<◌, ◌≤◌, ◌≡◌, ◌≢◌, refl, sym, ◌∙◌, ap, arith, true, some, List, [], ◌∷◌, ◌++◌,
  length, get_or, get_elem?-eq-get_or, get_elem?-some_lt, get_or-set_ne, ok,
}
use os_assignment_hk.Pte.{page_present, page_swapped, pte_fpn, paging_pgn}
use os_assignment_hk.Pte.RoundTrip.{paging_pgn-offst}
use os_assignment_hk.Memphy.Frames.{of_frames}
use os_assignment_hk.Vm.{Region, Vma, Proc}
use os_assignment_hk.Vm.Map.{IsTable, pushed}
use os_assignment_hk.Vm.Bytes.{Resident, with_byte, pg_getval_resident, Resident-with_byte}
use os_assignment_hk.Vm.Page.{pg_getval}
use os_assignment_hk.Vm.ReadWrite.{InRegion, write-Resident}
use os_assignment_hk.Vm.Ops.{pages, alloc, write}
use os_assignment_hk.Vm.Alloc.{IsWithin, alloc_lem}
use os_assignment_hk.CpuTlb.Owners.{
  Owns, IsApart, Spares, Spares-append, Spares-pushed, keeps_own_frames,
}

-- the page of an address that has a byte in RAM
Resident-Owns :
    (p : Proc) (addr phys : ℕ) → (r : Resident p addr phys) → Owns p.mm.pgd (pte_fpn r.pte)
Resident-Owns p addr phys r =
    let pg = paging_pgn addr in
    let inside = get_elem?-some_lt p.mm.pgd pg r.entry in
    let entry : get_or p.mm.pgd pg 0 ≡ r.pte =
      some-injective _ _ (sym (get_elem?-eq-get_or p.mm.pgd pg 0 inside) ∙ r.entry) in
    (
      pg,
      (
        (inside, ap page_present entry ∙ r.present, ap page_swapped entry ∙ r.online),
        ap pte_fpn entry,
      ),
    )

-- Two bytes of processes that are apart are two bytes of RAM.
apart_bytes :
    (p other : Proc) (addr phys addr' phys' : ℕ)
    → IsApart p.mm.pgd other.mm.pgd
    → addr < 2 ^ 32
    → addr' < 2 ^ 32
    → Resident p addr phys
    → Resident other addr' phys'
    → phys ≢ phys'
apart_bytes p other addr phys addr' phys' apart ha hb r r' same =
    let off = (paging_pgn-offst addr ha).1 in
    let off' = (paging_pgn-offst addr' hb).1 in
    let frame : pte_fpn r.pte ≡ pte_fpn r'.pte = omega (arith, r.place, r'.place) in
    apart (pte_fpn r.pte) (Resident-Owns p addr phys r)
      (subst (Owns other.mm.pgd) (sym frame) (Resident-Owns other addr' phys' r'))

-- the other process, over the RAM that the first one leaves
abbrev pub over : Proc → Proc → Proc
over other p = record other { mram = p.mram }

-- For two processes over one RAM that have no frame in common, none of which owns a free frame, and free
-- frames below 2^13: with the conditions under which `__alloc` succeeds, it succeeds for the one, the two
-- have no frame in common afterwards, the other owns none of the frames that are left, and every byte
-- of the other that is in RAM is as before.
pub alloc_disjoint :
    (p other : Proc) (vma : Vma) (rgid size : ℕ) (taken rest : List ℕ)
    → p.mm.mmap ≡ vma ∷ []
    → vma.vm_end ≡ vma.sbrk
    → IsWithin vma.sbrk vma.vm_freerg_list
    → rgid < length p.mm.symrgtbl
    → 0 < size
    → length taken ≡ pages size
    → 0 < p.mram.maxsz
    → p.mram.free_fp_list ≡ of_frames (taken ++ rest)
    → IsTable p.mm.pgd
    → length p.mm.pgd ≤ 2 ^ 14
    → vma.sbrk + 256 * length taken ≤ 256 * length p.mm.pgd
    → IsApart p.mm.pgd other.mm.pgd
    → Spares other.mm.pgd (taken ++ rest)
    → (addr : ℕ) × (q : Proc) × (alloc p 0 rgid size ≡ ok (some addr, q))
      × IsApart q.mm.pgd other.mm.pgd
      × (q.mram.free_fp_list ≡ of_frames rest)
      × Spares other.mm.pgd rest
      × ((addr' phys' : ℕ)
          → Resident (over other p) addr' phys'
          → (byte : ℕ) × (pg_getval (over other p) addr' ≡ ok (true, some byte, over other p))
            × (pg_getval (over other q) addr' ≡ ok (true, some byte, over other q)))
alloc_disjoint p other vma rgid size taken rest one level within sym_in some_byte full pos e t small
      bound apart spares =
    let (addr, q, returns, a, same_tlb, same_pid, place) =
      alloc_lem p vma rgid size taken rest one level within sym_in some_byte full pos e t small
        bound in
    let (of_taken, of_rest) = Spares-append other.mm.pgd taken rest spares in
    (
      addr,
      q,
      returns,
      keeps_own_frames p.mm.pgd q.mm.pgd other.mm.pgd (paging_pgn addr) (pushed taken []) a.mapped
          (Spares-pushed other.mm.pgd taken [] of_taken tt) apart,
      a.frames,
      of_rest,
      λ addr' phys' r'.
          let after : Resident (over other q) addr' phys' = record {
            pte = r'.pte;
            entry = r'.entry;
            present = r'.present;
            online = r'.online;
            random = a.random ∙ r'.random;
            place = r'.place;
            inside = subst (λ st. phys' < length st) (sym a.storage) r'.inside;
          } in
          (
            get_or p.mram.storage phys' 0,
            pg_getval_resident r',
            pg_getval_resident after
                ∙ ap (λ st. ok (true, some (get_or st phys' 0), over other q)) a.storage,
          ),
    )

-- For two processes over one RAM that have no frame in common, and an offset of the one in a region in
-- use below 2^31 whose page is in RAM: `__write` there succeeds and leaves every byte of the other that
-- is in RAM at an address below 2^32 as it was.
pub write_apart :
    (p other : Proc) (rgid offset v phys : ℕ) (r : Region)
    → IsApart p.mm.pgd other.mm.pgd
    → InRegion p 0 rgid offset r
    → Resident p (r.rg_start + offset) phys
    → (q : Proc) × (write p 0 rgid offset v ≡ ok (true, q))
      × (q.mm.pgd ≡ p.mm.pgd)
      × ((addr' phys' : ℕ)
          → addr' < 2 ^ 32
          → Resident (over other p) addr' phys'
          → (byte : ℕ) × (pg_getval (over other p) addr' ≡ ok (true, some byte, over other p))
            × (pg_getval (over other q) addr' ≡ ok (true, some byte, over other q)))
write_apart p other rgid offset v phys r apart i stands =
    let q = with_byte p phys v in
    (
      q,
      write-Resident i phys v stands,
      refl,
      λ addr' phys' low r'. (
        get_or p.mram.storage phys' 0,
        pg_getval_resident r',
        pg_getval_resident (Resident-with_byte r' phys v)
            ∙ ap (λ b. ok (true, some b, over other q))
                (get_or-set_ne p.mram.storage phys phys' v 0 (
                  apart_bytes p (over other p) (r.rg_start + offset) phys addr' phys' apart
                    (omega (arith, i.low, i.fits)) low stands r')),
      ),
    )
