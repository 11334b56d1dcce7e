-- ===== src/CpuTlb/Coherent.antt =====
-- A write and a read through the TLB, against the page table.
use os_assignment_hk.Common.{
  ℕ, ◌+◌, ◌%◌, ◌^◌, ◌<◌, ◌≡◌, refl, sym, ◌∙◌, ap, arith, true, false, none, some, length, get_or,
  get_or-set_self, length-set, ok, ok_inj, ◌⊎◌, inl, inr,
}
use os_assignment_hk.Pte.{pte_fpn, paging_pgn, paging_offst}
use os_assignment_hk.Pte.Laws.{pte_fpn_lem}
use os_assignment_hk.Pte.RoundTrip.{paging_pgn-offst}
use os_assignment_hk.Memphy.Access.{memphy_read_inside, memphy_write_inside}
use os_assignment_hk.Tlb.{Tlb, tlb_cache_read, tlb_cache_write}
use os_assignment_hk.Tlb.Laws.{tlb_cache_read-write, tlb_cache_write_lem}
use os_assignment_hk.Vm.{Region, Proc, get_vma_by_num, get_symrg_byid, symrg}
use os_assignment_hk.Vm.Page.{pg_getpage, pg_getval, phyaddr}
use os_assignment_hk.Vm.Bytes.{Resident, with_byte, pg_getval_resident}
use os_assignment_hk.Vm.ReadWrite.{InRegion}
use os_assignment_hk.CpuTlb.{lock, unlock, leave, frame_of, tlbread, tlbwrite}

-- The TLB has no frame for the page of the address, or the one of its page table entry, a 32-bit word;
-- and it has an entry to store one in.
pub record IsCoherent (p : Proc) (addr pte : ℕ) : Type 0 where
  pub cached :
      (tlb_cache_read p.tlb p.pid (paging_pgn addr) ≡ none)
      ⊎ (tlb_cache_read p.tlb p.pid (paging_pgn addr) ≡ some (pte_fpn pte))
  pub word : pte < 2 ^ 32
  pub some_entry : 0 < length p.tlb

abbrev with_tlb : Proc → Tlb → Proc
with_tlb p tlb = record p { tlb = tlb }

frame_of_miss :
    (p : Proc) (pgn r f : ℕ) (tlb : Tlb)
    → tlb_cache_read p.tlb p.pid pgn ≡ none
    → pg_getpage p pgn ≡ ok (some f, p)
    → tlb_cache_write p.tlb p.pid pgn f r ≡ ok tlb
    → frame_of p pgn r ≡ ok (some f, with_tlb p tlb)
unfolding frame_of
frame_of_miss p pgn r f tlb miss got stored = ground arith

frame_of_hit :
    (p : Proc) (pgn r f : ℕ)
    → tlb_cache_read p.tlb p.pid pgn ≡ some f
    → frame_of p pgn r ≡ ok (some f, p)
unfolding frame_of
frame_of_hit p pgn r f hit = ground arith

frame_of_lem :
    {p : Proc} {addr phys : ℕ} (r : ℕ) (d : Resident p addr phys)
    → addr < 2 ^ 32
    → IsCoherent p addr d.pte
    → (tlb : Tlb) × (frame_of p (paging_pgn addr) r ≡ ok (some (pte_fpn d.pte), with_tlb p tlb))
      × (p.pid < 2 ^ 31 → tlb_cache_read tlb p.pid (paging_pgn addr) ≡ some (pte_fpn d.pte))
unfolding pg_getpage
frame_of_lem {p} {addr} {phys} r d small c = elim c.cached [
  | inr hit ↦ (p.tlb, frame_of_hit p (paging_pgn addr) r (pte_fpn d.pte) hit, λ low. hit)
  | inl miss ↦
      let page = paging_pgn-offst addr small in
      let fits : pte_fpn d.pte % 2 ^ 13 ≡ pte_fpn d.pte = omega (arith, pte_fpn_lem d.pte c.word) in
      let (tlb, stored, size) =
        tlb_cache_write_lem p.tlb p.pid (paging_pgn addr) (pte_fpn d.pte) r c.some_entry in
      let got : pg_getpage p (paging_pgn addr) ≡ ok (some (pte_fpn d.pte), p) =
        ground (arith, d.entry, d.present, d.online) in
      (
        tlb,
        frame_of_miss p (paging_pgn addr) r (pte_fpn d.pte) tlb miss got stored,
        λ low.
            let (tlb₂, stored₂, found, size₂) =
              tlb_cache_read-write p.tlb p.pid (paging_pgn addr) (pte_fpn d.pte) r c.some_entry
                (omega arith) low in
            let same : tlb ≡ tlb₂ = ok_inj (sym stored ∙ stored₂) in
            ap (λ x. tlb_cache_read x p.pid (paging_pgn addr)) same ∙ found ∙ ap some fits,
      )
]

-- The operations on a place of a region, once the frame is known.
module _ {p : Proc} {rgid offset : ℕ} {region : Region} (i : InRegion p 0 rgid offset region)
    (r f phys : ℕ) (tlb : Tlb)
    (known : frame_of p (paging_pgn (region.rg_start + offset)) r ≡ ok (some f, with_tlb p tlb))
    (place : phyaddr f (paging_offst (region.rg_start + offset)) ≡ phys)
    (random : p.mram.rdmflg ≡ true) (inside : phys < length p.mram.storage) where
  exact_address : (region.rg_start + offset) % 2 ^ 64 % 2 ^ 32 ≡ region.rg_start + offset
  exact_address = omega (arith, i.low, i.fits)

  tlbwrite_lem :
      (v : ℕ)
      → tlbwrite (record { locked = false; proc = p }) r v rgid offset
        ≡ ok (true, record { locked = false; proc = with_byte (with_tlb p tlb) phys v })
  unfolding tlbwrite lock unlock leave get_symrg_byid get_vma_by_num symrg
  tlbwrite_lem v = ground (
    arith,
    i.area,
    i.symbol,
    i.in_table,
    i.low,
    i.fits,
    exact_address,
    memphy_write_inside p.mram phys v random inside,
  )

  tlbread_lem :
      tlbread (record { locked = false; proc = p }) r rgid offset
      ≡ ok (
        true,
        some (get_or p.mram.storage phys 0),
        record { locked = false; proc = with_tlb p tlb },
      )
  unfolding tlbread unlock get_symrg_byid get_vma_by_num symrg
  tlbread_lem = ground (
    arith,
    i.area,
    i.symbol,
    i.in_table,
    i.low,
    i.fits,
    exact_address,
    memphy_read_inside p.mram phys random inside,
  )

InRegion-written :
    {p : Proc} {rgid offset : ℕ} {region : Region} (tlb : Tlb) (a v : ℕ)
    → InRegion p 0 rgid offset region
    → InRegion (with_byte (with_tlb p tlb) a v) 0 rgid offset region
InRegion-written tlb a v i = record {
  vma = i.vma;
  area = i.area;
  symbol = i.symbol;
  in_table = i.in_table;
  low = i.low;
  fits = i.fits;
  in_use = i.in_use;
}

Resident-written :
    {p : Proc} {addr phys : ℕ} (tlb : Tlb) (a v : ℕ)
    → Resident p addr phys
    → Resident (with_byte (with_tlb p tlb) a v) addr phys
Resident-written {p} tlb a v d = record {
  pte = d.pte;
  entry = d.entry;
  present = d.present;
  online = d.online;
  random = d.random;
  place = d.place;
  inside = omega (arith, length-set p.mram.storage a v, d.inside);
}

-- A write succeeds, whatever the TLB has, and the page table then gives the byte.
pub tlbwrite-pg_getval :
    (p : Proc) (rgid offset v phys r : ℕ) (region : Region)
    → InRegion p 0 rgid offset region
    → (d : Resident p (region.rg_start + offset) phys)
    → IsCoherent p (region.rg_start + offset) d.pte
    → (q : Proc) × (tlbwrite (record { locked = false; proc = p }) r v rgid offset
        ≡ ok (true, record { locked = false; proc = q }))
      × (pg_getval q (region.rg_start + offset) ≡ ok (true, some v, q))
      × (q.pid ≡ p.pid)
tlbwrite-pg_getval p rgid offset v phys r region i d c =
    let (tlb, known, found) = frame_of_lem r d (omega (arith, i.low, i.fits)) c in
    let q = with_byte (with_tlb p tlb) phys v in
    (
      q,
      tlbwrite_lem i r (pte_fpn d.pte) phys tlb known d.place d.random d.inside v,
      pg_getval_resident (Resident-written tlb phys v d)
          ∙ ap (λ b. ok (true, some b, q)) (get_or-set_self p.mram.storage phys v 0 d.inside),
      refl,
    )

-- For a thread that does not hold the lock, an offset in a region in use below 2^31 whose page is in
-- RAM with a 32-bit entry, a process whose id is below 2^31, and a TLB of at least one entry that has
-- no frame for the page or the right one, `tlbwrite` succeeds, releases the lock and keeps the process's id. `tlbread` at that offset then gives the value,
-- changes nothing, and agrees with `pg_getval`, which reads through the page table. What `rand`
-- returns plays no part.
pub tlbread-tlbwrite :
    (p : Proc) (rgid offset v phys r r' : ℕ) (region : Region)
    → InRegion p 0 rgid offset region
    → (d : Resident p (region.rg_start + offset) phys)
    → IsCoherent p (region.rg_start + offset) d.pte
    → p.pid < 2 ^ 31
    → (q : Proc) × (tlbwrite (record { locked = false; proc = p }) r v rgid offset
        ≡ ok (true, record { locked = false; proc = q }))
      × (tlbread (record { locked = false; proc = q }) r' rgid offset
          ≡ ok (true, some v, record { locked = false; proc = q }))
      × (pg_getval q (region.rg_start + offset) ≡ ok (true, some v, q))
      × (q.pid ≡ p.pid)
tlbread-tlbwrite p rgid offset v phys r r' region i d c low =
    let addr = region.rg_start + offset in
    let (tlb, known, found) = frame_of_lem r d (omega (arith, i.low, i.fits)) c in
    let q = with_byte (with_tlb p tlb) phys v in
    let j = InRegion-written tlb phys v i in
    let e = Resident-written tlb phys v d in
    let again = frame_of_hit q (paging_pgn addr) r' (pte_fpn d.pte) (found low) in
    let byte = get_or-set_self p.mram.storage phys v 0 d.inside in
    (
      q,
      tlbwrite_lem i r (pte_fpn d.pte) phys tlb known d.place d.random d.inside v,
      tlbread_lem j r' (pte_fpn d.pte) phys tlb again d.place d.random e.inside
          ∙ ap (λ b. ok (true, some b, record { locked = false; proc = q })) byte,
      pg_getval_resident e ∙ ap (λ b. ok (true, some b, q)) byte,
      refl,
    )
