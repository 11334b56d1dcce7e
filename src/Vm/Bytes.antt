-- ===== src/Vm/Bytes.antt =====
-- Bytes of a page that is in RAM, and what `pg_getpage` does when RAM is full.
use os_assignment_hk.Common.{
  ℕ, ◌<◌, ◌≡◌, ◌≢◌, refl, ◌∙◌, ap, arith, true, false, none, some, List, [], ◌∷◌, ◌++◌, length,
  get_elem?, get_or, set, length-set, get_or-set_self, get_or-set_ne, ok,
}
use os_assignment_hk.Pte.{page_present, page_swapped, pte_fpn, paging_pgn, paging_offst}
use os_assignment_hk.Memphy.{null}
use os_assignment_hk.Memphy.Access.{memphy_read_inside, memphy_write_inside}
use os_assignment_hk.Memphy.Frames.{get_freefp_lem}
use os_assignment_hk.Vm.{Mm, Proc, split_last, find_victim_page, enlist_pgn_node}
use os_assignment_hk.Vm.Page.{
  pg_getpage, pg_getval, pg_setval, phyaddr, swap_with_victim, victim_search,
}

-- The address lies in a page that is in RAM, and its byte at `phys` in the storage.
pub record Resident (p : Proc) (addr phys : ℕ) : Type 0 where
  pub pte : ℕ
  pub entry : get_elem? p.mm.pgd (paging_pgn addr) ≡ some pte
  pub present : page_present pte ≡ true
  pub online : page_swapped pte ≡ false
  pub random : p.mram.rdmflg ≡ true
  pub place : phyaddr (pte_fpn pte) (paging_offst addr) ≡ phys
  pub inside : phys < length p.mram.storage

-- the process with the byte at `phys` replaced
abbrev pub with_byte : Proc → ℕ → ℕ → Proc
with_byte p phys v = record p { mram = record p.mram { storage = set p.mram.storage phys v } }

module _ {p : Proc} {addr phys : ℕ} (r : Resident p addr phys) where
  getpage_resident : pg_getpage p (paging_pgn addr) ≡ ok (some (pte_fpn r.pte), p)
  unfolding pg_getpage
  getpage_resident = ground (arith, r.entry, r.present, r.online)

  pub pg_getval_resident : pg_getval p addr ≡ ok (true, some (get_or p.mram.storage phys 0), p)
  unfolding pg_getval
  pg_getval_resident =
      let read = memphy_read_inside p.mram phys r.random r.inside in
      rw getpage_resident (rw r.place (rw read refl))

  pub pg_setval_resident : (v : ℕ) → pg_setval p addr v ≡ ok (true, with_byte p phys v)
  unfolding pg_setval
  pg_setval_resident v =
      let written = memphy_write_inside p.mram phys v r.random r.inside in
      rw getpage_resident (rw r.place (rw written refl))

  -- A byte written anywhere leaves the address where it is.
  pub Resident-with_byte : (a v : ℕ) → Resident (with_byte p a v) addr phys
  Resident-with_byte a v = record {
    pte = r.pte;
    entry = r.entry;
    present = r.present;
    online = r.online;
    random = r.random;
    place = r.place;
    inside = omega (arith, length-set p.mram.storage a v, r.inside);
  }

-- For an address of a page that is in RAM, with its byte in the storage of a random access device,
-- `pg_setval` succeeds, and `pg_getval` then gives the value written; every other such address, one
-- with another place in RAM, gives the byte that it gave before.
pub pg_getval-setval :
    (p : Proc) (addr phys v : ℕ)
    → Resident p addr phys
    → (q : Proc) × (pg_setval p addr v ≡ ok (true, q))
      × (pg_getval q addr ≡ ok (true, some v, q))
      × ((addr' phys' : ℕ)
          → Resident p addr' phys'
          → phys ≢ phys'
          → (byte : ℕ) × (pg_getval p addr' ≡ ok (true, some byte, p))
            × (pg_getval q addr' ≡ ok (true, some byte, q)))
pg_getval-setval p addr phys v r =
    let here = get_or-set_self p.mram.storage phys v 0 r.inside in
    (
      with_byte p phys v,
      pg_setval_resident r v,
      pg_getval_resident (Resident-with_byte r phys v)
          ∙ ap (λ b. ok (true, some b, with_byte p phys v)) here,
      λ addr' phys' r' ne. (
        get_or p.mram.storage phys' 0,
        pg_getval_resident r',
        pg_getval_resident (Resident-with_byte r' phys v)
            ∙ ap (λ b. ok (true, some b, with_byte p phys v))
                (get_or-set_ne p.mram.storage phys phys' v 0 ne),
      ),
    )

split_last-append : (l : List ℕ) (x : ℕ) → split_last (l ++ x ∷ []) ≡ some (x, l)
unfolding split_last
split_last-append [] x = refl
split_last-append (y ∷ l) x = rw (split_last-append l x) refl

-- `find_victim_page` takes the page that was enlisted first among those of the list: a page enlisted
-- on a list that is not empty is not the victim, and the victim is the last of the list.
pub find_victim_page_fifo :
    (mm : Mm) (l : List ℕ) (oldest newest : ℕ)
    → mm.fifo_pgn ≡ l ++ oldest ∷ []
    → (find_victim_page mm ≡ some (oldest, record mm { fifo_pgn = l }))
      × (find_victim_page (enlist_pgn_node mm newest)
          ≡ some (oldest, record mm { fifo_pgn = newest ∷ l }))
unfolding find_victim_page enlist_pgn_node split_last
find_victim_page_fifo mm l oldest newest e =
    let last = ap split_last e ∙ split_last-append l oldest in (ground arith, ground arith)

getval_fails :
    (p q : Proc) (addr : ℕ)
    → pg_getpage p (paging_pgn addr) ≡ ok (none, q)
    → pg_getval p addr ≡ ok (false, none, q)
unfolding pg_getval
getval_fails p q addr h = rw h refl

setval_fails :
    (p q : Proc) (addr v : ℕ)
    → pg_getpage p (paging_pgn addr) ≡ ok (none, q)
    → pg_setval p addr v ≡ ok (false, q)
unfolding pg_setval
setval_fails p q addr v h = rw h refl

-- For an address of a page in swap, a RAM of a size above 0 with no free frame and a FIFO list that is not empty, whose
-- last page has an entry, whatever frames the swap devices have free: `pg_getpage` fails, with nothing
-- changed but the last page taken off the list, and so do a read and a write of the byte.
pub pg_getpage_full :
    (p : Proc) (addr v pte victim victim_pte : ℕ) (l : List ℕ)
    → get_elem? p.mm.pgd (paging_pgn addr) ≡ some pte
    → page_present pte ≡ true
    → page_swapped pte ≡ true
    → 0 < p.mram.maxsz
    → p.mram.free_fp_list ≡ null
    → p.mm.fifo_pgn ≡ l ++ victim ∷ []
    → get_elem? p.mm.pgd victim ≡ some victim_pte
    → let q = record p { mm = record p.mm { fifo_pgn = l } } in
      (pg_getpage p (paging_pgn addr) ≡ ok (none, q))
      × (pg_getval p addr ≡ ok (false, none, q))
      × (pg_setval p addr v ≡ ok (false, q))
unfolding pg_getpage swap_with_victim victim_search
pg_getpage_full p addr v pte victim victim_pte l he hp hs pos full fifo hv =
    let no_frame = (get_freefp_lem p.mram [] pos full).0 in
    let found = (find_victim_page_fifo p.mm l victim 0 fifo).0 in
    let q = record p { mm = record p.mm { fifo_pgn = l } } in
    let fails : pg_getpage p (paging_pgn addr) ≡ ok (none, q) = ground (arith, no_frame, found) in
    (fails, getval_fails p q addr fails, setval_fails p q addr v fails)
