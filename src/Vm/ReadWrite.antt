-- ===== src/Vm/ReadWrite.antt =====
-- `__write` and `__read` on a region.
use os_assignment_hk.Common.{
  ℕ, ◌+◌, ◌%◌, ◌^◌, ◌<◌, ◌≤◌, ◌≡◌, ◌≢◌, refl, ◌∙◌, ap, arith, true, false, none, some, get_elem?,
  get_or, get_or-set_self, get_or-set_ne, ok, ◌>>=◌,
}
use os_assignment_hk.Pte.{page_present, paging_pgn}
use os_assignment_hk.Vm.{Region, Vma, Proc, get_vma_by_num, get_symrg_byid, symrg}
use os_assignment_hk.Vm.Page.{pg_getpage, pg_getval, pg_setval}
use os_assignment_hk.Vm.Bytes.{
  Resident, with_byte, pg_getval_resident, pg_setval_resident, Resident-with_byte,
}
use os_assignment_hk.Vm.Ops.{read, write, to_int}

-- The symbol `rgid` is a region in the lower half of the 32-bit addresses, and `offset` does not
-- lead past its end.
pub record InRegion (p : Proc) (vmaid rgid offset : ℕ) (r : Region) : Type 0 where
  pub vma : Vma
  pub area : get_elem? p.mm.mmap vmaid ≡ some vma
  pub symbol : get_elem? p.mm.symrgtbl rgid ≡ some r
  pub in_table : rgid < 30
  pub low : r.rg_end < 2 ^ 31
  pub fits : r.rg_start + offset ≤ r.rg_end
  pub in_use : r.rg_start < r.rg_end

module _ {p : Proc} {vmaid rgid offset : ℕ} {r : Region} (i : InRegion p vmaid rgid offset r) where
  -- the address as the code computes it
  exact_address : to_int ((r.rg_start + offset) % 2 ^ 64) ≡ r.rg_start + offset
  exact_address = omega (arith, i.low, i.fits)

  read_lem :
      read p vmaid rgid offset
      ≡ (pg_getval p (r.rg_start + offset) >>= λ (status, v, q). ok (true, v, q))
  unfolding read get_symrg_byid symrg get_vma_by_num
  read_lem = ground (arith, i.area, i.symbol, i.in_table, i.low, i.fits, i.in_use, exact_address)

  write_lem :
      (v : ℕ)
      → write p vmaid rgid offset v
        ≡ (pg_setval p (r.rg_start + offset) v >>= λ (status, q). ok (true, q))
  unfolding write get_symrg_byid symrg get_vma_by_num
  write_lem v = ground (arith, i.area, i.symbol, i.in_table, i.low, i.fits, exact_address)

  InRegion-with_byte : (a v : ℕ) → InRegion (with_byte p a v) vmaid rgid offset r
  InRegion-with_byte a v = record {
    vma = i.vma;
    area = i.area;
    symbol = i.symbol;
    in_table = i.in_table;
    low = i.low;
    fits = i.fits;
    in_use = i.in_use;
  }

  read-Resident :
      (phys : ℕ)
      → Resident p (r.rg_start + offset) phys
      → read p vmaid rgid offset ≡ ok (true, some (get_or p.mram.storage phys 0), p)
  read-Resident phys here =
      read_lem ∙ ap (λ m. m >>= λ (status, v, q). ok (true, v, q)) (pg_getval_resident here)

  pub write-Resident :
      (phys v : ℕ)
      → Resident p (r.rg_start + offset) phys
      → write p vmaid rgid offset v ≡ ok (true, with_byte p phys v)
  write-Resident phys v here =
      write_lem v ∙ ap (λ m. m >>= λ (status, q). ok (true, q)) (pg_setval_resident here v)

-- For an offset in a region in use below 2^31, whose page is in RAM, `__write` succeeds and `__read`
-- at that offset then gives the value written; at every other such place, of this region or another,
-- with its byte elsewhere in RAM, `__read` gives the byte that it gave before.
pub read-write :
    (p : Proc) (vmaid rgid offset v phys : ℕ) (r : Region)
    → InRegion p vmaid rgid offset r
    → Resident p (r.rg_start + offset) phys
    → (q : Proc) × (write p vmaid rgid offset v ≡ ok (true, q))
      × (read q vmaid rgid offset ≡ ok (true, some v, q))
      × ((rgid' offset' phys' : ℕ) (r' : Region)
          → InRegion p vmaid rgid' offset' r'
          → Resident p (r'.rg_start + offset') phys'
          → phys ≢ phys'
          → (byte : ℕ) × (read p vmaid rgid' offset' ≡ ok (true, some byte, p))
            × (read q vmaid rgid' offset' ≡ ok (true, some byte, q)))
read-write p vmaid rgid offset v phys r i here =
    let q = with_byte p phys v in
    (
      q,
      write-Resident i phys v here,
      read-Resident (InRegion-with_byte i phys v) phys (Resident-with_byte here phys v)
          ∙ ap (λ b. ok (true, some b, q)) (get_or-set_self p.mram.storage phys v 0 here.inside),
      λ rgid' offset' phys' r' i' there ne. (
        get_or p.mram.storage phys' 0,
        read-Resident i' phys' there,
        read-Resident (InRegion-with_byte i' phys v) phys' (Resident-with_byte there phys v)
            ∙ ap (λ b. ok (true, some b, q)) (get_or-set_ne p.mram.storage phys phys' v 0 ne),
      ),
    )

-- For an offset in a region in use below 2^31, whose page has an entry that is not present, `__read`
-- and `__write` return 0 all the same: no byte is read, and nothing is written.
pub absent_page_ignored :
    (p : Proc) (vmaid rgid offset v pte : ℕ) (r : Region)
    → InRegion p vmaid rgid offset r
    → get_elem? p.mm.pgd (paging_pgn (r.rg_start + offset)) ≡ some pte
    → page_present pte ≡ false
    → (read p vmaid rgid offset ≡ ok (true, none, p)) × (write p vmaid rgid offset v ≡ ok (true, p))
unfolding pg_getpage pg_getval pg_setval
absent_page_ignored p vmaid rgid offset v pte r i entry absent =
    let gone : pg_getpage p (paging_pgn (r.rg_start + offset)) ≡ ok (none, p) = ground arith in
    let got : pg_getval p (r.rg_start + offset) ≡ ok (false, none, p) = rw gone refl in
    let not_set : pg_setval p (r.rg_start + offset) v ≡ ok (false, p) = rw gone refl in
    (
      read_lem i ∙ ap (λ m. m >>= λ (status, b, q). ok (true, b, q)) got,
      write_lem i v ∙ ap (λ m. m >>= λ (status, q). ok (true, q)) not_set,
    )
