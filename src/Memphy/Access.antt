-- ===== src/Memphy/Access.antt =====
-- Reading and writing the cells of a device.
use os_assignment_hk.Common.{
  ℕ, zero, suc, ◌+◌, ◌%◌, ◌<◌, ◌≡◌, ◌≢◌, ◌∙◌, arith, true, false, none, some, length, get_or, set,
  length-set, get_elem?-set_self, get_elem?-set_ne, get_elem?-eq-get_or, ok, lt→ltb, min,
}
use os_assignment_hk.Memphy.{
  Memphy, mv_loop, mv_csr, seq_read, seq_write, memphy_read, memphy_write,
}

-- a read inside the storage of a random access device
pub memphy_read_inside :
    (mp : Memphy) (addr : ℕ)
    → mp.rdmflg ≡ true
    → addr < length mp.storage
    → memphy_read (some mp) addr ≡ ok (some (get_or mp.storage addr 0), some mp)
unfolding memphy_read
memphy_read_inside mp addr r h = ground (arith, get_elem?-eq-get_or mp.storage addr 0)

-- a write inside it
pub memphy_write_inside :
    (mp : Memphy) (addr v : ℕ)
    → mp.rdmflg ≡ true
    → addr < length mp.storage
    → memphy_write (some mp) addr v
      ≡ ok (true, some (record mp { storage = set mp.storage addr v }))
unfolding memphy_write
memphy_write_inside mp addr v r h = let inside = lt→ltb addr (length mp.storage) h in ground arith

-- A write to a random access device at an address in its storage succeeds and keeps the size; a read
-- of that address then returns the byte, and a read of any other address in the storage what was
-- there before.
pub memphy_read-write :
    (mp : Memphy) (addr v : ℕ)
    → mp.rdmflg ≡ true
    → addr < length mp.storage
    → (mp' : Memphy) × (memphy_write (some mp) addr v ≡ ok (true, some mp'))
      × (memphy_read (some mp') addr ≡ ok (some v, some mp'))
      × ((a : ℕ)
          → a ≢ addr
          → a < length mp.storage
          → memphy_read (some mp') a ≡ ok (some (get_or mp.storage a 0), some mp'))
      × (length mp'.storage ≡ length mp.storage)
unfolding memphy_read memphy_write
memphy_read-write mp addr v r h =
    let st = set mp.storage addr v in
    let inside = lt→ltb addr (length mp.storage) h in
    (
      record mp { storage = st },
      ground arith,
      ground (arith, get_elem?-set_self mp.storage addr v h),
      (λ a ne lt.
          ground (arith, get_elem?-set_ne mp.storage addr a v, get_elem?-eq-get_or mp.storage a 0)),
      length-set mp.storage addr v,
    )

-- On a device that is not random access both reading and writing return -1, at every address, and
-- leave the device as it was.
pub sequential_refused :
    (mp : Memphy) (addr v : ℕ)
    → mp.rdmflg ≡ false
    → (memphy_read (some mp) addr ≡ ok (none, some mp))
      × (memphy_write (some mp) addr v ≡ ok (false, some mp))
unfolding memphy_read memphy_write seq_read seq_write
sequential_refused mp addr v r = (ground arith, ground arith)

mv_loop-below : (n cursor maxsz : ℕ) → cursor + n < maxsz → mv_loop n cursor maxsz ≡ cursor + n
unfolding mv_loop
mv_loop-below zero cursor maxsz h = omega arith
mv_loop-below (suc n) cursor maxsz h =
    let step : (cursor + 1) % maxsz ≡ cursor + 1 = grind arith in
    rw step (mv_loop-below n (cursor + 1) maxsz (omega arith) ∙ omega arith)

-- For an offset below the size of the device `MEMPHY_mv_csr` leaves the cursor at that offset.
pub mv_csr_lem : (mp : Memphy) (offset : ℕ) → offset < mp.maxsz → (mv_csr mp offset).cursor ≡ offset
unfolding mv_csr
mv_csr_lem mp offset h =
    let rounds : min offset mp.maxsz ≡ offset = omega arith in
    rw rounds (mv_loop-below offset 0 mp.maxsz (omega arith) ∙ omega arith)
