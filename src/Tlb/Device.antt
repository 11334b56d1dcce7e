-- ===== src/Tlb/Device.antt =====
-- src/cpu-tlbcache.c: the operations of the TLB written as they are there, as loops over the indices
-- of the device that read and write it through `TLBMEMPHY_read` and `TLBMEMPHY_write`. The storage
-- is given as its 64-bit entries; an index with no entry is a fault.
pub mod Rounds
pub mod Loops
use os_assignment_hk.Common.{
  ℕ, zero, suc, ◌+◌, ◌/◌, ◌%◌, Bool, true, false, not, ltb, ◌&&◌, ◌==◌, Option, none, some, length,
  get_elem?, set, Result, ok, fault, ◌>>=◌, must, if◌then◌else◌,
}
use os_assignment_hk.Tlb.{
  Tlb, tlb_valid, tlb_tag, tlb_pid, tlb_frmnum, set_tlb_valid, set_tlb_entry, sign_extend, hits,
}

pub record TlbMemphy : Type 0 where
  pub storage : Tlb
  pub maxsz : ℕ

-- `int storageSz = tlb->maxsz / sizeof(TLB_entry_t);`
pub storage_sz : TlbMemphy → ℕ
storage_sz tlb = tlb.maxsz / 8

-- The status is an option, `none` for -1, with the value that is stored through the pointer.
pub tlbmemphy_read : Option TlbMemphy → ℕ → Result (Option ℕ)
tlbmemphy_read none addr = ok none
tlbmemphy_read (some mp) addr = must (get_elem? mp.storage addr) >>= λ value. ok (some value)

-- The status is `true` for 0 and `false` for -1.
pub tlbmemphy_write : Option TlbMemphy → ℕ → ℕ → Result (Bool × Option TlbMemphy)
tlbmemphy_write none addr value = ok (false, none)
tlbmemphy_write (some mp) addr value =
    if ltb addr (length mp.storage)
    then ok (true, some (record mp { storage = set mp.storage addr value }))
    else fault

-- `TLB_entry_t entry = 0; TLBMEMPHY_read(tlb, index, &entry);`
pub read_entry : TlbMemphy → ℕ → Result ℕ
read_entry tlb index =
    tlbmemphy_read (some tlb) index >>= λ status. ok (elim status [ none ↦ 0 | some e ↦ e ])

-- `TLBMEMPHY_write(tlb, index, entry);`, whose status no caller looks at
pub write_entry : TlbMemphy → ℕ → ℕ → Result TlbMemphy
write_entry tlb index entry = tlbmemphy_write (some tlb) index entry >>= λ status.
    ok (elim status.1 [ none ↦ tlb | some mp ↦ mp ])

-- The loop of `tlb_cache_read`, with the rounds left.
pub read_loop : ℕ → ℕ → TlbMemphy → ℕ → ℕ → Result (Option ℕ)
read_loop zero index tlb pid pgnum = ok none
read_loop (suc n) index tlb pid pgnum =
    let later = read_loop n (index + 1) tlb pid pgnum in
    read_entry tlb index >>= λ entry.
    if hits pid pgnum entry then ok (some (tlb_frmnum entry)) else later

-- `tlb_cache_read`: a NULL device is dereferenced.
pub cache_read : Option TlbMemphy → ℕ → ℕ → Result (Option ℕ)
cache_read none pid pgnum = fault
cache_read (some tlb) pid pgnum = read_loop (storage_sz tlb) 0 tlb pid pgnum

-- A loop of `tlb_cache_write`, which stores at the first entry that passes the test and returns;
-- `none` where it comes to its end.
pub write_loop : (ℕ → Bool) → ℕ → ℕ → TlbMemphy → ℕ → Result (Option TlbMemphy)
write_loop test zero index tlb new = ok none
write_loop test (suc n) index tlb new =
    let later = write_loop test n (index + 1) tlb new in
    read_entry tlb index >>= λ entry.
    if test entry then (write_entry tlb index new >>= λ q. ok (some q)) else later

-- the end of `tlb_cache_write`, for the number `r` that `rand()` returns
pub replace_any : TlbMemphy → ℕ → ℕ → Result TlbMemphy
replace_any tlb new r =
    if storage_sz tlb == 0
    then fault
    else (read_entry tlb (r % storage_sz tlb) >>= λ victim.
        write_entry tlb (r % storage_sz tlb) new)

pub cache_write : Option TlbMemphy → ℕ → ℕ → ℕ → ℕ → Result TlbMemphy
cache_write none pid pgnum value r = fault
cache_write (some tlb) pid pgnum value r =
    let new = set_tlb_entry 1 pgnum pid value in
    write_loop (hits pid pgnum) (storage_sz tlb) 0 tlb new >>= λ existing. elim existing [
      | some q ↦ ok q
      | none ↦ write_loop (λ e. not (tlb_valid e)) (storage_sz tlb) 0 tlb new >>= λ space.
          elim space [ some q ↦ ok q | none ↦ replace_any tlb new r ]
    ]

-- `pgnum < 0 || TLB_TAG(entry) == pgnum`
pub tag_matches : Option ℕ → ℕ → Bool
tag_matches none entry = true
tag_matches (some pgnum) entry = tlb_tag entry == pgnum

-- the tests that `tlb_cache_invalidate` makes of an entry, one in the other
pub is_target : ℕ → Option ℕ → ℕ → Bool
is_target pid pgnum entry =
    tlb_valid entry && tlb_pid entry == sign_extend pid && tag_matches pgnum entry

-- The loop of `tlb_cache_invalidate`, with the rounds left and `found`, which is `true` for 0.
pub invalidate_loop : ℕ → ℕ → TlbMemphy → ℕ → Option ℕ → Bool → Result (Bool × TlbMemphy)
invalidate_loop zero index tlb pid pgnum found = ok (found, tlb)
invalidate_loop (suc n) index tlb pid pgnum found =
    let go_on : TlbMemphy → Bool → Result (Bool × TlbMemphy) =
      λ q flag. invalidate_loop n (index + 1) q pid pgnum flag in
    read_entry tlb index >>= λ entry.
    if is_target pid pgnum entry
    then (write_entry tlb index (set_tlb_valid entry 0) >>= λ q. elim pgnum [
      | some pg ↦ ok (true, q)
      | none ↦ go_on q true
    ])
    else go_on tlb found

pub cache_invalidate : Option TlbMemphy → ℕ → Option ℕ → Result (Bool × TlbMemphy)
cache_invalidate none pid pgnum = fault
cache_invalidate (some tlb) pid pgnum = invalidate_loop (storage_sz tlb) 0 tlb pid pgnum false
