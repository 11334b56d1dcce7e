-- ===== src/Tlb.antt =====
-- src/cpu-tlbcache.c: the TLB, fully associative, over a device whose storage is read as 64-bit
-- entries. The list holds the `maxsz / sizeof(TLB_entry_t)` entries, so a loop over the indices is
-- a recursion on the list. Page numbers are `int`s that are not negative; a process number
-- is the 32 bits of an `int`; the page number -1 and the result -1 are `none`. What `rand()` returns is an argument.
pub mod Entry
pub mod Search
pub mod Laws
pub mod Stale
pub mod Invalidate
pub mod Flush
pub mod Fresh
pub mod Device
use os_assignment_hk.Common.{
  ℕ, suc, ◌+◌, ◌-◌, ◌/◌, ◌%◌, ◌^◌, Bool, true, false, not, ltb, ◌&&◌, ◌==◌, Option, none, some,
  List, [], ◌∷◌, length, get_or, set, tabulate, Result, ok, fault, if◌then◌else◌,
}
use os_assignment_hk.Word.{genmask, setval, getval}

abbrev pub Tlb : Type 0
Tlb = List ℕ

abbrev pub valid_mask : ℕ
valid_mask = 2 ^ 59

abbrev pub tag_mask : ℕ
tag_mask = genmask 64 58 45

abbrev pub pid_mask : ℕ
pid_mask = genmask 64 44 13

abbrev pub frmnum_mask : ℕ
frmnum_mask = genmask 64 12 0

-- `TLB_VALID`, `TLB_TAG`, `TLB_PID`, `TLB_FRMNUM`
pub tlb_valid : ℕ → Bool
tlb_valid entry = not (getval entry valid_mask 59 == 0)

pub tlb_tag : ℕ → ℕ
tlb_tag entry = getval entry tag_mask 45

pub tlb_pid : ℕ → ℕ
tlb_pid entry = getval entry pid_mask 13

pub tlb_frmnum : ℕ → ℕ
tlb_frmnum entry = getval entry frmnum_mask 0

-- `SET_TLB_VALID(entry, value)`
pub set_tlb_valid : ℕ → ℕ → ℕ
set_tlb_valid entry value = setval 64 entry value valid_mask 59

-- `set_TLB_entry`, which starts from the entry 0
pub set_tlb_entry : ℕ → ℕ → ℕ → ℕ → ℕ
set_tlb_entry valid pgnum pid frmnum =
    let tagged = setval 64 (set_tlb_valid 0 valid) pgnum tag_mask 45 in
    let owned = setval 64 tagged pid pid_mask 13 in setval 64 owned frmnum frmnum_mask 0

-- An `int`, given by its 32 bits, that C converts to a 64-bit word: it is compared with `TLB_PID`.
pub sign_extend : ℕ → ℕ
sign_extend pid = if ltb pid (2 ^ 31) then pid else pid + (2 ^ 64 - 2 ^ 32)

-- the test that `tlb_cache_read` and `tlb_cache_write` make of an entry
pub hits : ℕ → ℕ → ℕ → Bool
hits pid pgnum entry = tlb_valid entry && tlb_tag entry == pgnum && tlb_pid entry == sign_extend pid

-- the index at which a loop over the entries stops
pub find_index : (ℕ → Bool) → Tlb → Option ℕ
find_index p [] = none
find_index p (e ∷ es) =
    let later = find_index p es in
    elim (p e) [ true ↦ some 0 | false ↦ elim later [ none ↦ none | some i ↦ some (suc i) ] ]

pub tlb_cache_read : Tlb → ℕ → ℕ → Option ℕ
tlb_cache_read tlb pid pgnum = elim (find_index (hits pid pgnum) tlb) [
  | some i ↦ some (tlb_frmnum (get_or tlb i 0))
  | none ↦ none
]

-- Where `tlb_cache_write` stores: an entry of the page, else an invalid one, else any.
pub slot_for : Tlb → ℕ → ℕ → ℕ → Option ℕ
slot_for tlb pid pgnum r = elim (find_index (hits pid pgnum) tlb) [
  | some i ↦ some i
  | none ↦ elim (find_index (λ e. not (tlb_valid e)) tlb) [
    | some i ↦ some i
    | none ↦ if length tlb == 0 then none else some (r % length tlb)
  ]
]

-- `r` is what `rand()` returns; the remainder by a size of 0 is undefined.
pub tlb_cache_write : Tlb → ℕ → ℕ → ℕ → ℕ → Result Tlb
tlb_cache_write tlb pid pgnum value r = elim (slot_for tlb pid pgnum r) [
  | some i ↦ ok (set tlb i (set_tlb_entry 1 pgnum pid value))
  | none ↦ fault
]

-- the loop for `pgnum == -1`: every entry of the process
pub invalidate_all : Tlb → ℕ → Bool × Tlb
invalidate_all [] pid = (false, [])
invalidate_all (e ∷ es) pid =
    let (found, es') = invalidate_all es pid in
    if tlb_valid e && tlb_pid e == sign_extend pid
    then (true, set_tlb_valid e 0 ∷ es')
    else (found, e ∷ es')

-- The status is `true` for 0 and `false` for -1. With a page number the loop stops at the first hit.
pub tlb_cache_invalidate : Tlb → ℕ → Option ℕ → Bool × Tlb
tlb_cache_invalidate tlb pid none = invalidate_all tlb pid
tlb_cache_invalidate tlb pid (some pgnum) = elim (find_index (hits pid pgnum) tlb) [
  | some i ↦ (true, set tlb i (set_tlb_valid (get_or tlb i 0) 0))
  | none ↦ (false, tlb)
]

-- `init_tlbmemphy`, which leaves in the storage what `malloc` gave: entry `i` is `old i`.
unfoldable pub init_tlbmemphy : ℕ → (ℕ → ℕ) → Tlb
init_tlbmemphy max_size old = tabulate (max_size / 8) 0 old
