-- ===== src/Word.antt =====
-- The word macros of include/bitops.h, include/mm.h and include/cpu-tlbcache.h. `bits` is the
-- width of the word: 32 for a page table entry, 64 for an entry of the TLB.
pub mod Fields
use os_assignment_hk.Common.{
  ℕ, ◌+◌, ◌-◌, ◌*◌, ◌/◌, ◌%◌, ◌^◌, bit_and, bit_or, Bool, ◌==◌, not, if◌then◌else◌,
}

-- `BIT(nr)`
abbrev pub bit : ℕ → ℕ
bit nr = 2 ^ nr % 2 ^ 32

-- `GENMASK(h, l)` and `TLB_GENMASK(h, l)`
abbrev pub genmask : ℕ → ℕ → ℕ → ℕ
genmask bits h l = bit_and ((2 ^ bits - 1) * 2 ^ l % 2 ^ bits) ((2 ^ bits - 1) / 2 ^ (bits - h - 1))

-- `~mask`
abbrev pub complement : ℕ → ℕ → ℕ
complement bits mask = 2 ^ bits - 1 - mask

-- `SETBIT(v,mask)`
pub setbit : ℕ → ℕ → ℕ
setbit v mask = bit_or v mask

-- `CLRBIT(v,mask)`
pub clrbit : ℕ → ℕ → ℕ → ℕ
clrbit bits v mask = bit_and v (complement bits mask)

-- `SETVAL(v,value,mask,offst)` and `TLB_SETVAL(v,value,mask,offst)`
pub setval : ℕ → ℕ → ℕ → ℕ → ℕ → ℕ
setval bits v value mask offst =
    bit_or (bit_and v (complement bits mask)) (bit_and (value * 2 ^ offst % 2 ^ bits) mask)

-- `GETVAL(v,mask,offst)` and `TLB_GETVAL(v,mask,offst)`
pub getval : ℕ → ℕ → ℕ → ℕ
getval v mask offst = bit_and v mask / 2 ^ offst

-- `DIV_ROUND_UP(n,d)`
abbrev pub div_round_up : ℕ → ℕ → ℕ
div_round_up n d = (n + d - 1) / d

-- a flag under `if`, as in `PAGING_PAGE_PRESENT(pte)`
pub is_set : ℕ → ℕ → Bool
is_set v mask = not (bit_and v mask == 0)

-- `NBITS2` up to `NBITS`
abbrev nbits2 : ℕ → ℕ
nbits2 n = if bit_and n 2 == 0 then 0 else 1

abbrev nbits4 : ℕ → ℕ
nbits4 n = if bit_and n 0xC == 0 then nbits2 n else 2 + nbits2 (n / 2 ^ 2)

abbrev nbits8 : ℕ → ℕ
nbits8 n = if bit_and n 0xF0 == 0 then nbits4 n else 4 + nbits4 (n / 2 ^ 4)

abbrev nbits16 : ℕ → ℕ
nbits16 n = if bit_and n 0xFF00 == 0 then nbits8 n else 8 + nbits8 (n / 2 ^ 8)

abbrev nbits32 : ℕ → ℕ
nbits32 n = if bit_and n 0xFFFF0000 == 0 then nbits16 n else 16 + nbits16 (n / 2 ^ 16)

abbrev pub nbits : ℕ → ℕ
nbits n = if n == 0 then 0 else nbits32 n
