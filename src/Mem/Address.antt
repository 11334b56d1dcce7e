-- ===== src/Mem/Address.antt =====
-- The parts of an address of the segmented memory.
use os_assignment_hk.Common.{ℕ, ◌+◌, ◌*◌, ◌%◌, ◌^◌, ◌<◌, ◌≡◌, arith}
use os_assignment_hk.Common.Bits.{bit_and-ones}
use os_assignment_hk.Mem.{get_offset, get_first_lv, get_second_lv}

offset_value : (addr : ℕ) → addr < 2 ^ 32 → get_offset addr ≡ addr % 2 ^ 10
unfolding get_offset
offset_value addr h = bit_and-ones 10 addr

-- For every 32-bit address, the index of its segment, that of its page and the offset give the address
-- back, and the index of the page is below 2^5 and the offset below 2^10.
pub segment_address :
    (addr : ℕ)
    → addr < 2 ^ 32
    → (get_first_lv addr * 2 ^ 15 + get_second_lv addr * 2 ^ 10 + get_offset addr ≡ addr)
      × (get_second_lv addr < 2 ^ 5)
      × (get_offset addr < 2 ^ 10)
unfolding get_first_lv get_second_lv
segment_address addr h = let o = offset_value addr h in (omega arith, omega arith, omega arith)
