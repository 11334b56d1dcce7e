-- ===== src/Mem.antt =====
-- src/mem.c, the segmented memory that the functions of src/cpu.c without CPU_TLB reach. `get_trans_table`
-- always returns NULL and `alloc_mem` never sets `mem_avail`: the file says that it is obsolete.
pub mod Address
use os_assignment_hk.Common.{
  ℕ, ◌+◌, ◌-◌, ◌*◌, ◌/◌, ◌%◌, ◌^◌, bit_and, Bool, true, false, ◌==◌, Option, none, some, List, [],
  ◌∷◌, set, get_or, if◌then◌else◌,
}
use os_assignment_hk.Word.{complement}

abbrev pub offset_len : ℕ
offset_len = 10

abbrev pub page_len : ℕ
page_len = 5

abbrev pub page_size : ℕ
page_size = 2 ^ offset_len

-- `addr & ~((~0U) << OFFSET_LEN)`
unfoldable pub get_offset : ℕ → ℕ
get_offset addr = bit_and addr (complement 32 ((2 ^ 32 - 1) * 2 ^ offset_len % 2 ^ 32))

unfoldable pub get_first_lv : ℕ → ℕ
get_first_lv addr = addr / 2 ^ (offset_len + page_len)

-- the subtraction of two `uint32_t`s
unfoldable pub get_second_lv : ℕ → ℕ
get_second_lv addr =
    (addr / 2 ^ offset_len + 2 ^ 32 - get_first_lv addr * 2 ^ page_len % 2 ^ 32) % 2 ^ 32

-- a segment's table, a list of pairs of a virtual and a physical index
abbrev pub TransTable : Type 0
TransTable = List (ℕ × ℕ)

-- The loop of `get_trans_table` does nothing.
unfoldable pub get_trans_table : ℕ → Option TransTable
get_trans_table index = none

-- `translate`: the loop over a table sets no physical address either, so a hit is just `true`.
pub has_index : ℕ → TransTable → Bool
has_index second_lv [] = false
has_index second_lv ((v, p) ∷ rows) =
    let later = has_index second_lv rows in if v == second_lv then true else later

unfoldable pub translate : ℕ → Bool
translate virtual_addr = elim (get_trans_table (get_first_lv virtual_addr)) [
  | none ↦ false
  | some table ↦ has_index (get_second_lv virtual_addr) table
]

-- `alloc_mem` with `bp`: the address and the new `bp`.
unfoldable pub alloc_mem : ℕ → ℕ → ℕ × ℕ
alloc_mem size bp = if mem_avail then (bp, (bp + num_pages * page_size) % 2 ^ 32) else (0, bp)
  where
    num_pages : ℕ
    num_pages = if size % page_size == 0 then size / page_size + 1 else size / page_size

    mem_avail : Bool
    mem_avail = false

pub free_mem : ℕ → Bool
free_mem address = true

-- `read_mem` and `write_mem`: `true` for 0. On a hit they use a physical address that was never
-- written; `physical` stands for what it holds.
unfoldable pub read_mem : List ℕ → ℕ → ℕ → Bool × Option ℕ
read_mem ram physical address =
    if translate address then (true, some (get_or ram physical 0)) else (false, none)

unfoldable pub write_mem : List ℕ → ℕ → ℕ → ℕ → Bool × List ℕ
write_mem ram physical address value =
    if translate address then (true, set ram physical value) else (false, ram)
