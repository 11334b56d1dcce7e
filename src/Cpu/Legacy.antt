-- ===== src/Cpu/Legacy.antt =====
-- The operations of src/cpu.c for the build without CPU_TLB and MM_PAGING, over src/mem.c. They are
-- compiled, but `run` does not call them.
use os_assignment_hk.Common.{
  ℕ, ◌+◌, ◌%◌, ◌^◌, ◌<◌, ◌≡◌, refl, arith, Bool, false, ◌==◌, none, some, List, get_elem?, set,
  length, ltb, Result, ok, fault, ◌>>=◌, must, if◌then◌else◌,
}
use os_assignment_hk.Mem.{alloc_mem, free_mem, read_mem, write_mem, translate, get_trans_table}
use os_assignment_hk.Cpu.{Pcb}

-- `proc->regs[i] = v;`
abbrev set_reg : Pcb → ℕ → ℕ → Result Pcb
set_reg p i v = if ltb i (length p.regs) then ok (record p { regs = set p.regs i v }) else fault

abbrev reg : Pcb → ℕ → Result ℕ
reg p i = must (get_elem? p.regs i)

-- `calc`: the address of the process under a mask of zeros
pub calc : ℕ → ℕ
calc proc = 0

-- `alloc`, with the status 0 or 1
pub alloc : Pcb → ℕ → ℕ → Result (ℕ × Pcb)
alloc p size reg_index =
    let (addr, bp) = alloc_mem size p.bp in
    let q = record p { bp = bp } in
    if addr == 0 then ok (1, q) else (set_reg q reg_index addr >>= λ q'. ok (0, q'))

-- `free_data`; `true` for 0
pub free_data : Pcb → ℕ → Result Bool
free_data p reg_index = reg p reg_index >>= λ addr. ok (free_mem addr)

-- `read` stores the byte when `read_mem` fails. A byte that was not written holds `old`.
pub read : Pcb → List ℕ → ℕ → ℕ → ℕ → ℕ → ℕ → Result (ℕ × Pcb)
read p ram physical old source offset destination = reg p source >>= λ base.
    let (done, value) = read_mem ram physical ((base + offset) % 2 ^ 32) in
    if done
    then ok (1, p)
    else (set_reg p destination (elim value [ none ↦ old | some v ↦ v ]) >>= λ q. ok (0, q))

-- `write`; `true` for 0
pub write : Pcb → List ℕ → ℕ → ℕ → ℕ → ℕ → Result (Bool × List ℕ)
write p ram physical value destination offset =
    reg p destination >>= λ base. ok (write_mem ram physical ((base + offset) % 2 ^ 32) value)

-- For registers that exist, whatever the memory holds, `alloc` fails without a change, `write` fails
-- without a change, and `read` succeeds with the contents of a variable that nobody wrote.
pub legacy_memory :
    (p : Pcb) (ram : List ℕ) (physical old size value offset source destination : ℕ) (base : ℕ)
    → get_elem? p.regs source ≡ some base
    → destination < length p.regs
    → (alloc p size destination ≡ ok (1, p))
      × (write p ram physical value source offset ≡ ok (false, ram))
      × (read p ram physical old source offset destination
          ≡ ok (0, record p { regs = set p.regs destination old }))
unfolding alloc write read alloc_mem read_mem write_mem translate get_trans_table
legacy_memory p ram physical old size value offset source destination base here there =
    (refl, ground arith, ground arith)
