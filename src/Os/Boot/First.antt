-- ===== src/Os/Boot/First.antt =====
-- The first process that runs on the machine that `main` sets up.

use mathlib.Core.Path.{subst}
use os_assignment_hk.Common.{
  ℕ, zero, suc, ◌+◌, ◌-◌, ◌*◌, ◌/◌, ◌%◌, ◌^◌, ◌<◌, ◌≤◌, ◌≡◌, refl, sym, ◌∙◌, ap, arith, true, false,
  none, some, List, [], ◌∷◌, ◌++◌, length, length-tabulate, get_or-tabulate, ok,
}
use os_assignment_hk.Memphy.Frames.{
  of_frames, range, length-range, range-append, init_memphy-maxsz, init_memphy_frames,
}
use os_assignment_hk.Tlb.{tlb_valid}
use os_assignment_hk.Tlb.Fresh.{init_tlbmemphy_lem}
use os_assignment_hk.Vm.{null, node, region, init_mm, Vma}
use os_assignment_hk.Vm.Map.{IsTable}
use os_assignment_hk.Vm.Page.{pg_getval}
use os_assignment_hk.Vm.Ops.{pages}
use os_assignment_hk.Vm.Use.{InStorage}
use os_assignment_hk.Cpu.{alloc, write, Inst, Pcb, Machine, enter, run}
use os_assignment_hk.Cpu.Run.{Stepped}
use os_assignment_hk.Cpu.Program.{run_alloc-write}
use os_assignment_hk.Loader.{Scanf}
use os_assignment_hk.Os.Config.RoundTrip.{Line}
use os_assignment_hk.Os.Boot.{Memory, paging_max_pgn, fresh_mm}
use os_assignment_hk.Os.Boot.Ready.{Program, machine_of, process_of}

range-InStorage : (size n i : ℕ) → 256 * (i + n) ≤ size → InStorage size (range n i)
range-InStorage size zero i h = tt
range-InStorage size (suc n) i h = (omega arith, range-InStorage size n (i + 1) (omega arith))

-- a program that asks for memory, then writes a byte, and goes on
abbrev pub alloc_and_write : ℕ → ℕ → ℕ → ℕ → ℕ → ℕ → List Inst → Program
alloc_and_write priority size rgid unused value offset code = record {
  priority = priority;
  code =
      record { opcode = alloc; arg_0 = size; arg_1 = rgid; arg_2 = unused }
      ∷ record { opcode = write; arg_0 = value; arg_1 = rgid; arg_2 = offset }
      ∷ code;
}

-- the area of a new process
abbrev new_area : Vma
new_area = record { vm_start = 0; vm_end = 0; sbrk = 0; vm_freerg_list = node (region 0 0) null }

fresh_mm_lem :
    (mem : Memory) (i : ℕ)
    → mem.freerg_list i ≡ null
    → ((j : ℕ) → mem.pgd i j < 2 ^ 32)
    → ((fresh_mm mem i).mmap ≡ new_area ∷ [])
      × (length (fresh_mm mem i).symrgtbl ≡ 30)
      × (length (fresh_mm mem i).pgd ≡ 2 ^ 14)
      × IsTable (fresh_mm mem i).pgd
unfolding fresh_mm init_mm
fresh_mm_lem mem i link words =
    let table = length-tabulate paging_max_pgn 0 (mem.pgd i) in
    (
      ap
          (λ l.
            (record { vm_start = 0; vm_end = 0; sbrk = 0; vm_freerg_list = node (region 0 0) l })
            ∷ [])
          link,
      length-tabulate 30 0 (mem.symrgtbl i),
      table,
      λ j h.
          subst (λ x. x < 2 ^ 32)
            (sym (get_or-tabulate paging_max_pgn 0 j (mem.pgd i) 0 (omega (arith, table))))
            (words (0 + j)),
    )

module _ {File : Type 0} (io : Scanf File) (mem : Memory) where
  -- On the machine that `main` sets up with a RAM of at least 512 bytes, with 64-bit words and no valid
  -- entry in the memory that the TLB gets, the first process to run, of any line of the configuration and
  -- with an id below 2^32, a page table of 32-bit words and no link in the memory that its area gets: when
  -- its program begins with a request for memory for a symbol below 30, for at most as many pages as RAM
  -- and the page table have, and a write for that symbol of a byte at an offset below that size, then both
  -- run, go on to the next instruction and leave the lock free, and the byte, cut to 8 bits, is what the
  -- page table gives at that offset.
  pub first_write :
      (cpu : ℕ) (rand rand' : ℕ → ℕ) (ram a b c d i avail_pid : ℕ) (l : Line) (priority : ℕ)
      (size rgid unused value offset : ℕ) (code : List Inst)
      → ((j : ℕ) → (mem.tlb j < 2 ^ 64) × (tlb_valid (mem.tlb j) ≡ false))
      → ((j : ℕ) → mem.pgd i j < 2 ^ 32)
      → mem.freerg_list i ≡ null
      → avail_pid < 2 ^ 32
      → 512 ≤ ram
      → size ≤ 256 * (ram / 256)
      → size ≤ 2 ^ 22
      → rgid < 30
      → offset < size
      → let p =
          process_of io mem i avail_pid l
            (alloc_and_write priority size rgid unused value offset code) in
        (m' m'' : Machine) × (q q' : Pcb) × (run cpu rand (machine_of mem ram a b c d) p
          ≡ ok (true, m', q))
        × Stepped p q
        × (run cpu rand' m' q ≡ ok (true, m'', q'))
        × Stepped q q'
        × (m''.owner ≡ none)
        × (pg_getval (enter cpu m'' q').proc offset
            ≡ ok (true, some (value % 2 ^ 8), (enter cpu m'' q').proc))
  first_write cpu rand rand' ram a b c d i avail_pid l priority size rgid unused value offset code
        invalid words link small_pid two fits small in_table inside =
      let k = pages size in
      let m = machine_of mem ram a b c d in
      let (mmap, symbols, table, is_table) = fresh_mm_lem mem i link words in
      let (len, valid, miss) = init_tlbmemphy_lem 0x10000 mem.tlb invalid in
      let (frames, storage, random, in_frames) = init_memphy_frames ram true (mem.cursor 4) two in
      let all : k + (ram / 256 - k) ≡ ram / 256 = omega arith in
      let free_list : m.mram.free_fp_list ≡ of_frames (range k 0 ++ range (ram / 256 - k) (0 + k)) =
        frames ∙ ap of_frames (sym (range-append k (ram / 256 - k) 0 ∙ ap (λ n. range n 0) all)) in
      let count = length-range k 0 in
      let p =
        process_of io mem i avail_pid l
          (alloc_and_write priority size rgid unused value offset code) in
      let (m', m'', q, q', ran, stepped, ran', stepped', free, byte) =
        run_alloc-write cpu rand rand' m p new_area size rgid (mem.text i 0).arg_2 value offset
          (range k 0) (range (ram / 256 - k) (0 + k)) refl refl refl mmap refl
          (omega arith, omega arith, tt) (omega arith, tt) (omega (arith, symbols)) in_table count
          (omega (arith, init_memphy-maxsz ram true (mem.cursor 4) two)) free_list random
          (range-InStorage _ k 0 (omega (arith, storage))) is_table (omega (arith, table))
          (omega (arith, table, count)) valid (omega (arith, len)) small_pid
          (λ pg f out h. absurd (let n = miss avail_pid pg in cc)) inside (omega (arith, count)) in
      let at : offset ≡ 0 + offset = omega arith in
      (
        m',
        m'',
        q,
        q',
        ran,
        stepped,
        ran',
        stepped',
        free,
        ap (pg_getval (enter cpu m'' q').proc) at ∙ byte,
      )
