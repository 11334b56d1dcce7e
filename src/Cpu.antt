-- ===== src/Cpu.antt =====
-- src/cpu.c with CPU_TLB: the instructions of a process. A process here is what `struct pcb_t` keeps for
-- itself; the devices behind its pointers are shared by all processes and make up the machine.
pub mod Run
pub mod Program
pub mod Legacy
use os_assignment_hk.Common.{
  ℕ, ◌+◌, ◌%◌, ◌^◌, ◌==◌, Bool, true, false, not, Option, none, some, List, get_elem?, Result, ok,
  timeout, ◌>>=◌, if◌then◌else◌,
}
use os_assignment_hk.Memphy.{Memphy}
use os_assignment_hk.Tlb.{Tlb}
use os_assignment_hk.Vm.{Mm}
use os_assignment_hk.CpuTlb.{Thread, tlballoc, tlbfree_data, tlbread, tlbwrite}

pub data Opcode : Type 0 where
  calc : Opcode
  alloc : Opcode
  free : Opcode
  read : Opcode
  write : Opcode

pub record Inst : Type 0 where
  pub opcode : Opcode
  pub arg_0 : ℕ
  pub arg_1 : ℕ
  pub arg_2 : ℕ

-- `struct pcb_t` without `page_table`, which nothing reads. The list `code` is `text` with its `size`.
pub record Pcb : Type 0 where
  pub pid : ℕ
  pub priority : ℕ
  pub code : List Inst
  pub regs : List ℕ
  pub pc : ℕ
  pub prio : ℕ
  pub mm : Mm
  pub active_mswp : ℕ
  pub bp : ℕ

-- The shared devices, and which CPU holds `tlb_lock`.
pub record Machine : Type 0 where
  pub mram : Memphy
  pub mswp : List Memphy
  pub tlb : Tlb
  pub owner : Option ℕ

abbrev pub owned_by : ℕ → Machine → Bool
owned_by cpu m = elim m.owner [ none ↦ false | some o ↦ o == cpu ]

-- Another CPU holds the lock.
abbrev pub held_elsewhere : ℕ → Machine → Bool
held_elsewhere cpu m = elim m.owner [ none ↦ false | some o ↦ not (o == cpu) ]

-- The process on a CPU, as the functions of src/cpu-tlb.c see it, and what they leave.
abbrev pub enter : ℕ → Machine → Pcb → Thread
enter cpu m p = record {
  locked = owned_by cpu m;
  proc = record {
    pid = p.pid;
    mm = p.mm;
    mram = m.mram;
    mswp = m.mswp;
    tlb = m.tlb;
    active_mswp = p.active_mswp;
  };
}

abbrev pub after : ℕ → Machine → Pcb → Thread → Machine × Pcb
after cpu m p t = (
  record {
    mram = t.proc.mram;
    mswp = t.proc.mswp;
    tlb = t.proc.tlb;
    owner = if t.locked then some cpu else if held_elsewhere cpu m then m.owner else none;
  },
  record p { mm = t.proc.mm; active_mswp = t.proc.active_mswp },
)

-- A call that begins with the lock waits while another CPU holds it: `timeout`, since nothing here ends
-- that wait.
abbrev pub locking :
    ℕ → Machine → Pcb → (Thread → Result (Bool × Thread)) → Result (Bool × Machine × Pcb)
locking cpu m p call =
    if held_elsewhere cpu m
    then timeout
    else (call (enter cpu m p) >>= λ (status, t).
        ok (status, (after cpu m p t).0, (after cpu m p t).1))

-- The `switch` of `run`; `true` for the status 0. The byte that `tlbread` puts into its own parameter
-- is lost; the byte for `tlbwrite` is cut from an `uint32_t`. `rand` gives what `rand()` returns.
unfoldable pub execute : ℕ → (ℕ → ℕ) → Machine → Pcb → Inst → Result (Bool × Machine × Pcb)
execute cpu rand m p ins = elim ins.opcode [
  | calc ↦ ok (true, m, p)
  | alloc ↦ locking cpu m p (λ t. tlballoc t rand ins.arg_0 ins.arg_1)
  | free ↦ locking cpu m p (λ t. tlbfree_data t ins.arg_0)
  | read ↦ tlbread (enter cpu m p) (rand 0) ins.arg_0 ins.arg_1 >>= λ (status, value, t).
      ok (status, (after cpu m p t).0, (after cpu m p t).1)
  | write ↦ locking cpu m p (λ t. tlbwrite t (rand 0) (ins.arg_0 % 2 ^ 8) ins.arg_1 ins.arg_2)
]

-- `run`. Past the end of the program it returns 1. Before it, `pc` is below `size`, so `pc++` does not
-- wrap.
unfoldable pub run : ℕ → (ℕ → ℕ) → Machine → Pcb → Result (Bool × Machine × Pcb)
run cpu rand m p = elim (get_elem? p.code p.pc) [
  | none ↦ ok (false, m, p)
  | some ins ↦ execute cpu rand m (record p { pc = p.pc + 1 }) ins
]
