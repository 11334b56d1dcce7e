-- ===== src/Cpu/Run.antt =====
-- What `run` does to the program counter and to the identity of a process, and a write of it.
use os_assignment_hk.Common.{
  ℕ, ◌+◌, ◌%◌, ◌^◌, ◌<◌, ◌≤◌, ◌≡◌, refl, arith, Bool, true, false, none, some, length, get_elem?,
  Result, ok, Returns, Returns-bind, inl, inr, Bool-cases, Option-cases, Returns-imp,
  get_elem?-none_le, get_elem?-some_lt,
}
use mathlib.Core.Path.{subst}
use os_assignment_hk.Vm.{Region, Proc}
use os_assignment_hk.Vm.Bytes.{Resident}
use os_assignment_hk.Vm.Page.{pg_getval}
use os_assignment_hk.Vm.ReadWrite.{InRegion}
use os_assignment_hk.CpuTlb.{Thread, tlballoc, tlbfree_data, tlbread, tlbwrite}
use os_assignment_hk.CpuTlb.Coherent.{IsCoherent, tlbwrite-pg_getval}
use os_assignment_hk.Cpu.{
  Opcode, calc, alloc, free, read, write, Inst, Pcb, Machine, held_elsewhere, enter, locking,
  execute, run,
}

-- `q` is the process `p` one instruction on.
pub record Stepped (p q : Pcb) : Type 0 where
  pub pid : q.pid ≡ p.pid
  pub prio : q.prio ≡ p.prio
  pub code : q.code ≡ p.code
  pub pc : q.pc ≡ p.pc + 1

-- the process with other contents of its memory, if the call returns
abbrev IsSame : Pcb → Result (Bool × Machine × Pcb) → Type 0
IsSame p r =
    Returns r
      (λ (status, m, q). (q.pid ≡ p.pid) × (q.prio ≡ p.prio) × (q.code ≡ p.code) × (q.pc ≡ p.pc))

locking-IsSame :
    (cpu : ℕ) (m : Machine) (p : Pcb) (call : Thread → Result (Bool × Thread))
    → IsSame p (locking cpu m p call)
locking-IsSame cpu m p call = elim (Bool-cases (held_elsewhere cpu m)) [
  | inl h ↦ rw h tt
  | inr h ↦ rw h (Returns-bind _ _ (λ (status, t). (refl, refl, refl, refl)) (call (enter cpu m p)))
]

execute-IsSame :
    (cpu : ℕ) (rand : ℕ → ℕ) (m : Machine) (p : Pcb) (ins : Inst)
    → IsSame p (execute cpu rand m p ins)
unfolding execute
execute-IsSame cpu rand m p ins = of_opcode ins.opcode refl
  where
    of_opcode : (o : Opcode) → ins.opcode ≡ o → IsSame p (execute cpu rand m p ins)
    of_opcode calc e = rw (e, execute) (refl, refl, refl, refl)
    of_opcode alloc e =
        rw (e, execute) (locking-IsSame cpu m p (λ t. tlballoc t rand ins.arg_0 ins.arg_1))
    of_opcode free e = rw (e, execute) (locking-IsSame cpu m p (λ t. tlbfree_data t ins.arg_0))
    of_opcode read e =
        rw (e, execute)
          (Returns-bind _ _ (λ (status, value, t). (refl, refl, refl, refl))
            (tlbread (enter cpu m p) (rand 0) ins.arg_0 ins.arg_1))
    of_opcode write e =
        rw (e, execute)
          (locking-IsSame cpu m p
            (λ t. tlbwrite t (rand 0) (ins.arg_0 % 2 ^ 8) ins.arg_1 ins.arg_2))

-- Whatever the instruction does, if `run` returns: before the end of the program the process is the
-- same with its counter one further on, and at the end nothing changes and the status is 1.
pub run_lem :
    (cpu : ℕ) (rand : ℕ → ℕ) (m : Machine) (p : Pcb)
    → Returns (run cpu rand m p) (λ (status, m', q).
      (p.pc < length p.code → Stepped p q)
      × (length p.code ≤ p.pc → (status ≡ false) × (m' ≡ m) × (q ≡ p)))
unfolding run
run_lem cpu rand m p = elim (Option-cases (get_elem? p.code p.pc)) [
  | inl e ↦
      let past = get_elem?-none_le p.code p.pc e in
      rw (e, run) (λ h. absurd (omega arith), λ h. (refl, refl, refl))
  | inr (ins, e) ↦
      let inside = get_elem?-some_lt p.code p.pc e in
      rw (e, run)
        (Returns-imp _ _
          (λ (status, m', q) (a, b, c, d).
            (λ h. record { pid = a; prio = b; code = c; pc = d }, λ h. absurd (omega arith)))
          (execute cpu rand m (record p { pc = p.pc + 1 }) ins)
          (execute-IsSame cpu rand m (record p { pc = p.pc + 1 }) ins))
]

-- A write instruction is a `tlbwrite`.
run_of_write :
    (cpu : ℕ) (rand : ℕ → ℕ) (m : Machine) (p : Pcb) (value rgid offset : ℕ) (t : Proc)
    → m.owner ≡ none
    → get_elem? p.code p.pc
      ≡ some (record { opcode = write; arg_0 = value; arg_1 = rgid; arg_2 = offset })
    → tlbwrite
        (record { locked = false; proc = (enter cpu m p).proc })
        (rand 0)
        (value % 2 ^ 8)
        rgid
        offset
      ≡ ok (true, record { locked = false; proc = t })
    → run cpu rand m p
      ≡ ok (
        true,
        record { mram = t.mram; mswp = t.mswp; tlb = t.tlb; owner = none },
        record p { pc = p.pc + 1; mm = t.mm; active_mswp = t.active_mswp },
      )
unfolding run execute
run_of_write cpu rand m p value rgid offset t unlocked code wrote = ground arith

-- For a CPU with `tlb_lock` free and a process whose next instruction writes a byte to an offset in
-- a region in use below 2^31 whose page is in RAM, with a TLB of at least one entry that has no frame
-- for the page or the right one: `run` succeeds, goes on to the next instruction, leaves the lock
-- free, and the byte, cut to 8 bits, is what the page table then gives for that address.
pub run_write :
    (cpu : ℕ) (rand : ℕ → ℕ) (m : Machine) (p : Pcb) (value rgid offset phys : ℕ) (region : Region)
    → m.owner ≡ none
    → get_elem? p.code p.pc
      ≡ some (record { opcode = write; arg_0 = value; arg_1 = rgid; arg_2 = offset })
    → InRegion (enter cpu m p).proc 0 rgid offset region
    → (d : Resident (enter cpu m p).proc (region.rg_start + offset) phys)
    → IsCoherent (enter cpu m p).proc (region.rg_start + offset) d.pte
    → (m' : Machine) × (q : Pcb) × (run cpu rand m p ≡ ok (true, m', q))
      × Stepped p q
      × (m'.owner ≡ none)
      × (pg_getval (enter cpu m' q).proc (region.rg_start + offset)
          ≡ ok (true, some (value % 2 ^ 8), (enter cpu m' q).proc))
run_write cpu rand m p value rgid offset phys place unlocked code i d c =
    let addr = place.rg_start + offset in
    let (t, wrote, byte, same) =
      tlbwrite-pg_getval (enter cpu m p).proc rgid offset (value % 2 ^ 8) phys (rand 0) place i d
        c in
    (
      record { mram = t.mram; mswp = t.mswp; tlb = t.tlb; owner = none },
      record p { pc = p.pc + 1; mm = t.mm; active_mswp = t.active_mswp },
      run_of_write cpu rand m p value rgid offset t unlocked code wrote,
      record { pid = refl; prio = refl; code = refl; pc = refl },
      refl,
      subst
          (λ i.
            pg_getval (record t { pid = i }) addr
            ≡ ok (true, some (value % 2 ^ 8), record t { pid = i }))
          same byte,
    )
