-- ===== src/CpuTlb/Lock.antt =====
-- The paths of src/cpu-tlb.c that leave `tlb_lock` locked, or unlock it without a lock.
use os_assignment_hk.Common.{
  ℕ, ◌+◌, ◌<◌, ◌≡◌, refl, arith, true, false, some, get_elem?, ok, fault, timeout, ◌^◌, ◌%◌,
}
use os_assignment_hk.Vm.{Region, Vma, get_vma_by_num, get_symrg_byid, symrg}
use os_assignment_hk.CpuTlb.{Thread, lock, unlock, tlbread, tlbwrite, tlbfree_data}

-- For a thread that does not hold the lock and a symbol above 30, `tlbwrite` and `tlbfree_data` fail
-- with the lock held, and after that neither of them ever returns, whatever its arguments.
pub bad_symbol_locks :
    (t : Thread) (r value rgid offset : ℕ)
    → t.locked ≡ false
    → 30 < rgid
    → (t' : Thread) × (tlbwrite t r value rgid offset ≡ ok (false, t'))
      × (tlbfree_data t rgid ≡ ok (false, t'))
      × ((r' value' rgid' offset' : ℕ)
          → (tlbwrite t' r' value' rgid' offset' ≡ timeout) × (tlbfree_data t' rgid' ≡ timeout))
unfolding tlbwrite tlbfree_data lock get_symrg_byid
bad_symbol_locks t r value rgid offset free above = (
  record t { locked = true },
  ground arith,
  ground arith,
  λ r' value' rgid' offset'. (refl, refl),
)

-- For a thread that does not hold the lock and an offset past the end of a region that lies below
-- 2^31, with its sum below 2^31, `tlbread` unlocks a lock that it never took.
pub read_out_of_range :
    (t : Thread) (r source offset : ℕ) (region : Region) (vma : Vma)
    → t.locked ≡ false
    → source < 30
    → get_elem? t.proc.mm.symrgtbl source ≡ some region
    → get_elem? t.proc.mm.mmap 0 ≡ some vma
    → region.rg_end < region.rg_start + offset
    → region.rg_start + offset < 2 ^ 31
    → tlbread t r source offset ≡ fault
unfolding tlbread unlock get_symrg_byid get_vma_by_num symrg
read_out_of_range t r source offset region vma free low symbol area past small =
    let exact : (region.rg_start + offset) % 2 ^ 64 % 2 ^ 32 ≡ region.rg_start + offset =
      omega arith in
    ground arith
