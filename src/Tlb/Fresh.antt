-- ===== src/Tlb/Fresh.antt =====
-- The TLB that `init_tlbmemphy` makes, when the memory from `malloc` has no valid entry.
use mathlib.Core.Path.{subst}
use os_assignment_hk.Common.{
  ℕ, ◌+◌, ◌/◌, ◌^◌, ◌<◌, ◌≡◌, sym, arith, false, none, length, get_or, length-tabulate,
  get_or-tabulate,
}
use os_assignment_hk.Tlb.{Tlb, tlb_valid, hits, tlb_cache_read, init_tlbmemphy}
use os_assignment_hk.Tlb.Entry.{tlb_valid_lem}
use os_assignment_hk.Tlb.Laws.{IsValid}
use os_assignment_hk.Tlb.Stale.{read-none}

-- No entry hits, so the TLB has nothing, whatever is asked for.
pub invalid-IsValid :
    (tlb : Tlb)
    → ((j : ℕ) → j < length tlb → (get_or tlb j 0 < 2 ^ 64) × (tlb_valid (get_or tlb j 0) ≡ false))
    → IsValid tlb × ((pid pg : ℕ) → tlb_cache_read tlb pid pg ≡ none)
unfolding hits
invalid-IsValid tlb h = (
  record {
    words = λ i lt. (h i lt).0;
    unique = λ pid pg i j hi hj a b. let e = (h i hi).1 in ground arith;
  },
  λ pid pg. read-none tlb pid pg (λ j lt. let e = (h j lt).1 in ground arith),
)

pub init_tlbmemphy_lem :
    (max_size : ℕ) (old : ℕ → ℕ)
    → ((j : ℕ) → (old j < 2 ^ 64) × (tlb_valid (old j) ≡ false))
    → (length (init_tlbmemphy max_size old) ≡ max_size / 8)
      × IsValid (init_tlbmemphy max_size old)
      × ((pid pg : ℕ) → tlb_cache_read (init_tlbmemphy max_size old) pid pg ≡ none)
unfolding init_tlbmemphy
init_tlbmemphy_lem max_size old h =
    let len = length-tabulate (max_size / 8) 0 old in
    let (valid, empty) = invalid-IsValid (init_tlbmemphy max_size old) (λ j lt.
      subst (λ e. (e < 2 ^ 64) × (tlb_valid e ≡ false))
        (sym (get_or-tabulate (max_size / 8) 0 j old 0 (omega (arith, len)))) (h (0 + j))) in
    (len, valid, empty)

pub tlb_valid_zero : tlb_valid 0 ≡ false
tlb_valid_zero = ground (arith, tlb_valid_lem 0)
