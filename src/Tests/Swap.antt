-- ===== src/Tests/Swap.antt =====
-- The theorems on swapping at a process whose page 0 is the oldest, with RAM full and one swap device.
use os_assignment_hk.Common.{
  ℕ, zero, suc, ◌*◌, ◌≡◌, refl, arith, true, some, List, [], ◌∷◌, get_elem?, replicate, ok,
}
use os_assignment_hk.Pte.{pte_fpn, pte_set_fpn, pte_set_swap}
use os_assignment_hk.Pte.RoundTrip.{pte_set_fpn_reads}
use os_assignment_hk.Memphy.{Memphy}
use os_assignment_hk.Memphy.Frames.{of_frames}
use os_assignment_hk.Tlb.{set_tlb_entry}
use os_assignment_hk.Tlb.Entry.{set_tlb_entry_reads}
use os_assignment_hk.Tlb.Laws.{IsValid}
use os_assignment_hk.Vm.{Proc}
use os_assignment_hk.Vm.Copy.{Copied}
use os_assignment_hk.Vm.Page.{alloc_pages_range, pg_getpage}
use os_assignment_hk.Vm.Swap.{refilled, SwappedOut, Forgets, HasRoom, alloc_pages_range_swaps}
use os_assignment_hk.Vm.SwapBack.{getpage-swap_out}

abbrev device : ℕ → List ℕ → Memphy
device byte frames = record {
  storage = replicate 512 byte;
  maxsz = 512;
  rdmflg = true;
  cursor = 0;
  free_fp_list = of_frames frames;
}

abbrev online_pte : ℕ
online_pte = pte_set_fpn 0 0

abbrev full_process : Proc
full_process = record {
  pid = 1;
  mm = record {
    pgd = online_pte ∷ pte_set_fpn 0 1 ∷ 0 ∷ [];
    mmap = [];
    symrgtbl = [];
    fifo_pgn = 1 ∷ 0 ∷ [];
  };
  mram = device 8 [];
  mswp = device 0 (1 ∷ []) ∷ [];
  tlb = set_tlb_entry 1 0 1 0 ∷ [];
  active_mswp = 0;
}

room : HasRoom full_process (device 0 (1 ∷ [])) [] 1 (pte_fpn online_pte) []
room =
    let read = pte_set_fpn_reads 0 0 (omega arith) in
    record {
      devices = refl;
      some_frame = omega arith;
      free = refl;
      random = refl;
      inside = omega arith;
      ram_random = refl;
      ram_inside = omega (arith, read.3);
    }

-- The TLB has page 0, the oldest.
full_process-IsValid : IsValid full_process.tlb
full_process-IsValid = record {
  words = elim [ zero ↦ λ h. (set_tlb_entry_reads 0 1 0).0 | suc i ↦ λ h. absurd (omega arith) ];
  unique = λ pid pg i j hi hj a b. omega arith;
}

alloc_pages_range_swaps_example :
    (q : Proc) × (alloc_pages_range 1 [] full_process ≡ ok (some (pte_fpn online_pte ∷ []), q))
    × SwappedOut full_process q (device 0 (1 ∷ [])) [] 0 online_pte 1 [] (1 ∷ [])
    × Forgets full_process q 0
alloc_pages_range_swaps_example =
    alloc_pages_range_swaps full_process (device 0 (1 ∷ [])) [] 0 online_pte 1 [] (1 ∷ []) []
      (omega arith) refl refl refl room full_process-IsValid

left :
    (q : Proc) × (alloc_pages_range 1 [] full_process ≡ ok (some (pte_fpn online_pte ∷ []), q))
    × SwappedOut full_process q (device 0 (1 ∷ [])) [] 0 online_pte 1 [] (1 ∷ [])
    × Forgets full_process q 0
left =
    alloc_pages_range_swaps full_process (device 0 (1 ∷ [])) [] 0 online_pte 1 [] (1 ∷ []) []
      (omega arith) refl refl refl room full_process-IsValid

-- Frame 1 of RAM has become free.
getpage-swap_out_example :
    (r : Proc) × (st : List ℕ) × (pg_getpage (record left.0 { mram = device 9 (1 ∷ []) }) 0
      ≡ ok (some 1, r))
    × (r.mram ≡ refilled (device 9 (1 ∷ [])) st [])
    × Copied (replicate 512 8) (replicate 512 9) st (pte_fpn online_pte * 256) 256 256
    × (get_elem? r.mm.pgd 0 ≡ some (pte_set_fpn (pte_set_swap online_pte 0 1) 1))
    × (r.mm.fifo_pgn ≡ 0 ∷ 1 ∷ [])
    × (r.mswp ≡ refilled (device 0 (1 ∷ [])) left.2.bytes (1 ∷ []) ∷ [])
getpage-swap_out_example =
    getpage-swap_out full_process left.0 (device 0 (1 ∷ [])) (device 9 (1 ∷ [])) [] 0 online_pte 1 1
      [] [] (1 ∷ []) left.2 ((pte_set_fpn_reads 0 0 (omega arith)).0) (omega arith) refl
      (omega arith) (omega arith) refl refl (omega arith)
