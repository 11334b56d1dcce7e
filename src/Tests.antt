-- ===== src/Tests.antt =====
-- The theorems at concrete inputs: a scheduler with a ready process, a TLB with one entry, small
-- devices, and page table entries with their flags set.
mod Memory
mod Cpu
mod Device
mod Plain
mod Os
mod Program
mod Taken
mod Boot
mod Swap
mod Apart
mod Round
mod Clocked
mod Alloc
mod Timer
use os_assignment_hk.Common.{
  ℕ, zero, suc, ◌+◌, ◌%◌, ◌^◌, ◌<◌, ◌≡◌, ◌≢◌, ◌⊎◌, refl, arith, Bool, Option, none, some, List, [],
  ◌∷◌, length, get_or, set, ok,
}
use os_assignment_hk.Queue.{dequeue}
use os_assignment_hk.Queue.Refine.{of_list, dequeue_refines}
use os_assignment_hk.Sched.{Sched, init_scheduler, get_mlq_proc}
use os_assignment_hk.Sched.Pick.{pick, get_mlq_proc-eq-pick}
use os_assignment_hk.Sched.Levels.{Represents, update, Dispatch, with_level}
use os_assignment_hk.Sched.Dispatch.{get_mlq_proc-Dispatch, init_scheduler-Represents}
use os_assignment_hk.Memphy.{Memphy, FrameList}
use os_assignment_hk.Tlb.{Tlb, set_tlb_entry, tlb_cache_read, tlb_cache_write, tlb_cache_invalidate}
use os_assignment_hk.Tlb.Entry.{hits_zero, set_tlb_entry_reads}
use os_assignment_hk.Tlb.Laws.{IsValid, tlb_cache_read-write}
use os_assignment_hk.Tlb.Stale.{tlb_cache_write_others}
use os_assignment_hk.Tlb.Invalidate.{tlb_cache_invalidate_page}
use os_assignment_hk.Tlb.Flush.{tlb_cache_invalidate_process}

-- the scheduler with the processes 7 and 8 at priority 3
abbrev two_ready : Sched ℕ
two_ready = record (init_scheduler {P = ℕ}) {
  mlq = set (init_scheduler {P = ℕ}).mlq 3 (of_list (7 ∷ 8 ∷ []));
  slot = (init_scheduler {P = ℕ}).slot;
}

abbrev their_levels : ℕ → List ℕ
their_levels = update (λ _. []) 3 (7 ∷ 8 ∷ [])

abbrev priority : ℕ → ℕ
priority p = p % 5

two_ready-Represents : Represents two_ready their_levels
two_ready-Represents =
    let r = init_scheduler-Represents ℕ in
    with_level r 3 (7 ∷ 8 ∷ []) (init_scheduler {P = ℕ}).slot (omega arith) (omega arith) r.slots
      r.budget

get_mlq_proc-eq-pick_example : get_mlq_proc two_ready ≡ some (pick two_ready)
get_mlq_proc-eq-pick_example = get_mlq_proc-eq-pick two_ready

get_mlq_proc-Dispatch_example :
    (out : Option ℕ) × (s' : Sched ℕ) × (get_mlq_proc two_ready ≡ some (out, s'))
    × Dispatch two_ready their_levels out s'
get_mlq_proc-Dispatch_example = get_mlq_proc-Dispatch two_ready-Represents

dequeue_refines_example :
    dequeue {P = ℕ} (some (of_list (4 ∷ 5 ∷ []))) ≡ (some 4, some (of_list (5 ∷ [])))
dequeue_refines_example = dequeue_refines (4 ∷ 5 ∷ []) (omega arith)

-- an entry with all its flags, swapped and dirty
abbrev used_pte : ℕ
used_pte = 2 ^ 31 + 2 ^ 30 + 2 ^ 28 + 77

abbrev flag_on : ℕ
flag_on = 1

abbrev flag_off : ℕ
flag_off = 0

abbrev device : Bool → FrameList → Memphy
device random frames = record {
  storage = 10 ∷ 20 ∷ 30 ∷ [];
  maxsz = 3;
  rdmflg = random;
  cursor = 0;
  free_fp_list = frames;
}

-- two entries that were never written
abbrev empty_tlb : Tlb
empty_tlb = 0 ∷ 0 ∷ []

empty_tlb_entry : (i : ℕ) → i < 2 → get_or empty_tlb i 0 ≡ 0
empty_tlb_entry zero h = refl
empty_tlb_entry (suc zero) h = refl
empty_tlb_entry (suc (suc i)) h = absurd (omega arith)

empty_tlb-IsValid : IsValid empty_tlb
empty_tlb-IsValid = record {
  words = λ i h. omega (arith, empty_tlb_entry i h);
  unique = λ pid pg i j hi hj a b.
      let e = empty_tlb_entry i hi in let miss = hits_zero pid pg in absurd (cc);
}

tlb_cache_read-write_example :
    (tlb' : Tlb) × (tlb_cache_write empty_tlb 3 5 8 0 ≡ ok tlb')
    × (tlb_cache_read tlb' 3 5 ≡ some 8)
    × (length tlb' ≡ 2)
tlb_cache_read-write_example =
    tlb_cache_read-write empty_tlb 3 5 8 0 (omega arith) (omega arith) (omega arith)

tlb_cache_write_others_example :
    (tlb' : Tlb) × (tlb_cache_write empty_tlb 3 5 8 0 ≡ ok tlb')
    × IsValid tlb'
    × ((pid' pg' f : ℕ)
        → (pid' ≢ 3) ⊎ (pg' ≢ 5)
        → tlb_cache_read tlb' pid' pg' ≡ some f
        → tlb_cache_read empty_tlb pid' pg' ≡ some f)
tlb_cache_write_others_example =
    tlb_cache_write_others empty_tlb 3 5 8 0 empty_tlb-IsValid (omega arith) (omega arith)
      (omega arith)

-- the frame 8 for page 5 of process 3
abbrev one_entry : Tlb
one_entry = set_tlb_entry 1 5 3 8 ∷ []

one_entry-IsValid : IsValid one_entry
one_entry-IsValid = record {
  words = elim [ zero ↦ λ h. (set_tlb_entry_reads 5 3 8).0 | suc i ↦ λ h. absurd (omega arith) ];
  unique = λ pid pg i j hi hj a b. omega arith;
}

tlb_cache_invalidate_page_example :
    IsValid (tlb_cache_invalidate one_entry 3 (some 5)).1
    × (tlb_cache_read (tlb_cache_invalidate one_entry 3 (some 5)).1 3 5 ≡ none)
    × ((pid' pg' : ℕ)
        → (pid' ≢ 3) ⊎ (pg' ≢ 5)
        → tlb_cache_read (tlb_cache_invalidate one_entry 3 (some 5)).1 pid' pg'
          ≡ tlb_cache_read one_entry pid' pg')
tlb_cache_invalidate_page_example = tlb_cache_invalidate_page one_entry 3 5 one_entry-IsValid

tlb_cache_invalidate_process_example :
    ((pg : ℕ) → tlb_cache_read (tlb_cache_invalidate one_entry 3 none).1 3 pg ≡ none)
    × ((pid' pg : ℕ)
        → pid' ≢ 3
        → tlb_cache_read (tlb_cache_invalidate one_entry 3 none).1 pid' pg
          ≡ tlb_cache_read one_entry pid' pg)
tlb_cache_invalidate_process_example =
    tlb_cache_invalidate_process one_entry 3 one_entry-IsValid.words
