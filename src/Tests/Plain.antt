-- ===== src/Tests/Plain.antt =====
-- The scheduler without MLQ_SCHED with three ready processes, whose priorities are their remainders.
use os_assignment_hk.Common.{ℕ, ◌%◌, ◌≡◌, ◌≢◌, ◌⊎◌, arith, Option, List, [], ◌∷◌, ok}
use os_assignment_hk.Queue.Priority.Refine.{Highest}
use os_assignment_hk.Sched.Plain.{holding, get_proc, get_proc_lem}

abbrev rank : ℕ → ℕ
rank p = p % 5

abbrev waiting_first : List ℕ
waiting_first = 8 ∷ 11 ∷ 6 ∷ []

get_proc_lem_example :
    (o : Option ℕ) × (ready' run' : List ℕ) × (get_proc rank (holding waiting_first (5 ∷ []))
      ≡ ok (o, holding ready' run'))
    × (((waiting_first ≡ []) × (ready' ≡ []) × Highest rank (5 ∷ []) o run')
        ⊎ ((waiting_first ≢ []) × (run' ≡ 5 ∷ []) × Highest rank waiting_first o ready'))
get_proc_lem_example = get_proc_lem rank waiting_first (5 ∷ []) (omega arith) (omega arith)
