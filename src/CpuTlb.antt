-- ===== src/CpuTlb.antt =====
-- src/cpu-tlb.c with SYNCH and TLB_DUMP: the memory operations of a CPU, through the TLB. `locked` says
-- whether this thread holds `tlb_lock`. The lock of a thread that waits for itself never comes, which
-- is `timeout`; an unlock without a lock is undefined, which is `fault`. What is printed is left out.
pub mod Lock
pub mod Coherent
pub mod Agree
pub mod Alloc
pub mod Free
pub mod Owners
pub mod Apart
use os_assignment_hk.Common.{
  ℕ, zero, suc, ◌+◌, ◌-◌, Bool, true, false, ltb, Option, none, some, Result, ok, fault, timeout,
  ◌>>=◌, must, if◌then◌else◌,
}
use os_assignment_hk.Pte.{paging_pgn, paging_offst}
use os_assignment_hk.Memphy.{memphy_read, memphy_write}
use os_assignment_hk.Tlb.{tlb_cache_read, tlb_cache_write, tlb_cache_invalidate}
use os_assignment_hk.Vm.{Proc, get_vma_by_num, get_symrg_byid, symrg}
use os_assignment_hk.Vm.FreeList.{add_ulong}
use os_assignment_hk.Vm.Page.{pg_getpage, phyaddr}
use os_assignment_hk.Vm.Ops.{alloc, free, pages, to_int, to_ulong}

pub record Thread : Type 0 where
  pub locked : Bool
  pub proc : Proc

abbrev pub with_proc : Thread → Proc → Thread
with_proc t p = record t { proc = p }

unfoldable pub lock : Thread → Result Thread
lock t = if t.locked then timeout else ok (record t { locked = true })

unfoldable pub unlock : Thread → Result Thread
unlock t = if t.locked then ok (record t { locked = false }) else fault

-- an unlock and the status `true` for 0, `false` for -1
unfoldable pub leave : Bool → Thread → Result (Bool × Thread)
leave status t = unlock t >>= λ t'. ok (status, t')

-- `tlb_flush_tlb_of`
pub tlb_flush_tlb_of : Proc → Proc
tlb_flush_tlb_of p = record p { tlb = (tlb_cache_invalidate p.tlb p.pid none).1 }

-- The loop of `tlballoc` over the pages left, and what follows it; `r` gives what `rand()` returns.
pub cache_pages : ℕ → ℕ → (ℕ → ℕ) → Thread → Result (Bool × Thread)
cache_pages zero pgn r t = leave true t
cache_pages (suc n) pgn r t = pg_getpage t.proc pgn >>= λ (frame, p). elim frame [
  | none ↦ leave false (with_proc t p)
  | some frmnum ↦ tlb_cache_write p.tlb p.pid pgn frmnum (r pgn) >>= λ tlb'.
      cache_pages n (pgn + 1) r (with_proc t (record p { tlb = tlb' }))
]

pub tlballoc : Thread → (ℕ → ℕ) → ℕ → ℕ → Result (Bool × Thread)
tlballoc t₀ r size reg_index = lock t₀ >>= λ t. alloc t.proc 0 reg_index size >>= λ (addr, p).
    elim addr [
      | none ↦ leave false (with_proc t p)
      | some a ↦ elim (get_symrg_byid reg_index) [
        | none ↦ leave false (with_proc t p)
        | some i ↦ elim (get_vma_by_num p.mm 0) [
          | none ↦ leave false (with_proc t p)
          | some vma ↦ cache_pages (pages size) (paging_pgn a) r (with_proc t p)
        ]
      ]
    ]

-- the loop of `tlbfree_data` over the pages left
pub invalidate_pages : ℕ → ℕ → Proc → Proc
invalidate_pages zero pgn p = p
invalidate_pages (suc n) pgn p =
    invalidate_pages n (pgn + 1)
      (record p { tlb = (tlb_cache_invalidate p.tlb p.pid (some pgn)).1 })

-- The early return does not unlock; the status of `pgfree_data`, which is `__free`, is not looked at.
unfoldable pub tlbfree_data : Thread → ℕ → Result (Bool × Thread)
tlbfree_data t₀ reg_index = lock t₀ >>= λ t. elim (get_symrg_byid reg_index) [
  | none ↦ ok (false, t)
  | some i ↦ elim (get_vma_by_num t.proc.mm 0) [
    | none ↦ ok (false, t)
    | some vma ↦ symrg t.proc.mm i >>= λ region.
        free
          (invalidate_pages (pages (region.rg_end - region.rg_start)) (paging_pgn region.rg_start)
            t.proc)
          reg_index
        >>= λ (status, p). leave true (with_proc t p)
  ]
]

-- The frame of a page: that of the TLB, or else that of the page table, which is then stored in the
-- TLB; `none` for a page fault. `r` is what `rand()` returns.
unfoldable pub frame_of : Proc → ℕ → ℕ → Result (Option ℕ × Proc)
frame_of p pgn r = elim (tlb_cache_read p.tlb p.pid pgn) [
  | some frmnum ↦ ok (some frmnum, p)
  | none ↦ pg_getpage p pgn >>= λ (frame, q). elim frame [
    | none ↦ ok (none, q)
    | some frmnum ↦ tlb_cache_write q.tlb q.pid pgn frmnum r >>= λ tlb'.
        ok (some frmnum, record q { tlb = tlb' })
  ]
]

-- `tlbread` with the byte that it puts into its parameter `destination`. It never locks, and unlocks
-- when it fails behind the first test.
unfoldable pub tlbread : Thread → ℕ → ℕ → ℕ → Result (Bool × Option ℕ × Thread)
tlbread t r source offset =
    let failed : Proc → Result (Bool × Option ℕ × Thread) =
      λ p. unlock (with_proc t p) >>= λ t'. ok (false, none, t') in
    elim (get_symrg_byid source) [
      | none ↦ ok (false, none, t)
      | some i ↦ elim (get_vma_by_num t.proc.mm 0) [
        | none ↦ ok (false, none, t)
        | some vma ↦ symrg t.proc.mm i >>= λ region.
            let addr = to_int (add_ulong region.rg_start offset) in
            if ltb region.rg_end (to_ulong addr)
            then failed t.proc
            else (frame_of t.proc (paging_pgn addr) r >>= λ (frame, p). elim frame [
              | none ↦ failed p
              | some frmnum ↦
                  memphy_read (some p.mram) (phyaddr frmnum (paging_offst addr)) >>= λ (value, ram).
                  must ram >>= λ mp. ok (true, value, with_proc t (record p { mram = mp }))
            ])
      ]
    ]

-- `tlbwrite`, whose first return does not unlock
unfoldable pub tlbwrite : Thread → ℕ → ℕ → ℕ → ℕ → Result (Bool × Thread)
tlbwrite t₀ r value destination offset = lock t₀ >>= λ t. elim (get_symrg_byid destination) [
  | none ↦ ok (false, t)
  | some i ↦ elim (get_vma_by_num t.proc.mm 0) [
    | none ↦ ok (false, t)
    | some vma ↦ symrg t.proc.mm i >>= λ region.
        let addr = to_int (add_ulong region.rg_start offset) in
        if ltb region.rg_end (to_ulong addr)
        then leave false t
        else (frame_of t.proc (paging_pgn addr) r >>= λ (frame, p). elim frame [
          | none ↦ leave false (with_proc t p)
          | some frmnum ↦
              memphy_write (some p.mram) (phyaddr frmnum (paging_offst addr)) value
              >>= λ (status, ram).
                  must ram >>= λ mp. leave true (with_proc t (record p { mram = mp }))
        ])
  ]
]
