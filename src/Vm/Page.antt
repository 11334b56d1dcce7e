-- ===== src/Vm/Page.antt =====
-- Frames for pages: `alloc_pages_range`, `vmap_page_range` and `vm_map_ram` of src/mm.c, and
-- `pg_getpage` with its two users in src/mm-vm.c.
use os_assignment_hk.Common.{
  ℕ, zero, suc, ◌+◌, ◌*◌, ◌/◌, ◌%◌, ◌^◌, Bool, true, false, not, ◌==◌, Option, none, some, List, [],
  ◌∷◌, get_elem?, set, Result, ok, fault, ◌>>=◌, must, if◌then◌else◌,
}
use os_assignment_hk.Common.Int.{ℤ, pos, negsuc}
use os_assignment_hk.Pte.{
  page_present, page_swapped, pte_fpn, pte_swptyp, paging_swp, paging_pgn, paging_offst,
  pte_set_swap, pte_set_fpn,
}
use os_assignment_hk.Memphy.{Memphy, get_freefp, put_freefp, memphy_read, memphy_write}
use os_assignment_hk.Tlb.{tlb_cache_invalidate}
use os_assignment_hk.Vm.{
  Mm, Proc, find_victim_page, enlist_pgn_node, swap_cp_page, paging_max_mmswp,
}

-- The device at `caller->mswp + k`. `mswp` is declared as a pointer to pointers, so `k` counts
-- pointers of 8 bytes, while the devices behind it are structures of 40 bytes.
unfoldable pub swap_device : ℕ → Option ℕ
swap_device k = if 8 * k % 40 == 0 then some (8 * k / 40) else none

-- An address between two structures is no device.
unfoldable pub active_swap : Proc → ℕ → Result (ℕ × Memphy)
active_swap p k = must (swap_device k) >>= λ i. must (get_elem? p.mswp i) >>= λ mp. ok (i, mp)

abbrev pub set_pgd : Mm → ℕ → ℕ → Mm
set_pgd mm pgn pte = record mm { pgd = set mm.pgd pgn pte }

unfoldable pub put_all : List ℕ → Memphy → Memphy
put_all [] mp = mp
put_all (fpn ∷ frames) mp = put_all frames (put_freefp mp fpn)

-- The loop over the swap devices, with the rounds left: the number and the free frame of the first
-- that has one.
unfoldable pub swap_search : ℕ → ℕ → Proc → Result (Option (ℕ × ℕ) × Proc)
swap_search zero k p = ok (none, p)
swap_search (suc n) k p = active_swap p k >>= λ (i, mp). get_freefp (some mp) >>= λ (off, mp').
    must mp' >>= λ dev.
    let q = record p { mswp = set p.mswp i dev; active_mswp = k } in
    elim off [ some o ↦ ok (some (k, o), q) | none ↦ swap_search n (k + 1) q ]

-- The part of the loop of `alloc_pages_range` for a victim: the victim's frame, which is swapped out.
-- With no free frame on any swap device the code frees a node whose fields were never written.
unfoldable pub swap_out : Proc → ℕ → Result (ℕ × Proc)
swap_out p vicpgn = swap_search paging_max_mmswp 0 p >>= λ (place, q).
    must place >>= λ (swap_index, off).
    let tlb' = (tlb_cache_invalidate q.tlb q.pid (some vicpgn)).1 in
    must (get_elem? q.mm.pgd vicpgn) >>= λ vicpte. active_swap q swap_index >>= λ (i, mp).
    swap_cp_page q.mram (pte_fpn vicpte) mp off >>= λ (ram, dev). ok (
      pte_fpn vicpte,
      record q {
        tlb = tlb';
        mram = ram;
        mswp = set q.mswp i dev;
        mm = set_pgd q.mm vicpgn (pte_set_swap vicpte swap_index off);
      },
    )

-- The loop of `alloc_pages_range` with the rounds left; `none` is -3000.
unfoldable pub alloc_pages_range : ℕ → List ℕ → Proc → Result (Option (List ℕ) × Proc)
alloc_pages_range zero frm_lst p = ok (some frm_lst, p)
alloc_pages_range (suc n) frm_lst p = get_freefp (some p.mram) >>= λ (free, ram). must ram >>= λ mp.
    let q = record p { mram = mp } in
    elim free [
      | some fpn ↦ alloc_pages_range n (fpn ∷ frm_lst) q
      | none ↦ elim (find_victim_page q.mm) [
        | none ↦ ok (none, record q { mram = put_all frm_lst mp })
        | some (vicpgn, mm') ↦ swap_out (record q { mm = mm' }) vicpgn >>= λ (fpn, q').
            alloc_pages_range n (fpn ∷ frm_lst) q'
      ]
    ]

-- The loop of `vmap_page_range` with the rounds left, from page `pgn` on.
unfoldable pub vmap_loop : ℕ → ℕ → List ℕ → Mm → Result Mm
vmap_loop zero pgn frames mm = ok mm
vmap_loop (suc n) pgn [] mm = fault
vmap_loop (suc n) pgn (fpn ∷ frames) mm = must (get_elem? mm.pgd pgn) >>= λ pte.
    vmap_loop n (pgn + 1) frames (enlist_pgn_node (set_pgd mm pgn (pte_set_fpn pte fpn)) pgn)

unfoldable pub vmap_page_range : Proc → ℕ → ℕ → List ℕ → Result Proc
vmap_page_range p addr pgnum frames =
    vmap_loop pgnum (paging_pgn addr) frames p.mm >>= λ mm'. ok (record p { mm = mm' })

-- `vm_map_ram`, whose first two bounds are not looked at; `true` for 0
unfoldable pub vm_map_ram : Proc → ℕ → ℕ → Result (Bool × Proc)
vm_map_ram p mapstart incpgnum = alloc_pages_range incpgnum [] p >>= λ (frm_lst, q). elim frm_lst [
  | none ↦ ok (false, q)
  | some frames ↦ vmap_page_range q mapstart incpgnum frames >>= λ q'. ok (true, q')
]

-- `pg_getpage` for a swapped page and a free frame
unfoldable pub swap_in : Proc → ℕ → ℕ → ℕ → Result Proc
swap_in p pgn pte fpn = active_swap p (pte_swptyp pte) >>= λ (i, mp).
    swap_cp_page mp (paging_swp pte) p.mram fpn >>= λ (dev, ram). ok (record p {
      active_mswp = pte_swptyp pte;
      mram = ram;
      mswp = set p.mswp i (put_freefp dev (paging_swp pte));
      mm = enlist_pgn_node (set_pgd p.mm pgn (pte_set_fpn pte fpn)) pgn;
    })

-- `failed < 0`
abbrev is_negative : ℤ → Bool
is_negative (pos n) = false
is_negative (negsuc n) = true

-- The loop of `pg_getpage` over the swap devices, with the rounds left, which goes on while
-- `failed < 0`: `vicSwapOff`, `none` for -1, and `swapIndex`.
unfoldable pub victim_search : ℕ → ℤ → ℕ → Proc → Result (Option ℕ × ℕ × Proc)
victim_search zero failed k p = ok (none, k, p)
victim_search (suc n) failed k p = elim (is_negative failed) [
  | false ↦ ok (none, k, p)
  | true ↦ active_swap p k >>= λ (i, mp). get_freefp (some mp) >>= λ (off, mp'). must mp' >>= λ dev.
      let q = record p { mswp = set p.mswp i dev; active_mswp = k } in
      elim off [ some o ↦ ok (some o, k, q) | none ↦ victim_search n failed (k + 1) q ]
]

-- `caller->mswp[k]`, which takes the bytes of a device for a pointer to one: C leaves it undefined.
unfoldable pub mswp_entry : ℕ → Result Memphy
mswp_entry k = fault

-- The part of `pg_getpage` behind that loop, for a victim with a frame on device `k`.
unfoldable pub swap_over : Proc → ℕ → ℕ → ℕ → ℕ → ℕ → ℕ → Result (ℕ × Proc)
swap_over p pgn pte vicpgn vicpte k off =
    let tlb' = (tlb_cache_invalidate p.tlb p.pid (some vicpgn)).1 in
    let vicfpn = pte_fpn vicpte in
    active_swap p k >>= λ (i, mp). swap_cp_page p.mram vicfpn mp off >>= λ (ram, dev).
    mswp_entry (pte_swptyp pte) >>= λ source.
    swap_cp_page source (paging_swp pte) ram vicfpn >>= λ (source', ram').
    let mm' = set_pgd p.mm vicpgn (pte_set_swap vicpte k off) in
    must (get_elem? mm'.pgd pgn) >>= λ entry.
    let pte' = pte_set_fpn entry vicfpn in
    ok (
      pte_fpn pte',
      record p {
        tlb = tlb';
        mram = ram';
        mswp = set p.mswp i dev;
        active_mswp = pte_swptyp pte;
        mm = enlist_pgn_node (set_pgd mm' pgn pte') pgn;
      },
    )

-- `pg_getpage` for a swapped page with no free frame in RAM: a victim leaves `fifo_pgn`, and the loop
-- over the swap devices starts with `failed = 0`.
unfoldable pub swap_with_victim : Proc → ℕ → ℕ → Result (Option ℕ × Proc)
swap_with_victim p pgn pte = elim (find_victim_page p.mm) [
  | none ↦ ok (none, p)
  | some (vicpgn, mm') ↦ must (get_elem? mm'.pgd vicpgn) >>= λ vicpte.
      victim_search paging_max_mmswp (pos 0) 0 (record p { mm = mm' }) >>= λ (off, k, q). elim off [
        | none ↦ ok (none, q)
        | some o ↦ swap_over q pgn pte vicpgn vicpte k o >>= λ (fpn, q'). ok (some fpn, q')
      ]
]

-- `pg_getpage`: the frame, `none` for -1
unfoldable pub pg_getpage : Proc → ℕ → Result (Option ℕ × Proc)
pg_getpage p pgn = must (get_elem? p.mm.pgd pgn) >>= λ pte.
    if not (page_present pte)
    then ok (none, p)
    else if not (page_swapped pte)
    then ok (some (pte_fpn pte), p)
    else (get_freefp (some p.mram) >>= λ (free, ram). must ram >>= λ mp.
        let q = record p { mram = mp } in
        elim free [
          | some fpn ↦ swap_in q pgn pte fpn >>= λ q'. ok (some fpn, q')
          | none ↦ swap_with_victim q pgn pte
        ])

-- The address on the device, `(fpn << PAGING_ADDR_FPN_LOBIT) + off`.
abbrev pub phyaddr : ℕ → ℕ → ℕ
phyaddr fpn off = fpn * 2 ^ 8 + off

-- `pg_getval`: the status is `true` for 0, and the byte is `none` where it is not written.
unfoldable pub pg_getval : Proc → ℕ → Result (Bool × Option ℕ × Proc)
pg_getval p addr = pg_getpage p (paging_pgn addr) >>= λ (frame, q). elim frame [
  | none ↦ ok (false, none, q)
  | some fpn ↦ memphy_read (some q.mram) (phyaddr fpn (paging_offst addr)) >>= λ (v, ram).
      must ram >>= λ mp. ok (true, v, record q { mram = mp })
]

unfoldable pub pg_setval : Proc → ℕ → ℕ → Result (Bool × Proc)
pg_setval p addr value = pg_getpage p (paging_pgn addr) >>= λ (frame, q). elim frame [
  | none ↦ ok (false, q)
  | some fpn ↦
      memphy_write (some q.mram) (phyaddr fpn (paging_offst addr)) value >>= λ (status, ram).
      must ram >>= λ mp. ok (true, record q { mram = mp })
]
