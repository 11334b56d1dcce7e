-- ===== src/Vm/SwapBack.antt =====
-- A page that was swapped out comes back: `pg_getpage` with a free frame in RAM.
use os_assignment_hk.Common.{
  ℕ, ◌+◌, ◌*◌, ◌^◌, ◌<◌, ◌≤◌, ◌≡◌, refl, ◌∙◌, ap, arith, true, some, List, ◌∷◌, length, get_elem?,
  get_elem?-some_lt, get_elem?-set_self, set, ok,
}
use os_assignment_hk.Pte.{pte_fpn, pte_swptyp, paging_swp, pte_set_swap, pte_set_fpn}
use os_assignment_hk.Pte.RoundTrip.{pte_set_swap_reads}
use os_assignment_hk.Memphy.{Memphy, node, put_freefp}
use os_assignment_hk.Memphy.Frames.{of_frames, get_freefp_lem}
use os_assignment_hk.Vm.{Proc, enlist_pgn_node}
use os_assignment_hk.Vm.Copy.{Copied, with_storage, swap_cp_page_lem}
use os_assignment_hk.Vm.Page.{swap_device, active_swap, swap_in, pg_getpage}
use os_assignment_hk.Vm.Swap.{refilled, SwappedOut}

-- the process with the page back at a frame
abbrev returned : Proc → Memphy → List Memphy → ℕ → ℕ → Proc
returned p ram mswp pgn pte = record p {
  active_mswp = 0;
  mram = ram;
  mswp = mswp;
  mm = record p.mm { pgd = set p.mm.pgd pgn pte; fifo_pgn = pgn ∷ p.mm.fifo_pgn };
}

swap_in_lem :
    (p : Proc) (dev : Memphy) (others : List Memphy) (pgn pte off fpn : ℕ) (rest : List ℕ)
    → p.mswp ≡ dev ∷ others
    → dev.free_fp_list ≡ of_frames rest
    → pte_swptyp pte ≡ 0
    → paging_swp pte ≡ off
    → dev.rdmflg ≡ true
    → (off + 1) * 256 ≤ length dev.storage
    → p.mram.rdmflg ≡ true
    → (fpn + 1) * 256 ≤ length p.mram.storage
    → (st : List ℕ) × (swap_in p pgn pte fpn
        ≡ ok (
            returned p
              (with_storage p.mram st)
              (refilled dev dev.storage (off ∷ rest) ∷ others)
              pgn
              (pte_set_fpn pte fpn)))
      × Copied dev.storage p.mram.storage st (off * 256) (fpn * 256) 256
unfolding swap_in active_swap swap_device put_freefp enlist_pgn_node
swap_in_lem p dev others pgn pte off fpn rest devices free typ swp random inside ram_random
      ram_inside =
    let (st, copy, copied) =
      swap_cp_page_lem dev p.mram off fpn random ram_random inside ram_inside in
    (
      st,
      rw typ (
          rw devices (
            rw swp (
              rw copy (
                ap
                  (λ x. ok (
                    returned p (with_storage p.mram st)
                      (record dev { free_fp_list = node off x } ∷ others) pgn
                      (pte_set_fpn pte fpn)))
                  free)))),
      copied,
    )

-- The page that was swapped out to the first device, to a frame below 512 there, is wanted again, when
-- RAM has a free frame and both devices are of random access with the frames in their storage,
-- RAM of a size above 0:
-- `pg_getpage` gives that frame of RAM, the bytes of the page are there as they were when it left, no
-- other byte of RAM changes, the page is the newest one, and its frame on the swap device is free again.
-- The page table entry that the page had was a 32-bit word.
pub getpage-swap_out :
    (p q : Proc) (dev ram : Memphy) (others : List Memphy) (victim pte off fpn : ℕ)
    (rest frames l : List ℕ) (out : SwappedOut p q dev others victim pte off rest l)
    → pte < 2 ^ 32
    → off < 512
    → dev.rdmflg ≡ true
    → (off + 1) * 256 ≤ length dev.storage
    → 0 < ram.maxsz
    → ram.free_fp_list ≡ of_frames (fpn ∷ frames)
    → ram.rdmflg ≡ true
    → (fpn + 1) * 256 ≤ length ram.storage
    → (r : Proc) × (st : List ℕ) × (pg_getpage (record q { mram = ram }) victim ≡ ok (some fpn, r))
      × (r.mram ≡ refilled ram st frames)
      × Copied p.mram.storage ram.storage st (pte_fpn pte * 256) (fpn * 256) 256
      × (get_elem? r.mm.pgd victim ≡ some (pte_set_fpn (pte_set_swap pte 0 off) fpn))
      × (r.mm.fifo_pgn ≡ victim ∷ l)
      × (r.mswp ≡ refilled dev out.bytes (off ∷ rest) ∷ others)
unfolding pg_getpage
getpage-swap_out p q dev ram others victim pte off fpn rest frames l out word low random inside pos
      free ram_random ram_inside =
    let (word', present, swapped, typ, swp) = pte_set_swap_reads pte 0 off word in
    let got = (get_freefp_lem ram (fpn ∷ frames) pos free).0 in
    let left : Proc = record q { mram = record ram { free_fp_list = of_frames frames } } in
    let (st, returns, copied) =
      swap_in_lem left (refilled dev out.bytes rest) others victim (pte_set_swap pte 0 off) off fpn
        rest out.swap refl (omega (arith, typ)) (omega (arith, swp)) random
        (omega (arith, out.copied.size)) ram_random ram_inside in
    (
      returned left (refilled ram st frames) (refilled dev out.bytes (off ∷ rest) ∷ others) victim
          (pte_set_fpn (pte_set_swap pte 0 off) fpn),
      st,
      rw out.entry (rw present (rw swapped (rw got (rw returns refl)))),
      refl,
      record {
        size = copied.size;
        cells = λ i h. copied.cells i h ∙ out.copied.cells i h;
        others = copied.others;
      },
      get_elem?-set_self q.mm.pgd victim _ (get_elem?-some_lt q.mm.pgd victim out.entry),
      ap (λ x. victim ∷ x) out.queue,
      refl,
    )
