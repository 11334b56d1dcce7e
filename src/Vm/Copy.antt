-- ===== src/Vm/Copy.antt =====
-- What `__swap_cp_page` leaves in the two devices.
use os_assignment_hk.Common.{
  ℕ, zero, suc, ◌+◌, ◌*◌, ◌<◌, ◌≤◌, ◌≡◌, refl, ◌∙◌, ap, arith, true, List, length, get_or, set,
  length-set, get_or-set_self, get_or-set_ne, ok, ◌>>=◌, inl, inr, ◌⊎◌,
}
use os_assignment_hk.Pte.{paging_pagesz}
use os_assignment_hk.Memphy.{Memphy}
use os_assignment_hk.Memphy.Access.{memphy_read_inside, memphy_write_inside}
use os_assignment_hk.Vm.{copy_cell, copy_loop, swap_cp_page}

abbrev pub with_storage : Memphy → List ℕ → Memphy
with_storage mp st = record mp { storage = st }

-- `after` is `before` with `n` cells from `to` on replaced by those of `source` from `from` on.
pub record Copied (source before after : List ℕ) (from to n : ℕ) : Type 0 where
  pub size : length after ≡ length before
  pub cells : (i : ℕ) → i < n → get_or after (to + i) 0 ≡ get_or source (from + i) 0
  pub others : (a : ℕ) → (a < to) ⊎ (to + n ≤ a) → get_or after a 0 ≡ get_or before a 0

copy_cell_lem :
    (src dst : Memphy) (from to : ℕ)
    → src.rdmflg ≡ true
    → dst.rdmflg ≡ true
    → from < length src.storage
    → to < length dst.storage
    → copy_cell src from dst to
      ≡ ok (src, with_storage dst (set dst.storage to (get_or src.storage from 0)))
unfolding copy_cell
copy_cell_lem src dst from to rs rd hs hd =
    rw (memphy_read_inside src from rs hs)
      (rw (memphy_write_inside dst to (get_or src.storage from 0) rd hd) refl)

-- One cell, then `n` cells.
copy_step :
    (source before st : List ℕ) (from to from' to' n : ℕ)
    → from' ≡ from + 1
    → to' ≡ to + 1
    → to < length before
    → Copied source (set before to (get_or source from 0)) st from' to' n
    → Copied source before st from to (suc n)
copy_step source before st from to from' to' n ef et h c =
    let v = get_or source from 0 in
    let here = get_or-set_self before to v 0 h in
    record {
      size = c.size ∙ length-set before to v;
      cells = elim [
        | zero ↦ λ k.
            let a : to + 0 ≡ to = omega arith in
            let b : from + 0 ≡ from = omega arith in
            rw a (rw b (c.others to (inl (omega arith)) ∙ here))
        | suc k ↦ λ lt.
            let a : to + suc k ≡ to' + k = omega arith in
            let b : from + suc k ≡ from' + k = omega arith in rw a (rw b (c.cells k (omega arith)))
      ];
      others = λ a out.
          c.others a (elim out [ inl x ↦ inl (omega arith) | inr x ↦ inr (omega arith) ])
          ∙ get_or-set_ne before to a v 0 (elim out [ inl x ↦ omega arith | inr x ↦ omega arith ]);
    }

-- `n` rounds from cell `i` on
copy_loop_lem :
    (n i : ℕ) (src dst : Memphy) (srcfpn dstfpn : ℕ)
    → src.rdmflg ≡ true
    → dst.rdmflg ≡ true
    → srcfpn * 256 + i + n ≤ length src.storage
    → dstfpn * 256 + i + n ≤ length dst.storage
    → (st : List ℕ) × (copy_loop n i src srcfpn dst dstfpn ≡ ok (src, with_storage dst st))
      × Copied src.storage dst.storage st (srcfpn * 256 + i) (dstfpn * 256 + i) n
unfolding copy_loop
copy_loop_lem zero i src dst srcfpn dstfpn rs rd hs hd = (
  dst.storage,
  refl,
  record { size = refl; cells = λ k h. absurd (omega arith); others = λ a h. refl },
)
copy_loop_lem (suc n) i src dst srcfpn dstfpn rs rd hs hd =
    let from = srcfpn * 256 + i in
    let to = dstfpn * 256 + i in
    let v = get_or src.storage from 0 in
    let written = set dst.storage to v in
    let size = length-set dst.storage to v in
    let one = copy_cell_lem src dst from to rs rd (omega arith) (omega arith) in
    let (st, returns, c) =
      copy_loop_lem n (i + 1) src (with_storage dst written) srcfpn dstfpn rs rd (omega arith)
        (omega arith) in
    (
      st,
      ap (λ m. m >>= λ (s, d). copy_loop n (i + 1) s srcfpn d dstfpn) one ∙ returns,
      copy_step src.storage dst.storage st from to (srcfpn * 256 + (i + 1)) (dstfpn * 256 + (i + 1))
          n (omega arith) (omega arith) (omega arith) c,
    )

-- For two random access devices that hold the whole of the frames, `__swap_cp_page` leaves the source
-- as it was, makes every byte of the destination's frame that of the source's frame, and changes no
-- other byte of the destination.
pub swap_cp_page_lem :
    (src dst : Memphy) (srcfpn dstfpn : ℕ)
    → src.rdmflg ≡ true
    → dst.rdmflg ≡ true
    → (srcfpn + 1) * paging_pagesz ≤ length src.storage
    → (dstfpn + 1) * paging_pagesz ≤ length dst.storage
    → (st : List ℕ) × (swap_cp_page src srcfpn dst dstfpn ≡ ok (src, with_storage dst st))
      × Copied src.storage dst.storage st
          (srcfpn * paging_pagesz)
          (dstfpn * paging_pagesz)
          paging_pagesz
unfolding swap_cp_page
swap_cp_page_lem src dst srcfpn dstfpn rs rd hs hd =
    let a : srcfpn * 256 + 0 ≡ srcfpn * 256 = omega arith in
    let b : dstfpn * 256 + 0 ≡ dstfpn * 256 = omega arith in
    let (st, returns, c) =
      copy_loop_lem paging_pagesz 0 src dst srcfpn dstfpn rs rd (omega arith) (omega arith) in
    (st, returns, rw a at (rw b at c))
