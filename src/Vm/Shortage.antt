-- ===== src/Vm/Shortage.antt =====
-- `alloc_pages_range` when there are too few frames and no page can be swapped out.
use os_assignment_hk.Common.{
  ℕ, zero, suc, ◌<◌, ◌≡◌, refl, sym, ◌∙◌, ap, arith, none, List, [], ◌∷◌, ◌++◌, length, ok,
}
use os_assignment_hk.Memphy.{Memphy, node, put_freefp}
use os_assignment_hk.Memphy.Frames.{of_frames, get_freefp_lem}
use os_assignment_hk.Vm.{Proc, find_victim_page, split_last}
use os_assignment_hk.Vm.Page.{alloc_pages_range, put_all}
use os_assignment_hk.Vm.Map.{pushed, with_frames}

pushed-pushed : (a l r : List ℕ) → pushed (pushed a l) r ≡ pushed l (a ++ r)
pushed-pushed [] l r = refl
pushed-pushed (f ∷ a) l r = pushed-pushed a (f ∷ l) r

append-nil : (a : List ℕ) → a ++ [] ≡ a
append-nil [] = refl
append-nil (f ∷ a) = ap (◌∷◌ f) (append-nil a)

put_all-pushed :
    (l free : List ℕ) (mp : Memphy)
    → mp.free_fp_list ≡ of_frames free
    → put_all l mp ≡ record mp { free_fp_list = of_frames (pushed l free) }
unfolding put_all put_freefp
put_all-pushed [] free mp e = ground arith
put_all-pushed (f ∷ l) free mp e = put_all-pushed l (f ∷ free) (put_freefp mp f) (ap (node f) e)

alloc_pages_range_short :
    (free l : List ℕ) (n : ℕ) (p : Proc)
    → 0 < p.mram.maxsz
    → p.mram.free_fp_list ≡ of_frames free
    → p.mm.fifo_pgn ≡ []
    → length free < n
    → alloc_pages_range n l p ≡ ok (none, with_frames p (pushed (pushed free l) []))
unfolding alloc_pages_range find_victim_page split_last
alloc_pages_range_short free l zero p pos e no_page h = absurd (omega arith)
alloc_pages_range_short [] l (suc n) p pos e no_page h =
    let got = (get_freefp_lem p.mram [] pos e).0 in
    let put = put_all-pushed l [] (with_frames p []).mram refl in ground arith
alloc_pages_range_short (f ∷ free) l (suc n) p pos e no_page h =
    let got = (get_freefp_lem p.mram (f ∷ free) pos e).0 in
    rw got
      (alloc_pages_range_short free (f ∷ l) n (with_frames p free) pos refl no_page (omega arith))

-- When RAM, of a size above 0, has fewer free frames than are asked for, and the FIFO list of pages is
-- empty, so that there is no victim, `alloc_pages_range` fails and gives back all that it took: the process and its devices
-- are as they were.
pub alloc_pages_range_fails :
    (p : Proc) (free : List ℕ) (n : ℕ)
    → 0 < p.mram.maxsz
    → p.mram.free_fp_list ≡ of_frames free
    → p.mm.fifo_pgn ≡ []
    → length free < n
    → alloc_pages_range n [] p ≡ ok (none, p)
alloc_pages_range_fails p free n pos e no_page h =
    let back = pushed-pushed free [] [] ∙ append-nil free in
    alloc_pages_range_short free [] n p pos e no_page h
    ∙ ap (λ l. ok (none, with_frames p l)) back
    ∙ ap (λ l. ok (none, record p { mram = record p.mram { free_fp_list = l } })) (sym e)
