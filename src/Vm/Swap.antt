-- ===== src/Vm/Swap.antt =====
-- A page that is swapped out to make room: `alloc_pages_range` with no free frame in RAM.

use mathlib.Core.Path.{subst}
use os_assignment_hk.Common.{
  ℕ, suc, ◌+◌, ◌*◌, ◌<◌, ◌≤◌, ◌≡◌, ◌≢◌, ◌⊎◌, refl, sym, ◌∙◌, ap, true, none, some, List, [], ◌∷◌,
  ◌++◌, length, get_elem?, get_elem?-some_lt, get_elem?-set_self, get_or, set, get_or-set_ne, ok,
}
use os_assignment_hk.Pte.{pte_fpn, pte_set_swap}
use os_assignment_hk.Memphy.{Memphy}
use os_assignment_hk.Memphy.Frames.{of_frames, get_freefp_lem}
use os_assignment_hk.Tlb.{tlb_cache_read, tlb_cache_invalidate}
use os_assignment_hk.Tlb.Laws.{IsValid}
use os_assignment_hk.Tlb.Invalidate.{tlb_cache_invalidate_page}
use os_assignment_hk.Vm.{Proc}
use os_assignment_hk.Vm.Copy.{Copied, swap_cp_page_lem}
use os_assignment_hk.Vm.Bytes.{find_victim_page_fifo}
use os_assignment_hk.Vm.Page.{
  swap_device, active_swap, set_pgd, swap_search, swap_out, alloc_pages_range,
}

-- a device with other bytes and other free frames
abbrev pub refilled : Memphy → List ℕ → List ℕ → Memphy
refilled mp st free = record mp { storage = st; free_fp_list = of_frames free }

-- What the loss of its oldest page leaves of a process: the page is on the first swap device, with its
-- bytes, and its entry in the TLB is invalidated.
pub record SwappedOut (p q : Proc) (dev : Memphy) (others : List Memphy) (victim pte off : ℕ)
    (rest l : List ℕ) : Type 0 where
  pub entry : get_elem? q.mm.pgd victim ≡ some (pte_set_swap pte 0 off)
  pub kept : (j : ℕ) → victim ≢ j → get_or q.mm.pgd j 0 ≡ get_or p.mm.pgd j 0
  pub queue : q.mm.fifo_pgn ≡ l
  pub ram : q.mram ≡ p.mram
  pub bytes : List ℕ
  pub swap : q.mswp ≡ refilled dev bytes rest ∷ others
  pub copied : Copied p.mram.storage dev.storage bytes (pte_fpn pte * 256) (off * 256) 256
  pub tlb : q.tlb ≡ (tlb_cache_invalidate p.tlb p.pid (some victim)).1

-- The TLB of `q` is that of `p` without a page of the process.
pub record Forgets (p q : Proc) (pg : ℕ) : Type 0 where
  pub valid : IsValid q.tlb
  pub gone : tlb_cache_read q.tlb p.pid pg ≡ none
  pub others :
      (pid' pg' : ℕ)
      → (pid' ≢ p.pid) ⊎ (pg' ≢ pg)
      → tlb_cache_read q.tlb pid' pg' ≡ tlb_cache_read p.tlb pid' pg'

invalidated-Forgets :
    (p q : Proc) (pg : ℕ)
    → IsValid p.tlb
    → q.tlb ≡ (tlb_cache_invalidate p.tlb p.pid (some pg)).1
    → Forgets p q pg
invalidated-Forgets p q pg valid e =
    let (valid', gone, others) = tlb_cache_invalidate_page p.tlb p.pid pg valid in
    record {
      valid = subst IsValid (sym e) valid';
      gone = ap (λ x. tlb_cache_read x p.pid pg) e ∙ gone;
      others = λ pid' pg' ne. ap (λ x. tlb_cache_read x pid' pg') e ∙ others pid' pg' ne;
    }

search_first :
    (n : ℕ) (p : Proc) (dev : Memphy) (others : List Memphy) (off : ℕ) (rest : List ℕ)
    → p.mswp ≡ dev ∷ others
    → 0 < dev.maxsz
    → dev.free_fp_list ≡ of_frames (off ∷ rest)
    → swap_search (suc n) 0 p
      ≡ ok (
        some (0, off),
        record p { mswp = refilled dev dev.storage rest ∷ others; active_mswp = 0 },
      )
unfolding swap_search active_swap swap_device
search_first n p dev others off rest e pos free =
    let got = (get_freefp_lem dev (off ∷ rest) pos free).0 in
    let left = refilled dev dev.storage rest in
    rw e
      (rw got (ap (λ l. ok (some (0, off), record p { mswp = set l 0 left; active_mswp = 0 })) e))

-- The first swap device has a free frame, and both devices hold the frames in question.
pub record HasRoom (p : Proc) (dev : Memphy) (others : List Memphy) (off fpn : ℕ) (rest : List ℕ)
    : Type 0 where
  pub devices : p.mswp ≡ dev ∷ others
  pub some_frame : 0 < dev.maxsz
  pub free : dev.free_fp_list ≡ of_frames (off ∷ rest)
  pub random : dev.rdmflg ≡ true
  pub inside : (off + 1) * 256 ≤ length dev.storage
  pub ram_random : p.mram.rdmflg ≡ true
  pub ram_inside : (fpn + 1) * 256 ≤ length p.mram.storage

swap_out_lem :
    (p : Proc) (dev : Memphy) (others : List Memphy) (victim pte off : ℕ) (rest : List ℕ)
    → get_elem? p.mm.pgd victim ≡ some pte
    → HasRoom p dev others off (pte_fpn pte) rest
    → (q : Proc) × (swap_out p victim ≡ ok (pte_fpn pte, q))
      × SwappedOut p q dev others victim pte off rest p.mm.fifo_pgn
unfolding swap_out active_swap swap_device
swap_out_lem p dev others victim pte off rest entry room =
    let found = search_first 3 p dev others off rest room.devices room.some_frame room.free in
    let dev' = refilled dev dev.storage rest in
    let (st, copy, copied) =
      swap_cp_page_lem p.mram dev' (pte_fpn pte) off room.ram_random room.random room.ram_inside
        room.inside in
    (
      record p {
        tlb = (tlb_cache_invalidate p.tlb p.pid (some victim)).1;
        mswp = refilled dev st rest ∷ others;
        mm = set_pgd p.mm victim (pte_set_swap pte 0 off);
        active_mswp = 0;
      },
      rw found (rw entry (rw copy refl)),
      record {
        entry =
            get_elem?-set_self p.mm.pgd victim (pte_set_swap pte 0 off)
              (get_elem?-some_lt p.mm.pgd victim entry);
        kept = λ j ne. get_or-set_ne p.mm.pgd victim j (pte_set_swap pte 0 off) 0 ne;
        queue = refl;
        ram = refl;
        bytes = st;
        swap = refl;
        copied = copied;
        tlb = refl;
      },
    )

-- For a request of one page by a process with a full RAM, whose oldest page has an entry, a valid TLB,
-- and a first swap device with a free frame, both devices of a size above 0, of random access and with the frames
-- in their storage: `alloc_pages_range` hands out the frame of the oldest page. That page's bytes are on the swap
-- device at the first free frame there, and its entry says so; the other entries, RAM and the other
-- devices are as before. The TLB stays valid, has no frame for that page, and reads as before for
-- every other page and process.
pub alloc_pages_range_swaps :
    (p : Proc) (dev : Memphy) (others : List Memphy) (victim pte off : ℕ) (rest l frm : List ℕ)
    → 0 < p.mram.maxsz
    → p.mram.free_fp_list ≡ of_frames []
    → p.mm.fifo_pgn ≡ l ++ victim ∷ []
    → get_elem? p.mm.pgd victim ≡ some pte
    → HasRoom p dev others off (pte_fpn pte) rest
    → IsValid p.tlb
    → (q : Proc) × (alloc_pages_range 1 frm p ≡ ok (some (pte_fpn pte ∷ frm), q))
      × SwappedOut p q dev others victim pte off rest l
      × Forgets p q victim
unfolding alloc_pages_range
alloc_pages_range_swaps p dev others victim pte off rest l frm pos full fifo entry room valid =
    let empty = (get_freefp_lem p.mram [] pos full).0 in
    let oldest = (find_victim_page_fifo p.mm l victim 0 fifo).0 in
    let left : Proc = record p {
      mram = record p.mram { free_fp_list = of_frames [] };
      mm = record p.mm { fifo_pgn = l };
    } in
    let (q, returns, out) = swap_out_lem left dev others victim pte off rest entry (record {
      devices = room.devices;
      some_frame = room.some_frame;
      free = room.free;
      random = room.random;
      inside = room.inside;
      ram_random = room.ram_random;
      ram_inside = room.ram_inside;
    }) in
    (
      q,
      rw empty (rw oldest (rw returns refl)),
      record {
        entry = out.entry;
        kept = out.kept;
        queue = out.queue;
        ram = out.ram ∙ ap (λ x. record p.mram { free_fp_list = x }) (sym full);
        bytes = out.bytes;
        swap = out.swap;
        copied = out.copied;
        tlb = out.tlb;
      },
      invalidated-Forgets p q victim valid out.tlb,
    )
