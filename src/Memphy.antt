-- ===== src/Memphy.antt =====
-- src/mm-memphy.c: a physical memory device with its list of free frames. A pointer to a device is
-- an `Option`, `none` for NULL. A function returns its status beside the device: `none` is -1. Sizes,
-- addresses and frame numbers are `int`s that are not negative.
pub mod Access
pub mod Frames
use os_assignment_hk.Common.{
  ℕ, zero, suc, ◌+◌, ◌-◌, ◌/◌, ◌%◌, Bool, true, false, not, ltb, ◌==◌, Option, none, some, List,
  length, get_elem?, set, replicate, Result, ok, fault, ◌>>=◌, must, if◌then◌else◌, min,
}
use os_assignment_hk.Pte.{paging_pagesz}

-- The list of free frames. `wild` is a pointer that was never written.
pub data FrameList : Type 0 where
  null : FrameList
  node : ℕ → FrameList → FrameList
  wild : FrameList

pub record Memphy : Type 0 where
  pub storage : List ℕ
  pub maxsz : ℕ
  pub rdmflg : Bool
  pub cursor : ℕ
  pub free_fp_list : FrameList

-- the loop of `MEMPHY_mv_csr`, which runs while `numstep < offset` and `numstep < maxsz`
pub mv_loop : ℕ → ℕ → ℕ → ℕ
mv_loop zero cursor maxsz = cursor
mv_loop (suc n) cursor maxsz = mv_loop n ((cursor + 1) % maxsz) maxsz

pub mv_csr : Memphy → ℕ → Memphy
mv_csr mp offset = record mp { cursor = mv_loop (min offset mp.maxsz) 0 mp.maxsz }

pub seq_read : Option Memphy → ℕ → Result (Option ℕ × Option Memphy)
seq_read none addr = ok (none, none)
seq_read (some mp) addr =
    if not mp.rdmflg
    then ok (none, some mp)
    else must (get_elem? mp.storage addr) >>= λ v. ok (some v, some (mv_csr mp addr))

unfoldable pub memphy_read : Option Memphy → ℕ → Result (Option ℕ × Option Memphy)
memphy_read none addr = ok (none, none)
memphy_read (some mp) addr =
    if mp.rdmflg
    then (must (get_elem? mp.storage addr) >>= λ v. ok (some v, some mp))
    else seq_read (some mp) addr

-- `mp->storage[addr] = value;`
abbrev pub store : Memphy → ℕ → ℕ → Result Memphy
store mp addr v =
    if ltb addr (length mp.storage)
    then ok (record mp { storage = set mp.storage addr v })
    else fault

-- The status is `true` for 0 and `false` for -1.
pub seq_write : Option Memphy → ℕ → ℕ → Result (Bool × Option Memphy)
seq_write none addr v = ok (false, none)
seq_write (some mp) addr v =
    if not mp.rdmflg
    then ok (false, some mp)
    else store (mv_csr mp addr) addr v >>= λ mp'. ok (true, some mp')

pub memphy_write : Option Memphy → ℕ → ℕ → Result (Bool × Option Memphy)
memphy_write none addr v = ok (false, none)
memphy_write (some mp) addr v =
    if mp.rdmflg
    then (store mp addr v >>= λ mp'. ok (true, some mp'))
    else seq_write (some mp) addr v

-- The nodes that the loop of `MEMPHY_format` appends, with the rounds left.
pub frames_from : ℕ → ℕ → FrameList
frames_from zero iter = null
frames_from (suc n) iter = node iter (frames_from n (iter + 1))

-- The first node's `fp_next` is written only by the loop.
pub memphy_format : Memphy → ℕ → Bool × Memphy
memphy_format mp pagesz =
    let numfp = mp.maxsz / pagesz in
    if numfp == 0 then (false, mp) else (
      true,
      record mp { free_fp_list = node 0 (if numfp == 1 then wild else frames_from (numfp - 1) 1) },
    )

pub pop_frame : Memphy → FrameList → Result (Option ℕ × Option Memphy)
pop_frame mp null = ok (none, some mp)
pop_frame mp (node fpn rest) = ok (some fpn, some (record mp { free_fp_list = rest }))
pop_frame mp wild = fault

pub get_freefp : Option Memphy → Result (Option ℕ × Option Memphy)
get_freefp none = ok (none, none)
get_freefp (some mp) = if mp.maxsz == 0 then ok (none, some mp) else pop_frame mp mp.free_fp_list

unfoldable pub put_freefp : Memphy → ℕ → Memphy
put_freefp mp fpn = record mp { free_fp_list = node fpn mp.free_fp_list }

-- The struct is the caller's and holds what was there before; `malloc` is taken to give memory.
pub init_memphy : ℕ → Bool → ℕ → Memphy
init_memphy max_size randomflg old_cursor =
    let fresh : Memphy = record {
      storage = replicate max_size 0;
      maxsz = max_size;
      rdmflg = randomflg;
      cursor = if randomflg then old_cursor else 0;
      free_fp_list = wild;
    } in
    (memphy_format fresh paging_pagesz).1
