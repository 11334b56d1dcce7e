-- ===== src/Memphy/Frames.antt =====
-- The free frames of a device, as a list of frame numbers.
use os_assignment_hk.Common.{
  ℕ, zero, suc, ◌+◌, ◌-◌, ◌*◌, ◌/◌, ◌<◌, ◌≤◌, ◌≡◌, refl, ◌∙◌, ap, arith, Bool, false, some, List,
  [], ◌∷◌, ◌++◌, length, length-replicate, replicate, ok, fault, ◌==◌, if◌then◌else◌,
}
use os_assignment_hk.Queue.Refine.{head?, tail}
use os_assignment_hk.Pte.{paging_pagesz}
use os_assignment_hk.Memphy.{
  Memphy, FrameList, null, node, wild, frames_from, memphy_format, pop_frame, get_freefp,
  put_freefp, init_memphy,
}

-- the linked list of the frame numbers of a list
abbrev pub of_frames : List ℕ → FrameList
of_frames [] = null
of_frames (f ∷ l) = node f (of_frames l)

-- `n` numbers from `i` on
abbrev pub range : ℕ → ℕ → List ℕ
range zero i = []
range (suc n) i = i ∷ range n (i + 1)

pub length-range : (n i : ℕ) → length (range n i) ≡ n
length-range zero i = refl
length-range (suc n) i = ap suc (length-range n (i + 1))

pub range-append : (n m i : ℕ) → range n i ++ range m (i + n) ≡ range (n + m) i
range-append zero m i =
    let start : i + 0 ≡ i = omega arith in
    let count : m ≡ 0 + m = omega arith in ap (range m) start ∙ ap (λ k. range k i) count
range-append (suc n) m i =
    let next : i + suc n ≡ i + 1 + n = omega arith in
    let count : suc (n + m) ≡ suc n + m = omega arith in
    ap (λ k. i ∷ (range n (i + 1) ++ range m k)) next
    ∙ ap (λ l. i ∷ l) (range-append n m (i + 1))
    ∙ ap (λ k. range k i) count

frames_from-range : (n i : ℕ) → frames_from n i ≡ of_frames (range n i)
unfolding frames_from
frames_from-range zero i = refl
frames_from-range (suc n) i = ap (node i) (frames_from-range n (i + 1))

-- The device that `init_memphy` makes, if its frames are `l`.
abbrev pub made : ℕ → Bool → ℕ → FrameList → Memphy
made n random cursor l = record {
  storage = replicate n 0;
  maxsz = n;
  rdmflg = random;
  cursor = if random then cursor else 0;
  free_fp_list = l;
}

init_memphy-made :
    (n : ℕ) (random : Bool) (cursor : ℕ)
    → 2 * paging_pagesz ≤ n
    → init_memphy n random cursor ≡ made n random cursor (node 0 (frames_from (n / 256 - 1) 1))
unfolding init_memphy memphy_format
init_memphy-made n random cursor h =
    let some_frame : (n / 256 == 0) ≡ false = ground arith in
    let not_one : (n / 256 == 1) ≡ false = ground arith in ground arith

pub init_memphy-maxsz :
    (n : ℕ) (random : Bool) (cursor : ℕ)
    → 2 * paging_pagesz ≤ n
    → (init_memphy n random cursor).maxsz ≡ n
init_memphy-maxsz n random cursor h = ap (λ mp. mp.maxsz) (init_memphy-made n random cursor h)

-- A device of two pages or more starts with the frame numbers below size / page size as its free
-- list, each once and in order, with a storage of the size asked for, the kind of access asked for,
-- and every byte of every frame in the storage.
pub init_memphy_frames :
    (n : ℕ) (random : Bool) (cursor : ℕ)
    → 2 * paging_pagesz ≤ n
    → ((init_memphy n random cursor).free_fp_list ≡ of_frames (range (n / paging_pagesz) 0))
      × (length (init_memphy n random cursor).storage ≡ n)
      × ((init_memphy n random cursor).rdmflg ≡ random)
      × ((f b : ℕ)
          → f < n / paging_pagesz
          → b < paging_pagesz
          → f * paging_pagesz + b < length (init_memphy n random cursor).storage)
unfolding init_memphy memphy_format
init_memphy_frames n random cursor h =
    let len : length (replicate {A = ℕ} n 0) ≡ n = length-replicate n 0 in
    let all : suc (n / 256 - 1) ≡ n / 256 = omega arith in
    rw (init_memphy-made n random cursor h) (
      ap (node 0) (frames_from-range (n / 256 - 1) 1) ∙ ap (λ k. of_frames (range k 0)) all,
      len,
      refl,
      λ f b hf hb. omega arith,
    )

-- On a device of at least one page and less than two, the first request gets frame 0, and the second
-- one follows a pointer that was never written.
pub one_frame_fault :
    (n : ℕ) (random : Bool) (cursor : ℕ)
    → paging_pagesz ≤ n
    → n < 2 * paging_pagesz
    → (mp : Memphy) × (get_freefp (some (init_memphy n random cursor)) ≡ ok (some 0, some mp))
      × (get_freefp (some mp) ≡ fault)
unfolding init_memphy memphy_format get_freefp pop_frame
one_frame_fault n random cursor h u =
    (record (init_memphy n random cursor) { free_fp_list = wild }, ground arith, ground arith)

-- On a device of a size above 0 with a proper free list, `MEMPHY_get_freefp` hands out the first
-- frame and keeps the others, or returns -1 with none left; and a frame that was put back is the
-- next one handed out, after which the device is as before.
pub get_freefp_lem :
    (mp : Memphy) (l : List ℕ)
    → 0 < mp.maxsz
    → mp.free_fp_list ≡ of_frames l
    → (get_freefp (some mp) ≡ ok (head? l, some (record mp { free_fp_list = of_frames (tail l) })))
      × ((f : ℕ) → get_freefp (some (put_freefp mp f)) ≡ ok (some f, some mp))
unfolding get_freefp put_freefp pop_frame
get_freefp_lem mp [] pos e = (ground arith, λ f. ground arith)
get_freefp_lem mp (f ∷ l) pos e = (ground arith, λ f. ground arith)
