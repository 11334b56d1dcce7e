-- ===== src/Vm/Fit.antt =====
-- What `get_free_vmrg_area` does to a list of free regions.
use os_assignment_hk.Common.{
  ℕ, zero, suc, ◌+◌, ◌<◌, ◌≤◌, ◌^◌, ◌≡◌, refl, ◌∙◌, ap, arith, true, false, leb, ltb, Option, none,
  some, Result, ok, timeout, ◌>>=◌, inl, inr, ◌⊎◌, Bool-cases,
}
use os_assignment_hk.Vm.{Region, region, RgList, null, node, wild, Vma}
use os_assignment_hk.Vm.FreeList.{add_ulong, use_up, scan, scan_fuel, get_free_vmrg_area}

-- a list of regions within the lower half of the addresses
abbrev pub IsTame : RgList → Type 0
IsTame null = Unit
IsTame wild = ⊥
IsTame (node r next) = (r.rg_start < 2 ^ 63) × (r.rg_end < 2 ^ 63) × IsTame next

-- no region of the list has room for `size` bytes
abbrev pub IsDrained : ℕ → RgList → Type 0
IsDrained size null = Unit
IsDrained size wild = ⊥
IsDrained size (node r next) = (r.rg_end < r.rg_start + size) × IsDrained size next

-- some region of the list holds the addresses from `s` to `e`
abbrev pub Covers : RgList → ℕ → ℕ → Type 0
Covers null s e = ⊥
Covers wild s e = ⊥
Covers (node r next) s e = ((r.rg_start ≤ s) × (e ≤ r.rg_end)) ⊎ Covers next s e

-- What the loop ends in, started on `l` with `found` in `newrg`: a drained list, and either nothing
-- fitted and `newrg` is as it was, or `newrg` is a part of `size` bytes of a region of `l`.
pub record Scanned (l : RgList) (size : ℕ) (found : Option Region)
    (result : Result (RgList × Option Region)) : Type 0 where
  pub list : RgList
  pub out : Option Region
  pub returns : result ≡ ok (list, out)
  pub tame : IsTame list
  pub drained : IsDrained size list
  pub outcome :
      ((out ≡ found) × IsDrained size l)
      ⊎ ((s : ℕ) × (out ≡ some (region s (s + size))) × Covers l s (s + size))

-- One round on a region that is too small, larger than `size`, or of just that size.
module _ (fuel : ℕ) (r : Region) (next : RgList) (size : ℕ) (found : Option Region) where
  abbrev found' : Option Region
  found' = some (region r.rg_start (add_ulong r.rg_start size))

  scan_small :
      leb (add_ulong r.rg_start size) r.rg_end ≡ false
      → scan (suc fuel) (node r next) size found
        ≡ (scan fuel next size found >>= λ (rest, out). ok (node r rest, out))
  unfolding scan
  scan_small e = ground arith

  scan_larger :
      leb (add_ulong r.rg_start size) r.rg_end ≡ true
      → ltb (add_ulong r.rg_start size) r.rg_end ≡ true
      → scan (suc fuel) (node r next) size found
        ≡ scan fuel (node (region (add_ulong r.rg_start size) r.rg_end) next) size found'
  unfolding scan
  scan_larger e e' = ground arith

  scan_exact :
      leb (add_ulong r.rg_start size) r.rg_end ≡ true
      → ltb (add_ulong r.rg_start size) r.rg_end ≡ false
      → scan (suc fuel) (node r next) size found
        ≡ (use_up next r.rg_end >>= λ l. scan fuel l size found')
  unfolding scan
  scan_exact e e' = ground arith

scan_null :
    (fuel size : ℕ) (found : Option Region) → scan (suc fuel) null size found ≡ ok (null, found)
unfolding scan
scan_null fuel size found = refl

no_wrap : (a size : ℕ) → a < 2 ^ 63 → size < 2 ^ 32 → add_ulong a size ≡ a + size
no_wrap a size h k = omega arith

module _ (size : ℕ) (positive : 0 < size) (small : size < 2 ^ 32) where
  -- what a region that fits gives, from what the list that it leaves gives
  carve :
      (r : Region) (next l : RgList) (found : Option Region)
      → r.rg_start + size ≤ r.rg_end
      → r.rg_start < 2 ^ 63
      → ((s : ℕ) → Covers l s (s + size) → Covers (node r next) s (s + size))
      → (result : Result (RgList × Option Region))
      → Scanned l size (some (region r.rg_start (add_ulong r.rg_start size))) result
      → Scanned (node r next) size found result
  carve r next l found fit low covers result ih = record {
    list = ih.list;
    out = ih.out;
    returns = ih.returns;
    tame = ih.tame;
    drained = ih.drained;
    outcome = elim ih.outcome [
      | inl (same, d) ↦ inr (
        r.rg_start,
        same ∙ ap (λ e. some (region r.rg_start e)) (no_wrap r.rg_start size low small),
        inl (omega arith, fit),
      )
      | inr (s, e, c) ↦ inr (s, e, covers s c)
    ];
  }

  rest_to_whole :
      (r : Region) (next : RgList) (s : ℕ)
      → r.rg_start < 2 ^ 63
      → Covers (node (region (add_ulong r.rg_start size) r.rg_end) next) s (s + size)
      → Covers (node r next) s (s + size)
  rest_to_whole r next s low (inl (a, b)) =
      let e = no_wrap r.rg_start size low small in inl (omega arith, b)
  rest_to_whole r next s low (inr c) = inr c

  -- A region of just `size` bytes is used up, and the loop goes on with what `use_up` gives.
  exact_step :
      (fuel : ℕ) (r : Region) (next : RgList) (found : Option Region)
      → ((l : RgList) (out : Option Region)
          → scan_fuel l ≤ fuel
          → IsTame l
          → Scanned l size out (scan fuel l size out))
      → r.rg_start + size ≡ r.rg_end
      → scan_fuel (node r next) ≤ suc fuel
      → IsTame (node r next)
      → Scanned (node r next) size found (
          use_up next r.rg_end >>= λ l.
          scan fuel l size (some (region r.rg_start (add_ulong r.rg_start size))))
  unfolding scan_fuel use_up
  exact_step fuel r null found ih e h (low, high, t) =
      let l = node (region r.rg_end r.rg_end) null in
      carve r null l found (omega arith) low
        (λ s c. elim c [ inl x ↦ absurd (omega arith) | inr x ↦ absurd x ]) _
        (ih l _ (omega arith) (high, high, t))
  exact_step fuel r (node q next) found ih e h (low, high, t) =
      carve r (node q next) (node q next) found (omega arith) low (λ s c. inr c) _
        (ih (node q next) _ (omega arith) t)
  exact_step fuel r wild found ih e h (low, high, t) = absurd t

  scan-Scanned :
      (fuel : ℕ) (l : RgList) (found : Option Region)
      → scan_fuel l ≤ fuel
      → IsTame l
      → Scanned l size found (scan fuel l size found)
  unfolding scan_fuel use_up
  scan-Scanned zero null found h t = absurd (omega arith)
  scan-Scanned zero (node r next) found h t = absurd (omega arith)
  scan-Scanned zero wild found h t = absurd t
  scan-Scanned (suc fuel) null found h t = record {
    list = null;
    out = found;
    returns = scan_null fuel size found;
    tame = tt;
    drained = tt;
    outcome = inl (refl, tt);
  }
  scan-Scanned (suc fuel) wild found h t = absurd t
  scan-Scanned (suc fuel) (node r next) found h (low, high, t) =
      let e = no_wrap r.rg_start size low small in
      let taken = some (region r.rg_start (add_ulong r.rg_start size)) in
      elim (Bool-cases (leb (add_ulong r.rg_start size) r.rg_end)) [
        | inr no_fit ↦
            let ih = scan-Scanned fuel next found (omega arith) t in
            let less : r.rg_end < r.rg_start + size = ground arith in
            record {
              list = node r ih.list;
              out = ih.out;
              returns =
                  scan_small fuel r next size found no_fit
                  ∙ ap (λ m. m >>= λ (rest, out). ok (node r rest, out)) ih.returns;
              tame = (low, high, ih.tame);
              drained = (less, ih.drained);
              outcome = elim ih.outcome [
                | inl (same, d) ↦ inl (same, (less, d))
                | inr (s, eq, c) ↦ inr (s, eq, inr c)
              ];
            }
        | inl fit ↦
            let fits : r.rg_start + size ≤ r.rg_end = ground arith in
            elim (Bool-cases (ltb (add_ulong r.rg_start size) r.rg_end)) [
              | inl larger ↦
                  let l = node (region (add_ulong r.rg_start size) r.rg_end) next in
                  let below : r.rg_start + size < r.rg_end = ground arith in
                  rw (scan_larger fuel r next size found fit larger) (
                    carve r next l found fits low (λ s c. rest_to_whole r next s low c) _
                      (scan-Scanned fuel l taken (omega arith) (omega arith, high, t)))
              | inr exact ↦
                  rw (scan_exact fuel r next size found fit exact) (
                    exact_step fuel r next found (scan-Scanned fuel) (ground arith) h
                      (low, high, t))
            ]
      ]

-- For a size above 0 and below 2^32 and an area whose free regions lie below 2^63, the search ends.
-- Either nothing is returned and no free region had room; or the region returned has the size asked
-- for and is a part of one free region. In both cases no region that is left has room for the size.
pub get_free_vmrg_area_lem :
    (vma : Vma) (size : ℕ)
    → 0 < size
    → size < 2 ^ 32
    → IsTame vma.vm_freerg_list
    → (found : Option Region) × (l : RgList) × (get_free_vmrg_area vma size
        ≡ ok (found, record vma { vm_freerg_list = l }))
      × IsTame l
      × IsDrained size l
      × (((found ≡ none) × IsDrained size vma.vm_freerg_list)
          ⊎ ((s : ℕ) × (found ≡ some (region s (s + size)))
              × Covers vma.vm_freerg_list s (s + size)))
unfolding get_free_vmrg_area
get_free_vmrg_area_lem vma size positive small tame =
    let l = vma.vm_freerg_list in
    let done = scan-Scanned size positive small (scan_fuel l) l none (omega arith) tame in
    (
      done.out,
      done.list,
      ap (λ m. m >>= λ (list, out). ok (out, record vma { vm_freerg_list = list })) done.returns,
      done.tame,
      done.drained,
      done.outcome,
    )

-- For size 0 the loop of the search does not end on a list that begins with a region whose start is
-- below its end, in the range of an `unsigned long`: no number of rounds is enough.
pub scan_zero :
    (fuel : ℕ) (r : Region) (next : RgList) (found : Option Region)
    → r.rg_start < r.rg_end
    → r.rg_end < 2 ^ 64
    → scan fuel (node r next) 0 found ≡ timeout
unfolding scan
scan_zero zero r next found h k = refl
scan_zero (suc fuel) r next found h k =
    let same : add_ulong r.rg_start 0 ≡ r.rg_start = omega arith in
    let fits : leb (add_ulong r.rg_start 0) r.rg_end ≡ true = ground arith in
    let larger : ltb (add_ulong r.rg_start 0) r.rg_end ≡ true = ground arith in
    scan_larger fuel r next 0 found fits larger
    ∙ ap (λ s. scan fuel (node (region s r.rg_end) next) 0 (some (region r.rg_start s))) same
    ∙ scan_zero fuel r next (some (region r.rg_start r.rg_start)) h k
