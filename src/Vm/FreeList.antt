-- ===== src/Vm/FreeList.antt =====
-- The free regions of an area and its limit (src/mm-vm.c). Sums of `unsigned long`s wrap at 2^64.
use os_assignment_hk.Common.{
  ℕ, zero, suc, ◌+◌, ◌-◌, ◌*◌, ◌%◌, ◌^◌, Bool, true, false, not, leb, ltb, ◌==◌, ◌&&◌, Option, none,
  some, List, [], ◌∷◌, Result, ok, fault, timeout, ◌>>=◌, if◌then◌else◌,
}
use os_assignment_hk.Vm.{Region, region, RgList, null, node, wild, Vma, Mm, get_vma_by_num}

abbrev pub add_ulong : ℕ → ℕ → ℕ
add_ulong a b = (a + b) % 2 ^ 64

abbrev pub sub_ulong : ℕ → ℕ → ℕ
sub_ulong a b = (a + 2 ^ 64 - b) % 2 ^ 64

-- A region that is used up takes over the next one, or becomes a region of size 0 at the end.
unfoldable pub use_up : RgList → ℕ → Result RgList
use_up null e = ok (node (region e e) null)
use_up (node r next) e = ok (node r next)
use_up wild e = fault

-- The loop of `get_free_vmrg_area` on the rest of the list: the list that it leaves, and the last
-- region that it put into `newrg`. `timeout` is the end of the fuel.
unfoldable pub scan : ℕ → RgList → ℕ → Option Region → Result (RgList × Option Region)
scan zero rgit size newrg = timeout
scan (suc fuel) null size newrg = ok (null, newrg)
scan (suc fuel) wild size newrg = fault
scan (suc fuel) (node r next) size newrg =
    let start' = add_ulong r.rg_start size in
    let found = some (region r.rg_start start') in
    elim (leb start' r.rg_end) [
      | true ↦ elim (ltb start' r.rg_end) [
        | true ↦ scan fuel (node (region start' r.rg_end) next) size found
        | false ↦ use_up next r.rg_end >>= λ l. scan fuel l size found
      ]
      | false ↦ scan fuel next size newrg >>= λ (rest, out). ok (node r rest, out)
    ]

-- Enough rounds for a list: each takes `size` bytes off a region, or leaves a region.
unfoldable pub scan_fuel : RgList → ℕ
scan_fuel null = 1
scan_fuel wild = 1
scan_fuel (node r next) = (r.rg_end - r.rg_start) + 2 + scan_fuel next

-- `get_free_vmrg_area` on an area's list, with the region found, `none` for -1
unfoldable pub get_free_vmrg_area : Vma → ℕ → Result (Option Region × Vma)
get_free_vmrg_area vma size =
    scan (scan_fuel vma.vm_freerg_list) vma.vm_freerg_list size none >>= λ (list, found).
    ok (found, record vma { vm_freerg_list = list })

-- `OVERLAP(x1,x2,y1,y2)`, computed in `unsigned long`
unfoldable pub overlap : ℕ → ℕ → ℕ → ℕ → Bool
overlap x1 x2 y1 y2 = leb 0 (sub_ulong y2 x1 * sub_ulong x2 y1 % 2 ^ 64)

-- the loop of `validate_overlap_vm_area` over the areas, at index `i`
unfoldable pub no_overlap : List Vma → ℕ → ℕ → ℕ → ℕ → Bool
no_overlap [] i vmaid s e = true
no_overlap (v ∷ vs) i vmaid s e =
    let later = no_overlap vs (i + 1) vmaid s e in
    if not (i == vmaid) && overlap s e v.vm_start v.vm_end then false else later

-- `true` for the status 0
unfoldable pub validate_overlap_vm_area : Mm → ℕ → ℕ → ℕ → Bool
validate_overlap_vm_area mm vmaid s e =
    if leb e s
    then false
    else elim (get_vma_by_num mm vmaid) [ none ↦ false | some _ ↦ no_overlap mm.mmap 0 vmaid s e ]
