-- ===== src/CpuTlb/Agree.antt =====
-- The TLB and the page table of a process, and the loop of `tlballoc` that stores the frames of pages.
use mathlib.Core.Path.{subst}
use os_assignment_hk.Common.{
  ℕ, zero, suc, ◌+◌, ◌%◌, ◌^◌, ◌<◌, ◌≤◌, ◌≡◌, ◌≢◌, refl, sym, ◌∙◌, ap, arith, true, false, ◌==◌,
  some, List, length, get_or, get_elem?-eq-get_or, ok, ok_inj, ◌⊎◌, inl, inr, Bool-cases,
}
use native.Mathlib.Decide.{dec_lt}
use mathlib.Core.Option.{some-injective}
use os_assignment_hk.Pte.{page_present, page_swapped, pte_fpn}
use os_assignment_hk.Pte.Laws.{pte_fpn_lem}
use os_assignment_hk.Tlb.{Tlb, tlb_cache_read, tlb_cache_write}
use os_assignment_hk.Tlb.Laws.{IsValid, tlb_cache_read-write, tlb_cache_write_lem}
use os_assignment_hk.Tlb.Stale.{tlb_cache_write_others, read_high}
use os_assignment_hk.Vm.{Proc}
use os_assignment_hk.Vm.Page.{pg_getpage}
use os_assignment_hk.Vm.Map.{IsTable}
use os_assignment_hk.CpuTlb.{unlock, leave, cache_pages}

-- The page is in RAM at the frame.
abbrev pub InRam : List ℕ → ℕ → Type 0
InRam pgd pg =
    (pg < length pgd)
    × (page_present (get_or pgd pg 0) ≡ true)
    × (page_swapped (get_or pgd pg 0) ≡ false)

abbrev pub At : List ℕ → ℕ → ℕ → Type 0
At pgd pg f = InRam pgd pg × (pte_fpn (get_or pgd pg 0) ≡ f)

-- What the TLB has for the process agrees with the page table, outside the pages from `lo` to `hi`.
abbrev pub Agrees : Tlb → ℕ → List ℕ → ℕ → ℕ → Type 0
Agrees tlb pid pgd lo hi =
    (pg f : ℕ) → (pg < lo) ⊎ (hi ≤ pg) → tlb_cache_read tlb pid pg ≡ some f → At pgd pg f

getpage_at :
    (p : Proc) (pg : ℕ)
    → InRam p.mm.pgd pg
    → pg_getpage p pg ≡ ok (some (pte_fpn (get_or p.mm.pgd pg 0)), p)
unfolding pg_getpage
getpage_at p pg (inside, present, online) =
    let entry = get_elem?-eq-get_or p.mm.pgd pg 0 inside in ground (arith, entry)

-- What a read of the stored page gives, if anything: a negative process number never hits.
stored_frame :
    (tlb : Tlb) (pid pg v r : ℕ)
    → 0 < length tlb
    → pg < 2 ^ 14
    → (tlb' : Tlb) → IsValid tlb'
    → tlb_cache_write tlb pid pg v r ≡ ok tlb'
    → (f : ℕ) → tlb_cache_read tlb' pid pg ≡ some f
    → v % 2 ^ 13 ≡ f
stored_frame tlb pid pg v r some_entry small tlb' valid' returns f h = elim (dec_lt pid (2 ^ 31)) [
  | yes low ↦
      let (tlb₂, returns₂, hit, size) = tlb_cache_read-write tlb pid pg v r some_entry small low in
      let same : tlb₂ ≡ tlb' = ok_inj (sym returns₂ ∙ returns) in
      some-injective (v % 2 ^ 13) f (sym hit ∙ ap (λ x. tlb_cache_read x pid pg) same ∙ h)
  | no high ↦
      let above : 2 ^ 31 ≤ pid = omega arith in let miss = read_high tlb' pid pg valid' above in cc
]

-- One page is stored.
store_page :
    (tlb : Tlb) (pid : ℕ) (pgd : List ℕ) (pg hi r : ℕ)
    → IsValid tlb
    → 0 < length tlb
    → pid < 2 ^ 32
    → pg < 2 ^ 14
    → IsTable pgd
    → InRam pgd pg
    → Agrees tlb pid pgd pg hi
    → (tlb' : Tlb) × (tlb_cache_write tlb pid pg (pte_fpn (get_or pgd pg 0)) r ≡ ok tlb')
      × IsValid tlb'
      × (length tlb' ≡ length tlb)
      × Agrees tlb' pid pgd (pg + 1) hi
store_page tlb pid pgd pg hi r valid some_entry owner small t here agree =
    let f = pte_fpn (get_or pgd pg 0) in
    let (tlb', returns, valid', old) =
      tlb_cache_write_others tlb pid pg f r valid some_entry small owner in
    let (tlb₂, returns₂, size) = tlb_cache_write_lem tlb pid pg f r some_entry in
    let same : tlb₂ ≡ tlb' = ok_inj (sym returns₂ ∙ returns) in
    let found : (f' : ℕ) → tlb_cache_read tlb' pid pg ≡ some f' → f % 2 ^ 13 ≡ f' =
      stored_frame tlb pid pg f r some_entry small tlb' valid' returns in
    let fits : f % 2 ^ 13 ≡ f = omega (arith, pte_fpn_lem (get_or pgd pg 0) (t pg here.0)) in
    (
      tlb',
      returns,
      valid',
      ap length (sym same) ∙ size,
      λ pg' f' out h. elim (Bool-cases (pg' == pg)) [
        | inl q ↦
            let e : pg' ≡ pg = ground arith in
            let now : tlb_cache_read tlb' pid pg ≡ some f' =
              ap (tlb_cache_read tlb' pid) (sym e) ∙ h in
            let frame : f ≡ f' = sym fits ∙ found f' now in
            subst (λ x. At pgd x f') (sym e) (here, frame)
        | inr q ↦
            let other : pg' ≢ pg = ground arith in
            agree pg' f' (elim out [ inl x ↦ inl (omega arith) | inr x ↦ inr x ])
              (old pid pg' f' (inr other) h)
      ],
    )

pub cache_pages_lem :
    (n pgn : ℕ) (r : ℕ → ℕ) (p : Proc)
    → IsValid p.tlb
    → 0 < length p.tlb
    → p.pid < 2 ^ 32
    → pgn + n ≤ 2 ^ 14
    → IsTable p.mm.pgd
    → ((i : ℕ) → i < n → InRam p.mm.pgd (pgn + i))
    → Agrees p.tlb p.pid p.mm.pgd pgn (pgn + n)
    → (tlb : Tlb) × (cache_pages n pgn r (record { locked = true; proc = p })
        ≡ ok (true, record { locked = false; proc = record p { tlb = tlb } }))
      × IsValid tlb
      × (length tlb ≡ length p.tlb)
      × Agrees tlb p.pid p.mm.pgd (pgn + n) (pgn + n)
unfolding cache_pages leave unlock
cache_pages_lem zero pgn r p valid some_entry owner small t new agree = (
  p.tlb,
  refl,
  valid,
  refl,
  λ pg f out h. agree pg f (elim out [ inl x ↦ inl (omega arith) | inr x ↦ inr (omega arith) ]) h,
)
cache_pages_lem (suc n) pgn r p valid some_entry owner small t new agree =
    let here : InRam p.mm.pgd pgn = subst (InRam p.mm.pgd) (omega arith) (new 0 (omega arith)) in
    let (tlb₁, stored, valid₁, size₁, agree₁) =
      store_page p.tlb p.pid p.mm.pgd pgn (pgn + suc n) (r pgn) valid some_entry owner (omega arith)
        t here agree in
    let moved : pgn + suc n ≡ pgn + 1 + n = omega arith in
    let (tlb₂, returns, valid₂, size₂, agree₂) =
      cache_pages_lem n (pgn + 1) r (record p { tlb = tlb₁ }) valid₁ (omega arith) owner
        (omega arith) t (λ i lt. subst (InRam p.mm.pgd) (omega arith) (new (suc i) (omega arith)))
        (subst (Agrees tlb₁ p.pid p.mm.pgd (pgn + 1)) moved agree₁) in
    (
      tlb₂,
      rw (getpage_at p pgn here) (rw stored returns),
      valid₂,
      size₂ ∙ size₁,
      subst (λ k. Agrees tlb₂ p.pid p.mm.pgd k k) (sym moved) agree₂,
    )
