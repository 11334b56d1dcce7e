-- ===== src/Tlb/Entry.antt =====
-- The fields of a TLB entry.
use os_assignment_hk.Common.{
  ℕ, ◌+◌, ◌*◌, ◌/◌, ◌%◌, ◌^◌, ◌<◌, ◌≤◌, ◌≡◌, ◌≢◌, refl, ◌∙◌, arith, true, false, ◌==◌,
}
use os_assignment_hk.Word.{setval}
use os_assignment_hk.Word.Fields.{getval-field, setval-field}
use os_assignment_hk.Tlb.{
  tlb_valid, tlb_tag, tlb_pid, tlb_frmnum, set_tlb_valid, set_tlb_entry, sign_extend, hits,
  tag_mask, pid_mask, frmnum_mask,
}

pub tlb_valid_lem : (e : ℕ) → e < 2 ^ 64 → tlb_valid e ≡ (e / 2 ^ 59 % 2 == 1)
unfolding tlb_valid
tlb_valid_lem e h = ground (arith, getval-field 4 1 59 e (omega arith))

pub tlb_tag_lem : (e : ℕ) → e < 2 ^ 64 → tlb_tag e ≡ e / 2 ^ 45 % 2 ^ 14
unfolding tlb_tag
tlb_tag_lem e h = getval-field 5 14 45 e (omega arith)

pub tlb_pid_lem : (e : ℕ) → e < 2 ^ 64 → tlb_pid e ≡ e / 2 ^ 13 % 2 ^ 32
unfolding tlb_pid
tlb_pid_lem e h = getval-field 19 32 13 e (omega arith)

pub tlb_frmnum_lem : (e : ℕ) → e < 2 ^ 64 → tlb_frmnum e ≡ e % 2 ^ 13
unfolding tlb_frmnum
tlb_frmnum_lem e h = getval-field 51 13 0 e (omega arith) ∙ omega arith

pub set_tlb_valid_lem :
    (e v : ℕ) → e < 2 ^ 64 → set_tlb_valid e v ≡ e / 2 ^ 60 * 2 ^ 60 + v % 2 * 2 ^ 59 + e % 2 ^ 59
unfolding set_tlb_valid
set_tlb_valid_lem e v h = setval-field 4 1 59 64 e v (omega arith) (omega arith) refl ∙ omega arith

set_tag :
    (e x : ℕ)
    → e < 2 ^ 64
    → setval 64 e x tag_mask 45 ≡ e / 2 ^ 59 * 2 ^ 59 + x % 2 ^ 14 * 2 ^ 45 + e % 2 ^ 45
set_tag e x h = setval-field 5 14 45 64 e x (omega arith) (omega arith) refl ∙ omega arith

set_pid :
    (e x : ℕ)
    → e < 2 ^ 64
    → setval 64 e x pid_mask 13 ≡ e / 2 ^ 45 * 2 ^ 45 + x % 2 ^ 32 * 2 ^ 13 + e % 2 ^ 13
set_pid e x h = setval-field 19 32 13 64 e x (omega arith) (omega arith) refl ∙ omega arith

set_frmnum : (e x : ℕ) → e < 2 ^ 64 → setval 64 e x frmnum_mask 0 ≡ e / 2 ^ 13 * 2 ^ 13 + x % 2 ^ 13
set_frmnum e x h = setval-field 51 13 0 64 e x (omega arith) (omega arith) refl ∙ omega arith

pub set_tlb_entry_lem :
    (pg pid frm : ℕ)
    → set_tlb_entry 1 pg pid frm
      ≡ 2 ^ 59 + pg % 2 ^ 14 * 2 ^ 45 + pid % 2 ^ 32 * 2 ^ 13 + frm % 2 ^ 13
unfolding set_tlb_entry
set_tlb_entry_lem pg pid frm =
    let e₁ = set_tlb_valid_lem 0 1 (omega arith) in
    let e₂ = set_tag (set_tlb_valid 0 1) pg (omega arith) in
    let tagged = setval 64 (set_tlb_valid 0 1) pg tag_mask 45 in
    let e₃ = set_pid tagged pid (omega arith) in
    let owned = setval 64 tagged pid pid_mask 13 in
    let e₄ = set_frmnum owned frm (omega arith) in omega arith

-- What a stored entry reads back as: it is a 64-bit word, valid, with the low 14, 32 and 13 bits of
-- the page, process and frame number.
pub set_tlb_entry_reads :
    (pg pid frm : ℕ)
    → (set_tlb_entry 1 pg pid frm < 2 ^ 64)
      × (tlb_valid (set_tlb_entry 1 pg pid frm) ≡ true)
      × (tlb_tag (set_tlb_entry 1 pg pid frm) ≡ pg % 2 ^ 14)
      × (tlb_pid (set_tlb_entry 1 pg pid frm) ≡ pid % 2 ^ 32)
      × (tlb_frmnum (set_tlb_entry 1 pg pid frm) ≡ frm % 2 ^ 13)
set_tlb_entry_reads pg pid frm =
    let v = set_tlb_entry_lem pg pid frm in
    let e = set_tlb_entry 1 pg pid frm in
    let small : e < 2 ^ 64 = omega arith in
    (
      small,
      ground (arith, tlb_valid_lem e small),
      omega (arith, tlb_tag_lem e small),
      omega (arith, tlb_pid_lem e small),
      omega (arith, tlb_frmnum_lem e small),
    )

pub sign_extend_inj : (p q : ℕ) → sign_extend p ≡ sign_extend q → p ≡ q
unfolding sign_extend
sign_extend_inj p q h = ground arith

sign_extend_low : (p : ℕ) → p < 2 ^ 31 → sign_extend p ≡ p
unfolding sign_extend
sign_extend_low p h = ground arith

-- A process number that is negative as an `int` is compared as a number above every field.
sign_extend_high : (p : ℕ) → 2 ^ 31 ≤ p → 2 ^ 32 ≤ sign_extend p
unfolding sign_extend
sign_extend_high p h = ground arith

pub hits_high : (e pid pg : ℕ) → e < 2 ^ 64 → 2 ^ 31 ≤ pid → hits pid pg e ≡ false
unfolding hits
hits_high e pid pg h high =
    let above = sign_extend_high pid high in
    let owner = tlb_pid_lem e h in
    let below : tlb_pid e < 2 ^ 32 = omega arith in
    let other : tlb_pid e ≢ sign_extend pid = λ x. omega arith in ground arith

-- A stored entry hits for its own page and process, where their numbers fit their fields and the
-- process number is an `int` that is not negative.
pub hits-set_tlb_entry :
    (pg pid frm : ℕ) → pg < 2 ^ 14 → pid < 2 ^ 31 → hits pid pg (set_tlb_entry 1 pg pid frm) ≡ true
unfolding hits
hits-set_tlb_entry pg pid frm hp hd =
    let (small, valid, tag, owner, frame) = set_tlb_entry_reads pg pid frm in
    let same = sign_extend_low pid hd in ground arith

low_sign_extend : (p q : ℕ) → q < 2 ^ 32 → sign_extend p ≡ q → p ≡ q
unfolding sign_extend
low_sign_extend p q h e = ground arith

-- Nothing else hits it.
pub hits-set_tlb_entry_only :
    (pg pid frm pg' pid' : ℕ)
    → pg < 2 ^ 14
    → pid < 2 ^ 32
    → hits pid' pg' (set_tlb_entry 1 pg pid frm) ≡ true
    → (pid' ≡ pid) × (pg' ≡ pg)
unfolding hits
hits-set_tlb_entry_only pg pid frm pg' pid' hp hd h =
    let (small, valid, tag, owner, frame) = set_tlb_entry_reads pg pid frm in
    let same : sign_extend pid' ≡ pid = ground arith in
    (low_sign_extend pid' pid hd same, ground arith)

-- Clearing the valid bit leaves a 64-bit word that hits for no page and process.
pub hits-cleared :
    (e pid pg : ℕ)
    → e < 2 ^ 64
    → (set_tlb_valid e 0 < 2 ^ 64) × (hits pid pg (set_tlb_valid e 0) ≡ false)
unfolding hits
hits-cleared e pid pg h =
    let v = set_tlb_valid_lem e 0 h in
    let small : set_tlb_valid e 0 < 2 ^ 64 = omega arith in
    (small, ground (arith, tlb_valid_lem (set_tlb_valid e 0) small))

-- The entry 0 hits for no page and process.
pub hits_zero : (pid pg : ℕ) → hits pid pg 0 ≡ false
unfolding hits
hits_zero pid pg = ground (arith, tlb_valid_lem 0)
