-- ===== src/Word/Fields.antt =====
-- What the macros of `Word` do to a field of a word: bits `lo` to `lo + w - 1`, with `h` bits above.
use native.Mathlib.Nat.{div-add-mod', mod-lt, one-le-pow, mul-div_left}
use os_assignment_hk.Common.{
  ℕ, zero, suc, ◌+◌, ◌-◌, ◌*◌, ◌/◌, ◌%◌, ◌^◌, ◌<◌, bit_and, bit_or, ◌≡◌, refl, arith, ◌∙◌, ap, ap₂,
  sym, ◌==◌, not,
}
use os_assignment_hk.Common.Bits.{clear_middle, keep_middle, join_middle, bit_or_split, bit_or-zero}
use os_assignment_hk.Word.{setbit, clrbit, setval, getval, complement, is_set}

abbrev pub field : ℕ → ℕ → ℕ → ℕ
field w lo v = v / 2 ^ lo % 2 ^ w

-- `v` with the field at `lo` replaced by `x`
abbrev pub with_field : ℕ → ℕ → ℕ → ℕ → ℕ
with_field w lo v x = (v / 2 ^ lo / 2 ^ w * 2 ^ w + x) * 2 ^ lo + v % 2 ^ lo

in_parts : (w lo v : ℕ) → v ≡ with_field w lo v (field w lo v)
in_parts w lo v = sym (
    ap (λ (t : ℕ). t * 2 ^ lo + v % 2 ^ lo) (div-add-mod' (v / 2 ^ lo) (2 ^ w))
    ∙ div-add-mod' v (2 ^ lo))

module _ (h w lo v : ℕ) (fits : v / 2 ^ lo / 2 ^ w < 2 ^ h) where
  keep_field : bit_and v ((2 ^ w - 1) * 2 ^ lo) ≡ field w lo v * 2 ^ lo
  keep_field =
      ap (λ (t : ℕ). bit_and t ((2 ^ w - 1) * 2 ^ lo)) (in_parts w lo v)
      ∙ keep_middle h w lo (v / 2 ^ lo / 2 ^ w) (field w lo v) (v % 2 ^ lo) fits
          (mod-lt (v / 2 ^ lo) (one-le-pow w 2 (omega arith)))
          (mod-lt v (one-le-pow lo 2 (omega arith)))

  pub getval-field : getval v ((2 ^ w - 1) * 2 ^ lo) lo ≡ field w lo v
  unfolding getval
  getval-field =
      ap (λ (t : ℕ). t / 2 ^ lo) keep_field
      ∙ mul-div_left (field w lo v) (one-le-pow lo 2 (omega arith))

  clear_field : bit_and v ((2 ^ h - 1) * 2 ^ w * 2 ^ lo + (2 ^ lo - 1)) ≡ with_field w lo v 0
  clear_field =
      ap (λ (t : ℕ). bit_and t ((2 ^ h - 1) * 2 ^ w * 2 ^ lo + (2 ^ lo - 1))) (in_parts w lo v)
      ∙ clear_middle h w lo (v / 2 ^ lo / 2 ^ w) (field w lo v) (v % 2 ^ lo) fits
          (mod-lt (v / 2 ^ lo) (one-le-pow w 2 (omega arith)))
          (mod-lt v (one-le-pow lo 2 (omega arith)))
      ∙ omega arith

-- The complement of a field's mask, as ones above and below the field.
abbrev pub outside : ℕ → ℕ → ℕ → ℕ
outside h w lo = (2 ^ h - 1) * 2 ^ w * 2 ^ lo + (2 ^ lo - 1)

pub setval-field :
    (h w lo bits v value : ℕ)
    → v / 2 ^ lo / 2 ^ w < 2 ^ h
    → value * 2 ^ lo % 2 ^ bits / 2 ^ lo / 2 ^ w < 2 ^ h
    → complement bits ((2 ^ w - 1) * 2 ^ lo) ≡ outside h w lo
    → setval bits v value ((2 ^ w - 1) * 2 ^ lo) lo
      ≡ with_field w lo v (field w lo (value * 2 ^ lo % 2 ^ bits))
unfolding setval
setval-field h w lo bits v value hv hy e =
    let y = value * 2 ^ lo % 2 ^ bits in
    ap₂ bit_or (ap (bit_and v) e ∙ clear_field h w lo v hv ∙ omega arith) (keep_field h w lo y hy)
    ∙ join_middle h w lo (v / 2 ^ lo / 2 ^ w) (field w lo y) (v % 2 ^ lo) hv
        (mod-lt (y / 2 ^ lo) (one-le-pow w 2 (omega arith)))
        (mod-lt v (one-le-pow lo 2 (omega arith)))

pub clrbit-field :
    (h lo bits v : ℕ)
    → v / 2 ^ lo / 2 < 2 ^ h
    → complement bits (2 ^ lo) ≡ outside h 1 lo
    → clrbit bits v (2 ^ lo) ≡ with_field 1 lo v 0
unfolding clrbit
clrbit-field h lo bits v hv e = ap (bit_and v) e ∙ clear_field h 1 lo v hv

bit_or-one : (f : ℕ) → f < 2 → bit_or f 1 ≡ 1
bit_or-one zero h = refl
bit_or-one (suc zero) h = refl
bit_or-one (suc (suc f)) h = absurd (omega arith)

pub setbit-field : (lo v : ℕ) → setbit v (2 ^ lo) ≡ with_field 1 lo v 1
unfolding setbit
setbit-field lo v =
    let a = v / 2 ^ lo / 2 in
    let f = field 1 lo v in
    let l = v % 2 ^ lo in
    ap₂ bit_or (in_parts 1 lo v) (omega arith)
    ∙ bit_or_split lo (a * 2 + f) 1 l 0 (mod-lt v (one-le-pow lo 2 (omega arith)))
        (one-le-pow lo 2 (omega arith))
    ∙ ap₂ (λ (s t : ℕ). s * 2 ^ lo + t)
        (bit_or_split 1 a 0 f 1 (omega arith) (omega arith)
          ∙ ap₂ (λ (s t : ℕ). s * 2 + t) (bit_or-zero a) (bit_or-one f (omega arith)))
        (bit_or-zero l)

pub is_set-field : (h lo v : ℕ) → v / 2 ^ lo / 2 < 2 ^ h → is_set v (2 ^ lo) ≡ (field 1 lo v == 1)
unfolding is_set
is_set-field h lo v hv =
    ap (λ (t : ℕ). not (t == 0)) (ap (bit_and v) (omega arith) ∙ keep_field h 1 lo v hv)
    ∙ ground (arith, one-le-pow lo 2)

pub getval_flag :
    (h lo v : ℕ) → v / 2 ^ lo / 2 < 2 ^ h → getval v (2 ^ lo) 0 ≡ field 1 lo v * 2 ^ lo
unfolding getval
getval_flag h lo v hv =
    ap (λ (t : ℕ). t / 1) (ap (bit_and v) (omega arith) ∙ keep_field h 1 lo v hv) ∙ omega arith
