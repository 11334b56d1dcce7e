-- ===== src/Os/Clocked/Fits.antt =====
-- What a device of the timer says of its thread.
use mathlib.Core.Path.{subst}
use os_assignment_hk.Common.{
  ℕ, ◌+◌, ◌≤◌, ◌≡◌, ◌≢◌, refl, sym, arith, ◌==◌, Option, none, some, if◌then◌else◌, inl, inr,
  Bool-cases,
}
use os_assignment_hk.Os.{At, head, fetch, slot, recheck, stopped}
use os_assignment_hk.Timer.{Timer, Device, Point, running, waiting, detached, with_device}
use os_assignment_hk.Os.Clocked.{LoaderAt, looking, resting, finished, ran}

-- A CPU that waits at the timer is in `next_slot`, and one that has left it has stopped.
abbrev pub PointFits : Point → At → Type 0
PointFits running at = Unit
PointFits waiting at = at ≡ slot
PointFits detached at = at ≡ stopped

-- one instruction for each slot, and one more when it is behind the instruction of its slot
abbrev pub RunsFit : At → ℕ → ℕ → Type 0
RunsFit slot runs slots = runs ≤ slots + 1
RunsFit at runs slots = runs ≤ slots

abbrev pub CpuFits : Device → At → ℕ → Type 0
CpuFits d at runs = PointFits d.point at × RunsFit at runs d.slots

abbrev pub LoaderFits : Point → LoaderAt → Type 0
LoaderFits running loader = Unit
LoaderFits waiting loader = loader ≡ resting
LoaderFits detached loader = loader ≡ finished

pub not_slot : (at : At) (r n : ℕ) → at ≢ slot → RunsFit at r n → r ≤ n
not_slot head r n ne h = h
not_slot (fetch b) r n ne h = h
not_slot recheck r n ne h = h
not_slot slot r n ne h = absurd (ne refl)
not_slot stopped r n ne h = h

at_most : (at : At) (r n : ℕ) → r ≤ n → RunsFit at r n
at_most head r n h = h
at_most (fetch b) r n h = h
at_most recheck r n h = h
at_most slot r n h = omega arith
at_most stopped r n h = h

pub ran_fits :
    {P : Type 0} (from : At) (proc : Option P) (to : At) (r n : ℕ)
    → r ≤ n
    → RunsFit to (r + ran from proc to) n
ran_fits head proc to r n h = at_most to _ n (omega arith)
ran_fits (fetch b) proc to r n h = at_most to _ n (omega arith)
ran_fits slot proc to r n h = at_most to _ n (omega arith)
ran_fits stopped proc to r n h = at_most to _ n (omega arith)
ran_fits recheck none to r n h = at_most to _ n (omega arith)
ran_fits recheck (some p) head r n h = omega arith
ran_fits recheck (some p) (fetch b) r n h = omega arith
ran_fits recheck (some p) recheck r n h = omega arith
ran_fits recheck (some p) slot r n h = omega arith
ran_fits recheck (some p) stopped r n h = omega arith

-- One device changed.
pub at_device :
    (Q : Device → Type 0) (t : Timer) (i j : ℕ) (d : Device)
    → (i ≡ j → Q d)
    → (i ≢ j → Q (t.devices j))
    → Q ((with_device t i d).devices j)
at_device Q t i j d same other = elim (Bool-cases (i == j)) [
  | inl e ↦ subst (λ b. Q (if b then d else t.devices j)) (sym e) (same (ground arith))
  | inr e ↦ subst (λ b. Q (if b then d else t.devices j)) (sym e) (other (ground arith))
]

-- A CPU between two calls of `next_slot` is running for the timer.
pub in_loop : (p : Point) (at : At) → at ≢ slot → at ≢ stopped → PointFits p at → p ≡ running
in_loop running at a b h = refl
in_loop waiting at a b h = absurd (a h)
in_loop detached at a b h = absurd (b h)

-- The loader outside `next_slot` is running for the timer.
pub from_looking : (p : Point) (l l' : LoaderAt) → l ≡ looking → LoaderFits p l → LoaderFits p l'
from_looking running l l' e h = tt
from_looking waiting l l' e h = absurd (cc)
from_looking detached l l' e h = absurd (cc)
