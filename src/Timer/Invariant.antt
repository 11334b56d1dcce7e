-- ===== src/Timer/Invariant.antt =====
-- The invariant of the timer: each device is in the slot of the timer, or parked until it ends.
use mathlib.Core.Path.{subst}
use os_assignment_hk.Common.{
  ℕ, ◌+◌, ◌≤◌, ◌<◌, ◌≡◌, sym, ◌∙◌, ap, arith, ltb, Bool, true, false, ◌==◌, if◌then◌else◌, inl, inr,
  Bool-cases,
}
use os_assignment_hk.Timer.{
  Point, running, waiting, detached, Device, Place, head, collect, release, ended, Timer,
  with_device,
}

-- in the slot `time`: in it, waiting for its end, or let go from the one before and about to return
abbrev pub LiveAt : ℕ → Bool → Bool → Point → ℕ → Type 0
LiveAt time done fsh running slots = (done ≡ false) × (fsh ≡ false) × (slots ≡ time)
LiveAt time done fsh waiting slots = (fsh ≡ false) × (slots + (if done then 0 else 1) ≡ time)
LiveAt time done fsh detached slots = fsh ≡ true

abbrev pub Live : ℕ → Device → Type 0
Live time d = LiveAt time d.done d.fsh d.point d.slots

-- waiting for the end of the slot `time - late`
abbrev pub ParkedAt : ℕ → ℕ → Bool → Bool → Point → ℕ → Type 0
ParkedAt late time done fsh running slots = ⊥
ParkedAt late time done fsh waiting slots = (done ≡ true) × (fsh ≡ false) × (slots + late ≡ time)
ParkedAt late time done fsh detached slots = fsh ≡ true

abbrev pub Parked : ℕ → ℕ → Device → Type 0
Parked late time d = ParkedAt late time d.done d.fsh d.point d.slots

abbrev pub Gone : Device → Type 0
Gone d = d.point ≡ detached

-- whether the first inner loop has passed the device; the same for the second
abbrev pub Collected : Bool → ℕ → Device → Type 0
Collected true time d = Parked 0 time d
Collected false time d = Live time d

abbrev pub Released : Bool → ℕ → Device → Type 0
Released true time d = Live time d
Released false time d = Parked 1 time d

abbrev pub Fits : Place → ℕ → ℕ → Device → Type 0
Fits head time i d = Live time d
Fits (collect k fsh event) time i d = Collected (ltb i k) time d
Fits (release k fsh event) time i d = Released (ltb i k) time d
Fits ended time i d = Gone d

-- `event` counts the devices passed, and `fsh` reaches it only if all of them have left.
abbrev pub Counted : ℕ → Place → (ℕ → Device) → Type 0
Counted n head devices = Unit
Counted n (collect k fsh event) devices =
    (event ≡ k) × (k ≤ n) × (fsh ≤ event) × (fsh ≡ event → (j : ℕ) → j < k → Gone (devices j))
Counted n (release k fsh event) devices =
    (event ≡ n) × (k ≤ n) × (fsh ≤ event) × (fsh ≡ event → (j : ℕ) → j < n → Gone (devices j))
Counted n ended devices = Unit

pub record IsTimed (n : ℕ) (t : Timer) : Type 0 where
  pub fits : (i : ℕ) → i < n → Fits t.place t.time i (t.devices i)
  pub counted : Counted n t.place t.devices
  pub stopped : t.timer_stop ≡ true → (i : ℕ) → i < n → Gone (t.devices i)

-- A device that is not parked and has not left.
abbrev pub Moves : Bool → Point → Type 0
Moves done running = Unit
Moves done waiting = done ≡ false
Moves done detached = ⊥

Parked-rests :
    (late time : ℕ) (done fsh : Bool) (point : Point) (slots : ℕ)
    → Moves done point
    → ParkedAt late time done fsh point slots
    → ⊥
Parked-rests late time done fsh running slots m h = h
Parked-rests late time done fsh waiting slots m h = let a = h.0 in cc
Parked-rests late time done fsh detached slots m h = m

Gone-rests : (d : Device) → Moves d.done d.point → Gone d → ⊥
Gone-rests d m e = subst (Moves d.done) e m

-- Such a device is in the slot of the timer, and so may it be afterwards.
pub moves_lem :
    (place : Place) (time i : ℕ) (d : Device)
    → Moves d.done d.point
    → Fits place time i d
    → Live time d × ((d' : Device) → Live time d' → Fits place time i d')
moves_lem head time i d m h = (h, λ d' h'. h')
moves_lem (collect k fsh event) time i d m h = by_test (ltb i k) h
  where
    by_test :
        (b : Bool)
        → Collected b time d
        → Live time d × ((d' : Device) → Live time d' → Collected b time d')
    by_test true h = absurd (Parked-rests 0 time d.done d.fsh d.point d.slots m h)
    by_test false h = (h, λ d' h'. h')
moves_lem (release k fsh event) time i d m h = by_test (ltb i k) h
  where
    by_test :
        (b : Bool)
        → Released b time d
        → Live time d × ((d' : Device) → Live time d' → Released b time d')
    by_test true h = (h, λ d' h'. h')
    by_test false h = absurd (Parked-rests 1 time d.done d.fsh d.point d.slots m h)
moves_lem ended time i d m h = absurd (Gone-rests d m h)

-- The devices with one changed that has not left.
pub set-Gone :
    (t : Timer) (i : ℕ) (d : Device) (j : ℕ)
    → (Gone (t.devices i) → Gone d)
    → Gone (t.devices j)
    → Gone ((with_device t i d).devices j)
set-Gone t i d j f g = elim (Bool-cases (i == j)) [
  | inl e ↦
      let same : j ≡ i = ground arith in
      subst (λ b. Gone (if b then d else t.devices j)) (sym e)
        (f (ap (λ x. (t.devices x).point) (sym same) ∙ g))
  | inr e ↦ subst (λ b. Gone (if b then d else t.devices j)) (sym e) g
]

pub Counted-set :
    (n : ℕ) (place : Place) (t : Timer) (i : ℕ) (d : Device)
    → (Gone (t.devices i) → Gone d)
    → Counted n place t.devices
    → Counted n place (with_device t i d).devices
Counted-set n head t i d f h = tt
Counted-set n (collect k fsh event) t i d f (a, b, c, g) =
    (a, b, c, λ e j lt. set-Gone t i d j f (g e j lt))
Counted-set n (release k fsh event) t i d f (a, b, c, g) =
    (a, b, c, λ e j lt. set-Gone t i d j f (g e j lt))
Counted-set n ended t i d f h = tt

-- A step of a device that moves.
pub device-IsTimed :
    (n : ℕ) (t : Timer) (i : ℕ) (d d' : Device)
    → i < n
    → t.devices i ≡ d
    → Moves d.done d.point
    → (Live t.time d → Live t.time d')
    → IsTimed n t
    → IsTimed n (with_device t i d')
device-IsTimed n t i d d' lt e m f v =
    let (was, becomes) =
      moves_lem t.place t.time i d m (subst (Fits t.place t.time i) e (v.fits i lt)) in
    let not_gone : Gone (t.devices i) → Gone d' = λ g. absurd (Gone-rests d m (subst Gone e g)) in
    record {
      fits = λ j h. elim (Bool-cases (i == j)) [
        | inl q ↦
            let same : i ≡ j = ground arith in
            subst (λ b. Fits t.place t.time j (if b then d' else t.devices j)) (sym q)
              (subst (λ x. Fits t.place t.time x d') same (becomes d' (f was)))
        | inr q ↦
            subst (λ b. Fits t.place t.time j (if b then d' else t.devices j)) (sym q) (v.fits j h)
      ];
      counted = Counted-set n t.place t i d' not_gone v.counted;
      stopped = λ s j h. set-Gone t i d' j not_gone (v.stopped s j h);
    }
