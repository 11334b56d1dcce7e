-- ===== src/Timer/Rounds.antt =====
-- The steps of the timer's thread keep the invariant.
use mathlib.Core.Path.{subst}
use os_assignment_hk.Common.{
  ℕ, ◌+◌, ◌≤◌, ◌<◌, ◌≡◌, ◌≢◌, refl, sym, arith, ltb, Bool, true, false, ◌==◌, if◌then◌else◌, inl,
  inr, Bool-cases,
}
use os_assignment_hk.Timer.{
  Point, running, waiting, detached, Device, device, Place, head, collect, release, ended, Timer,
  with_device,
}
use os_assignment_hk.Timer.Invariant.{
  LiveAt, Live, ParkedAt, Parked, Gone, Collected, Released, Fits, Counted, IsTimed, set-Gone,
  Counted-set,
}

-- A device in the place of the timer.
pub placed :
    (n : ℕ) (t : Timer) (place : Place)
    → t.place ≡ place
    → IsTimed n t
    → ((i : ℕ) → i < n → Fits place t.time i (t.devices i)) × Counted n place t.devices
placed n t place e v = (
  λ i lt. subst (λ p. Fits p t.time i (t.devices i)) e (v.fits i lt),
  subst (λ p. Counted n p t.devices) e v.counted,
)

-- The first inner loop passes a device.
Collected-pass :
    (k time i : ℕ) (d : Device)
    → Collected (ltb i k) time d
    → (i ≡ k → Parked 0 time d)
    → Collected (ltb i (k + 1)) time d
Collected-pass k time i d h p = by_test (ltb i k) (ltb i (k + 1)) refl refl h
  where
    by_test :
        (b c : Bool) → ltb i k ≡ b → ltb i (k + 1) ≡ c → Collected b time d → Collected c time d
    by_test true true e f h = h
    by_test false false e f h = h
    by_test false true e f h = p (ground arith)
    by_test true false e f h = absurd (ground arith)

pub pass :
    (n : ℕ) (t : Timer) (k fsh event fsh' : ℕ)
    → k < n
    → t.place ≡ collect k fsh event
    → Parked 0 t.time (t.devices k)
    → fsh' ≤ fsh + 1
    → (fsh' ≡ event + 1 → (fsh ≡ event) × Gone (t.devices k))
    → IsTimed n t
    → IsTimed n (record t { place = collect (k + 1) fsh' (event + 1) })
pass n t k fsh event fsh' lt e here_parked few all v =
    let (fits, counts) = placed n t (collect k fsh event) e v in
    let (a, b, c, g) = counts in
    record {
      fits = λ i h.
          Collected-pass k t.time i (t.devices i) (fits i h)
            (λ same. subst (λ x. Parked 0 t.time (t.devices x)) (sym same) here_parked);
      counted = (
        omega arith,
        omega arith,
        omega arith,
        λ full j below. elim (Bool-cases (ltb j k)) [
          | inl q ↦ g (all full).0 j (ground arith)
          | inr q ↦
              let last : k ≡ j = ground arith in subst (λ x. Gone (t.devices x)) last (all full).1
        ],
      );
      stopped = v.stopped;
    }

-- A device that has left, and one that has finished its slot, may be passed.
pub left-Parked : (time : ℕ) (d : Device) → d.fsh ≡ true → Live time d → Parked 0 time d × Gone d
left-Parked time d f h = by_point d.point refl h
  where
    by_point :
        (point : Point)
        → d.point ≡ point
        → LiveAt time d.done d.fsh point d.slots
        → ParkedAt 0 time d.done d.fsh point d.slots × (point ≡ detached)
    by_point running e h = let a = h.1 in absurd (cc)
    by_point waiting e h = let a = h.0 in absurd (cc)
    by_point detached e h = (h, refl)

pub arrived-Parked :
    (time : ℕ) (d : Device) → d.fsh ≡ false → d.done ≡ true → Live time d → Parked 0 time d
arrived-Parked time d f done h = by_point d.point h
  where
    by_point :
        (point : Point)
        → LiveAt time d.done d.fsh point d.slots
        → ParkedAt 0 time d.done d.fsh point d.slots
    by_point running h = let a = h.0 in absurd (cc)
    by_point waiting h = (done, f, subst (λ b. d.slots + (if b then 0 else 1) ≡ time) done h.1)
    by_point detached h = absurd (cc)

-- the device at which the first inner loop stands
pub collect-Live :
    (n : ℕ) (t : Timer) (k fsh event : ℕ)
    → k < n
    → t.place ≡ collect k fsh event
    → IsTimed n t
    → Live t.time (t.devices k) × (fsh ≤ event)
collect-Live n t k fsh event lt e v =
    let (fits, counts) = placed n t (collect k fsh event) e v in
    let (a, b, c, g) = counts in
    let itself : ltb k k ≡ false = ground arith in
    (subst (λ b. Collected b t.time (t.devices k)) itself (fits k lt), c)

late : (time : ℕ) (d : Device) → Parked 0 time d → Parked 1 (time + 1) d
late time d h = by_point d.point h
  where
    by_point :
        (point : Point)
        → ParkedAt 0 time d.done d.fsh point d.slots
        → ParkedAt 1 (time + 1) d.done d.fsh point d.slots
    by_point running h = h
    by_point waiting (a, b, c) = (a, b, omega arith)
    by_point detached h = h

pub tick-IsTimed :
    (n : ℕ) (t : Timer) (fsh event : ℕ)
    → t.place ≡ collect n fsh event
    → IsTimed n t
    → IsTimed n (record t { time = t.time + 1; place = release 0 fsh event })
tick-IsTimed n t fsh event e v =
    let (fits, counts) = placed n t (collect n fsh event) e v in
    let (a, b, c, g) = counts in
    record {
      fits = λ i h.
          let passed : ltb i n ≡ true = ground arith in
          let first : ltb i 0 ≡ false = ground arith in
          subst (λ b. Released b (t.time + 1) (t.devices i)) (sym first)
            (late t.time (t.devices i)
              (subst (λ b. Collected b t.time (t.devices i)) passed (fits i h)));
      counted = (a, omega arith, c, g);
      stopped = v.stopped;
    }

let_go :
    (time : ℕ) (done gone : Bool) (point : Point) (slots : ℕ)
    → ParkedAt 1 time done gone point slots
    → LiveAt time false gone point slots
let_go time done gone running slots h = absurd (h)
let_go time done gone waiting slots (a, b, c) = (b, c)
let_go time done gone detached slots h = h

Released-pass :
    (k time i : ℕ) (d : Device)
    → i ≢ k
    → Released (ltb i k) time d
    → Released (ltb i (k + 1)) time d
Released-pass k time i d ne h =
    let same : ltb i k ≡ ltb i (k + 1) = ground arith in subst (λ b. Released b time d) same h

pub clear-IsTimed :
    (n : ℕ) (t : Timer) (k fsh event slots : ℕ) (done gone : Bool) (point : Point)
    → k < n
    → t.place ≡ release k fsh event
    → t.devices k ≡ device done gone point slots
    → IsTimed n t
    → IsTimed n (record (with_device t k (device false gone point slots)) {
      place = release (k + 1) fsh event;
    })
clear-IsTimed n t k fsh event slots done gone point lt e d v =
    let (fits, counts) = placed n t (release k fsh event) e v in
    let next_device : Device = device false gone point slots in
    let stays : Gone (t.devices k) → Gone next_device = λ g. subst Gone d g in
    let (a, b, c, g) = Counted-set n (release k fsh event) t k next_device stays counts in
    let itself : ltb k k ≡ false = ground arith in
    let before : Parked 1 t.time (device done gone point slots) =
      subst (λ b. Released b t.time (device done gone point slots)) itself
        (subst (Released (ltb k k) t.time) d (fits k lt)) in
    let freed : Live t.time next_device = let_go t.time done gone point slots before in
    record {
      fits = λ i h. elim (Bool-cases (k == i)) [
        | inl q ↦
            let passed : ltb i (k + 1) ≡ true = ground arith in
            subst (λ b. Released b t.time (if k == i then next_device else t.devices i))
              (sym passed)
              (subst (λ b. Live t.time (if b then next_device else t.devices i)) (sym q) freed)
        | inr q ↦
            subst (λ b. Released (ltb i (k + 1)) t.time (if b then next_device else t.devices i))
              (sym q) (Released-pass k t.time i (t.devices i) (ground arith) (fits i h))
      ];
      counted = (a, omega arith, c, g);
      stopped = λ s j h. set-Gone t k next_device j stays (v.stopped s j h);
    }

pub again-IsTimed :
    (n : ℕ) (t : Timer) (fsh event : ℕ)
    → t.place ≡ release n fsh event
    → IsTimed n t
    → IsTimed n (record t { place = if fsh == event then ended else head })
again-IsTimed n t fsh event e v =
    let (fits, counts) = placed n t (release n fsh event) e v in
    let (a, b, c, g) = counts in
    elim (Bool-cases (fsh == event)) [
      | inl q ↦
          subst (λ b. IsTimed n (record t { place = if b then ended else head })) (sym q)
            (record { fits = λ i h. g (ground arith) i h; counted = tt; stopped = v.stopped })
      | inr q ↦
          subst (λ b. IsTimed n (record t { place = if b then ended else head })) (sym q)
            (record {
              fits = λ i h.
                  let passed : ltb i n ≡ true = ground arith in
                  subst (λ b. Released b t.time (t.devices i)) passed (fits i h);
              counted = tt;
              stopped = v.stopped;
            })
    ]
