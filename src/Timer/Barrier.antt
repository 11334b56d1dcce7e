-- ===== src/Timer/Barrier.antt =====
-- What the barrier of src/timer.c promises: the devices stay in step with the timer, which ends only
-- behind them, and no state is stuck.
use mathlib.Core.Path.{subst}
use native.Mathlib.Decide.{dec_lt}
use os_assignment_hk.Common.{
  ℕ, ◌+◌, ◌≤◌, ◌<◌, ◌≡◌, ◌≢◌, refl, sym, ◌∙◌, ap, arith, ltb, Bool, true, false, ◌⊎◌, inl, inr,
  Bool-cases,
}
use os_assignment_hk.Timer.{
  Point, running, waiting, detached, Device, device, Place, head, collect, release, ended, Timer,
  start_timer, Step, end_slot, resume, detach_event, enter, leave, finished, arrived, tick, clear,
  again, stop_timer, Reach, here, next,
}
use os_assignment_hk.Timer.Invariant.{
  LiveAt, Live, ParkedAt, Collected, Released, Moves, Fits, IsTimed, device-IsTimed, moves_lem,
}
use os_assignment_hk.Timer.Rounds.{
  placed, pass, left-Parked, arrived-Parked, collect-Live, tick-IsTimed, clear-IsTimed,
  again-IsTimed,
}

Live-bounds :
    (time : ℕ) (done fsh : Bool) (point : Point) (slots : ℕ)
    → point ≢ detached
    → LiveAt time done fsh point slots
    → (slots ≤ time) × (time ≤ slots + 1)
Live-bounds time done fsh running slots ne (a, b, c) = (omega arith, omega arith)
Live-bounds time true fsh waiting slots ne (a, b) = (omega arith, omega arith)
Live-bounds time false fsh waiting slots ne (a, b) = (omega arith, omega arith)
Live-bounds time done fsh detached slots ne h = absurd (ne refl)

Parked-bounds :
    (late time : ℕ) (done fsh : Bool) (point : Point) (slots : ℕ)
    → late ≤ 1
    → point ≢ detached
    → ParkedAt late time done fsh point slots
    → (slots ≤ time) × (time ≤ slots + 1)
Parked-bounds late time done fsh running slots le ne h = absurd (h)
Parked-bounds late time done fsh waiting slots le ne (a, b, c) = (omega arith, omega arith)
Parked-bounds late time done fsh detached slots le ne h = absurd (ne refl)

Fits-bounds :
    (place : Place) (time i : ℕ) (d : Device)
    → d.point ≢ detached
    → Fits place time i d
    → (d.slots ≤ time) × (time ≤ d.slots + 1)
Fits-bounds head time i d ne h = Live-bounds time d.done d.fsh d.point d.slots ne h
Fits-bounds (collect k fsh event) time i d ne h = by_test (ltb i k) h
  where
    by_test : (b : Bool) → Collected b time d → (d.slots ≤ time) × (time ≤ d.slots + 1)
    by_test true h = Parked-bounds 0 time d.done d.fsh d.point d.slots (omega arith) ne h
    by_test false h = Live-bounds time d.done d.fsh d.point d.slots ne h
Fits-bounds (release k fsh event) time i d ne h = by_test (ltb i k) h
  where
    by_test : (b : Bool) → Released b time d → (d.slots ≤ time) × (time ≤ d.slots + 1)
    by_test true h = Live-bounds time d.done d.fsh d.point d.slots ne h
    by_test false h = Parked-bounds 1 time d.done d.fsh d.point d.slots (omega arith) ne h
Fits-bounds ended time i d ne h = absurd (ne h)

-- A device in the slot of the timer that is not in its work: the timer may pass it, or it may return.
rest_cases :
    (time : ℕ) (d : Device)
    → d.point ≢ running
    → Live time d
    → (d.fsh ≡ true)
      ⊎ (((d.fsh ≡ false) × (d.done ≡ true)) ⊎ (d ≡ device false d.fsh waiting d.slots))
rest_cases time d ne h = by_point d.point refl h
  where
    by_point :
        (point : Point)
        → d.point ≡ point
        → LiveAt time d.done d.fsh point d.slots
        → (d.fsh ≡ true)
          ⊎ (((d.fsh ≡ false) × (d.done ≡ true)) ⊎ (d ≡ device false d.fsh waiting d.slots))
    by_point running e h = absurd (ne e)
    by_point waiting e (a, b) = elim (Bool-cases d.done) [
      | inl q ↦ inr (inl (a, q))
      | inr q ↦ inr (
          inr
            (ap (λ x. device x d.fsh d.point d.slots) q ∙ ap (λ x. device false d.fsh x d.slots) e))
    ]
    by_point detached e h = inl h

module _ (num_devices : ℕ) where
  Step-IsTimed :
      {t u : Timer} → Step num_devices t u → IsTimed num_devices t → IsTimed num_devices u
  Step-IsTimed {t} (end_slot i slots done fsh lt e) v =
      device-IsTimed num_devices t i (device done fsh running slots) (device true fsh waiting slots)
        lt e tt (λ h. (h.1, omega arith)) v
  Step-IsTimed {t} (resume i slots fsh lt e) v =
      device-IsTimed num_devices t i (device false fsh waiting slots)
        (device false fsh running (slots + 1)) lt e refl (λ h. (refl, h.0, h.1)) v
  Step-IsTimed {t} (detach_event i slots done fsh lt e) v =
      device-IsTimed num_devices t i (device done fsh running slots)
        (device done true detached slots) lt e tt (λ h. refl) v
  Step-IsTimed {t} (enter e s) v =
      let (fits, counts) = placed num_devices t head e v in
      record {
        fits = λ i h.
            let first : ltb i 0 ≡ false = ground arith in
            subst (λ b. Collected b t.time (t.devices i)) (sym first) (fits i h);
        counted = (refl, omega arith, omega arith, λ q j below. absurd (omega arith));
        stopped = v.stopped;
      }
  Step-IsTimed (leave e s) v = record { fits = v.stopped s; counted = tt; stopped = v.stopped }
  Step-IsTimed {t} (finished i fsh event lt e f) v =
      let (lives, few) = collect-Live num_devices t i fsh event lt e v in
      let (there, left) = left-Parked t.time (t.devices i) f lives in
      pass num_devices t i fsh event (fsh + 1) lt e there (omega arith) (λ q. (omega arith, left)) v
  Step-IsTimed {t} (arrived i fsh event lt e f d) v =
      let (lives, few) = collect-Live num_devices t i fsh event lt e v in
      pass num_devices t i fsh event fsh lt e (arrived-Parked t.time (t.devices i) f d lives)
        (omega arith) (λ q. absurd (omega arith)) v
  Step-IsTimed {t} (tick fsh event e) v = tick-IsTimed num_devices t fsh event e v
  Step-IsTimed {t} (clear i fsh event slots done gone point lt e d) v =
      clear-IsTimed num_devices t i fsh event slots done gone point lt e d v
  Step-IsTimed {t} (again fsh event e) v = again-IsTimed num_devices t fsh event e v
  Step-IsTimed (stop_timer all) v = record {
    fits = v.fits;
    counted = v.counted;
    stopped = λ s. all;
  }

  Reach-IsTimed : {t : Timer} → Reach num_devices start_timer t → IsTimed num_devices t
  unfolding start_timer
  Reach-IsTimed here = record {
    fits = λ i h. (refl, refl, refl);
    counted = tt;
    stopped = λ s i h. absurd (cc);
  }
  Reach-IsTimed (next r st) = Step-IsTimed st (Reach-IsTimed r)

  -- From the start of the timer, for any number of devices and any order of the steps: a device between
  -- two calls of `next_slot` has finished as many slots as `current_time()` says, so that all devices
  -- that run at once are in the same slot.
  pub running_at_time :
      (t : Timer) (i : ℕ)
      → Reach num_devices start_timer t
      → i < num_devices
      → (t.devices i).point ≡ running
      → (t.devices i).slots ≡ t.time
  running_at_time t i r lt e =
      let d = t.devices i in
      let moves : Moves d.done d.point = subst (Moves d.done) (sym e) tt in
      let (lives, rest) = moves_lem t.place t.time i d moves ((Reach-IsTimed r).fits i lt) in
      (subst (λ p. LiveAt t.time d.done d.fsh p d.slots) e lives).2

  -- From the start of the timer, whatever the order of the steps: a device that has not called
  -- `detach_event` has finished all slots up to the time of the timer, or all but the last.
  pub slots_in_step :
      (t : Timer) (i : ℕ)
      → Reach num_devices start_timer t
      → i < num_devices
      → (t.devices i).point ≢ detached
      → ((t.devices i).slots ≤ t.time) × (t.time ≤ (t.devices i).slots + 1)
  slots_in_step t i r lt ne =
      Fits-bounds t.place t.time i (t.devices i) ne ((Reach-IsTimed r).fits i lt)

  -- From the start of the timer, whatever the order of the steps: when the timer's thread has ended, each
  -- device has called `detach_event`, so that none waits for ever for a next slot.
  pub ended_behind_all :
      (t : Timer) (i : ℕ)
      → Reach num_devices start_timer t
      → i < num_devices
      → t.place ≡ ended
      → (t.devices i).point ≡ detached
  ended_behind_all t i r lt e = (placed num_devices t ended e (Reach-IsTimed r)).0 i lt

  -- From the start of the timer, whatever the order of the steps: if the timer's thread has not ended and no
  -- device is between two calls of `next_slot`, some thread can take a step all the same.
  pub never_stuck :
      (t : Timer)
      → Reach num_devices start_timer t
      → t.place ≢ ended
      → ((i : ℕ) → i < num_devices → (t.devices i).point ≢ running)
      → (u : Timer) × Step num_devices t u
  never_stuck t r goes_on none_runs = by_place t.place refl
    where
      v : IsTimed num_devices t
      v = Reach-IsTimed r

      by_place : (place : Place) → t.place ≡ place → (u : Timer) × Step num_devices t u
      by_place head e = elim (Bool-cases t.timer_stop) [
        | inl s ↦ (_, leave e s)
        | inr s ↦ (_, enter e s)
      ]
      by_place (collect k fsh event) e = elim (dec_lt k num_devices) [
        | yes lt ↦
            elim (rest_cases t.time (t.devices k) (none_runs k lt)
              (collect-Live num_devices t k fsh event lt e v).0) [
                | inl f ↦ (_, finished k fsh event lt e f)
                | inr (inl (f, d)) ↦ (_, arrived k fsh event lt e f d)
                | inr (inr same) ↦ (_, resume k (t.devices k).slots (t.devices k).fsh lt same)
              ]
        | no past ↦
            let k_le = (placed num_devices t (collect k fsh event) e v).1 in
            let last : k ≡ num_devices = omega (arith, k_le.1) in
            (_, tick fsh event (e ∙ ap (λ x. collect x fsh event) last))
      ]
      by_place (release k fsh event) e = elim (dec_lt k num_devices) [
        | yes lt ↦
            let d = t.devices k in (_, clear k fsh event d.slots d.done d.fsh d.point lt e refl)
        | no past ↦
            let k_le = (placed num_devices t (release k fsh event) e v).1 in
            let last : k ≡ num_devices = omega (arith, k_le.1) in
            (_, again fsh event (e ∙ ap (λ x. release x fsh event) last))
      ]
      by_place ended e = absurd (goes_on e)
