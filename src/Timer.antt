-- ===== src/Timer.antt =====
-- src/timer.c: the barrier at which the threads of the devices (the CPUs and the loader) wait for the
-- end of a time slot. A step is what a thread does under one lock, `event_lock` or `timer_lock` of a
-- device; a thread in `pthread_cond_wait` goes on when its condition holds. `dev_list` is the devices
-- 0 to `num_devices - 1`, fixed when the timer starts.
pub mod Invariant
pub mod Rounds
pub mod Barrier
use os_assignment_hk.Common.{
  ℕ, ◌+◌, ◌<◌, ◌≡◌, Bool, true, false, ◌==◌, Option, none, some, if◌then◌else◌,
}

-- Where the thread of a device stands: between two calls of `next_slot`, in the wait of `next_slot`, or
-- behind `detach_event`.
pub data Point : Type 0 where
  running : Point
  waiting : Point
  detached : Point

-- `struct timer_id_t`, with its thread and how often `next_slot` has returned.
pub record Device : Type 0 where
  pub done : Bool
  pub fsh : Bool
  pub point : Point
  pub slots : ℕ

-- Where `timer_routine` stands: at the head of its loop, in the first inner loop at a device, in the
-- second one, or at its end; with its counters `fsh` and `event`.
pub data Place : Type 0 where
  head : Place
  collect : ℕ → ℕ → ℕ → Place
  release : ℕ → ℕ → ℕ → Place
  ended : Place

pub record Timer : Type 0 where
  pub place : Place
  pub time : ℕ
  pub timer_stop : Bool
  pub devices : ℕ → Device

abbrev pub device : Bool → Bool → Point → ℕ → Device
device done fsh point slots = record { done = done; fsh = fsh; point = point; slots = slots }

abbrev pub with_device : Timer → ℕ → Device → Timer
with_device t i d = record t { devices = λ j. if i == j then d else t.devices j }

abbrev new_device : Device
new_device = device false false running 0

-- `attach_event`: the container for a new device, or NULL once the timer has started
abbrev pub attach_event : Bool → Option Device
attach_event timer_started = if timer_started then none else some new_device

-- the state from which `start_timer` starts the thread: every device comes from `attach_event`
unfoldable pub start_timer : Timer
start_timer = record { place = head; time = 0; timer_stop = false; devices = λ i. new_device }

module _ (num_devices : ℕ) where
  -- One step of a device (`end_slot` and `resume` are the halves of `next_slot`), of the timer, or of
  -- `main`, which calls `stop_timer` behind the end of all threads.
  pub data Step (t : Timer) : Timer → Type 0 where
    end_slot :
        (i slots : ℕ) (done fsh : Bool)
        → i < num_devices
        → t.devices i ≡ device done fsh running slots
        → Step t (with_device t i (device true fsh waiting slots))
    resume :
        (i slots : ℕ) (fsh : Bool)
        → i < num_devices
        → t.devices i ≡ device false fsh waiting slots
        → Step t (with_device t i (device false fsh running (slots + 1)))
    detach_event :
        (i slots : ℕ) (done fsh : Bool)
        → i < num_devices
        → t.devices i ≡ device done fsh running slots
        → Step t (with_device t i (device done true detached slots))
    enter : t.place ≡ head → t.timer_stop ≡ false → Step t (record t { place = collect 0 0 0 })
    leave : t.place ≡ head → t.timer_stop ≡ true → Step t (record t { place = ended })
    finished :
        (i fsh event : ℕ)
        → i < num_devices
        → t.place ≡ collect i fsh event
        → (t.devices i).fsh ≡ true
        → Step t (record t { place = collect (i + 1) (fsh + 1) (event + 1) })
    arrived :
        (i fsh event : ℕ)
        → i < num_devices
        → t.place ≡ collect i fsh event
        → (t.devices i).fsh ≡ false
        → (t.devices i).done ≡ true
        → Step t (record t { place = collect (i + 1) fsh (event + 1) })
    tick :
        (fsh event : ℕ)
        → t.place ≡ collect num_devices fsh event
        → Step t (record t { time = t.time + 1; place = release 0 fsh event })
    clear :
        (i fsh event slots : ℕ) (done gone : Bool) (point : Point)
        → i < num_devices
        → t.place ≡ release i fsh event
        → t.devices i ≡ device done gone point slots
        → Step t (record (with_device t i (device false gone point slots)) {
          place = release (i + 1) fsh event;
        })
    again :
        (fsh event : ℕ)
        → t.place ≡ release num_devices fsh event
        → Step t (record t { place = if fsh == event then ended else head })
    stop_timer :
        ((i : ℕ) → i < num_devices → (t.devices i).point ≡ detached)
        → Step t (record t { timer_stop = true })

  pub data Reach (t : Timer) : Timer → Type 0 where
    here : Reach t t
    next : {u v : Timer} → Reach t u → Step u v → Reach t v
