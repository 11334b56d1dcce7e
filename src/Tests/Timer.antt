-- ===== src/Tests/Timer.antt =====
-- The theorems on the barrier with two devices: a round in which both finish a slot, and one in which
-- both leave.
use os_assignment_hk.Common.{ℕ, zero, suc, ◌<◌, ◌≡◌, ◌≢◌, refl, arith, true, false}
use os_assignment_hk.Timer.{
  running, waiting, detached, device, collect, release, ended, Timer, with_device, start_timer,
  Step, end_slot, resume, detach_event, enter, finished, arrived, tick, clear, again, Reach, here,
  next,
}
use os_assignment_hk.Timer.Barrier.{running_at_time, ended_behind_all, never_stuck}

-- both devices wait, and the timer has counted them
abbrev at_work : Timer
at_work = record start_timer { place = collect 0 0 0 }

abbrev first_waits : Timer
first_waits = with_device at_work 0 (device true false waiting 0)

abbrev both_wait : Timer
both_wait = with_device first_waits 1 (device true false waiting 0)

both_wait-Reach : Reach 2 start_timer both_wait
unfolding start_timer
both_wait-Reach =
    next {u = first_waits}
      (next {u = at_work} (next here (enter refl refl))
        (end_slot 0 0 false false (omega arith) refl))
      (end_slot 1 0 false false (omega arith) refl)

abbrev counted : Timer
counted = record both_wait { place = collect 2 0 2 }

counted-Reach : Reach 2 start_timer counted
unfolding start_timer
counted-Reach =
    next {u = record both_wait { place = collect 1 0 1 }}
      (next both_wait-Reach (arrived 0 0 0 (omega arith) refl refl refl))
      (arrived 1 0 1 (omega arith) refl refl refl)

they_wait : (i : ℕ) → i < 2 → (counted.devices i).point ≢ running
unfolding start_timer
they_wait zero h e = absurd (cc)
they_wait (suc zero) h e = absurd (cc)
they_wait (suc (suc i)) h e = absurd (omega arith)

never_stuck_example : (u : Timer) × Step 2 counted u
unfolding start_timer
never_stuck_example = never_stuck 2 counted counted-Reach (λ e. absurd (cc)) they_wait

abbrev ticked : Timer
ticked = record counted { time = 1; place = release 0 0 2 }

abbrev first_free : Timer
first_free = record (with_device ticked 0 (device false false waiting 0)) { place = release 1 0 2 }

abbrev first_runs : Timer
first_runs = with_device first_free 0 (device false false running 1)

first_runs-Reach : Reach 2 start_timer first_runs
unfolding start_timer
first_runs-Reach =
    next {u = first_free}
      (next {u = ticked} (next counted-Reach (tick 0 2 refl))
        (clear 0 0 2 0 true false waiting (omega arith) refl refl))
      (resume 0 0 false (omega arith) refl)

running_at_time_example : (first_runs.devices 0).slots ≡ first_runs.time
running_at_time_example = running_at_time 2 first_runs 0 first_runs-Reach (omega arith) refl

-- both devices leave in the first slot
abbrev one_left : Timer
one_left = with_device start_timer 0 (device false true detached 0)

abbrev both_left : Timer
both_left = with_device one_left 1 (device false true detached 0)

abbrev seen_left : Timer
seen_left = record both_left { place = collect 2 2 2 }

seen_left-Reach : Reach 2 start_timer seen_left
unfolding start_timer
seen_left-Reach =
    next {u = record both_left { place = collect 1 1 1 }}
      (next {u = record both_left { place = collect 0 0 0 }}
        (next {u = both_left}
          (next {u = one_left} (next here (detach_event 0 0 false false (omega arith) refl))
            (detach_event 1 0 false false (omega arith) refl))
          (enter refl refl))
        (finished 0 0 0 (omega arith) refl refl))
      (finished 1 1 1 (omega arith) refl refl)

abbrev last_round : Timer
last_round = record seen_left { time = 1; place = release 0 2 2 }

abbrev one_cleared : Timer
one_cleared = record (with_device last_round 0 (device false true detached 0)) {
  place = release 1 2 2;
}

abbrev all_cleared : Timer
all_cleared = record (with_device one_cleared 1 (device false true detached 0)) {
  place = release 2 2 2;
}

abbrev over : Timer
over = record all_cleared { place = ended }

over-Reach : Reach 2 start_timer over
unfolding start_timer
over-Reach =
    next {u = all_cleared}
      (next {u = one_cleared}
        (next {u = last_round} (next seen_left-Reach (tick 2 2 refl))
          (clear 0 2 2 0 false true detached (omega arith) refl refl))
        (clear 1 2 2 0 false true detached (omega arith) refl refl))
      (again 2 2 refl)

ended_behind_all_example : (over.devices 1).point ≡ detached
ended_behind_all_example = ended_behind_all 2 over 1 over-Reach (omega arith) refl
