-- ===== src/Os/Clocked/Linked.antt =====
-- The threads and the timer stay in step with each other, and each of the two takes only steps that it
-- takes on its own.
use mathlib.Core.Path.{subst}
use os_assignment_hk.Common.{
  ℕ, ◌+◌, ◌-◌, ◌<◌, ◌≡◌, ◌≢◌, refl, sym, ◌∙◌, ap, arith, true, ◌==◌, ==_refl, [], if◌then◌else◌,
  inl, inr, Bool-cases,
}
use os_assignment_hk.Os.{Process, At, slot, stopped, Cpu, Os, with_cpu}
use os_assignment_hk.Timer.{Device, with_device}
use os_assignment_hk.Os.Clocked.{
  finished, Clocked, ran, counted, ClockedStep, cpu_step, cpu_rests, cpu_wakes, cpu_leaves,
  loader_adds, loader_delays, loader_rests, loader_wakes, loader_ends, loader_leaves, timer_step,
}
use os_assignment_hk.Os.Clocked.Fits.{
  PointFits, RunsFit, CpuFits, LoaderFits, not_slot, ran_fits, at_device, in_loop, from_looking,
}

module _ {M P : Type 0} (num_cpus : ℕ) where
  pub record IsLinked (s : Clocked M P) : Type 0 where
    pub time : s.os.time ≡ s.timer.time
    pub cpus :
        (i : ℕ)
        → i < num_cpus
        → CpuFits (s.timer.devices (num_cpus - i)) (s.os.cpus i).at (s.runs i)
    pub loader : LoaderFits (s.timer.devices 0).point s.loader
    pub done : s.loader ≡ finished → (s.os.done ≡ true) × (s.os.todo ≡ [])

  -- a step of a CPU within its loop
  cpu_step-CpuFits :
      (s : Clocked M P) (i j : ℕ) (u : Os M P)
      → i < num_cpus
      → j < num_cpus
      → (s.os.cpus i).at ≢ slot
      → (s.os.cpus i).at ≢ stopped
      → ((k : ℕ) → i ≢ k → u.cpus k ≡ s.os.cpus k)
      → IsLinked s
      → CpuFits (s.timer.devices (num_cpus - j)) (u.cpus j).at (counted s i u j)
  cpu_step-CpuFits s i j u hi hj ns nt same v = elim (Bool-cases (i == j)) [
    | inl e ↦
        let d = s.timer.devices (num_cpus - i) in
        let c = s.os.cpus i in
        let (fits, runs) = v.cpus i hi in
        let on = in_loop d.point c.at ns nt fits in
        let now : CpuFits d (u.cpus i).at (s.runs i + ran c.at c.proc (u.cpus i).at) = (
          subst (λ p. PointFits p (u.cpus i).at) (sym on) tt,
          ran_fits c.at c.proc (u.cpus i).at (s.runs i) d.slots
              (not_slot c.at (s.runs i) d.slots ns runs),
        ) in
        subst (λ k. CpuFits (s.timer.devices (num_cpus - k)) (u.cpus k).at (counted s i u k))
          (ground arith)
          (subst
            (λ b.
              CpuFits d (u.cpus i).at
                (if b then s.runs i + ran c.at c.proc (u.cpus i).at else s.runs i))
            (sym (==_refl i)) now)
    | inr e ↦
        let keep = sym (same j (ground arith)) in
        subst (λ c. CpuFits (s.timer.devices (num_cpus - j)) c.at (counted s i u j)) keep
          (subst
            (λ b. CpuFits (s.timer.devices (num_cpus - j)) (s.os.cpus j).at (
              if b
              then s.runs i + ran (s.os.cpus i).at (s.os.cpus i).proc (u.cpus i).at
              else s.runs j))
            (sym e) (v.cpus j hj))
  ]

  -- One CPU changed.
  at_cpu :
      (Q : Cpu P → Type 0) (s : Clocked M P) (i j : ℕ) (c : Cpu P)
      → (i ≡ j → Q c)
      → (i ≢ j → Q (s.os.cpus j))
      → Q ((with_cpu s.os i c).cpus j)
  at_cpu Q s i j c same other = elim (Bool-cases (i == j)) [
    | inl e ↦ subst (λ b. Q (if b then c else s.os.cpus j)) (sym e) (same (ground arith))
    | inr e ↦ subst (λ b. Q (if b then c else s.os.cpus j)) (sym e) (other (ground arith))
  ]

  -- one CPU and its device
  one_cpu :
      (s : Clocked M P) (i j : ℕ) (d : Device) (c : Cpu P)
      → i < num_cpus
      → j < num_cpus
      → CpuFits d c.at (s.runs i)
      → IsLinked s
      → CpuFits
          ((with_device s.timer (num_cpus - i) d).devices (num_cpus - j))
          ((with_cpu s.os i c).cpus j).at
          (s.runs j)
  one_cpu s i j d c hi hj h v =
      at_device (λ x. CpuFits x ((with_cpu s.os i c).cpus j).at (s.runs j)) s.timer (num_cpus - i)
        (num_cpus - j) d
        (λ e.
          at_cpu (λ x. CpuFits d x.at (s.runs j)) s i j c
            (λ q. subst (λ k. CpuFits d c.at (s.runs k)) q h) (λ ne. absurd (ne (omega arith))))
        (λ ne.
          at_cpu (λ x. CpuFits (s.timer.devices (num_cpus - j)) x.at (s.runs j)) s i j c
            (λ q. absurd (ne (ap (λ k. num_cpus - k) q))) (λ other. v.cpus j hj))

  -- one device, which is that of a CPU or of the loader
  one_device :
      (s : Clocked M P) (i j : ℕ) (d : Device)
      → i < num_cpus
      → j < num_cpus
      → CpuFits d (s.os.cpus i).at (s.runs i)
      → IsLinked s
      → CpuFits
          ((with_device s.timer (num_cpus - i) d).devices (num_cpus - j))
          (s.os.cpus j).at
          (s.runs j)
  one_device s i j d hi hj h v =
      at_device (λ x. CpuFits x (s.os.cpus j).at (s.runs j)) s.timer (num_cpus - i) (num_cpus - j) d
        (λ e. subst (λ k. CpuFits d (s.os.cpus k).at (s.runs k)) (omega arith) h)
        (λ ne. v.cpus j hj)

  loader_device :
      (s : Clocked M P) (j : ℕ) (d : Device)
      → j < num_cpus
      → IsLinked s
      → CpuFits ((with_device s.timer 0 d).devices (num_cpus - j)) (s.os.cpus j).at (s.runs j)
  loader_device s j d hj v =
      at_device (λ x. CpuFits x (s.os.cpus j).at (s.runs j)) s.timer 0 (num_cpus - j) d
        (λ e. absurd (omega arith)) (λ ne. v.cpus j hj)

  old_loader :
      (s : Clocked M P) (i : ℕ) (d : Device)
      → i < num_cpus
      → IsLinked s
      → LoaderFits ((with_device s.timer (num_cpus - i) d).devices 0).point s.loader
  old_loader s i d hi v =
      at_device (λ x. LoaderFits x.point s.loader) s.timer (num_cpus - i) 0 d
        (λ e. absurd (omega arith)) (λ ne. v.loader)

  runs_fit :
      (s : Clocked M P) (i slots : ℕ) {at : At} {d : Device}
      → i < num_cpus
      → (s.os.cpus i).at ≡ at
      → s.timer.devices (num_cpus - i) ≡ d
      → IsLinked s
      → RunsFit at (s.runs i) d.slots
  runs_fit s i slots {at} {d} hi stands e v =
      subst (λ a. RunsFit a (s.runs i) d.slots) stands
        (subst (λ x. RunsFit (s.os.cpus i).at (s.runs i) x.slots) e (v.cpus i hi).1)

  module _ (io : Process M P) (time_slot : ℕ) where
    pub Step-IsLinked :
        {s t : Clocked M P} → ClockedStep io time_slot num_cpus s t → IsLinked s → IsLinked t
    Step-IsLinked {s} (cpu_step i u hi ns nt st same clock todo ended) v = record {
      time = clock ∙ v.time;
      cpus = λ j hj. cpu_step-CpuFits s i j u hi hj ns nt same v;
      loader = v.loader;
      done = λ e. (ended ∙ (v.done e).0, todo ∙ (v.done e).1);
    }
    Step-IsLinked {s} (cpu_rests i slots done fsh hi stands e) v = record {
      time = v.time;
      cpus = λ j hj.
          one_device s i j _ hi hj
            (stands, subst (λ x. RunsFit (s.os.cpus i).at (s.runs i) x.slots) e (v.cpus i hi).1) v;
      loader = old_loader s i _ hi v;
      done = v.done;
    }
    Step-IsLinked {s} (cpu_wakes i n slots proc fsh hi stands e) v = record {
      time = v.time;
      cpus =
          λ j hj. one_cpu s i j _ _ hi hj (tt, runs_fit s i slots hi (ap (λ c. c.at) stands) e v) v;
      loader = old_loader s i _ hi v;
      done = v.done;
    }
    Step-IsLinked {s} (cpu_leaves i slots done fsh hi stands e) v = record {
      time = v.time;
      cpus = λ j hj.
          one_device s i j _ hi hj
            (stands, subst (λ x. RunsFit (s.os.cpus i).at (s.runs i) x.slots) e (v.cpus i hi).1) v;
      loader = old_loader s i _ hi v;
      done = v.done;
    }
    Step-IsLinked {s} (loader_adds p start rest sched' stands e due added) v = record {
      time = v.time;
      cpus = v.cpus;
      loader = from_looking (s.timer.devices 0).point s.loader _ stands v.loader;
      done = λ f. absurd (cc);
    }
    Step-IsLinked {s} (loader_delays p start rest stands e due) v = record {
      time = v.time;
      cpus = v.cpus;
      loader = from_looking (s.timer.devices 0).point s.loader _ stands v.loader;
      done = λ f. absurd (cc);
    }
    Step-IsLinked {s} (loader_rests slots done fsh stands e) v = record {
      time = v.time;
      cpus = λ j hj. loader_device s j _ hj v;
      loader = stands;
      done = v.done;
    }
    Step-IsLinked {s} (loader_wakes slots fsh stands e) v = record {
      time = v.time;
      cpus = λ j hj. loader_device s j _ hj v;
      loader = tt;
      done = λ f. absurd (cc);
    }
    Step-IsLinked {s} (loader_ends stands e) v = record {
      time = v.time;
      cpus = v.cpus;
      loader = from_looking (s.timer.devices 0).point s.loader _ stands v.loader;
      done = λ f. (refl, e);
    }
    Step-IsLinked {s} (loader_leaves slots done fsh stands e) v = record {
      time = v.time;
      cpus = λ j hj. loader_device s j _ hj v;
      loader = stands;
      done = v.done;
    }
    Step-IsLinked {s} (timer_step t st points slots) v = record {
      time = refl;
      cpus = λ j hj. (
        subst (λ p. PointFits p (s.os.cpus j).at) (sym (points (num_cpus - j))) (v.cpus j hj).0,
        subst (λ n. RunsFit (s.os.cpus j).at (s.runs j) n) (sym (slots (num_cpus - j)))
            (v.cpus j hj).1,
      );
      loader = subst (λ p. LoaderFits p s.loader) (sym (points 0)) v.loader;
      done = v.done;
    }
