-- ===== src/Guard/Latch.antt =====
-- The stall latch: when it closes, and what holds it.
use dyx_3wd.Base.{◌≡◌, refl, true, false, Option, none, some, arith}
use dyx_3wd.Base.Real.{Real, zero_real, IsOrdered}
use dyx_3wd.Guard.Types.{Mode, stop, Motion, Command, to_mode}
use dyx_3wd.Guard.Gates.{GateInputs, VehicleIn}
use dyx_3wd.Guard.Stall.{
  StallDetector, PlausibilityConfig, update, demands_motion, measurement_usable, measured_still,
  plausibility_config_valid,
}
use dyx_3wd.Guard.Core.{GuardCore, decide, judge, execute, input_age, move, demand}

module _ {R : Type 0} ⦃r : Real R⦄ where
  -- With the laws of the comparisons, a valid configuration and a finite time: the detector reports a
  -- stall exactly when it is latched, keeps a closed latch while it is enabled and the demand lasts,
  -- and latches anew only on a usable measurement that shows the vehicle still, when it has been
  -- timing that for longer than allowed.
  pub update_lem :
      IsOrdered R
      → (d : StallDetector R) (m : Motion R) (v : VehicleIn R) (now : R) (c : PlausibilityConfig R)
      → plausibility_config_valid c ≡ true
      → r.finite now ≡ true
      → let (d', stalled) = update d m v now c in
        (stalled ≡ d'.latched)
        × (d.latched ≡ true → c.enabled ≡ true → demands_motion m c ≡ true → d' ≡ d)
        × (d.latched ≡ false
            → d'.latched ≡ true
            → (measurement_usable v ≡ true)
              × (measured_still v c ≡ true)
              × (d.timing ≡ true)
              × (r.lt c.stall_time_s (r.sub now d.since_s) ≡ true))
  unfolding update plausibility_config_valid
  update_lem laws d m v now c valid fine = ground (
    arith,
    laws.sub_self now fine,
    laws.lt-eq-not-le c.stall_time_s zero_real,
    laws.lt_le zero_real c.stall_time_s,
    laws.finite_zero,
  )

  move-latch :
      (g : GuardCore R) (c : Command R) (mode : Mode) (now dt age : R) (gates : GateInputs R)
      → g.stall.latched ≡ true
      → g.cfg.plausibility.enabled ≡ true
      → demands_motion (demand c mode) g.cfg.plausibility ≡ true
      → let (g', d) = move g c mode now dt age gates in
        (d.accepted ≡ false) × (g'.stall.latched ≡ true)
  unfolding move update
  move-latch g c mode now dt age gates l e h = ground arith

  execute-latch :
      (g : GuardCore R) (c : Command R) (mode : Option Mode) (now dt age : R) (gates : GateInputs R)
      → g.stall.latched ≡ true
      → g.cfg.plausibility.enabled ≡ true
      → ((m : Mode) → mode ≡ some m → demands_motion (demand c m) g.cfg.plausibility ≡ true)
      → let (g', d) = execute g c mode now dt age gates in
        (d.accepted ≡ false) × (g'.stall.latched ≡ true)
  unfolding execute demands_motion
  execute-latch g c none now dt age gates l e h = ground arith
  execute-latch g c (some stop) now dt age gates l e h = ground (arith, h stop refl)
  execute-latch g c (some mode) now dt age gates l e h =
      move-latch g c _ now dt age gates l e (h _ refl)

  -- With the stall latch closed and the detector enabled, a decision on a command that still demands
  -- motion accepts nothing and keeps the latch.
  pub latch_holds :
      (g : GuardCore R) (c : Command R) (now dt : R) (gates : GateInputs R)
      → g.cmd ≡ some c
      → g.stall.latched ≡ true
      → g.cfg.plausibility.enabled ≡ true
      → ((m : Mode)
          → to_mode c.mode ≡ some m
          → demands_motion (demand c m) g.cfg.plausibility ≡ true)
      → let (g', d) = decide g now dt gates in (d.accepted ≡ false) × (g'.stall.latched ≡ true)
  unfolding decide judge
  latch_holds g c now dt gates e l on h =
      ground (arith, execute-latch g c (to_mode c.mode) now dt (input_age g now) gates l on h)
