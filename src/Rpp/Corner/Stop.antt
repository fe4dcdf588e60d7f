-- ===== src/Rpp/Corner/Stop.antt =====
-- stop_pivot_fsm.cpp: the brake, the confirmation of a stop, the watchdog of a pivot and the hold.
use dyx_3wd.Base.{ℕ, ◌-◌, Bool, true, false, not, ◌&&◌, ◌||◌, leb, if◌then◌else◌}
use dyx_3wd.Base.Real.{Real, zero_real, min_real, max_real}

pub record StopTelemetry (R : Type 0) : Type 0 where
  pub vel_fresh : Bool
  pub speed : R
  pub v_forward : R
  pub yaw_rate : R

pub record StopPivotParams (R : Type 0) : Type 0 where
  pub stop_speed_threshold : R
  pub stop_yaw_rate_threshold : R
  pub stop_dwell_s : R
  pub brake_velocity_cap : R
  pub align_speed_threshold : R
  pub align_settle_s : R
  pub heading_tolerance_rad : R
  pub timeout_heading_tol_rad : R
  pub release_max_rad : R
  pub spinup_margin_s : R
  pub nominal_pivot_rate : R
  pub turn_timeout_s : R
  pub pivot_timeout_max_s : R
  pub corner_threshold_deg : R
  pub corner_speed : R
  pub stale_vel_hold_s : R

pub record StopConfirm : Type 0 where
  pub entered : Bool
  pub entered_ns : ℕ
  pub settle : Bool
  pub settle_ns : ℕ
  pub stale : Bool
  pub stale_ns : ℕ

pub record PivotWatchdog (R : Type 0) : Type 0 where
  pub started : Bool
  pub started_ns : ℕ
  pub warned : Bool
  pub angle : R

pub data HoldPhase : Type 0 where
  idle braking stopped : HoldPhase

pub record HoldOutput (R : Type 0) : Type 0 where
  pub phase : HoldPhase
  pub brake_speed : R
  pub stopped : Bool

-- The fields of `StopHold`, with its stop confirmation.
pub record StopHold (R : Type 0) : Type 0 where
  pub params : StopPivotParams R
  pub stop : StopConfirm
  pub latched : Bool

abbrev pub reset_confirm : StopConfirm → StopConfirm
reset_confirm s = record s { entered = false; settle = false; stale = false }

abbrev enter : StopConfirm → ℕ → StopConfirm
enter s now = if s.entered then s else record s { entered = true; entered_ns = now }

module _ {R : Type 0} ⦃r : Real R⦄ where
  -- `static_cast<double>(now - since) * 1e-9`.
  abbrev pub elapsed : ℕ → ℕ → R
  elapsed now since =
      r.mul (if leb since now then r.lit (now - since) 1 else r.neg (r.lit (since - now) 1))
        (r.lit 1 1000000000)

  unfoldable pub brake_speed : StopTelemetry R → StopPivotParams R → R
  brake_speed t p =
      let forward = r.abs t.v_forward in
      if not t.vel_fresh
      then zero_real
      else if r.le p.brake_velocity_cap zero_real
      then zero_real
      else if r.lt t.speed p.stop_speed_threshold
      then zero_real
      else if r.lt forward p.stop_speed_threshold || r.lt forward (r.mul (r.lit 5 10) t.speed)
      then zero_real
      else r.mul (if r.lt zero_real t.v_forward then r.neg (r.lit 1 1) else r.lit 1 1)
          (min_real p.brake_velocity_cap forward)

  -- A velocity that is too old: counted from the first stale tick of the hold.
  unfoldable pub wait_stale : StopConfirm → ℕ → StopPivotParams R → StopConfirm × Bool
  wait_stale s now p =
      let since = if s.stale then s.stale_ns else now in
      (
        record s { settle = false; stale = true; stale_ns = since },
        r.le p.stale_vel_hold_s (elapsed now since),
      )

  abbrev pub at_rest : StopTelemetry R → StopPivotParams R → Bool
  at_rest t p =
      r.lt t.speed p.stop_speed_threshold && r.lt (r.abs t.yaw_rate) p.stop_yaw_rate_threshold

  -- A fresh velocity: the dwell at rest.
  unfoldable pub dwell : StopConfirm → ℕ → StopTelemetry R → StopPivotParams R → StopConfirm × Bool
  dwell s now t p =
      if not (at_rest t p)
      then (record s { settle = false }, false)
      else if r.le p.stop_dwell_s zero_real
      then (s, true)
      else if not s.settle
      then (record s { settle = true; settle_ns = now }, false)
      else (s, r.le p.stop_dwell_s (elapsed now s.settle_ns))

  unfoldable pub satisfied :
      StopConfirm → ℕ → StopTelemetry R → StopPivotParams R → StopConfirm × Bool
  unfolding wait_stale dwell
  satisfied s now t p =
      let s' = enter s now in
      if not t.vel_fresh then wait_stale s' now p else dwell (record s' { stale = false }) now t p

  unfoldable pub budget_s : PivotWatchdog R → StopPivotParams R → R
  budget_s w p =
      let turning =
        if r.lt (r.lit 1 1000000) p.nominal_pivot_rate
        then r.div (max_real zero_real w.angle) p.nominal_pivot_rate
        else zero_real in
      let budget = max_real (r.add p.spinup_margin_s turning) p.turn_timeout_s in
      if r.lt zero_real p.pivot_timeout_max_s then min_real budget p.pivot_timeout_max_s else budget

  unfoldable pub timed_out : PivotWatchdog R → ℕ → R → StopPivotParams R → PivotWatchdog R × Bool
  unfolding budget_s
  timed_out w now turn_angle p =
      let timeout = budget_s w p in
      if not w.started
      then (
        record w {
          started = true;
          started_ns = now;
          angle = if r.finite turn_angle then r.abs turn_angle else w.angle;
        },
        false,
      )
      else if r.le timeout zero_real
      then (w, false)
      else if r.lt (elapsed now w.started_ns) timeout
      then (w, false)
      else (record w { warned = true }, true)

  abbrev pub reset_watchdog : PivotWatchdog R → PivotWatchdog R
  reset_watchdog w = record w { started = false; warned = false; angle = zero_real }

  unfoldable pub hold_step : StopHold R → ℕ → StopTelemetry R → StopHold R × HoldOutput R
  unfolding satisfied brake_speed
  hold_step h now t =
      let (stop, done) = satisfied h.stop now t h.params in
      (
        record h { stop = stop; latched = true },
        if done
            then record { phase = stopped; brake_speed = zero_real; stopped = true }
            else record { phase = braking; brake_speed = brake_speed t h.params; stopped = false },
      )

  abbrev pub hold_reset : StopHold R → StopHold R
  hold_reset h = record h { latched = false; stop = reset_confirm h.stop }
