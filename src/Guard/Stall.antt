-- ===== src/Guard/Stall.antt =====
-- actuator_plausibility.hpp and .cpp: the detector of a command that the drivetrain does not execute.
use dyx_3wd.Base.{Bool, true, false, not, ◌&&◌, ◌||◌, if◌then◌else◌}
use dyx_3wd.Base.Real.{Real, zero_real}
use dyx_3wd.Guard.Types.{Motion, uses_rate}
use dyx_3wd.Guard.Gates.{VehicleIn}
use dyx_3wd.Guard.Limits.{is_stop}

pub record PlausibilityConfig (R : Type 0) : Type 0 where
  pub enabled : Bool
  pub demand_yaw_rate_radps : R
  pub demand_speed_mps : R
  pub still_yaw_rate_radps : R
  pub still_speed_mps : R
  pub stall_time_s : R

pub record StallDetector (R : Type 0) : Type 0 where
  pub timing : Bool
  pub since_s : R
  pub latched : Bool

module _ {R : Type 0} ⦃r : Real R⦄ where
  abbrev positive : R → Bool
  positive v = r.finite v && r.lt zero_real v

  unfoldable pub plausibility_config_valid : PlausibilityConfig R → Bool
  plausibility_config_valid c =
      positive c.demand_yaw_rate_radps
      && positive c.demand_speed_mps
      && positive c.still_yaw_rate_radps
      && positive c.still_speed_mps
      && positive c.stall_time_s
      && r.lt c.still_yaw_rate_radps c.demand_yaw_rate_radps
      && r.lt c.still_speed_mps c.demand_speed_mps

  unfoldable pub demands_motion : Motion R → PlausibilityConfig R → Bool
  demands_motion m c =
      if is_stop m.mode
      then false
      else (uses_rate m.mode
          && r.finite m.yaw_rate_setpoint
          && r.le c.demand_yaw_rate_radps (r.abs m.yaw_rate_setpoint))
        || (r.finite m.speed_body_x && r.le c.demand_speed_mps (r.abs m.speed_body_x))

  unfoldable pub measurement_usable : VehicleIn R → Bool
  measurement_usable v =
      v.fresh
      && v.velocity_valid
      && v.attitude_valid
      && r.finite v.measured_speed_mps
      && r.finite v.measured_yaw_rate_radps

  unfoldable pub measured_still : VehicleIn R → PlausibilityConfig R → Bool
  measured_still v c =
      r.lt v.measured_speed_mps c.still_speed_mps
      && r.lt (r.abs v.measured_yaw_rate_radps) c.still_yaw_rate_radps

  abbrev pub interrupt : StallDetector R → StallDetector R
  interrupt d = record d { timing = false }

  abbrev pub clear : StallDetector R → StallDetector R
  clear d = record d { timing = false; latched = false }

  -- The end of `update`: the timer runs, and latches once it has run for too long.
  unfoldable pub time_stall : StallDetector R → R → PlausibilityConfig R → StallDetector R × Bool
  time_stall d now c =
      let since = if d.timing then d.since_s else now in
      if r.lt c.stall_time_s (r.sub now since)
      then (record { timing = false; since_s = since; latched = true }, true)
      else (record { timing = true; since_s = since; latched = d.latched }, d.latched)

  unfoldable pub update :
      StallDetector R → Motion R → VehicleIn R → R → PlausibilityConfig R → StallDetector R × Bool
  unfolding time_stall
  update d demand v now c =
      if not c.enabled || not (demands_motion demand c)
      then (clear d, false)
      else if d.latched
      then (d, true)
      else if not (measurement_usable v) || not (measured_still v c)
      then (record d { timing = false }, false)
      else time_stall d now c
