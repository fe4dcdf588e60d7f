-- ===== src/Link/Vehicle/Valid.antt =====
-- What a validity flag of the vehicle's state stands for.
use dyx_3wd.Base.{◌≡◌, true, false, ◌&&◌, arith}
use dyx_3wd.Base.Real.{Real}
use dyx_3wd.Link.Vehicle.Ops.{
  Quaternion, LocalPositionSample, StatusSample, Freshness, VehicleState, finite_q, nothing,
  add_position, add_attitude, add_status, assemble,
}

module _ {R : Type 0} ⦃r : Real R⦄ where
  -- A flag that is set comes with finite values of a fresh source.
  pub record Sound (fresh : Freshness) (o : VehicleState R) : Type 0 where
    pub position :
        o.position_valid ≡ true
        → (fresh.local_position && r.finite o.north && r.finite o.east) ≡ true
    pub velocity :
        o.velocity_valid ≡ true → (fresh.local_position && r.finite o.vn && r.finite o.ve) ≡ true
    pub vertical : o.vertical_position_valid ≡ true → r.finite o.down ≡ true
    pub vertical_speed : o.vertical_velocity_valid ≡ true → r.finite o.vd ≡ true
    pub reference :
        o.global_reference_valid ≡ true
        → (r.finite o.ref_lat && r.finite o.ref_lon && r.finite o.ref_alt) ≡ true
    pub attitude :
        o.attitude_valid ≡ true
        → (fresh.attitude && fresh.local_position && finite_q o.q && r.finite o.heading) ≡ true
    pub stale_status : fresh.status ≡ false → o.preflight_checks_pass ≡ false

  -- Whatever the samples hold, a validity flag of the assembled vehicle state is set only with finite
  -- values, those of position, velocity and attitude only from a fresh source, and without a fresh
  -- status the checks before flight do not pass.
  pub assemble-Sound :
      (lp : LocalPositionSample R) (q : Quaternion R) (st : StatusSample) (fresh : Freshness)
      → Sound fresh (assemble lp q st fresh)
  unfolding assemble nothing add_position add_attitude add_status
  assemble-Sound lp q st fresh = record {
    position = ground arith;
    velocity = ground arith;
    vertical = ground arith;
    vertical_speed = ground arith;
    reference = ground arith;
    attitude = ground arith;
    stale_status = ground arith;
  }
