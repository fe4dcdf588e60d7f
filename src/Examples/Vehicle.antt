-- ===== src/Examples/Vehicle.antt =====
-- The vehicle's state at concrete inputs.
use dyx_3wd.Base.{◌≡◌, refl, true, false}
use dyx_3wd.Base.Milli.{Milli, milli, milli_real}
use dyx_3wd.Link.Vehicle.Ops.{
  Quaternion, LocalPositionSample, StatusSample, Freshness, YawRateEstimator, assemble, estimator,
  update, rate_of, nothing, add_position, add_attitude, add_status, next_rate, new_rate, yaw_of,
}
use dyx_3wd.Link.Vehicle.Valid.{Sound, assemble-Sound}

abbrev sample : LocalPositionSample Milli
sample = record {
  xy_valid = true;
  v_xy_valid = true;
  z_valid = true;
  v_z_valid = true;
  x = milli 1500;
  y = milli 20;
  z = milli 300;
  vx = milli 500;
  vy = milli 0;
  vz = milli 0;
  heading = milli 100;
  heading_good_for_control = true;
  xy_reset_counter = 2;
  delta_x = milli 0;
  delta_y = milli 0;
  xy_global = true;
  ref_lat = milli 13000;
  ref_lon = milli 80000;
  ref_alt = milli 12000;
  timestamp_sample_us = 1000000;
}

abbrev level : Quaternion Milli
level = record { w = milli 1000; x = milli 0; y = milli 0; z = milli 0 }

abbrev status : StatusSample
status = record {
  arming_state = 2;
  nav_state = 14;
  failsafe = false;
  pre_flight_checks_pass = true;
}

abbrev all_fresh : Freshness
all_fresh = record { local_position = true; attitude = true; status = true }

assemble-Sound_example : Sound all_fresh (assemble sample level status all_fresh)
assemble-Sound_example = assemble-Sound sample level status all_fresh

attitude_is_valid : (assemble sample level status all_fresh).attitude_valid ≡ true
unfolding assemble nothing add_position add_attitude add_status
attitude_is_valid = refl

abbrev turned : YawRateEstimator Milli
turned =
    update (λ a b. a) (λ a b. a)
      (update (λ a b. a) (λ a b. a) (estimator (milli 0)) level 1000000 0) level 1100000 0

-- A second sample of the same attitude gives a rate.
turned_has_rate : turned.have_rate ≡ true
unfolding update estimator next_rate new_rate yaw_of
turned_has_rate = refl

no_rate_at_first :
    rate_of (update (λ a b. a) (λ a b. a) (estimator (milli 0)) level 1000000 0) ≡ milli 0
unfolding update estimator next_rate new_rate yaw_of
no_rate_at_first = refl
