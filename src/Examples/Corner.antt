-- ===== src/Examples/Corner.antt =====
-- The corner machine at a corner of 90 degrees, with numbers in thousandths.
use dyx_3wd.Base.{◌≡◌, ◌⊎◌, refl, true, false, none}
use dyx_3wd.Base.Milli.{Milli, milli, milli_real}
use dyx_3wd.Rpp.Corner.Stop.{
  StopTelemetry, StopPivotParams, StopConfirm, PivotWatchdog, satisfied, brake_speed,
}
use dyx_3wd.Rpp.Corner.Ops.{
  FsmState, tracking, brakes, CornerInput, CornerFsm, go, record_transition, step,
}
use dyx_3wd.Rpp.Corner.Release.{is_corner, IsStopped, turn_needs_stop}

abbrev params : StopPivotParams Milli
params = record {
  stop_speed_threshold = milli 20;
  stop_yaw_rate_threshold = milli 50;
  stop_dwell_s = milli 0;
  brake_velocity_cap = milli 80;
  align_speed_threshold = milli 20;
  align_settle_s = milli 200;
  heading_tolerance_rad = milli 35;
  timeout_heading_tol_rad = milli 52;
  release_max_rad = milli 52;
  spinup_margin_s = milli 1000;
  nominal_pivot_rate = milli 400;
  turn_timeout_s = milli 5000;
  pivot_timeout_max_s = milli 9000;
  corner_threshold_deg = milli 45000;
  corner_speed = milli 120;
  stale_vel_hold_s = milli 2000;
}

abbrev fresh_stop : StopConfirm
fresh_stop = record {
  entered = false;
  entered_ns = 0;
  settle = false;
  settle_ns = 0;
  stale = false;
  stale_ns = 0;
}

abbrev idle_watchdog : PivotWatchdog Milli
idle_watchdog = record { started = false; started_ns = 0; warned = false; angle = milli 0 }

abbrev machine : CornerFsm Milli
machine = record {
  params = params;
  stop = fresh_stop;
  pivot = idle_watchdog;
  stop_complete = false;
  settle_active = false;
  settle_since_ns = 0;
  state = tracking;
  log = λ _. none;
  log_head = 0;
  log_count = 0;
  seq = 0;
}

abbrev at_rest : StopTelemetry Milli
at_rest = record { vel_fresh = true; speed = milli 0; v_forward = milli 0; yaw_rate = milli 0 }

abbrev corner : CornerInput Milli
corner = record {
  now_ns = 1000;
  heading_err_rad = milli 1500;
  corner_deg = milli 90000;
  tel = at_rest;
  turn_angle_rad = none;
}

-- A rover in motion brakes against its motion.
brakes_first :
    let t : StopTelemetry Milli = record at_rest { speed = milli 500; v_forward = milli 500 } in
    ((step machine (record corner { tel = t })).1.action ≡ brakes)
    × (brake_speed t params ≡ milli_real.neg (milli 80))
unfolding step brake_speed satisfied go record_transition
brakes_first = (refl, refl)

turn_needs_stop_example :
    (is_corner machine corner ≡ true)
    × ((step machine corner).0.stop_complete ≡ true)
    × ((machine.stop_complete ≡ true) ⊎ IsStopped fresh_stop 1000 at_rest params)
unfolding step satisfied
turn_needs_stop_example = turn_needs_stop machine corner refl

-- The heading is inside its band; thousandths of a second are too coarse for a time in nanoseconds,
-- so that this machine asks for no settling time.
abbrev turned : CornerFsm Milli
turned = record machine {
  params = record params { align_settle_s = milli 0 };
  stop_complete = true;
  settle_active = true;
  settle_since_ns = 1000000000;
  state = FsmState.release_settle;
}

abbrev aligned : CornerInput Milli
aligned = record corner { now_ns = 2000000000; heading_err_rad = milli 10 }
