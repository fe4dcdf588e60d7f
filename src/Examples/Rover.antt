-- ===== src/Examples/Rover.antt =====
-- The rover of the motion guard's examples: numbers are thousandths.
use dyx_3wd.Base.{true, false, some, none}
use dyx_3wd.Base.Milli.{Milli, milli, milli_real}
use dyx_3wd.Guard.Types.{Command}
use dyx_3wd.Guard.Gates.{GateInputs, GateConfig, VehicleIn}
use dyx_3wd.Guard.Limits.{Limits, reset}
use dyx_3wd.Guard.Stall.{PlausibilityConfig, StallDetector}
use dyx_3wd.Guard.Core.{SequenceTracker, DecisionConfig, GuardCore}

abbrev pub limits : Limits Milli
limits = record {
  max_forward_speed_mps = milli 1000;
  max_reverse_speed_mps = milli 300;
  max_yaw_rate_radps = milli 800;
  profile_shaping_test_mode = false;
  max_accel_mps2 = milli 500;
  max_decel_mps2 = milli 500;
  max_yaw_accel_radps2 = none;
  max_jerk_mps3 = none;
}

abbrev pub plausibility : PlausibilityConfig Milli
plausibility = record {
  enabled = true;
  demand_yaw_rate_radps = milli 100;
  demand_speed_mps = milli 100;
  still_yaw_rate_radps = milli 20;
  still_speed_mps = milli 20;
  stall_time_s = milli 3000;
}

abbrev pub gate_config : GateConfig Milli
gate_config = record {
  rtk = record { min_fix_type = 6; max_hrms_m = milli 50 };
  require_gnss_yaw_fusion = true;
  require_rc_link = true;
}

abbrev pub config : DecisionConfig Milli
config = record {
  command_max_age_s = milli 200;
  gates = gate_config;
  limits = limits;
  plausibility = plausibility;
}

-- An armed rover in OFFBOARD that stands still.
abbrev pub vehicle : VehicleIn Milli
vehicle = record {
  fresh = true;
  arming_state = 2;
  nav_state = 14;
  failsafe = false;
  position_valid = true;
  velocity_valid = true;
  attitude_valid = true;
  global_reference_valid = true;
  preflight_checks_pass = false;
  rc_link_valid = true;
  rc_link_ok = true;
  measured_speed_mps = milli 5;
  measured_yaw_rate_radps = milli 0;
}

abbrev pub gates : GateInputs Milli
gates = record {
  estop = false;
  link = record { fresh = true; session_alive = true; handshake_ok = true; stale_topics_mask = 0 };
  vehicle = vehicle;
  rtk = record {
    fresh = true;
    fix_type = 6;
    corrections_fresh = true;
    horizontal_accuracy_m = milli 20;
  };
  est = record {
    fresh = true;
    flags_valid = true;
    gnss_yaw_fusion_intended = true;
    gnss_yaw_fault = false;
    reject_yaw = false;
    reject_hor_pos = false;
    reject_hor_vel = false;
    inertial_dead_reckoning = false;
  };
  mission = record { fresh = true; state = 3 };
}

-- A motion faster than the forward limit.
abbrev pub fast : Command Milli
fast = record {
  seq = 7;
  mode = 2;
  speed_body_x = milli 1500;
  yaw_setpoint = none;
  yaw_rate_setpoint = milli 200;
  valid = true;
  source_pose_sample_ns = 42;
}

abbrev pub halt : Command Milli
halt = record fast { mode = 0 }

abbrev pub tracker : SequenceTracker Milli
tracker = record { accept = 3; have = true; last = 7; count = 3; last_new_s = milli 9900 }

abbrev pub idle_stall : StallDetector Milli
idle_stall = record { timing = false; since_s = milli 0; latched = false }

abbrev pub core : GuardCore Milli
core = record { seq = tracker; cfg = config; cmd = some fast; lim = reset; stall = idle_stall }

abbrev pub now : Milli
now = milli 10000
