-- ===== src/Spray/Control/Settings.antt =====
-- What the controller reads of its parameters: `num`, `flag`, `integer` and `str` of spray_params.hpp at
-- the places of the names in the table. `llround` is an argument.
use text.Mathlib.Text.{◌==◌ as text_eq}
use dyx_3wd.Base.{ℕ, Bool, not}
use dyx_3wd.Base.Int.{ℤ}
use dyx_3wd.Base.Real.{Real, zero_real}
use dyx_3wd.Spray.Params.Types.{ParamSet}
use dyx_3wd.Spray.Control.Types.{Settings}

module _ {R : Type 0} ⦃r : Real R⦄ where
  -- `num != 0.0`.
  abbrev pub flag : ParamSet R → ℕ → Bool
  flag p i = not (r.eq (p.num i) zero_real)

  unfoldable pub read_settings : (R → ℤ) → ParamSet R → Settings R
  read_settings round p = record {
    pose_timeout_s = p.num 35;
    velocity_timeout_s = p.num 36;
    rpp_timeout_s = p.num 48;
    segment_state_timeout_s = p.num 27;
    spray_watchdog_required = flag p 14;
    spray_watchdog_timeout_s = p.num 15;
    spray_enabled = flag p 47;
    require_offboard = flag p 12;
    spray_off_during_pivot = flag p 26;
    spray_require_rtk_fix = flag p 37;
    spray_min_fix_type = round (p.num 38);
    spray_max_hrms_m = p.num 42;
    spray_require_accuracy = flag p 41;
    gps_fix_timeout_s = p.num 39;
    gps_recover_hold_s = p.num 40;
    spray_heading_cut_deg = p.num 2;
    spray_entry_max_heading_deg = p.num 0;
    spray_entry_release_travel_m = p.num 1;
    manual_override_timeout_s = p.num 13;
    debounce_samples = round (p.num 10);
    min_spray_speed_mps = p.num 25;
    nozzle_forward_offset_m = p.num 16;
    nozzle_lateral_offset_m = p.num 17;
    solenoid_open_delay_s = p.num 18;
    solenoid_close_delay_s = p.num 19;
    on_overspray_margin_m = p.num 21;
    off_overspray_margin_m = p.num 22;
    max_xtrack_error_m = p.num 28;
    xtrack_trip_error_m = p.num 29;
    xtrack_gate_min_off_s = p.num 30;
    terminal_off_epsilon_m = p.num 23;
    terminal_off_speed_mps = p.num 24;
    projection_window_back_m = p.num 31;
    projection_window_fwd_m = p.num 32;
    projection_reacquire_dist_m = p.num 33;
    projection_direction_gate_deg = p.num 34;
    flow_modulation_enabled = flag p 6;
    min_flow_value = p.num 7;
    on_value = p.num 4;
    off_value = p.num 5;
    rated_marking_speed_mps = p.num 8;
    max_flow_slew_per_s = p.num 9;
    mavlink_backend = text_eq (p.str 43) "mavlink_actuator";
    actuator_set_index = round (p.num 3);
    servo_instance = round (p.num 44);
    on_pwm_us = round (p.num 46);
    off_pwm_us = round (p.num 45);
  }
