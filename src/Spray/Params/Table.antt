-- ===== src/Spray/Params/Table.antt =====
-- spray_param_table.inc: the descriptors of the spray parameters, in the order of their indices.
use Prim.Native.String.{String}
use dyx_3wd.Base.{Bool, true, false, none, some, List, [], ◌∷◌}
use dyx_3wd.Base.Real.{Real}
use dyx_3wd.Spray.Params.Types.{
  Kind, bool_kind, int_kind, float_kind, string_kind, ParamClass, idle_only, restart, Descriptor,
}

module _ {R : Type 0} ⦃r : Real R⦄ where
  abbrev float_at_least_zero : String → ParamClass → R → Bool → Descriptor R
  float_at_least_zero name class dflt positive = record {
    name = name;
    kind = float_kind;
    class = class;
    dflt = dflt;
    sdflt = "";
    lo = some (r.lit 0 1);
    hi = none;
    positive = positive;
    nonempty = false;
    allowed = [];
  }

  abbrev between : String → Kind → ParamClass → R → R → R → Descriptor R
  between name kind class dflt lo hi = record {
    name = name;
    kind = kind;
    class = class;
    dflt = dflt;
    sdflt = "";
    lo = some lo;
    hi = some hi;
    positive = false;
    nonempty = false;
    allowed = [];
  }

  abbrev flag : String → ParamClass → R → Descriptor R
  flag name class dflt = record {
    name = name;
    kind = bool_kind;
    class = class;
    dflt = dflt;
    sdflt = "";
    lo = none;
    hi = none;
    positive = false;
    nonempty = false;
    allowed = [];
  }

  abbrev text : String → ParamClass → String → List String → Descriptor R
  text name class sdflt allowed = record {
    name = name;
    kind = string_kind;
    class = class;
    dflt = r.lit 0 1;
    sdflt = sdflt;
    lo = none;
    hi = none;
    positive = false;
    nonempty = true;
    allowed = allowed;
  }

  unfoldable pub table : List (Descriptor R)
  table =
      float_at_least_zero "spray_entry_max_heading_deg" idle_only (r.lit 5 1) false
      ∷ float_at_least_zero "spray_entry_release_travel_m" idle_only (r.lit 3 5) false
      ∷ float_at_least_zero "spray_heading_cut_deg" idle_only (r.lit 30 1) false
      ∷ between "actuator_set_index" int_kind idle_only (r.lit 1 1) (r.lit 1 1) (r.lit 6 1)
      ∷ between "on_value" float_kind idle_only (r.lit 1 1) (r.neg (r.lit 1 1)) (r.lit 1 1)
      ∷ between "off_value" float_kind idle_only (r.neg (r.lit 1 1)) (r.neg (r.lit 1 1)) (r.lit 1 1)
      ∷ flag "flow_modulation_enabled" idle_only (r.lit 0 1)
      ∷ between "min_flow_value" float_kind idle_only (r.lit 1 5) (r.neg (r.lit 1 1)) (r.lit 1 1)
      ∷ float_at_least_zero "rated_marking_speed_mps" idle_only (r.lit 7 20) true
      ∷ float_at_least_zero "max_flow_slew_per_s" idle_only (r.lit 2 1) false
      ∷ between "debounce_samples" int_kind idle_only (r.lit 3 1) (r.lit 0 1) (r.lit 100 1)
      ∷ float_at_least_zero "reassert_hz" idle_only (r.lit 2 1) true
      ∷ flag "require_offboard" idle_only (r.lit 1 1)
      ∷ float_at_least_zero "manual_override_timeout_s" idle_only (r.lit 10 1) true
      ∷ flag "spray_watchdog_required" restart (r.lit 1 1)
      ∷ float_at_least_zero "spray_watchdog_timeout_s" restart (r.lit 1 1) true
      ∷ float_at_least_zero "nozzle_forward_offset_m" idle_only (r.lit 0 1) false
      ∷ float_at_least_zero "nozzle_lateral_offset_m" idle_only (r.lit 0 1) false
      ∷ float_at_least_zero "solenoid_open_delay_s" idle_only (r.lit 9 50) false
      ∷ float_at_least_zero "solenoid_close_delay_s" idle_only (r.lit 1 20) false
      ∷ float_at_least_zero "anticipatory_margin_m" idle_only (r.lit 1 50) false
      ∷ float_at_least_zero "on_overspray_margin_m" idle_only (r.lit 1 50) false
      ∷ float_at_least_zero "off_overspray_margin_m" idle_only (r.lit 0 1) false
      ∷ float_at_least_zero "terminal_off_epsilon_m" idle_only (r.lit 1 20) false
      ∷ float_at_least_zero "terminal_off_speed_mps" idle_only (r.lit 1 20) false
      ∷ float_at_least_zero "min_spray_speed_mps" idle_only (r.lit 1 20) false
      ∷ flag "spray_off_during_pivot" idle_only (r.lit 1 1)
      ∷ float_at_least_zero "segment_state_timeout_s" idle_only (r.lit 1 1) false
      ∷ float_at_least_zero "max_xtrack_error_m" idle_only (r.lit 1 20) false
      ∷ float_at_least_zero "xtrack_trip_error_m" idle_only (r.lit 2 25) false
      ∷ float_at_least_zero "xtrack_gate_min_off_s" idle_only (r.lit 1 5) false
      ∷ float_at_least_zero "projection_window_back_m" idle_only (r.lit 1 2) false
      ∷ float_at_least_zero "projection_window_fwd_m" idle_only (r.lit 2 1) false
      ∷ float_at_least_zero "projection_reacquire_dist_m" idle_only (r.lit 1 1) false
      ∷ float_at_least_zero "projection_direction_gate_deg" idle_only (r.lit 0 1) false
      ∷ float_at_least_zero "pose_timeout_s" idle_only (r.lit 1 2) true
      ∷ float_at_least_zero "velocity_timeout_s" idle_only (r.lit 1 2) true
      ∷ flag "spray_require_rtk_fix" idle_only (r.lit 1 1)
      ∷ between "spray_min_fix_type" int_kind idle_only (r.lit 6 1) (r.lit 5 1) (r.lit 6 1)
      ∷ float_at_least_zero "gps_fix_timeout_s" idle_only (r.lit 1 2) true
      ∷ float_at_least_zero "gps_recover_hold_s" idle_only (r.lit 1 1) false
      ∷ flag "spray_require_accuracy" idle_only (r.lit 1 1)
      ∷ float_at_least_zero "spray_max_hrms_m" idle_only (r.lit 1 10) false
      ∷ text "actuator_backend" restart "mavlink_actuator"
          ("mavlink_actuator" ∷ "mavlink_servo_pwm" ∷ [])
      ∷ between "servo_instance" int_kind restart (r.lit 1 1) (r.lit 1 1) (r.lit 16 1)
      ∷ between "off_pwm_us" int_kind idle_only (r.lit 0 1) (r.lit 0 1) (r.lit 2200 1)
      ∷ between "on_pwm_us" int_kind idle_only (r.lit 1800 1) (r.lit 0 1) (r.lit 2200 1)
      ∷ flag "spray_enabled" idle_only (r.lit 1 1)
      ∷ float_at_least_zero "rpp_timeout_s" idle_only (r.lit 1 2) true
      ∷ []
