-- ===== src/Spray/Control/Types.antt =====
-- spray_controller.hpp: snapshots, answers and the fields of the controller. A snapshot that was never
-- received is `none`, as are a time and a decision that the code keeps in an optional.
use dyx_3wd.Base.{ℕ, ◌^◌, Bool, true, false, not, ◌||◌, Option, none, some, if◌then◌else◌}
use dyx_3wd.Base.Int.{ℤ}
use dyx_3wd.Base.Real.{Real, zero_real}
use dyx_3wd.Spray.Boundary.{PathModel, DecisionState, Decision, LeadEvent, no_event}
use dyx_3wd.Spray.Gates.Ops.{RtkGate, PivotGate, new_gate}
use dyx_3wd.Spray.Fsm.Types.{SprayFsm, Params, initial}
use dyx_3wd.Spray.Control.Flow.{FlowModulator}

pub record VehicleSnapshot (R : Type 0) : Type 0 where
  pub armed : Bool
  pub offboard : Bool
  pub position_valid : Bool
  pub attitude_valid : Bool
  pub velocity_valid : Bool
  pub north_m : R
  pub east_m : R
  pub heading_rad : R
  pub vel_n_mps : R
  pub vel_e_mps : R

pub record RtkSnapshot (R : Type 0) : Type 0 where
  pub fix_type : ℤ
  pub h_acc_m : Option R
  pub corrections_fresh : Bool

pub record ActuatorWire (R : Type 0) : Type 0 where
  pub backend : ℤ
  pub on : Bool
  pub actuator_set_index : ℤ
  pub value : R
  pub servo_instance : ℤ
  pub pwm_us : ℤ

pub data ManualResult : Type 0 where
  done not_enabled not_armed watchdog_not_ready mission_active : ManualResult

-- MissionState.state; another value is `unknown_phase`.
pub data MissionPhase : Type 0 where
  idle loading ready running paused completed aborted error unknown_phase : MissionPhase

abbrev pub is_running : MissionPhase → Bool
is_running running = true
is_running _ = false

-- What the parameter set answers for the names that the controller reads.
pub record Settings (R : Type 0) : Type 0 where
  pub pose_timeout_s : R
  pub velocity_timeout_s : R
  pub rpp_timeout_s : R
  pub segment_state_timeout_s : R
  pub spray_watchdog_required : Bool
  pub spray_watchdog_timeout_s : R
  pub spray_enabled : Bool
  pub require_offboard : Bool
  pub spray_off_during_pivot : Bool
  pub spray_require_rtk_fix : Bool
  pub spray_min_fix_type : ℤ
  pub spray_max_hrms_m : R
  pub spray_require_accuracy : Bool
  pub gps_fix_timeout_s : R
  pub gps_recover_hold_s : R
  pub spray_heading_cut_deg : R
  pub spray_entry_max_heading_deg : R
  pub spray_entry_release_travel_m : R
  pub manual_override_timeout_s : R
  pub debounce_samples : ℤ
  pub min_spray_speed_mps : R
  pub nozzle_forward_offset_m : R
  pub nozzle_lateral_offset_m : R
  pub solenoid_open_delay_s : R
  pub solenoid_close_delay_s : R
  pub on_overspray_margin_m : R
  pub off_overspray_margin_m : R
  pub max_xtrack_error_m : R
  pub xtrack_trip_error_m : R
  pub xtrack_gate_min_off_s : R
  pub terminal_off_epsilon_m : R
  pub terminal_off_speed_mps : R
  pub projection_window_back_m : R
  pub projection_window_fwd_m : R
  pub projection_reacquire_dist_m : R
  pub projection_direction_gate_deg : R
  pub flow_modulation_enabled : Bool
  pub min_flow_value : R
  pub on_value : R
  pub off_value : R
  pub rated_marking_speed_mps : R
  pub max_flow_slew_per_s : R
  pub mavlink_backend : Bool
  pub actuator_set_index : ℤ
  pub servo_instance : ℤ
  pub on_pwm_us : ℤ
  pub off_pwm_us : ℤ

-- The last status of the path follower.
pub record RppEvidence (R : Type 0) : Type 0 where
  pub known : Bool
  pub state : ℕ
  pub mission_id : ℕ
  pub run_index : ℕ
  pub heading_error_rad : R
  pub path_travel_m : R
  pub heading_evidence_valid : Bool
  pub recv_s : R

pub record Controller (R : Type 0) : Type 0 where
  pub tick_period_s : R
  pub fsm : SprayFsm R
  pub flow : Option (FlowModulator R)
  pub prev_commanded : Bool
  pub commanded_flow : Option R
  pub model : Option (PathModel R)
  pub dstate : DecisionState R
  pub xtrack_trip_s : Option R
  pub last_decision : Option (Decision R)
  pub last_event : LeadEvent
  pub vehicle : Option (VehicleSnapshot R × R)
  pub rtk : Option (RtkSnapshot R × R)
  pub rtk_gate : RtkGate R
  pub pivot_gate : PivotGate R
  pub tracking_seen : Bool
  -- `none` while no E-stop state is known; whether it is asserted, and when it came.
  pub estop : Option (Bool × R)
  -- Whether the watchdog has confirmed the authority to close, and when it said so.
  pub watchdog : Option (Bool × R)
  pub mission_running : Bool
  pub mission : Option MissionPhase
  pub mission_id : ℕ
  pub rpp : RppEvidence R
  pub heading_entry_hold : Bool
  pub moved_on_mark : Bool
  pub manual_active : Bool
  pub manual_deadline_s : R
  pub desired_raw : Bool
  pub desired_debounced : Bool
  pub candidate : Option Bool
  pub candidate_count : ℕ
  pub shut_down : Bool
  pub last_tick : Option R

module _ {R : Type 0} ⦃r : Real R⦄ where
  abbrev pub fresh_decision_state : DecisionState R
  fresh_decision_state = record {
    prev_projection_s = none;
    xtrack_tripped = false;
    xtrack_tripped_elapsed_s = r.lit (10 ^ 300) 1;
  }

  abbrev pub no_evidence : RppEvidence R
  no_evidence = record {
    known = false;
    state = 0;
    mission_id = 0;
    run_index = 0;
    heading_error_rad = zero_real;
    path_travel_m = zero_real;
    heading_evidence_valid = false;
    recv_s = zero_real;
  }

  unfoldable pub new_controller : Params R → R → Controller R
  new_controller params period = record {
    tick_period_s = period;
    fsm = initial params;
    flow = none;
    prev_commanded = false;
    commanded_flow = none;
    model = none;
    dstate = fresh_decision_state;
    xtrack_trip_s = none;
    last_decision = none;
    last_event = no_event;
    vehicle = none;
    rtk = none;
    rtk_gate = new_gate;
    pivot_gate = record { have_state = false; pivoting = false; recv_s = zero_real };
    tracking_seen = false;
    estop = none;
    watchdog = none;
    mission_running = false;
    mission = none;
    mission_id = 0;
    rpp = no_evidence;
    heading_entry_hold = true;
    moved_on_mark = false;
    manual_active = false;
    manual_deadline_s = zero_real;
    desired_raw = false;
    desired_debounced = false;
    candidate = none;
    candidate_count = 0;
    shut_down = false;
    last_tick = none;
  }

  -- The constructor; the check of the period throws.
  unfoldable pub controller : Params R → R → Option (Controller R)
  controller params period =
      if not (r.finite period) || r.le period zero_real
      then none
      else some (new_controller params period)
