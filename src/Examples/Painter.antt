-- ===== src/Examples/Painter.antt =====
-- The spray controller at concrete inputs.
use dyx_3wd.Base.{◌≡◌, refl, true, false, some, List, [], ◌∷◌}
use dyx_3wd.Base.Int.{pos}
use dyx_3wd.Base.Trace.{after}
use dyx_3wd.Base.Milli.{Milli, milli, milli_real}
use dyx_3wd.Spray.Boundary.{
  Geometry, PathModel, make_decision, apply_mark_boundary_lead, find_boundary, last_of, trips,
}
use dyx_3wd.Spray.Fsm.Ops.{
  tick as fsm_tick, check_pending_timeout, edges, drive, dispatch_on, enabled_edge, normal_tick,
  safety_edge,
}
use dyx_3wd.Spray.Gates.Ops.{
  auto_safety_status, active, evaluate, evaluate_rtk_quality, judge_fix, judge_accuracy, new_gate,
  ownership_status,
}
use dyx_3wd.Spray.Fsm.Types.{Params, off_confirmed, initial}
use dyx_3wd.Spray.Fsm.Safety.{opens}
use dyx_3wd.Spray.Params.Ops.{param_set, descriptor}
use dyx_3wd.Spray.Params.Table.{table}
use dyx_3wd.Spray.Control.Settings.{read_settings}
use dyx_3wd.Spray.Control.Types.{Settings, Controller, running, new_controller}
use dyx_3wd.Spray.Control.Ops.{lease, reassert_due, drive_fsm, fsm_safety_ok, safety_allows_on}
use dyx_3wd.Spray.Control.Tick.{
  tick, decide, debounce, keep_decision, cut_low_speed, hold_entry, update_flow, expire_manual,
  fresh_heading, heading_evidence, low_speed_cut,
}
use dyx_3wd.Spray.Control.Opens.{Interlocked, tick-Interlocked}
use dyx_3wd.Spray.Control.Latches.{
  Call, ticks, sees_mission, sees_rpp, shuts_down, call, Owned, history-Owned, shutdown_revokes,
}

-- A path along the north on which every point is marked.
abbrev geometry : Geometry Milli
geometry = record {
  project_onto_path = λ m n e cfg. some (record {
    segment_index = pos 0;
    t = milli 500;
    proj_n = n;
    proj_e = milli 0;
    s = n;
    xtrack_error_m = e;
    current_flag = true;
  });
  nozzle_position_ned = λ n e yaw forward lateral. (n, e);
  direction_gate_cos = λ a. milli 0;
}

abbrev path : PathModel Milli
path = record {
  north = milli 0 ∷ milli 10000 ∷ [];
  east = milli 0 ∷ milli 0 ∷ [];
  flags = true ∷ true ∷ [];
  run_ids = 0 ∷ 0 ∷ [];
  cumulative_s = milli 0 ∷ milli 10000 ∷ [];
  boundaries = [];
}

abbrev fsm_params : Params Milli
fsm_params = record {
  backoff_base_s = milli 500;
  backoff_max_s = milli 8000;
  ack_timeout_s = milli 1000;
}

abbrev settings : Settings Milli
settings = record {
  pose_timeout_s = milli 500;
  velocity_timeout_s = milli 500;
  rpp_timeout_s = milli 500;
  segment_state_timeout_s = milli 1000;
  spray_watchdog_required = true;
  spray_watchdog_timeout_s = milli 1000;
  spray_enabled = true;
  require_offboard = true;
  spray_off_during_pivot = true;
  spray_require_rtk_fix = false;
  spray_min_fix_type = pos 6;
  spray_max_hrms_m = milli 50;
  spray_require_accuracy = false;
  gps_fix_timeout_s = milli 1000;
  gps_recover_hold_s = milli 0;
  spray_heading_cut_deg = milli 0;
  spray_entry_max_heading_deg = milli 0;
  spray_entry_release_travel_m = milli 0;
  manual_override_timeout_s = milli 10000;
  debounce_samples = pos 1;
  min_spray_speed_mps = milli 0;
  nozzle_forward_offset_m = milli 0;
  nozzle_lateral_offset_m = milli 0;
  solenoid_open_delay_s = milli 0;
  solenoid_close_delay_s = milli 0;
  on_overspray_margin_m = milli 0;
  off_overspray_margin_m = milli 0;
  max_xtrack_error_m = milli 100;
  xtrack_trip_error_m = milli 150;
  xtrack_gate_min_off_s = milli 1000;
  terminal_off_epsilon_m = milli 20;
  terminal_off_speed_mps = milli 50;
  projection_window_back_m = milli 0;
  projection_window_fwd_m = milli 0;
  projection_reacquire_dist_m = milli 0;
  projection_direction_gate_deg = milli 0;
  flow_modulation_enabled = false;
  min_flow_value = milli 200;
  on_value = milli 1000;
  off_value = milli 0;
  rated_marking_speed_mps = milli 500;
  max_flow_slew_per_s = milli 0;
  mavlink_backend = true;
  actuator_set_index = pos 1;
  servo_instance = pos 1;
  on_pwm_us = pos 1900;
  off_pwm_us = pos 1100;
}

abbrev fresh : Controller Milli
fresh = new_controller fsm_params (milli 50)

-- The valve is confirmed closed, the mission runs and all evidence is of the time 10.
abbrev driving : Controller Milli
driving = record fresh {
  fsm = record fresh.fsm { state = off_confirmed };
  model = some path;
  vehicle = some (
    record {
      armed = true;
      offboard = true;
      position_valid = true;
      attitude_valid = true;
      velocity_valid = true;
      north_m = milli 2000;
      east_m = milli 10;
      heading_rad = milli 0;
      vel_n_mps = milli 500;
      vel_e_mps = milli 0;
    },
    milli 10000,
  );
  rtk = some (
    record { fix_type = pos 6; h_acc_m = some (milli 20); corrections_fresh = true },
    milli 10000,
  );
  tracking_seen = true;
  estop = some (false, milli 10000);
  watchdog = some (true, milli 10000);
  mission_running = true;
  mission = some running;
  mission_id = 4;
  rpp = record {
    known = true;
    state = 1;
    mission_id = 4;
    run_index = 0;
    heading_error_rad = milli 10;
    path_travel_m = milli 2000;
    heading_evidence_valid = true;
    recv_s = milli 10000;
  };
}

driving_opens : opens (tick settings geometry driving (milli 10050)).1 ≡ true
unfolding tick fsm_tick drive_fsm check_pending_timeout edges decide debounce keep_decision
    cut_low_speed hold_entry update_flow expire_manual new_controller initial drive fsm_safety_ok
    make_decision auto_safety_status apply_mark_boundary_lead find_boundary last_of trips
    safety_allows_on fresh_heading heading_evidence low_speed_cut dispatch_on enabled_edge
    normal_tick safety_edge active evaluate evaluate_rtk_quality judge_fix judge_accuracy new_gate
    ownership_status
driving_opens = refl

tick-Interlocked_example : Interlocked settings geometry driving (milli 10050)
tick-Interlocked_example = tick-Interlocked settings geometry driving (milli 10050) driving_opens

abbrev calls : List (Call Milli)
calls = sees_rpp 1 4 0 (milli 10) (milli 2000) true (milli 10200) ∷ sees_mission running 4 ∷ []

history-Owned_example : Owned geometry (after (call geometry) fresh calls)
history-Owned_example = history-Owned geometry fsm_params (milli 50) calls

shutdown_revokes_example :
    ((lease settings
        (after
          (call geometry)
          (call geometry (after (call geometry) driving calls) (shuts_down (milli 10300)))
          (ticks settings (milli 10350) ∷ []))
        (milli 10350)).allow_on
      ≡ false)
    × (reassert_due settings
          (after
            (call geometry)
            (call geometry (after (call geometry) driving calls) (shuts_down (milli 10300)))
            (ticks settings (milli 10350) ∷ []))
          (milli 10350)
        ≡ false)
shutdown_revokes_example =
    shutdown_revokes geometry driving calls (ticks settings (milli 10350) ∷ []) (milli 10300)
      settings (milli 10350)

-- The default of the watchdog is that it is required.
default_watchdog_required :
    (read_settings {R = Milli} (λ x. pos 3) param_set).spray_watchdog_required ≡ true
unfolding read_settings param_set descriptor table
default_watchdog_required = refl
