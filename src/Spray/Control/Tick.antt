-- ===== src/Spray/Control/Tick.antt =====
-- SprayController::tick, in the order of its parts.
use dyx_3wd.Base.{
  ℕ, suc, ◌^◌, Bool, true, false, not, ◌&&◌, ◌||◌, Option, none, some, ltb, leb, if◌then◌else◌,
}
use dyx_3wd.Base.Int.{pos, pos_part}
use dyx_3wd.Base.Real.{Real, zero_real, max_real}
use dyx_3wd.Spray.Boundary.{
  Geometry, Projection, DecisionParams, DecisionState, DecisionInput, Decision, make_decision,
}
use dyx_3wd.Spray.Gates.Ops.{
  stopping, RppState, rpp_state, RtkGateConfig, Sample, evaluate, active, said, GateResult,
  GateInputs, auto_safety_status,
}
use dyx_3wd.Spray.Fsm.Types.{Command, commanded}
use dyx_3wd.Spray.Control.Types.{Settings, Controller}
use dyx_3wd.Spray.Control.Flow.{FlowModulator, flow_modulator, reset, update}
use dyx_3wd.Spray.Control.Ops.{
  is_tracking, manual_locked, ownership, pose_fresh, velocity_fresh, vehicle_armed,
  vehicle_offboard, estop_clear, safety_allows_on, drive_fsm,
}

abbrev pub is_stopping : RppState → Bool
is_stopping stopping = true
is_stopping _ = false

abbrev pub max_ℕ : ℕ → ℕ → ℕ
max_ℕ a b = if ltb a b then b else a

abbrev pub is_some : {A : Type 0} → Option A → Bool
is_some none = false
is_some (some a) = true

module _ {R : Type 0} ⦃r : Real R⦄ (s : Settings R) where
  abbrev pub at_least_zero : R → R
  at_least_zero x = max_real zero_real x

  -- Manual spray expires, and the interlocks outrank it.
  unfoldable pub expire_manual : Controller R → R → Controller R
  expire_manual c now =
      let over =
        r.le c.manual_deadline_s now || manual_locked c || not (safety_allows_on s c now) in
      record c { manual_active = c.manual_active && not over }

  abbrev pub speed_of : Controller R → R → R
  speed_of c now =
      if velocity_fresh s c now
      then elim c.vehicle [ none ↦ zero_real | some (v, at) ↦ r.hypot v.vel_n_mps v.vel_e_mps ]
      else zero_real

  abbrev pub nozzle_of : Geometry R → Controller R → R → Option (R × R)
  nozzle_of g c now =
      if pose_fresh s c now
      then elim c.vehicle [
        | none ↦ none
        | some (v, at) ↦ some (
            g.nozzle_position_ned v.north_m v.east_m v.heading_rad s.nozzle_forward_offset_m
              s.nozzle_lateral_offset_m)
      ]
      else none

  abbrev pub yaw_of : Controller R → R → R
  yaw_of c now =
      if pose_fresh s c now
      then elim c.vehicle [ none ↦ zero_real | some (v, at) ↦ v.heading_rad ]
      else zero_real

  abbrev pub rtk_config : RtkGateConfig R
  rtk_config = record {
    require_rtk_fix = s.spray_require_rtk_fix;
    min_fix_type = s.spray_min_fix_type;
    max_h_acc_m = s.spray_max_hrms_m;
    require_accuracy = s.spray_require_accuracy;
    fix_timeout_s = s.gps_fix_timeout_s;
    recover_hold_s = s.gps_recover_hold_s;
  }

  abbrev pub rtk_sample : Controller R → R → Sample R
  rtk_sample c now = elim c.rtk [
    | none ↦ record {
      fix_type = pos 0;
      h_acc_m = none;
      sample_age_s = none;
      corrections_fresh = false;
    }
    | some (snapshot, at) ↦ record {
      fix_type = snapshot.fix_type;
      h_acc_m = snapshot.h_acc_m;
      sample_age_s = some (r.sub now at);
      corrections_fresh = snapshot.corrections_fresh;
    }
  ]

  unfoldable pub fresh_heading : Controller R → R → Bool
  fresh_heading c now =
      let age = r.sub now c.rpp.recv_s in
      c.rpp.heading_evidence_valid && r.le zero_real age && r.le age s.rpp_timeout_s

  -- The literal of pi is of 20 digits.
  abbrev pub heading_deg : Controller R → R → R
  heading_deg c now =
      if fresh_heading c now
      then r.mul (r.abs c.rpp.heading_error_rad)
          (r.div (r.lit 180 1) (r.lit 314159265358979323846 100000000000000000000))
      else zero_real

  unfoldable pub heading_evidence : Controller R → R → GateResult R
  heading_evidence c now = record {
    ok =
        fresh_heading c now
        && not (
            r.lt zero_real s.spray_heading_cut_deg
            && r.le s.spray_heading_cut_deg (heading_deg c now));
    reason = said (
        if not (fresh_heading c now)
        then "rpp heading evidence stale or unavailable"
        else "heading exceeds spray cut");
  }

  -- The state of the fix and of the pivot are looked at before.
  abbrev pub gate_inputs : Controller R → R → GateResult R → Bool → GateInputs R
  gate_inputs c now rtk turning = record {
    ownership = ownership s c now;
    heading_evidence = heading_evidence c now;
    armed = vehicle_armed s c now;
    offboard = vehicle_offboard s c now;
    path_loaded = is_some c.model;
    pose_fresh = pose_fresh s c now;
    velocity_fresh = velocity_fresh s c now;
    tracking_seen = c.tracking_seen;
    pivoting = turning;
    estop_clear = estop_clear c now;
    require_offboard = s.require_offboard;
    rtk = rtk;
  }

  abbrev pub inputs_at : Controller R → R → GateInputs R
  inputs_at c now =
      gate_inputs c now (evaluate c.rtk_gate rtk_config (rtk_sample c now) now).1
        (active c.pivot_gate s.spray_off_during_pivot s.segment_state_timeout_s now).1

  -- The controller with the gates that were looked at.
  abbrev pub look_gates : Controller R → R → Controller R
  look_gates c now = record c {
    rtk_gate = (evaluate c.rtk_gate rtk_config (rtk_sample c now) now).0;
    pivot_gate = (active c.pivot_gate s.spray_off_during_pivot s.segment_state_timeout_s now).0;
  }

  abbrev pub flow_enabled : Controller R → Bool
  flow_enabled c = s.flow_modulation_enabled && s.mavlink_backend && not c.manual_active

  abbrev pub seeded : Bool → Option (FlowModulator R) → FlowModulator R
  seeded rising none =
      reset
        (flow_modulator s.min_flow_value s.on_value s.rated_marking_speed_mps s.max_flow_slew_per_s)
  seeded rising (some f) = if rising then reset f else f

  unfoldable pub update_flow : Controller R → R → R → Controller R
  update_flow c speed dt =
      let on = commanded c.fsm.state in
      let f = seeded (on && not c.prev_commanded) c.flow in
      let moved = update f speed dt in
      record c {
        prev_commanded = on;
        flow = if not (flow_enabled c) then none else some (if on then moved else f);
        commanded_flow = if not (flow_enabled c) || not on then none else some moved.last;
      }

  abbrev pub since : Option R → R → R
  since none now = zero_real
  since (some t) now = at_least_zero (r.sub now t)

  abbrev pub flow_tick : Controller R → R → Controller R
  flow_tick c now =
      update_flow (record c { last_tick = some now }) (speed_of c now) (since c.last_tick now)

  abbrev pub decision_params : Geometry R → Controller R → DecisionParams R
  decision_params g c = record {
    solenoid_open_delay_s = at_least_zero s.solenoid_open_delay_s;
    solenoid_close_delay_s = at_least_zero s.solenoid_close_delay_s;
    debounce_delay_s =
        r.mul (r.sub (r.lit (max_ℕ 1 (pos_part s.debounce_samples)) 1) (r.lit 1 1)) c.tick_period_s;
    on_overspray_margin_m = at_least_zero s.on_overspray_margin_m;
    off_overspray_margin_m = at_least_zero s.off_overspray_margin_m;
    max_xtrack_error_m = at_least_zero s.max_xtrack_error_m;
    max_xtrack_from_mission = false;
    xtrack_trip_error_m = at_least_zero s.xtrack_trip_error_m;
    xtrack_gate_min_off_s = at_least_zero s.xtrack_gate_min_off_s;
    terminal_off_epsilon_m = at_least_zero s.terminal_off_epsilon_m;
    terminal_off_speed_mps = at_least_zero s.terminal_off_speed_mps;
    projection_window_back_m = s.projection_window_back_m;
    projection_window_fwd_m = s.projection_window_fwd_m;
    projection_reacquire_dist_m = s.projection_reacquire_dist_m;
    projection_direction_gate_cos = g.direction_gate_cos s.projection_direction_gate_deg;
  }

  abbrev pub decision_input : Geometry R → Controller R → R → GateResult R → DecisionInput R
  decision_input g c now safety = record {
    model = c.model;
    nozzle = nozzle_of g c now;
    speed_mps = speed_of c now;
    yaw_rad = yaw_of c now;
    safety_ok = safety.ok;
    safety_reason = safety.reason;
  }

  abbrev pub trip_age : Option R → R → R
  trip_age none now = r.lit (10 ^ 300) 1
  trip_age (some t) now = r.sub now t

  abbrev pub decision_state : Controller R → R → DecisionState R
  decision_state c now = record c.dstate { xtrack_tripped_elapsed_s = trip_age c.xtrack_trip_s now }

  abbrev pub decision_at : Geometry R → Controller R → R → GateResult R → Decision R
  decision_at g c now safety =
      make_decision g (decision_input g c now safety) (decision_params g c) (decision_state c now)

  -- The heading is good enough to enter the line, or enough of it is driven.
  abbrev pub entry_released : Controller R → R → Bool
  entry_released c now =
      r.le s.spray_entry_max_heading_deg zero_real
      || r.le (heading_deg c now) s.spray_entry_max_heading_deg
      || r.le s.spray_entry_release_travel_m c.rpp.path_travel_m

  -- The decision is held back, and the hold is released.
  unfoldable pub hold_entry : Controller R → Decision R → R → Controller R × Decision R
  hold_entry c d now =
      let asked =
        not c.manual_active && d.geometry_desired && d.safety_ok && c.heading_entry_hold in
      (
        record c {
          heading_entry_hold = not (asked && entry_released c now) && c.heading_entry_hold;
        },
        record d { desired = d.desired && not (asked && not (entry_released c now)) },
      )

  -- `moved_on_mark_` after it, and whether the speed is too low.
  unfoldable pub low_speed_cut : Controller R → Bool → R → Bool × Bool
  low_speed_cut c geometry_desired speed =
      let min_speed = at_least_zero s.min_spray_speed_mps in
      let st = rpp_state c.rpp.state in
      let tracks = c.rpp.known && is_tracking st in
      let moved = geometry_desired && tracks && c.moved_on_mark in
      if not (r.lt zero_real min_speed) || not geometry_desired
      then (moved, false)
      else if r.le min_speed speed
      then (tracks || moved, false)
      else if not c.rpp.known
      then (moved, false)
      else if is_stopping st
      then (moved, true)
      else (moved, tracks && moved)

  unfoldable pub cut_low_speed : Controller R → Decision R → R → Controller R × Decision R
  cut_low_speed c d now =
      let cut = low_speed_cut c d.geometry_desired (speed_of c now) in
      (
        record c { moved_on_mark = cut.0 },
        record d { desired = d.desired && not (cut.1 && not c.manual_active) },
      )

  abbrev pub carry_station : Option R → Option (Projection R) → Option R
  carry_station station none = station
  carry_station station (some pr) = some pr.s

  unfoldable pub keep_decision : Controller R → Decision R → R → Controller R
  keep_decision c d now = record c {
    dstate = record {
      prev_projection_s = carry_station c.dstate.prev_projection_s d.projection;
      xtrack_tripped = d.xtrack_tripped;
      xtrack_tripped_elapsed_s = trip_age c.xtrack_trip_s now;
    };
    xtrack_trip_s =
        if d.xtrack_tripped && not c.dstate.xtrack_tripped then some now else c.xtrack_trip_s;
    last_event = d.event;
    last_decision = some d;
  }

  -- How many samples in a row said the same, this one included.
  abbrev pub count_same : Option Bool → Bool → ℕ → ℕ
  count_same none raw n = 1
  count_same (some true) true n = suc n
  count_same (some false) false n = suc n
  count_same (some _) _ n = 1

  unfoldable pub debounce : Controller R → Bool → Controller R
  debounce c raw =
      let n = count_same c.candidate raw c.candidate_count in
      record c {
        desired_raw = raw;
        candidate = some raw;
        candidate_count = n;
        desired_debounced =
            if leb (max_ℕ 1 (pos_part s.debounce_samples)) n then raw else c.desired_debounced;
      }

  -- The controller after the decision, before the valve's machine.
  unfoldable pub decide : Geometry R → Controller R → R → Controller R
  decide g c now =
      let c1 = expire_manual c now in
      let safety = auto_safety_status (inputs_at c1 now) in
      let c2 = flow_tick (look_gates c1 now) now in
      let held = hold_entry c2 (decision_at g c2 now safety) now in
      let cut = cut_low_speed held.0 held.1 now in
      debounce (keep_decision cut.0 cut.1 now) cut.1.desired

  unfoldable pub tick : Geometry R → Controller R → R → Controller R × Option Command
  tick g c now = drive_fsm s (decide g c now) now
