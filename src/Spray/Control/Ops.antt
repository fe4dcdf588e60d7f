-- ===== src/Spray/Control/Ops.antt =====
-- spray_controller.cpp without the tick: the inputs, the interlocks and what goes out. The texts of the
-- reasons go to the status only and are left out.
use dyx_3wd.Base.{ℕ, Bool, true, false, not, ◌&&◌, ◌||◌, Option, none, some, ◌==◌, if◌then◌else◌}
use dyx_3wd.Base.Int.{ℤ, pos}
use dyx_3wd.Base.Real.{Real, zero_real, max_real}
use dyx_3wd.Spray.Boundary.{PathModel, Decision}
use dyx_3wd.Spray.Gates.Ops.{
  tracking, pivoting, RppState, rpp_state, GateResult, ownership_status, note_state,
}
use dyx_3wd.Spray.Fsm.Types.{Command, commanded}
use dyx_3wd.Spray.Fsm.Ops.{note_event_reset, on_ack, tick as fsm_tick}
use dyx_3wd.Spray.Lease.{Lease, backend_actuator, backend_servo_pwm}
use dyx_3wd.Spray.Control.Types.{
  VehicleSnapshot, RtkSnapshot, ActuatorWire, ManualResult, done, not_enabled, not_armed,
  watchdog_not_ready, mission_active, MissionPhase, idle, completed, aborted, error, is_running,
  Settings, Controller, fresh_decision_state,
}

abbrev pub is_tracking : RppState → Bool
is_tracking tracking = true
is_tracking _ = false

abbrev pub is_pivoting : RppState → Bool
is_pivoting pivoting = true
is_pivoting _ = false

-- No mission owns the valve.
abbrev pub phase_locks : Option MissionPhase → Bool
phase_locks none = true
phase_locks (some idle) = false
phase_locks (some completed) = false
phase_locks (some aborted) = false
phase_locks (some error) = false
phase_locks (some _) = true

module _ {R : Type 0} ⦃r : Real R⦄ where
  abbrev pub manual_locked : Controller R → Bool
  manual_locked c = phase_locks c.mission

  abbrev pub last_tick_s : Option R → R
  last_tick_s none = zero_real
  last_tick_s (some t) = t

  unfoldable pub load_path : Controller R → Option (PathModel R) → Controller R
  load_path c model = record c {
    model = model;
    tracking_seen = false;
    heading_entry_hold = true;
    moved_on_mark = false;
    dstate = fresh_decision_state;
    xtrack_trip_s = none;
    last_decision = none;
    fsm = note_event_reset c.fsm (last_tick_s c.last_tick);
  }

  unfoldable pub note_vehicle : Controller R → VehicleSnapshot R → R → Controller R
  note_vehicle c v now = record c { vehicle = some (v, now) }

  unfoldable pub note_rtk : Controller R → RtkSnapshot R → R → Controller R
  note_rtk c snapshot now = record c { rtk = some (snapshot, now) }

  unfoldable pub note_rpp : Controller R → ℕ → ℕ → ℕ → R → R → Bool → R → Controller R
  note_rpp c state id run heading_error travel valid now =
      let changed = not (id == c.rpp.mission_id) || not (run == c.rpp.run_index) in
      let tracks = is_tracking (rpp_state state) && c.mission_running && id == c.mission_id in
      record c {
        heading_entry_hold = changed || c.heading_entry_hold;
        moved_on_mark = not changed && c.moved_on_mark;
        rpp = record {
          known = true;
          state = state;
          mission_id = id;
          run_index = run;
          heading_error_rad = heading_error;
          path_travel_m = travel;
          heading_evidence_valid = valid && r.finite heading_error && r.finite travel;
          recv_s = now;
        };
        tracking_seen = tracks || c.tracking_seen;
        pivot_gate = note_state c.pivot_gate (is_pivoting (rpp_state state)) now;
      }

  unfoldable pub set_mission : Controller R → MissionPhase → ℕ → Controller R
  set_mission c phase id =
      let lost = not (is_running phase) || not (id == c.mission_id) in
      record c {
        mission = some phase;
        manual_active = not (phase_locks (some phase)) && c.manual_active;
        tracking_seen = not lost && c.tracking_seen;
        heading_entry_hold = lost || c.heading_entry_hold;
        moved_on_mark = not lost && c.moved_on_mark;
        mission_running = is_running phase;
        mission_id = id;
      }

  unfoldable pub note_estop : Controller R → Bool → R → Controller R
  note_estop c asserted now = record c { estop = some (asserted, now) }

  unfoldable pub note_watchdog : Controller R → Bool → Bool → R → Controller R
  note_watchdog c alive authority now = record c { watchdog = some (alive && authority, now) }

  abbrev pub ownership : Settings R → Controller R → R → GateResult R
  ownership s c now = ownership_status (record {
    mission_running = c.mission_running;
    mission_id = c.mission_id;
    rpp_known = c.rpp.known;
    rpp_age_s = r.sub now c.rpp.recv_s;
    rpp_timeout_s = s.rpp_timeout_s;
    rpp_state = c.rpp.state;
    rpp_mission_id = c.rpp.mission_id;
  })

  -- The last vehicle snapshot is at most `limit` old, and has a property.
  abbrev pub vehicle_has : R → (VehicleSnapshot R → Bool) → Controller R → R → Bool
  vehicle_has limit has c now = elim c.vehicle [
    | none ↦ false
    | some (v, at) ↦ r.le (r.sub now at) (max_real zero_real limit) && has v
  ]

  abbrev pub vehicle_fresh : Settings R → Controller R → R → Bool
  vehicle_fresh s = vehicle_has s.pose_timeout_s (λ v. true)

  abbrev pub pose_fresh : Settings R → Controller R → R → Bool
  pose_fresh s = vehicle_has s.pose_timeout_s (λ v. v.position_valid && v.attitude_valid)

  abbrev pub velocity_fresh : Settings R → Controller R → R → Bool
  velocity_fresh s = vehicle_has s.velocity_timeout_s (λ v. v.velocity_valid)

  abbrev pub vehicle_armed : Settings R → Controller R → R → Bool
  vehicle_armed s = vehicle_has s.pose_timeout_s (λ v. v.armed)

  abbrev pub vehicle_offboard : Settings R → Controller R → R → Bool
  vehicle_offboard s = vehicle_has s.pose_timeout_s (λ v. v.offboard)

  abbrev pub estop_max_age_s : R
  estop_max_age_s = r.lit 1 2

  abbrev pub estop_clear : Controller R → R → Bool
  estop_clear c now = elim c.estop [
    | none ↦ false
    | some (asserted, at) ↦ not asserted && r.le (r.sub now at) estop_max_age_s
  ]

  abbrev pub watchdog_ok : Settings R → Controller R → R → Bool
  watchdog_ok s c now = not s.spray_watchdog_required || (elim c.watchdog [
    | none ↦ false
    | some (ready_to_close, at) ↦
        not (r.lt (max_real (r.lit 1 10) s.spray_watchdog_timeout_s) (r.sub now at))
        && ready_to_close
  ])

  -- The last snapshot says OFFBOARD, whatever its age.
  abbrev pub offboard_seen : Controller R → Bool
  offboard_seen c = elim c.vehicle [ none ↦ false | some (v, at) ↦ v.offboard ]

  unfoldable pub safety_allows_on : Settings R → Controller R → R → Bool
  safety_allows_on s c now =
      if not s.spray_enabled
      then false
      else if not (estop_clear c now)
      then false
      else if not (vehicle_armed s c now)
      then false
      else if not (watchdog_ok s c now)
      then false
      else if c.manual_active
      then not (manual_locked c)
      else if not (ownership s c now).ok
      then false
      else not (s.require_offboard && not (offboard_seen c))

  abbrev pub decision_safe : Option (Decision R) → Bool
  decision_safe none = false
  decision_safe (some d) = d.safety_ok

  unfoldable pub fsm_safety_ok : Settings R → Controller R → R → Bool
  fsm_safety_ok s c now =
      if not (estop_clear c now)
      then false
      else if not (vehicle_armed s c now)
      then false
      else if not (watchdog_ok s c now)
      then false
      else if c.manual_active && not (manual_locked c)
      then true
      else decision_safe c.last_decision

  abbrev pub refuse_manual : Controller R → ManualResult → Controller R × ManualResult
  refuse_manual c why = (record c { manual_active = false }, why)

  unfoldable pub set_manual : Settings R → Controller R → Bool → R → Controller R × ManualResult
  set_manual s c on now =
      if not on
      then refuse_manual c done
      else if not s.spray_enabled
      then refuse_manual c not_enabled
      else if not (vehicle_armed s c now)
      then refuse_manual c not_armed
      else if not (watchdog_ok s c now)
      then refuse_manual c watchdog_not_ready
      else if manual_locked c
      then refuse_manual c mission_active
      else (
        record c {
          manual_active = true;
          manual_deadline_s = r.add now (max_real (r.lit 1 2) s.manual_override_timeout_s);
        },
        done,
      )

  abbrev pub effective_desired : Controller R → Bool
  effective_desired c = if c.manual_active then true else c.desired_debounced

  unfoldable pub drive_fsm : Settings R → Controller R → R → Controller R × Option Command
  drive_fsm s c now =
      let step = fsm_tick c.fsm (effective_desired c) (fsm_safety_ok s c now) s.spray_enabled now in
      (record c { fsm = step.0 }, step.1)

  unfoldable pub controller_ack : Controller R → ℕ → Bool → R → Controller R × Option Command
  controller_ack c seq success now =
      let step = on_ack c.fsm seq success now in (record c { fsm = step.0 }, step.1)

  unfoldable pub shutdown : Controller R → R → Controller R × Option Command
  shutdown c now =
      let step = fsm_tick (note_event_reset c.fsm now) false false false now in
      (
        record c {
          desired_raw = false;
          desired_debounced = false;
          candidate = none;
          candidate_count = 0;
          manual_active = false;
          shut_down = true;
          fsm = step.0;
        },
        step.1,
      )

  abbrev pub backend_of : Settings R → ℤ
  backend_of s = if s.mavlink_backend then backend_actuator else backend_servo_pwm

  abbrev pub flow_or : R → Option R → R
  flow_or value none = value
  flow_or value (some flow) = flow

  unfoldable pub wire_for : Settings R → Controller R → Bool → ActuatorWire R
  wire_for s c on = record {
    backend = backend_of s;
    on = on;
    actuator_set_index = s.actuator_set_index;
    value = if on then flow_or s.on_value c.commanded_flow else s.off_value;
    servo_instance = s.servo_instance;
    pwm_us = if on then s.on_pwm_us else s.off_pwm_us;
  }

  unfoldable pub reassert_due : Settings R → Controller R → R → Bool
  reassert_due s c now =
      not c.shut_down && effective_desired c && commanded c.fsm.state && safety_allows_on s c now

  unfoldable pub lease : Settings R → Controller R → R → Lease R
  lease s c now = record {
    allow_on =
        not c.shut_down
        && effective_desired c
        && fsm_safety_ok s c now
        && s.spray_enabled
        && commanded c.fsm.state;
    command_seq = pos c.fsm.seq;
    backend = backend_of s;
    actuator_set_index = s.actuator_set_index;
    off_value = s.off_value;
    servo_instance = s.servo_instance;
    off_pwm_us = s.off_pwm_us;
  }
