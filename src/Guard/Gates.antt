-- ===== src/Guard/Gates.antt =====
-- mission_gate.hpp and .cpp, rtk_gate.hpp: the safety gates, in one priority order.
use dyx_3wd.Base.{ℕ, Bool, true, false, not, ◌&&◌, ◌||◌, if◌then◌else◌, ◌==◌, ltb}
use dyx_3wd.Base.Real.{Real, zero_real}
use dyx_3wd.Guard.Types.{
  Reason, ok, estop, rtk_gate, px4_link_unhealthy, heading_unhealthy, arming_gate,
  estimator_unhealthy, global_reference_invalid, is_ok,
}

pub record RtkIn (R : Type 0) : Type 0 where
  pub fresh : Bool
  pub fix_type : ℕ
  pub corrections_fresh : Bool
  pub horizontal_accuracy_m : R

pub record RtkConfig (R : Type 0) : Type 0 where
  pub min_fix_type : ℕ
  pub max_hrms_m : R

pub record MissionIn : Type 0 where
  pub fresh : Bool
  pub state : ℕ

pub record Px4LinkIn : Type 0 where
  pub fresh : Bool
  pub session_alive : Bool
  pub handshake_ok : Bool
  pub stale_topics_mask : ℕ

pub record VehicleIn (R : Type 0) : Type 0 where
  pub fresh : Bool
  pub arming_state : ℕ
  pub nav_state : ℕ
  pub failsafe : Bool
  pub position_valid : Bool
  pub velocity_valid : Bool
  pub attitude_valid : Bool
  pub global_reference_valid : Bool
  pub preflight_checks_pass : Bool
  pub rc_link_valid : Bool
  pub rc_link_ok : Bool
  pub measured_speed_mps : R
  pub measured_yaw_rate_radps : R

pub record EstimatorIn : Type 0 where
  pub fresh : Bool
  pub flags_valid : Bool
  pub gnss_yaw_fusion_intended : Bool
  pub gnss_yaw_fault : Bool
  pub reject_yaw : Bool
  pub reject_hor_pos : Bool
  pub reject_hor_vel : Bool
  pub inertial_dead_reckoning : Bool

pub record GateInputs (R : Type 0) : Type 0 where
  pub estop : Bool
  pub link : Px4LinkIn
  pub vehicle : VehicleIn R
  pub rtk : RtkIn R
  pub est : EstimatorIn
  pub mission : MissionIn

pub record GateConfig (R : Type 0) : Type 0 where
  pub rtk : RtkConfig R
  pub require_gnss_yaw_fusion : Bool
  pub require_rc_link : Bool

abbrev pub state_armed : ℕ
state_armed = 2

abbrev pub nav_offboard : ℕ
nav_offboard = 14

abbrev pub mission_state_running : ℕ
mission_state_running = 3

unfoldable pub mission_running : MissionIn → Bool
mission_running m = m.fresh && m.state == mission_state_running

-- The conditions under which a gate refuses, by themselves.
unfoldable pub link_refused : Px4LinkIn → Bool
link_refused l =
    not l.fresh || not l.session_alive || not l.handshake_ok || not (l.stale_topics_mask == 0)

module _ {R : Type 0} ⦃r : Real R⦄ where
  unfoldable pub rtk_ok : RtkIn R → RtkConfig R → Bool
  rtk_ok i c =
      if not i.fresh || not i.corrections_fresh
      then false
      else if not (i.fix_type == 5) && not (i.fix_type == 6)
      then false
      else if ltb i.fix_type c.min_fix_type
      then false
      else if not (r.finite i.horizontal_accuracy_m) || r.le i.horizontal_accuracy_m zero_real
      then false
      else not (r.lt zero_real c.max_hrms_m && r.lt c.max_hrms_m i.horizontal_accuracy_m)

  unfoldable pub vehicle_refused : VehicleIn R → GateConfig R → Bool → Bool
  vehicle_refused v cfg pre_arm =
      let preflight_refused =
        pre_arm && not (v.nav_state == nav_offboard) && not v.preflight_checks_pass in
      let rc_refused = pre_arm && cfg.require_rc_link && not (v.rc_link_valid && v.rc_link_ok) in
      let not_engaged =
        not pre_arm && (not (v.arming_state == state_armed) || not (v.nav_state == nav_offboard)) in
      not v.fresh || v.failsafe || preflight_refused || rc_refused || not_engaged

  unfoldable pub heading_refused : EstimatorIn → VehicleIn R → GateConfig R → Bool
  heading_refused e v cfg =
      not e.fresh
      || not e.flags_valid
      || e.gnss_yaw_fault
      || e.reject_yaw
      || (cfg.require_gnss_yaw_fusion && not e.gnss_yaw_fusion_intended)
      || not v.attitude_valid

  unfoldable pub estimator_refused : EstimatorIn → VehicleIn R → Bool
  estimator_refused e v =
      not v.position_valid
      || not v.velocity_valid
      || e.inertial_dead_reckoning
      || e.reject_hor_pos
      || e.reject_hor_vel

  unfoldable pub first_failing : GateInputs R → GateConfig R → Bool → Reason
  first_failing i cfg pre_arm =
      if i.estop
      then estop
      else if link_refused i.link
      then px4_link_unhealthy
      else if vehicle_refused i.vehicle cfg pre_arm
      then arming_gate
      else if not (rtk_ok i.rtk cfg.rtk)
      then rtk_gate
      else if heading_refused i.est i.vehicle cfg
      then heading_unhealthy
      else if estimator_refused i.est i.vehicle
      then estimator_unhealthy
      else ok

  unfoldable pub first_failing_safety_gate : GateInputs R → GateConfig R → Reason
  unfolding first_failing
  first_failing_safety_gate i cfg = first_failing i cfg false

  unfoldable pub first_failing_pre_arm_gate : GateInputs R → GateConfig R → Reason
  unfolding first_failing
  first_failing_pre_arm_gate i cfg =
      let reason = first_failing i cfg true in
      if not (is_ok reason)
      then reason
      else if i.vehicle.global_reference_valid
      then ok
      else global_reference_invalid
