-- ===== src/Guard/Priority.antt =====
-- What the gates say together.
use dyx_3wd.Base.{◌≡◌, ◌↔◌, Bool, true, false, ◌&&◌, arith, ◌==◌}
use dyx_3wd.Base.Real.{Real}
use dyx_3wd.Guard.Types.{ok}
use dyx_3wd.Guard.Gates.{
  GateInputs, GateConfig, first_failing, first_failing_safety_gate, first_failing_pre_arm_gate,
  link_refused, rtk_ok, vehicle_refused, heading_refused, estimator_refused, state_armed,
  nav_offboard,
}

module _ {R : Type 0} ⦃r : Real R⦄ (i : GateInputs R) (cfg : GateConfig R) where
  -- No gate refuses.
  pub record AllPass (pre_arm : Bool) : Type 0 where
    pub no_estop : i.estop ≡ false
    pub link : link_refused i.link ≡ false
    pub vehicle : vehicle_refused i.vehicle cfg pre_arm ≡ false
    pub rtk : rtk_ok i.rtk cfg.rtk ≡ true
    pub heading : heading_refused i.est i.vehicle cfg ≡ false
    pub estimator : estimator_refused i.est i.vehicle ≡ false

  first_failing-pass : (pre_arm : Bool) → first_failing i cfg pre_arm ≡ ok → AllPass pre_arm
  unfolding first_failing
  first_failing-pass pre_arm h = ground arith

  pass-first_failing : (pre_arm : Bool) → AllPass pre_arm → first_failing i cfg pre_arm ≡ ok
  unfolding first_failing
  pass-first_failing pre_arm h = ground arith

  -- The full gate is ok exactly when no gate refuses: no emergency stop, and the link, the vehicle
  -- (engaged), the RTK, the heading and the estimator all pass.
  pub safety_gate_iff : (first_failing_safety_gate i cfg ≡ ok) ↔ AllPass false
  unfolding first_failing_safety_gate
  safety_gate_iff = (first_failing-pass false, pass-first_failing false)

  engaged-prepared :
      vehicle_refused i.vehicle cfg false ≡ false
      → (cfg.require_rc_link ≡ true → (i.vehicle.rc_link_valid && i.vehicle.rc_link_ok) ≡ true)
      → vehicle_refused i.vehicle cfg true ≡ false
  unfolding vehicle_refused
  engaged-prepared h rc = ground arith

  -- A vehicle that passes the full gate passes the pre-arm gate too, if the RC link is there where it
  -- is required and the global reference is valid: the pre-flight verdict does not matter then, since
  -- the vehicle is in OFFBOARD.
  pub full_gate_gives_pre_arm :
      first_failing_safety_gate i cfg ≡ ok
      → (cfg.require_rc_link ≡ true → (i.vehicle.rc_link_valid && i.vehicle.rc_link_ok) ≡ true)
      → i.vehicle.global_reference_valid ≡ true
      → first_failing_pre_arm_gate i cfg ≡ ok
  unfolding first_failing_pre_arm_gate
  full_gate_gives_pre_arm h rc ref =
      let all = safety_gate_iff.0 h in
      let early = pass-first_failing true (record {
        no_estop = all.no_estop;
        link = all.link;
        vehicle = engaged-prepared all.vehicle rc;
        rtk = all.rtk;
        heading = all.heading;
        estimator = all.estimator;
      }) in
      ground arith

  -- When the full gate is ok there is no emergency stop, the vehicle is armed, in OFFBOARD and without
  -- a failsafe, and the RTK state and its corrections are fresh.
  pub engaged_of_pass :
      first_failing_safety_gate i cfg ≡ ok
      → (i.estop ≡ false)
        × ((i.vehicle.arming_state == state_armed) ≡ true)
        × ((i.vehicle.nav_state == nav_offboard) ≡ true)
        × (i.vehicle.failsafe ≡ false)
        × (i.rtk.fresh ≡ true)
        × (i.rtk.corrections_fresh ≡ true)
  unfolding vehicle_refused rtk_ok
  engaged_of_pass h = let all = safety_gate_iff.0 h in ground arith
