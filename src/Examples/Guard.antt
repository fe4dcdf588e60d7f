-- ===== src/Examples/Guard.antt =====
-- The motion guard's theorems on a rover that tracks a rate: numbers are thousandths.
use dyx_3wd.Base.{◌≡◌, refl, true, false, none, some, arith}
use dyx_3wd.Base.Milli.{Milli, milli, milli_real, Milli-IsOrdered}
use dyx_3wd.Guard.Types.{
  Mode, Motion, ok, limit_clamped, canonical_stop, command_is_valid, uses_rate,
}
use dyx_3wd.Guard.Gates.{
  link_refused, rtk_ok, vehicle_refused, heading_refused, estimator_refused, GateInputs,
  first_failing_safety_gate, mission_running,
}
use dyx_3wd.Guard.Limits.{apply_limits, reset, clamp_to, limits_valid}
use dyx_3wd.Guard.Stall.{StallDetector, update, demands_motion, measurement_usable, measured_still}
use dyx_3wd.Guard.Core.{GuardCore, decide, input_age, accepting, execute, move}
use dyx_3wd.Guard.Safety.{move_needs, refused_is_stop}
use dyx_3wd.Guard.Envelope.{Between, apply_limits-envelope}
use dyx_3wd.Examples.Rover.{limits, gate_config, gates, fast, halt, tracker, core, now}

gates_pass : first_failing_safety_gate gates gate_config ≡ ok
unfolding first_failing_safety_gate link_refused vehicle_refused rtk_ok heading_refused
    estimator_refused
gates_pass = refl

-- The fast motion is forwarded at the limit.
clamps :
    let d = (decide core now (milli 50) gates).1 in
    (d.accepted ≡ true)
    × (d.reason ≡ limit_clamped)
    × (d.out.mode ≡ Mode.track_rate)
    × (d.out.speed_body_x ≡ milli 1000)
unfolding decide command_is_valid execute move first_failing_safety_gate link_refused
    vehicle_refused rtk_ok heading_refused estimator_refused mission_running update demands_motion
    measurement_usable measured_still apply_limits clamp_to
clamps = (refl, refl, refl, refl)

move_needs_example :
    (command_is_valid fast ≡ true)
    × (milli_real.lt (milli 200) (input_age core now) ≡ false)
    × (accepting tracker ≡ true)
    × (first_failing_safety_gate gates gate_config ≡ ok)
    × (mission_running gates.mission ≡ true)
move_needs_example =
    move_needs core fast now (milli 50) gates refl clamps.0 (ground (arith, clamps))

-- The mission pauses: the motion comes out as the STOP.
abbrev paused_gates : GateInputs Milli
paused_gates = record gates { mission = record { fresh = true; state = 4 } }

refused_is_stop_example :
    let (g, d) = decide core now (milli 50) paused_gates in
    (d.out ≡ canonical_stop) × (g.lim ≡ reset)
unfolding decide command_is_valid execute move first_failing_safety_gate link_refused
    vehicle_refused rtk_ok heading_refused estimator_refused mission_running
refused_is_stop_example = refused_is_stop core now (milli 50) paused_gates refl

abbrev halting : GuardCore Milli
halting = record core {
  cmd = some halt;
  stall = record { timing = false; since_s = milli 0; latched = true };
}

apply_limits-envelope_example :
    let i : Motion Milli = record {
      mode = Mode.pivot;
      speed_body_x = milli 1500;
      yaw_setpoint = none;
      yaw_rate_setpoint = milli 900;
    } in
    let o = (apply_limits i (milli 50) limits reset).0 in
    Between Milli-IsOrdered (milli_real.neg (milli 300)) (milli 1000) o.motion.speed_body_x
    × (uses_rate i.mode ≡ true
        → Between Milli-IsOrdered
            (milli_real.neg (milli 800))
            (milli 800)
            o.motion.yaw_rate_setpoint)
    × (o.motion.mode ≡ i.mode)
    × (o.motion.yaw_setpoint ≡ i.yaw_setpoint)
    × (uses_rate i.mode ≡ false → o.motion.yaw_rate_setpoint ≡ i.yaw_rate_setpoint)
    × (o.clamped ≡ false → o.motion ≡ i)
unfolding limits_valid
apply_limits-envelope_example =
    apply_limits-envelope Milli-IsOrdered _ (milli 50) limits reset refl refl refl (λ _. refl) refl

-- The detector has timed a still rover for longer than 3 s.
abbrev timing : StallDetector Milli
timing = record { timing = true; since_s = milli 5000; latched = false }

abbrev fast_motion : Motion Milli
fast_motion = record {
  mode = Mode.track_rate;
  speed_body_x = milli 1500;
  yaw_setpoint = none;
  yaw_rate_setpoint = milli 200;
}

abbrev stalled_core : GuardCore Milli
stalled_core = record core { stall = record { timing = false; since_s = milli 0; latched = true } }
