-- ===== src/Guard/Core.antt =====
-- fail_to_zero.hpp and .cpp: the sequence session rule and the decision of the guard.
use dyx_3wd.Base.{
  ℕ, ◌+◌, Bool, true, false, not, ◌&&◌, ◌||◌, Option, none, some, if◌then◌else◌, ltb, leb, ◌==◌,
}
use dyx_3wd.Base.Real.{Real}
use dyx_3wd.Guard.Types.{
  Mode, stop, Motion, Command, Reason, ok, invalid_message, stale, sequence, mission_gate,
  limit_clamped, actuator_stall, is_ok, to_mode, canonical_stop, command_is_valid,
}
use dyx_3wd.Guard.Gates.{GateInputs, GateConfig, first_failing_safety_gate, mission_running}
use dyx_3wd.Guard.Limits.{Limits, LimitState, reset, apply_limits}
use dyx_3wd.Guard.Stall.{PlausibilityConfig, StallDetector, update, interrupt, clear}

pub record SequenceTracker (R : Type 0) : Type 0 where
  pub accept : ℕ
  pub have : Bool
  pub last : ℕ
  pub count : ℕ
  pub last_new_s : R

pub record DecisionConfig (R : Type 0) : Type 0 where
  pub command_max_age_s : R
  pub gates : GateConfig R
  pub limits : Limits R
  pub plausibility : PlausibilityConfig R

pub record Decision (R : Type 0) : Type 0 where
  pub out : Motion R
  pub reason : Reason
  pub accepted : Bool
  pub clamped : Bool
  pub input_seq : ℕ
  pub input_age_s : R
  pub source_pose_sample_ns : ℕ

-- `cmd` is `none` until the first command.
pub record GuardCore (R : Type 0) : Type 0 where
  pub seq : SequenceTracker R
  pub cfg : DecisionConfig R
  pub cmd : Option (Command R)
  pub lim : LimitState R
  pub stall : StallDetector R

module _ {R : Type 0} ⦃r : Real R⦄ where
  abbrev pub accepting : SequenceTracker R → Bool
  accepting t = t.have && leb t.accept t.count

  -- The tracker after the command, and whether it is new.
  unfoldable pub track : SequenceTracker R → ℕ → R → SequenceTracker R × Bool
  track t seq now =
      if not t.have || ltb seq t.last
      then (record t { have = true; last = seq; count = 1; last_new_s = now }, true)
      else if seq == t.last
      then (t, false)
      else (
        record t {
          last = seq;
          count = if ltb t.count 4294967295 then t.count + 1 else t.count;
          last_new_s = now;
        },
        true,
      )

  unfoldable pub on_command : GuardCore R → Command R → R → GuardCore R
  unfolding track
  on_command g c now =
      let (t, new) = track g.seq c.seq now in
      if new then record g { seq = t; cmd = some c } else record g { seq = t }

  abbrev spare_stall : Reason → StallDetector R → StallDetector R
  spare_stall actuator_stall d = d
  spare_stall _ d = interrupt d

  -- `fail`: the canonical STOP, at once and with no ramp state behind.
  unfoldable pub fail : GuardCore R → ℕ → R → Reason → GuardCore R × Decision R
  fail g input_seq age reason = (
    record g { lim = reset; stall = spare_stall reason g.stall },
    record {
      out = canonical_stop;
      reason = reason;
      accepted = false;
      clamped = false;
      input_seq = input_seq;
      input_age_s = age;
      source_pose_sample_ns = 0;
    },
  )

  -- A clean STOP is forwarded whatever the gates say, and clears the stall latch.
  unfoldable pub forward_stop : GuardCore R → Command R → R → GuardCore R × Decision R
  forward_stop g c age = (
    record g { lim = reset; stall = clear g.stall },
    record {
      out = canonical_stop;
      reason = ok;
      accepted = true;
      clamped = false;
      input_seq = c.seq;
      input_age_s = age;
      source_pose_sample_ns = c.source_pose_sample_ns;
    },
  )

  abbrev pub demand : Command R → Mode → Motion R
  demand c mode = record {
    mode = mode;
    speed_body_x = c.speed_body_x;
    yaw_setpoint = c.yaw_setpoint;
    yaw_rate_setpoint = c.yaw_rate_setpoint;
  }

  -- The limits, last of all.
  unfoldable pub forward : GuardCore R → Command R → Mode → R → R → GuardCore R × Decision R
  forward g c mode dt age =
      let (lim, st) = apply_limits (demand c mode) dt g.cfg.limits g.lim in
      (
        record g { lim = st },
        record {
          out = lim.motion;
          reason = if lim.clamped then limit_clamped else ok;
          accepted = true;
          clamped = lim.clamped;
          input_seq = c.seq;
          input_age_s = age;
          source_pose_sample_ns = c.source_pose_sample_ns;
        },
      )

  -- A moving command: the gates, the mission, the stall detector.
  unfoldable pub move :
      GuardCore R → Command R → Mode → R → R → R → GateInputs R → GuardCore R × Decision R
  unfolding fail forward
  move g c mode now dt age gates =
      let gate = first_failing_safety_gate gates g.cfg.gates in
      if not (is_ok gate)
      then fail g c.seq age gate
      else if not (mission_running gates.mission)
      then fail g c.seq age mission_gate
      else let (d, stalled) = update g.stall (demand c mode) gates.vehicle now g.cfg.plausibility in
        let g' = record g { stall = d } in
        if stalled then fail g' c.seq age actuator_stall else forward g' c mode dt age

  -- By the mode; a byte that is no mode was refused before.
  unfoldable pub execute :
      GuardCore R → Command R → Option Mode → R → R → R → GateInputs R → GuardCore R × Decision R
  unfolding fail forward_stop
  execute g c none now dt age gates = fail g c.seq age invalid_message
  execute g c (some stop) now dt age gates = forward_stop g c age
  execute g c (some mode) now dt age gates = move g c mode now dt age gates

  abbrev pub input_age : GuardCore R → R → R
  input_age g now = if g.seq.have then r.sub now g.seq.last_new_s else r.lit 1000000000 1

  unfoldable pub judge : GuardCore R → Command R → R → R → GateInputs R → GuardCore R × Decision R
  unfolding fail
  judge g c now dt gates =
      let age = input_age g now in
      if not (command_is_valid c)
      then fail g c.seq age invalid_message
      else if r.lt g.cfg.command_max_age_s age
      then fail g c.seq age stale
      else if not (accepting g.seq)
      then fail g c.seq age sequence
      else execute g c (to_mode c.mode) now dt age gates

  unfoldable pub decide : GuardCore R → R → R → GateInputs R → GuardCore R × Decision R
  unfolding fail judge
  decide g now dt gates = elim g.cmd [
    | none ↦ fail g 0 (r.lit 1000000000 1) stale
    | some c ↦ judge g c now dt gates
  ]
