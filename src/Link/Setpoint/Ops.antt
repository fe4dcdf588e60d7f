-- ===== src/Link/Setpoint/Ops.antt =====
-- rover_setpoint_writer.hpp and .cpp: the contract of a command, the five-field set, the gate.
use dyx_3wd.Base.{ℕ, ◌+◌, Bool, true, false, not, ◌&&◌, ◌||◌, ltb, ◌==◌, u64, if◌then◌else◌}
use dyx_3wd.Base.Real.{Real, zero_real}

pub data Mode : Type 0 where
  stop track_heading track_rate pivot creep : Mode

pub record Command (R : Type 0) : Type 0 where
  pub seq : ℕ
  pub mode : ℕ
  pub speed_body_x : R
  pub yaw_setpoint : R
  pub yaw_rate_setpoint : R
  pub valid : Bool
  pub source_pose_sample_us : ℕ

pub record Setpoint (R : Type 0) : Type 0 where
  pub mode : Mode
  pub speed_body_x : R
  pub yaw_setpoint : R
  pub yaw_rate_setpoint : R

pub data Verdict : Type 0 where
  ok not_valid bad_mode non_finite contract_violation : Verdict

pub data Reason : Type 0 where
  no_reason no_command command_stale command_invalid handshake_not_ok no_session : Reason
  topic_stale sequence_reset guard_stop : Reason

pub record GateInputs (R : Type 0) : Type 0 where
  pub now_s : R
  pub handshake_ok : Bool
  pub session_alive : Bool
  pub stale_topics_mask : ℕ

pub record GateOutput (R : Type 0) : Type 0 where
  pub sp : Setpoint R
  pub reason : Reason
  pub failing_to_zero : Bool
  pub command_age_s : R
  pub forwarded : Bool
  pub seq : ℕ
  pub source_pose_sample_us : ℕ

pub record CommandGate (R : Type 0) : Type 0 where
  pub max_age : R
  pub have_cmd : Bool
  pub have_seq : Bool
  pub last_seq : ℕ
  pub cmd : Command R
  pub received_s : R
  pub gap_counted : Bool
  pub reset_pending : Bool
  pub gap_events : ℕ

-- `static_cast<Mode>` of a byte that is at most 4.
abbrev pub to_mode : ℕ → Mode
to_mode n =
    if n == 0
    then stop
    else if n == 1
    then track_heading
    else if n == 2
    then track_rate
    else if n == 3
    then pivot
    else creep

abbrev pub is_stop : Mode → Bool
is_stop stop = true
is_stop _ = false

abbrev pub is_ok : Verdict → Bool
is_ok ok = true
is_ok _ = false

module _ {R : Type 0} ⦃r : Real R⦄ where
  unfoldable pub stop_setpoint : Setpoint R
  stop_setpoint = record {
    mode = stop;
    speed_body_x = zero_real;
    yaw_setpoint = r.nan;
    yaw_rate_setpoint = zero_real;
  }

  -- The fields that a mode asks for, one clause per case of the switch.
  unfoldable pub validate_mode : Mode → Command R → Verdict
  validate_mode stop c = ok
  validate_mode track_heading c =
      if not (r.finite c.speed_body_x) || not (r.finite c.yaw_setpoint)
      then non_finite
      else if r.is_nan c.yaw_rate_setpoint
      then ok
      else contract_violation
  validate_mode pivot c =
      if not (r.finite c.speed_body_x) || not (r.finite c.yaw_rate_setpoint)
      then non_finite
      else if not (r.eq c.speed_body_x zero_real)
      then contract_violation
      else if r.is_nan c.yaw_setpoint
      then ok
      else contract_violation
  validate_mode _ c =
      if not (r.finite c.speed_body_x) || not (r.finite c.yaw_rate_setpoint)
      then non_finite
      else if r.is_nan c.yaw_setpoint
      then ok
      else contract_violation

  unfoldable pub validate : Command R → Verdict
  validate c =
      if not c.valid
      then not_valid
      else if ltb 4 c.mode
      then bad_mode
      else validate_mode (to_mode c.mode) c

  unfoldable pub setpoint_of : Mode → Command R → Setpoint R
  setpoint_of stop c = stop_setpoint
  setpoint_of track_heading c = record {
    mode = track_heading;
    speed_body_x = c.speed_body_x;
    yaw_setpoint = c.yaw_setpoint;
    yaw_rate_setpoint = r.nan;
  }
  setpoint_of pivot c = record {
    mode = pivot;
    speed_body_x = zero_real;
    yaw_setpoint = r.nan;
    yaw_rate_setpoint = c.yaw_rate_setpoint;
  }
  setpoint_of m c = record {
    mode = m;
    speed_body_x = c.speed_body_x;
    yaw_setpoint = r.nan;
    yaw_rate_setpoint = c.yaw_rate_setpoint;
  }

  unfoldable pub to_setpoint : Command R → Setpoint R
  to_setpoint c = if not (is_ok (validate c)) then stop_setpoint else setpoint_of (to_mode c.mode) c

  -- A default command.
  abbrev pub blank : Command R
  blank = record {
    seq = 0;
    mode = 0;
    speed_body_x = zero_real;
    yaw_setpoint = zero_real;
    yaw_rate_setpoint = zero_real;
    valid = false;
    source_pose_sample_us = 0;
  }

  unfoldable pub gate : R → CommandGate R
  gate max_age = record {
    max_age = max_age;
    have_cmd = false;
    have_seq = false;
    last_seq = 0;
    cmd = blank;
    received_s = zero_real;
    gap_counted = false;
    reset_pending = false;
    gap_events = 0;
  }

  unfoldable pub on_command : CommandGate R → Command R → R → CommandGate R × Bool
  on_command g c now =
      if g.have_seq && ltb c.seq g.last_seq
      then (record g { last_seq = c.seq; have_cmd = false; reset_pending = true }, true)
      else if g.have_seq && c.seq == g.last_seq
      then (g, false)
      else (
        record g {
          have_seq = true;
          last_seq = c.seq;
          cmd = c;
          received_s = now;
          have_cmd = true;
          gap_counted = false;
        },
        true,
      )

  abbrev pub command_age : CommandGate R → R → R
  command_age g now = if g.have_cmd then r.sub now g.received_s else r.lit 1000000000 1

  -- The lambda `fail`.
  abbrev pub fail : R → Reason → GateOutput R
  fail age reason = record {
    sp = stop_setpoint;
    reason = reason;
    failing_to_zero = true;
    command_age_s = age;
    forwarded = false;
    seq = 0;
    source_pose_sample_us = 0;
  }

  -- One event per expired command.
  abbrev pub count_gap : CommandGate R → CommandGate R
  count_gap g =
      if not g.gap_counted
      then record g { gap_events = u64 (g.gap_events + 1); gap_counted = true }
      else g

  abbrev pub forward : R → Command R → GateOutput R
  forward age c = record {
    sp = to_setpoint c;
    reason = if is_stop (to_setpoint c).mode then guard_stop else no_reason;
    failing_to_zero = false;
    command_age_s = age;
    forwarded = true;
    seq = c.seq;
    source_pose_sample_us = c.source_pose_sample_us;
  }

  -- What follows once the link's conditions hold.
  unfoldable pub step_command : CommandGate R → R → CommandGate R × GateOutput R
  step_command g age =
      if g.reset_pending
      then (record g { reset_pending = false }, fail age sequence_reset)
      else if not g.have_cmd
      then (g, fail age no_command)
      else if r.lt g.max_age age
      then (count_gap g, fail age command_stale)
      else if not (is_ok (validate g.cmd))
      then (g, fail age command_invalid)
      else (g, forward age g.cmd)

  unfoldable pub step : CommandGate R → GateInputs R → CommandGate R × GateOutput R
  step g i =
      let age = command_age g i.now_s in
      if not i.handshake_ok
      then (g, fail age handshake_not_ok)
      else if not i.session_alive
      then (g, fail age no_session)
      else if not (i.stale_topics_mask == 0)
      then (g, fail age topic_stale)
      else step_command g age

-- The methods that change the gate, as one call, with what it puts out.
pub data Call (R : Type 0) : Type 0 where
  commands : Command R → R → Call R
  steps : GateInputs R → Call R

unfoldable pub call : {R : Type 0} ⦃r : Real R⦄ → CommandGate R → Call R → CommandGate R
unfolding on_command step
call g (commands c now) = (on_command g c now).0
call g (steps i) = (step g i).0
