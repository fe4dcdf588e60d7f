-- ===== src/Link/Offboard/Ops.antt =====
-- offboard_heartbeat.hpp and .cpp.
use dyx_3wd.Base.{Bool, true, false, not, ◌&&◌, ◌||◌, if◌then◌else◌}
use dyx_3wd.Base.Real.{Real, zero_real}

pub data OffboardState : Type 0 where
  disabled prestream requested active failed lost : OffboardState

pub record OffboardTiming (R : Type 0) : Type 0 where
  pub prestream_s : R
  pub confirm_timeout_s : R
  pub disable_stop_s : R

pub record OffboardStep : Type 0 where
  pub publish_heartbeat : Bool
  pub send_mode_command : Bool
  pub stop_only : Bool
  pub state : OffboardState

pub record OffboardSession (R : Type 0) : Type 0 where
  pub timing : OffboardTiming R
  pub state : OffboardState
  pub enabled : Bool
  pub since_s : R
  pub stop_until_s : R

abbrev pub is_active : OffboardState → Bool
is_active active = true
is_active _ = false

abbrev pub is_requested : OffboardState → Bool
is_requested requested = true
is_requested _ = false

-- Without the link an established session is lost, and a pending request starts again.
abbrev pub withdraw : OffboardState → OffboardState
withdraw active = lost
withdraw failed = failed
withdraw lost = lost
withdraw _ = prestream

module _ {R : Type 0} ⦃r : Real R⦄ where
  unfoldable pub session : OffboardTiming R → OffboardSession R
  session t = record {
    timing = t;
    state = disabled;
    enabled = false;
    since_s = zero_real;
    stop_until_s = r.neg (r.lit 1 1);
  }

  unfoldable pub enable : OffboardSession R → Bool → R → OffboardSession R
  enable s on now =
      if on
      then record s {
        state = prestream;
        since_s = now;
        stop_until_s = r.neg (r.lit 1 1);
        enabled = on;
      }
      else record s {
        stop_until_s = if s.enabled then r.add now s.timing.disable_stop_s else s.stop_until_s;
        state = disabled;
        enabled = on;
      }

  unfoldable pub fail_requested : OffboardSession R → OffboardSession R × Bool
  fail_requested s =
      if not s.enabled || not (is_requested s.state)
      then (s, false)
      else (record s { state = failed }, true)

  -- The session after the step of an enabled session with the link up, and whether it asks for the
  -- mode.
  unfoldable pub advance : OffboardSession R → R → Bool → OffboardSession R × Bool
  advance s now nav_state_offboard = elim s.state [
    | prestream ↦
        if r.le s.timing.prestream_s (r.sub now s.since_s)
        then (record s { state = requested; since_s = now }, true)
        else (s, false)
    | requested ↦
        if nav_state_offboard
        then (record s { state = active }, false)
        else if r.lt s.timing.confirm_timeout_s (r.sub now s.since_s)
        then (record s { state = failed }, false)
        else (s, false)
    | active ↦ if not nav_state_offboard then (record s { state = lost }, false) else (s, false)
    | failed ↦ (s, false)
    | lost ↦ (s, false)
    | disabled ↦ (s, false)
  ]

  unfoldable pub step : OffboardSession R → R → Bool → Bool → OffboardSession R × OffboardStep
  unfolding advance
  step s now link_ok nav_state_offboard =
      let streams = link_ok && r.lt now s.stop_until_s in
      let withdrawn = withdraw s.state in
      let (s', asks) = advance s now nav_state_offboard in
      if not s.enabled
      then (
        s,
        record {
          publish_heartbeat = streams;
          send_mode_command = false;
          stop_only = streams;
          state = disabled;
        },
      )
      else if not link_ok
      then (
        record s { state = withdrawn; since_s = now },
        record {
          publish_heartbeat = false;
          send_mode_command = false;
          stop_only = false;
          state = withdrawn;
        },
      )
      else (
        s',
        record {
          publish_heartbeat = true;
          send_mode_command = asks;
          stop_only = not (is_active s'.state);
          state = s'.state;
        },
      )

-- The methods as one step, with what it streams.
pub data Call (R : Type 0) : Type 0 where
  enables : Bool → R → Call R
  refuses : Call R
  steps : R → Bool → Bool → Call R

abbrev pub silent : OffboardStep
silent = record {
  publish_heartbeat = false;
  send_mode_command = false;
  stop_only = false;
  state = disabled;
}

unfoldable pub call :
    {R : Type 0} ⦃r : Real R⦄ → OffboardSession R → Call R → OffboardSession R × OffboardStep
unfolding enable fail_requested step
call s (enables on now) = (enable s on now, silent)
call s refuses = ((fail_requested s).0, silent)
call s (steps now link_ok nav_state_offboard) = step s now link_ok nav_state_offboard
