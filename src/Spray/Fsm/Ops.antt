-- ===== src/Spray/Fsm/Ops.antt =====
-- spray_fsm.cpp. A method returns the machine after it and the command to dispatch, if any.
use dyx_3wd.Base.{
  ℕ, ◌+◌, Bool, true, false, not, ◌&&◌, ◌||◌, Option, none, some, ◌==◌, if◌then◌else◌, u32,
}
use dyx_3wd.Base.Real.{Real, min_real}
use dyx_3wd.Spray.Fsm.Types.{
  off_unconfirmed, off_confirmed, on_pending, on_confirmed, off_pending, recovery, disabled,
  Command, SprayFsm, in_recovery,
}

abbrev pub Step : Type 0 → Type 0
Step R = SprayFsm R × Option Command

module _ {R : Type 0} ⦃r : Real R⦄ where
  unfoldable pub dispatch_off : SprayFsm R → Bool → R → Step R
  dispatch_off m force now =
      let seq = u32 (m.seq + 1) in
      (
        record m { seq = seq; state = off_pending; have_pending = true; pending_since = now },
        some (record { on = false; seq = seq; force = force }),
      )

  unfoldable pub dispatch_on : SprayFsm R → R → Step R
  dispatch_on m now =
      let seq = u32 (m.seq + 1) in
      (
        record m { seq = seq; state = on_pending; have_pending = true; pending_since = now },
        some (record { on = true; seq = seq; force = false }),
      )

  unfoldable pub enter_recovery : SprayFsm R → R → SprayFsm R
  enter_recovery m now =
      let backoff =
        min_real (r.mul m.params.backoff_base_s (r.pow (r.lit 2 1) (r.lit m.recovery_attempt 1)))
          m.params.backoff_max_s in
      record m {
        recovery_deadline = r.add now backoff;
        have_deadline = true;
        recovery_attempt = m.recovery_attempt + 1;
        state = recovery;
        have_pending = false;
      }

  -- The deadline of a recovery has passed: `now >= recovery_deadline_`.
  abbrev pub due : SprayFsm R → R → Bool
  due m now = m.have_deadline && r.le m.recovery_deadline now

  unfoldable pub normal_tick : SprayFsm R → Bool → R → Step R
  unfolding dispatch_off dispatch_on
  normal_tick m desired now = elim m.state [
    | off_unconfirmed ↦ dispatch_off m false now
    | recovery ↦ if due m now then dispatch_off m false now else (m, none)
    | off_confirmed ↦ if desired then dispatch_on m now else (m, none)
    | on_pending ↦ if not desired then dispatch_off m false now else (m, none)
    | on_confirmed ↦ if not desired then dispatch_off m false now else (m, none)
    | off_pending ↦ (m, none)
    | disabled ↦ (m, none)
  ]

  unfoldable pub drive_off_disabled : SprayFsm R → R → Step R
  unfolding dispatch_off
  drive_off_disabled m now = elim m.state [
    | off_confirmed ↦ (record m { state = disabled }, none)
    | disabled ↦ (m, none)
    | off_pending ↦ (m, none)
    | _ ↦ dispatch_off m true now
  ]

  unfoldable pub drive_off_safety : SprayFsm R → R → Step R
  unfolding dispatch_off
  drive_off_safety m now = elim m.state [
    | off_confirmed ↦ (m, none)
    | disabled ↦ (m, none)
    | off_pending ↦ (m, none)
    | recovery ↦ if due m now then dispatch_off m true now else (m, none)
    | _ ↦ dispatch_off m true now
  ]

  unfoldable pub check_pending_timeout : SprayFsm R → R → Step R
  unfolding dispatch_off enter_recovery
  check_pending_timeout m now =
      if not m.have_pending
      then (m, none)
      else if r.lt (r.sub now m.pending_since) m.params.ack_timeout_s
      then (m, none)
      else elim m.state [
        | on_pending ↦ dispatch_off m false now
        | off_pending ↦ (enter_recovery m now, none)
        | _ ↦ (record m { have_pending = false }, none)
      ]

  -- The edges of `enabled` come first.
  unfoldable pub enabled_edge : SprayFsm R → Bool → SprayFsm R
  enabled_edge m enabled =
      if not enabled && m.prev_enabled
      then record m { prev_enabled = enabled; disabled = true; recovery_attempt = 0 }
      else if enabled && not m.prev_enabled
      then record m {
        prev_enabled = enabled;
        disabled = false;
        state = off_unconfirmed;
        recovery_attempt = 0;
        have_deadline = false;
        have_pending = false;
      }
      else record m { prev_enabled = enabled }

  -- Then a loss of safety, which makes the next retry immediate.
  unfoldable pub safety_edge : SprayFsm R → Bool → Bool → R → SprayFsm R
  safety_edge m enabled safety_ok now =
      let lost = enabled && not safety_ok && m.prev_safety_ok in
      let retry = lost && in_recovery m.state in
      record m {
        prev_safety_ok = safety_ok;
        recovery_attempt = if lost then 0 else m.recovery_attempt;
        have_deadline = retry || m.have_deadline;
        recovery_deadline = if retry then now else m.recovery_deadline;
      }

  unfoldable pub edges : SprayFsm R → Bool → Bool → R → SprayFsm R
  unfolding enabled_edge safety_edge
  edges m enabled safety_ok now = safety_edge (enabled_edge m enabled) enabled safety_ok now

  -- The rest of `tick`, after the time-out check found nothing to send.
  unfoldable pub drive : SprayFsm R → Bool → Bool → Bool → R → Step R
  unfolding normal_tick drive_off_disabled drive_off_safety
  drive m desired safety_ok enabled now =
      if not enabled
      then drive_off_disabled m now
      else if not safety_ok
      then drive_off_safety m now
      else normal_tick m desired now

  unfoldable pub tick : SprayFsm R → Bool → Bool → Bool → R → Step R
  tick m desired safety_ok enabled now =
      let (m', timed_out) = check_pending_timeout (edges m enabled safety_ok now) now in
      elim timed_out [ some c ↦ (m', some c) | none ↦ drive m' desired safety_ok enabled now ]

  unfoldable pub on_ack : SprayFsm R → ℕ → Bool → R → Step R
  unfolding dispatch_off enter_recovery
  on_ack m seq success now = if not (seq == m.seq) then (m, none) else elim m.state [
    | on_pending ↦
        if success
        then (record m { have_pending = false; state = on_confirmed }, none)
        else dispatch_off m false now
    | off_pending ↦
        if success
        then (
          record m {
            have_pending = false;
            recovery_attempt = 0;
            have_deadline = false;
            state = if m.disabled then disabled else off_confirmed;
          },
          none,
        )
        else (enter_recovery m now, none)
    | _ ↦ (m, none)
  ]

  unfoldable pub note_event_reset : SprayFsm R → R → SprayFsm R
  note_event_reset m now =
      let retry = in_recovery m.state in
      record m {
        recovery_attempt = 0;
        have_deadline = retry || m.have_deadline;
        recovery_deadline = if retry then now else m.recovery_deadline;
      }

-- The calls that the controller makes.
pub data Input (R : Type 0) : Type 0 where
  ticks : Bool → Bool → Bool → R → Input R
  acks : ℕ → Bool → R → Input R
  resets : R → Input R

unfoldable pub step : {R : Type 0} ⦃r : Real R⦄ → SprayFsm R → Input R → Step R
unfolding tick on_ack note_event_reset
step m (ticks desired safety_ok enabled now) = tick m desired safety_ok enabled now
step m (acks seq success now) = on_ack m seq success now
step m (resets now) = (note_event_reset m now, none)
