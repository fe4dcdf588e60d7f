-- ===== src/Spray/Watchdog/Ops.antt =====
-- watchdog_core.hpp and .cpp. `tick` returns the watchdog after it and the OFF command, if one is due.
use dyx_3wd.Base.{
  ℕ, ◌+◌, Bool, true, false, not, ◌&&◌, ◌||◌, Option, none, some, ◌==◌, if◌then◌else◌, u32,
}
use dyx_3wd.Base.Int.{ℤ}
use dyx_3wd.Base.Real.{Real, zero_real, max_real}
use dyx_3wd.Spray.Lease.{
  Lease, ActuatorMapping, said, OffCause, cause_value, required, LeaseMonitor, actuator_mapping,
  same_actuator_mapping, validate_lease, monitor, invalidate, observe, off_reason,
}

pub record Params (R : Type 0) : Type 0 where
  pub lease_timeout_s : R
  pub off_retry_hz : R
  pub off_burst_hz : R
  pub off_burst_duration_s : R
  pub command_ack_timeout_s : R
  pub fallback : Lease R

pub record OffCommand (R : Type 0) : Type 0 where
  pub seq : ℕ
  pub mapping : Lease R

pub record Status (R : Type 0) : Type 0 where
  pub allow_on : Bool
  pub alive : Bool
  pub off_authority_ready : Bool
  pub off_inflight : Bool
  pub off_reason : OffCause
  pub lease_age_s : R
  pub backend : ℤ

pub record WatchdogCore (R : Type 0) : Type 0 where
  pub params : Params R
  pub fallback : Lease R
  pub mon : LeaseMonitor R
  pub inflight : Bool
  pub seq : ℕ
  pub off_epoch_active : Bool
  pub inflight_seq : ℕ
  pub inflight_since : R
  pub inflight_mapping : Option (ActuatorMapping R)
  pub off_confirmed_mapping : Option (ActuatorMapping R)
  pub mapping_off_required : Bool
  pub next_off_s : R
  pub burst_until_s : R
  -- `none` until the first tick.
  pub last_cause : Option OffCause

abbrev pub same_cause : Option OffCause → OffCause → Bool
same_cause none c = false
same_cause (some a) b = cause_value a == cause_value b

module _ {R : Type 0} ⦃r : Real R⦄ where
  -- The constructor; `none` where it throws.
  unfoldable pub watchdog : Params R → Option (WatchdogCore R)
  unfolding monitor validate_lease
  watchdog p = elim (monitor p.lease_timeout_s) [
    | none ↦ none
    | some m ↦ elim (validate_lease p.fallback) [
      | some _ ↦ none
      | none ↦ some (record {
        params = p;
        fallback = p.fallback;
        mon = m;
        inflight = false;
        seq = 0;
        off_epoch_active = false;
        inflight_seq = 0;
        inflight_since = zero_real;
        inflight_mapping = none;
        off_confirmed_mapping = none;
        mapping_off_required = false;
        next_off_s = zero_real;
        burst_until_s = zero_real;
        last_cause = none;
      })
    ]
  ]

  abbrev pub mapping : WatchdogCore R → Lease R
  mapping w = if w.mon.have_lease then w.mon.last_lease else w.fallback

  abbrev pub matches : Option (ActuatorMapping R) → ActuatorMapping R → Bool
  matches none b = false
  matches (some a) b = same_actuator_mapping a b

  -- Proof and any old OFF transaction belong to the previous physical mapping.
  unfoldable pub remap : WatchdogCore R → R → WatchdogCore R
  remap w now = record w {
    off_confirmed_mapping = none;
    inflight = false;
    off_epoch_active = false;
    inflight_mapping = none;
    mapping_off_required = true;
    next_off_s = zero_real;
    burst_until_s = r.add now (max_real zero_real w.params.off_burst_duration_s);
  }

  -- The rest of `on_lease` once the monitor accepted.
  unfoldable pub adopt : WatchdogCore R → ActuatorMapping R → R → WatchdogCore R
  unfolding remap
  adopt w previous now =
      let w' =
        if not (same_actuator_mapping previous (actuator_mapping (mapping w)))
        then remap w now
        else w in
      if not (required (off_reason w'.mon now)) && not w'.mapping_off_required
      then record w' { off_epoch_active = false }
      else w'

  unfoldable pub on_lease : WatchdogCore R → Lease R → R → WatchdogCore R
  on_lease w l now =
      let previous = actuator_mapping (mapping w) in
      let (mon, refused) = observe w.mon l now in
      elim refused [
        | some _ ↦ record w { mon = mon; next_off_s = zero_real }
        | none ↦ adopt (record w { mon = mon }) previous now
      ]

  unfoldable pub on_ack : WatchdogCore R → ℕ → Bool → R → WatchdogCore R
  on_ack w seq success now =
      if not w.inflight || not (seq == w.inflight_seq)
      then w
      else let current = actuator_mapping (mapping w) in
        let proves = matches w.inflight_mapping current in
        if success && proves
        then record w {
          inflight = false;
          inflight_mapping = none;
          off_confirmed_mapping = some current;
          mapping_off_required = false;
        }
        else record w {
          inflight = false;
          inflight_mapping = none;
          off_confirmed_mapping = none;
          next_off_s = zero_real;
        }

  unfoldable pub begin_shutdown : WatchdogCore R → R → WatchdogCore R
  unfolding invalidate
  begin_shutdown w now = record w {
    mon = invalidate w.mon (said "service shutdown") true;
    next_off_s = zero_real;
  }

  -- The parts of `tick` in their order: the time-out of the awaited answer, the edge of the cause,
  -- and the OFF.
  unfoldable pub expire : WatchdogCore R → R → WatchdogCore R
  expire w now =
      if w.inflight
        && r.lt (max_real (r.lit 1 10) w.params.command_ack_timeout_s) (r.sub now w.inflight_since)
      then record w { inflight = false; inflight_mapping = none; off_confirmed_mapping = none }
      else w

  unfoldable pub note_cause : WatchdogCore R → OffCause → R → WatchdogCore R
  note_cause w cause now =
      if same_cause w.last_cause cause
      then w
      else if required cause
      then record w {
        next_off_s = zero_real;
        burst_until_s = r.add now (max_real zero_real w.params.off_burst_duration_s);
        last_cause = some cause;
      }
      else record w { last_cause = some cause }

  -- An epoch begins: it has a new number and no proof.
  unfoldable pub begin_epoch : WatchdogCore R → WatchdogCore R
  begin_epoch w =
      if w.off_epoch_active
      then w
      else let seq = u32 (w.seq + 1) in
        record w {
          off_confirmed_mapping = none;
          seq = seq;
          inflight_seq = seq;
          off_epoch_active = true;
        }

  unfoldable pub send_off : WatchdogCore R → R → WatchdogCore R × Option (OffCommand R)
  unfolding begin_epoch
  send_off w now =
      let w' = begin_epoch w in
      let hz =
        max_real (r.lit 2 10)
          (if r.lt now w'.burst_until_s then w'.params.off_burst_hz else w'.params.off_retry_hz) in
      (
        record w' {
          next_off_s = r.add now (r.div (r.lit 1 1) hz);
          inflight_since = if w'.inflight then w'.inflight_since else now;
          inflight = true;
          inflight_mapping = some (actuator_mapping (mapping w'));
        },
        some (record { seq = w'.inflight_seq; mapping = mapping w' }),
      )

  abbrev pub off_required : WatchdogCore R → OffCause → Bool
  off_required w cause = required cause || w.mapping_off_required

  unfoldable pub tick : WatchdogCore R → R → WatchdogCore R × Option (OffCommand R)
  tick w now =
      let cause = off_reason w.mon now in
      let w' = note_cause (expire w now) cause now in
      if off_required w' cause
      then if r.le w'.next_off_s now then send_off w' now else (w', none)
      else (record w' { off_epoch_active = false }, none)

  unfoldable pub status : WatchdogCore R → R → Status R
  status w now =
      let cause = off_reason w.mon now in
      record {
        allow_on = not (required cause) && not w.mapping_off_required;
        alive = true;
        off_authority_ready = matches w.off_confirmed_mapping (actuator_mapping (mapping w));
        off_inflight = w.inflight;
        off_reason = cause;
        lease_age_s =
            if w.mon.have_lease
            then max_real zero_real (r.sub now w.mon.last_receive_s)
            else r.lit 1000000000 1;
        backend = (mapping w).backend;
      }
