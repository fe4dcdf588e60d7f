-- ===== src/Examples/Watchdog.antt =====
-- The watchdog's theorems on a core that gets a lease, a new mapping and a bad lease.
use dyx_3wd.Base.{◌≡◌, refl, true, false, [], ◌∷◌, some, none, arith}
use dyx_3wd.Base.Trace.{after}
use dyx_3wd.Base.Int.{pos, negsuc}
use dyx_3wd.Base.Milli.{Milli, milli, milli_real}
use dyx_3wd.Spray.Lease.{
  Lease, cleared, off_reason, observe, same_actuator_mapping, actuator_mapping, validate_lease,
}
use dyx_3wd.Spray.Watchdog.Ops.{
  Params, WatchdogCore, watchdog, on_lease, adopt, expire, note_cause, send_off, status,
}
use dyx_3wd.Spray.Watchdog.Safety.{acks, ticks, step, IsSound}
use dyx_3wd.Spray.Watchdog.Proof.{new_mapping_needs_proof}

-- The fallback: actuator set 1 with OFF at -1.
abbrev fallback : Lease Milli
fallback = record {
  allow_on = false;
  command_seq = pos 0;
  backend = pos 0;
  actuator_set_index = pos 1;
  off_value = some (negsuc 999);
  servo_instance = pos 1;
  off_pwm_us = pos 1000;
}

abbrev params : Params Milli
params = record {
  lease_timeout_s = milli 500;
  off_retry_hz = milli 1000;
  off_burst_hz = milli 10000;
  off_burst_duration_s = milli 1000;
  command_ack_timeout_s = milli 500;
  fallback = fallback;
}

abbrev core : WatchdogCore Milli
core = record {
  params = params;
  fallback = fallback;
  mon = record {
    timeout_s = milli 500;
    have_lease = false;
    last_lease = record fallback { off_pwm_us = pos 0 };
    last_receive_s = milli 0;
    invalid = false;
    shut_down = false;
    invalid_reason = cleared;
  };
  inflight = false;
  seq = 0;
  off_epoch_active = false;
  inflight_seq = 0;
  inflight_since = milli 0;
  inflight_mapping = none;
  off_confirmed_mapping = none;
  mapping_off_required = false;
  next_off_s = milli 0;
  burst_until_s = milli 0;
  last_cause = none;
}

-- The lease of another actuator set, which allows ON.
abbrev other : Lease Milli
other = record fallback { allow_on = true; command_seq = pos 3; actuator_set_index = pos 2 }

abbrev bad : Lease Milli
bad = record fallback { command_seq = negsuc 0 }

abbrev remapped : WatchdogCore Milli
remapped = on_lease core other (milli 100)

-- The constructor gives this core.
constructs : watchdog params ≡ some core
unfolding watchdog
constructs = refl

core-IsSound : IsSound core
core-IsSound = ground arith

new_mapping_needs_proof_example :
    (status
      (after (λ w i. (step w i).0) remapped (acks 0 true (milli 220) ∷ ticks (milli 200) ∷ []))
      (milli 230)).allow_on
    ≡ false
unfolding after step validate_lease same_actuator_mapping actuator_mapping on_lease observe adopt
    off_reason expire note_cause send_off
new_mapping_needs_proof_example =
    new_mapping_needs_proof core other (milli 100) (milli 230)
      (acks 0 true (milli 220) ∷ ticks (milli 200) ∷ []) refl refl refl (refl, (refl, tt))

-- The OFF of the new mapping, which has the number 1, is answered.
abbrev answered : WatchdogCore Milli
answered = (step remapped (ticks (milli 200))).0
