-- ===== src/Spray/Watchdog/Epoch.antt =====
-- The number of an OFF command.
use dyx_3wd.Base.{◌+◌, ◌≡◌, ◌⊎◌, true, Option, none, some, arith, u32, if◌then◌else◌}
use dyx_3wd.Base.Real.{Real}
use dyx_3wd.Spray.Lease.{off_reason, required, actuator_mapping, observe}
use dyx_3wd.Spray.Watchdog.Ops.{
  OffCommand, WatchdogCore, mapping, tick, expire, note_cause, send_off,
}
use dyx_3wd.Spray.Watchdog.Safety.{Input, leases, acks, shuts_down, ticks, step, IsSound}
use dyx_3wd.Spray.Watchdog.Proof.{quiet-kept, adopt-kept}

module _ {R : Type 0} ⦃r : Real R⦄ where
  -- The command, if there is one, carries the number of its epoch: the last one while an epoch goes
  -- on, and the next one when it begins.
  abbrev pub Numbered : WatchdogCore R → WatchdogCore R → Option (OffCommand R) → Type 0
  Numbered w w' none = w'.seq ≡ w.seq
  Numbered w w' (some c) =
      (c.seq ≡ (if w.off_epoch_active then w.seq else u32 (w.seq + 1)))
      × (w'.seq ≡ c.seq)
      × (w'.off_epoch_active ≡ true)
      × (w'.inflight ≡ true)
      × (c.mapping ≡ mapping w)

  send_off-Numbered :
      (w : WatchdogCore R) (now : R)
      → w.inflight_seq ≡ w.seq
      → Numbered w (send_off w now).0 (send_off w now).1
  unfolding send_off
  send_off-Numbered w now h = ground arith

  -- In a sound watchdog an OFF that a step sends is for the mapping in use and carries the number of its epoch, which
  -- is the last number while the epoch goes on; nothing but the first OFF of an epoch changes the
  -- number.
  pub off_step-Numbered :
      (w : WatchdogCore R) (i : Input R) → IsSound w → Numbered w (step w i).0 (step w i).1
  unfolding step
  off_step-Numbered w (leases l now) h = ground (
    arith,
    adopt-kept (record w { mon = (observe w.mon l now).0 }) (actuator_mapping (mapping w)) now,
  )
  off_step-Numbered w (acks seq success now) h = ground arith
  off_step-Numbered w (shuts_down now) h = ground arith
  off_step-Numbered w (ticks now) h =
      let cause = off_reason w.mon now in
      let quiet = note_cause (expire w now) cause now in
      ground (arith, quiet-kept w cause now, send_off-Numbered quiet now)

  send_off-epoch :
      (w : WatchdogCore R) (now : R)
      → let w' = (send_off w now).0 in
        (w'.off_epoch_active ≡ true) × (w.off_epoch_active ≡ true → w'.seq ≡ w.seq)
  unfolding send_off
  send_off-epoch w now = ground arith

  -- While an OFF is required, by the lease or by the mapping, an epoch that goes on is neither ended
  -- nor renumbered by a tick.
  pub epoch_goes_on :
      (w : WatchdogCore R) (now : R)
      → w.off_epoch_active ≡ true
      → (required (off_reason w.mon now) ≡ true) ⊎ (w.mapping_off_required ≡ true)
      → ((tick w now).0.off_epoch_active ≡ true) × ((tick w now).0.seq ≡ w.seq)
  unfolding tick
  epoch_goes_on w now e o =
      let cause = off_reason w.mon now in
      let quiet = note_cause (expire w now) cause now in
      ground (arith, quiet-kept w cause now, send_off-epoch quiet now)
