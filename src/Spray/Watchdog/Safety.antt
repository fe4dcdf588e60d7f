-- ===== src/Spray/Watchdog/Safety.antt =====
-- When the watchdog lets the valve open, and what proves it closed.
use dyx_3wd.Base.{
  ℕ, ◌≡◌, ◌≢◌, ◌⊎◌, inl, inr, refl, ap, Bool, true, false, Option, none, some, arith, Bool-cases,
}
use dyx_3wd.Base.Real.{Real, zero_real}
use dyx_3wd.Spray.Lease.{
  Lease, ActuatorMapping, InvalidReason, now_not_finite, faulty, Fault, invalidate, LeaseMonitor,
  actuator_mapping, validate_lease, observe, off_reason, OffCause, required,
}
use dyx_3wd.Spray.Watchdog.Ops.{
  OffCommand, WatchdogCore, mapping, on_lease, on_ack, begin_shutdown, tick, status, adopt, expire,
  note_cause, send_off,
}

-- The calls of the watchdog's node.
pub data Input (R : Type 0) : Type 0 where
  leases : Lease R → R → Input R
  acks : ℕ → Bool → R → Input R
  shuts_down : R → Input R
  ticks : R → Input R

module _ {R : Type 0} ⦃r : Real R⦄ where
  unfoldable pub step : WatchdogCore R → Input R → WatchdogCore R × Option (OffCommand R)
  unfolding on_lease on_ack begin_shutdown tick
  step w (leases l now) = (on_lease w l now, none)
  step w (acks seq success now) = (on_ack w seq success now, none)
  step w (shuts_down now) = (begin_shutdown w now, none)
  step w (ticks now) = tick w now

  -- A mapping that still wants an OFF has no proof; an awaited answer has its mapping; the awaited
  -- number is the last one.
  pub record IsSound (w : WatchdogCore R) : Type 0 where
    pub unproven : w.mapping_off_required ≡ true → w.off_confirmed_mapping ≡ none
    pub awaited : w.inflight ≡ false → w.inflight_mapping ≡ none
    pub numbered : w.inflight_seq ≡ w.seq

  adopt-IsSound :
      (w : WatchdogCore R) (previous : ActuatorMapping R) (now : R)
      → IsSound w
      → IsSound (adopt w previous now)
  unfolding adopt
  adopt-IsSound w previous now h = ground arith

  quiet-IsSound :
      (w : WatchdogCore R) (cause : OffCause) (now : R)
      → IsSound w
      → IsSound (note_cause (expire w now) cause now)
  unfolding expire note_cause
  quiet-IsSound w cause now h = ground arith

  send_off-IsSound : (w : WatchdogCore R) (now : R) → IsSound w → IsSound (send_off w now).0
  unfolding send_off
  send_off-IsSound w now h = ground arith

  -- Every call keeps the watchdog sound: a mapping that still wants an OFF has no proof, without an
  -- awaited answer there is no awaited mapping, and the awaited number is the last one.
  pub watchdog_step-IsSound : (w : WatchdogCore R) (i : Input R) → IsSound w → IsSound (step w i).0
  unfolding step
  watchdog_step-IsSound w (leases l now) h =
      let m = (observe w.mon l now).0 in
      ground (arith, adopt-IsSound (record w { mon = m }) (actuator_mapping (mapping w)) now)
  watchdog_step-IsSound w (acks seq success now) h = ground arith
  watchdog_step-IsSound w (shuts_down now) h = ground arith
  watchdog_step-IsSound w (ticks now) h =
      let quiet = note_cause (expire w now) (off_reason w.mon now) now in
      ground (arith, quiet-IsSound w (off_reason w.mon now) now h, send_off-IsSound quiet now)

  -- The lease says no valid OFF command, or comes at no finite time.
  abbrev pub IsBad : Lease R → R → Type 0
  IsBad l now = ((f : Fault) × (validate_lease l ≡ some f)) ⊎ (r.finite now ≡ false)

  observe-refuses :
      (m : LeaseMonitor R) (l : Lease R) (now : R)
      → IsBad l now
      → (why : InvalidReason) × (observe m l now ≡ (invalidate m why false, some why))
  unfolding observe
  observe-refuses m l now bad = elim (Bool-cases (r.finite now)) [
    | inr wild ↦ (now_not_finite, rw wild)
    | inl fine ↦ elim bad [ inl (f, e) ↦ (faulty f, rw (fine, e)) | inr wild ↦ cc ]
  ]

  invalid-required :
      (m : LeaseMonitor R) (now : R) → m.invalid ≡ true → required (off_reason m now) ≡ true
  unfolding off_reason
  invalid-required m now h = ground arith

  -- An OFF that is required and due at time 0 is sent by the next tick.
  due-sends :
      (w : WatchdogCore R) (now : R)
      → required (off_reason w.mon now) ≡ true
      → w.next_off_s ≡ zero_real
      → r.le zero_real now ≡ true
      → (tick w now).1 ≢ none
  unfolding tick expire note_cause send_off
  due-sends w now h e d = ground arith

  abbrev revoke : WatchdogCore R → InvalidReason → WatchdogCore R
  revoke w why = record w { mon = invalidate w.mon why false; next_off_s = zero_real }

  on_lease-revoke :
      (w : WatchdogCore R) (l : Lease R) (now : R)
      → IsBad l now
      → (why : InvalidReason) × (on_lease w l now ≡ revoke w why)
  unfolding on_lease
  on_lease-revoke w l now bad =
      let (why, e) = observe-refuses w.mon l now bad in
      (
        why,
        rw (e, on_lease)
            (ap (λ (m : LeaseMonitor R). record w { mon = m; next_off_s = zero_real })
              (ap (λ o. o.0) e)),
      )

  revoke-allows :
      (w : WatchdogCore R) (why : InvalidReason) (later : R)
      → let w' = revoke w why in
        ((status w' later).allow_on ≡ false)
        × (mapping w' ≡ mapping w)
        × (r.le zero_real later ≡ true → (tick w' later).1 ≢ none)
  unfolding status invalidate
  revoke-allows w why later =
      let off = invalid-required (invalidate w.mon why false) later refl in
      (rw off, refl, λ d. due-sends (revoke w why) later off refl d)

  -- A lease that is not valid, or comes at no finite time, revokes ON at once and until the next
  -- lease: the status allows nothing, the OFF mapping is the one before, and the next tick sends OFF
  -- (at a time that is not negative).
  pub bad_lease_revokes :
      (w : WatchdogCore R) (l : Lease R) (now later : R)
      → IsBad l now
      → let w' = on_lease w l now in
        ((status w' later).allow_on ≡ false)
        × (mapping w' ≡ mapping w)
        × (r.le zero_real later ≡ true → (tick w' later).1 ≢ none)
  bad_lease_revokes w l now later bad =
      let (why, e) = on_lease-revoke w l now bad in rw e (revoke-allows w why later)
