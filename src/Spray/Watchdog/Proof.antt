-- ===== src/Spray/Watchdog/Proof.antt =====
-- What proves that an OFF reached the mapping in use.
use dyx_3wd.Base.{◌≡◌, ◌⊎◌, Bool, true, false, not, ◌&&◌, List, [], ◌∷◌, none, some, arith, ◌==◌}
use dyx_3wd.Base.Real.{Real}
use dyx_3wd.Base.Trace.{after}
use dyx_3wd.Spray.Lease.{
  Lease, ActuatorMapping, actuator_mapping, same_actuator_mapping, validate_lease, observe,
  off_reason, OffCause,
}
use dyx_3wd.Spray.Watchdog.Ops.{
  WatchdogCore, mapping, matches, on_lease, status, adopt, expire, note_cause, send_off,
}
use dyx_3wd.Spray.Watchdog.Safety.{Input, leases, acks, shuts_down, ticks, step}

module _ {R : Type 0} ⦃r : Real R⦄ where
  -- The answer proves the OFF of the mapping in use.
  abbrev pub proves : WatchdogCore R → Input R → Bool
  proves w (acks seq success now) =
      w.inflight
      && seq == w.inflight_seq
      && success
      && matches w.inflight_mapping (actuator_mapping (mapping w))
  proves w _ = false

  -- What the parts of `tick` that send nothing leave alone.
  pub quiet-kept :
      (w : WatchdogCore R) (cause : OffCause) (now : R)
      → let w' = note_cause (expire w now) cause now in
        (w'.mapping_off_required ≡ w.mapping_off_required)
        × (w'.off_epoch_active ≡ w.off_epoch_active)
        × (w'.seq ≡ w.seq)
        × (w'.inflight_seq ≡ w.inflight_seq)
        × (w'.mon ≡ w.mon)
        × (w'.fallback ≡ w.fallback)
        × ((w'.off_confirmed_mapping ≡ w.off_confirmed_mapping) ⊎ (w'.off_confirmed_mapping ≡ none))
  unfolding expire note_cause
  quiet-kept w cause now = ground arith

  send_off-kept :
      (w : WatchdogCore R) (now : R)
      → let w' = (send_off w now).0 in
        (w'.mapping_off_required ≡ w.mapping_off_required)
        × ((w'.off_confirmed_mapping ≡ w.off_confirmed_mapping) ⊎ (w'.off_confirmed_mapping ≡ none))
  unfolding send_off
  send_off-kept w now = ground arith

  pub adopt-kept :
      (w : WatchdogCore R) (previous : ActuatorMapping R) (now : R)
      → let w' = adopt w previous now in
        (w.mapping_off_required ≡ true → w'.mapping_off_required ≡ true)
        × ((w'.off_confirmed_mapping ≡ w.off_confirmed_mapping) ⊎ (w'.off_confirmed_mapping ≡ none))
        × (w'.seq ≡ w.seq)
  unfolding adopt
  adopt-kept w previous now = ground arith

  step-required :
      (w : WatchdogCore R) (i : Input R)
      → proves w i ≡ false
      → w.mapping_off_required ≡ true
      → (step w i).0.mapping_off_required ≡ true
  unfolding step
  step-required w (leases l now) p h = ground (
    arith,
    adopt-kept (record w { mon = (observe w.mon l now).0 }) (actuator_mapping (mapping w)) now,
  )
  step-required w (acks seq success now) p h = ground arith
  step-required w (shuts_down now) p h = ground arith
  step-required w (ticks now) p h =
      let cause = off_reason w.mon now in
      ground
        (arith, quiet-kept w cause now, send_off-kept (note_cause (expire w now) cause now) now)

  -- After any call a confirmed mapping was confirmed before it, or the call is the success answer to
  -- the awaited OFF of the mapping in use, which is the one confirmed.
  pub proof_needs_ack :
      (w : WatchdogCore R) (i : Input R) {a : ActuatorMapping R}
      → (step w i).0.off_confirmed_mapping ≡ some a
      → (w.off_confirmed_mapping ≡ some a)
        ⊎ ((proves w i ≡ true) × (a ≡ actuator_mapping (mapping w)))
  unfolding step
  proof_needs_ack w (leases l now) h = ground (
    arith,
    adopt-kept (record w { mon = (observe w.mon l now).0 }) (actuator_mapping (mapping w)) now,
  )
  proof_needs_ack w (acks seq success now) h = ground arith
  proof_needs_ack w (shuts_down now) h = ground arith
  proof_needs_ack w (ticks now) h =
      let cause = off_reason w.mon now in
      ground
        (arith, quiet-kept w cause now, send_off-kept (note_cause (expire w now) cause now) now)

  -- The lease gives another mapping than the one in use.
  abbrev pub remaps : WatchdogCore R → Lease R → Bool
  remaps w l = not (same_actuator_mapping (actuator_mapping (mapping w)) (actuator_mapping l))

  abbrev pub Unproved : WatchdogCore R → List (Input R) → Type 0
  Unproved w [] = Unit
  Unproved w (i ∷ is) = (proves (after (λ v j. (step v j).0) w is) i ≡ false) × Unproved w is

  remap-required :
      (w : WatchdogCore R) (l : Lease R) (now : R)
      → validate_lease l ≡ none
      → r.finite now ≡ true
      → remaps w l ≡ true
      → (on_lease w l now).mapping_off_required ≡ true
  unfolding on_lease observe adopt
  remap-required w l now v f c = ground arith

  Unproved-required :
      (w : WatchdogCore R) (is : List (Input R))
      → Unproved w is
      → w.mapping_off_required ≡ true
      → (after (λ v j. (step v j).0) w is).mapping_off_required ≡ true
  unfolding after
  Unproved-required w [] u h = h
  Unproved-required w (i ∷ is) u h = step-required _ i u.0 (Unproved-required w is u.1 h)

  -- After a valid lease with another mapping the status allows nothing, through any calls (the latest
  -- first) and leases, until an OFF of the mapping in use is answered with success.
  pub new_mapping_needs_proof :
      (w : WatchdogCore R) (l : Lease R) (now later : R) (is : List (Input R))
      → validate_lease l ≡ none
      → r.finite now ≡ true
      → remaps w l ≡ true
      → Unproved (on_lease w l now) is
      → (status (after (λ v j. (step v j).0) (on_lease w l now) is) later).allow_on ≡ false
  unfolding status
  new_mapping_needs_proof w l now later is v f c u =
      ground (arith, Unproved-required (on_lease w l now) is u (remap-required w l now v f c))
