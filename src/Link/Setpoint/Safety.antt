-- ===== src/Link/Setpoint/Safety.antt =====
-- What the gate lets through to PX4.
use dyx_3wd.Base.{
  ◌≡◌, ◌⊎◌, ◌≢◌, inl, inr, true, false, not, arith, Bool-cases, subst, sym, ap, refl, if◌then◌else◌,
}
use dyx_3wd.Base.Real.{Real, zero_real}
use dyx_3wd.Link.Setpoint.Ops.{
  to_mode, Mode, stop, track_heading, track_rate, pivot, creep, Command, Setpoint, ok, GateInputs,
  CommandGate, is_ok, Verdict, stop_setpoint, validate, validate_mode, to_setpoint, setpoint_of,
  step, step_command,
}

is_ok_iff : (v : Verdict) → is_ok v ≡ true → v ≡ ok
is_ok_iff v h = ground arith

module _ {R : Type 0} ⦃r : Real R⦄ where
  -- The set of a mode names the quantities that the mode steers by, and no others.
  abbrev pub WellFormed : Setpoint R → Type 0
  WellFormed s = elim s.mode [
    | stop ↦
        (s.speed_body_x ≡ zero_real) × (s.yaw_setpoint ≡ r.nan) × (s.yaw_rate_setpoint ≡ zero_real)
    | track_heading ↦
        (r.finite s.speed_body_x ≡ true)
        × (r.finite s.yaw_setpoint ≡ true)
        × (s.yaw_rate_setpoint ≡ r.nan)
    | pivot ↦
        (s.speed_body_x ≡ zero_real)
        × (s.yaw_setpoint ≡ r.nan)
        × (r.finite s.yaw_rate_setpoint ≡ true)
    | _ ↦
        (r.finite s.speed_body_x ≡ true)
        × (s.yaw_setpoint ≡ r.nan)
        × (r.finite s.yaw_rate_setpoint ≡ true)
  ]

  setpoint_of-WellFormed :
      (m : Mode) (c : Command R) → validate_mode m c ≡ ok → WellFormed (setpoint_of m c)
  unfolding validate_mode setpoint_of stop_setpoint
  setpoint_of-WellFormed stop c h = ground arith
  setpoint_of-WellFormed track_heading c h = ground arith
  setpoint_of-WellFormed track_rate c h = ground arith
  setpoint_of-WellFormed pivot c h = ground arith
  setpoint_of-WellFormed creep c h = ground arith

  accepted : (c : Command R) → is_ok (validate c) ≡ true → validate_mode (to_mode c.mode) c ≡ ok
  unfolding validate
  accepted c h = ground arith

  -- Whatever a command's fields say, the set sent for it is well formed for its mode: the steered
  -- quantities are finite, the others NaN or zero; and a command that breaks the contract is a STOP.
  pub to_setpoint-WellFormed :
      (c : Command R)
      → WellFormed (to_setpoint c) × (validate c ≢ ok → to_setpoint c ≡ stop_setpoint)
  unfolding to_setpoint setpoint_of validate_mode
  to_setpoint-WellFormed c =
      elim (Bool-cases (is_ok (validate c)))
        as (λ _. WellFormed (to_setpoint c) × (validate c ≢ ok → to_setpoint c ≡ stop_setpoint)) [
          | inl is ↦ (
            subst
                (λ b. WellFormed (if not b then stop_setpoint else setpoint_of (to_mode c.mode) c))
                (sym is) (setpoint_of-WellFormed (to_mode c.mode) c (accepted c is)),
            λ no. absurd (no (is_ok_iff _ is)),
          )
          | inr other ↦ (
            subst
                (λ b. WellFormed (if not b then stop_setpoint else setpoint_of (to_mode c.mode) c))
                (sym other) (setpoint_of-WellFormed stop c refl),
            λ _. ap (λ b. if not b then stop_setpoint else setpoint_of (to_mode c.mode) c) other,
          )
        ]

  -- A step that forwards the command has the message formats proven, the session alive, no stale
  -- topic, and a stored command of that sequence number that is not older than allowed and keeps the
  -- contract; every other step sends the STOP set and says why.
  pub step_lem :
      (g : CommandGate R) (i : GateInputs R)
      → let out = (step g i).1 in
        ((out.forwarded ≡ true)
          × (i.handshake_ok ≡ true)
          × (i.session_alive ≡ true)
          × (i.stale_topics_mask ≡ 0)
          × (g.have_cmd ≡ true)
          × (r.lt g.max_age (r.sub i.now_s g.received_s) ≡ false)
          × (validate g.cmd ≡ ok)
          × (out.sp ≡ to_setpoint g.cmd)
          × (out.seq ≡ g.cmd.seq))
        ⊎ ((out.forwarded ≡ false) × (out.failing_to_zero ≡ true) × (out.sp ≡ stop_setpoint))
  unfolding step step_command
  step_lem g i = ground arith
