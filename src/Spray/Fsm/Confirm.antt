-- ===== src/Spray/Fsm/Confirm.antt =====
-- What confirms the valve's state.
use dyx_3wd.Base.{◌≡◌, ◌⊎◌, Bool, true, false, not, ◌&&◌, ◌||◌, List, [], ◌∷◌, arith, ◌==◌}
use dyx_3wd.Base.Real.{Real}
use dyx_3wd.Base.Trace.{after}
use dyx_3wd.Spray.Fsm.Types.{
  State, off_confirmed, on_pending, on_confirmed, off_pending, Params, SprayFsm, initial,
}
use dyx_3wd.Spray.Fsm.Ops.{Input, ticks, acks, resets, step, check_pending_timeout, edges, drive}
use dyx_3wd.Spray.Fsm.Tick.{tick_cases}
use dyx_3wd.Spray.Fsm.Safety.{opens, open_needs}

-- The states that rest on a confirmed OFF.
abbrev pub rests : State → Bool
rests off_confirmed = true
rests on_pending = true
rests on_confirmed = true
rests _ = false

abbrev pub awaits_off : State → Bool
awaits_off off_pending = true
awaits_off _ = false

module _ {R : Type 0} ⦃r : Real R⦄ where
  -- The input is the success answer to the last command.
  abbrev pub confirms : SprayFsm R → Input R → Bool
  confirms m (acks seq success now) = seq == m.seq && success
  confirms m _ = false

  -- The input enables a machine that was disabled.
  abbrev pub enables : SprayFsm R → Input R → Bool
  enables m (ticks _ _ enabled _) = enabled && not m.prev_enabled
  enables m _ = false

  check-rests :
      (m : SprayFsm R) (now : R)
      → rests (check_pending_timeout m now).0.state ≡ true
      → (check_pending_timeout m now).0.state ≡ m.state
  unfolding check_pending_timeout
  check-rests m now h = ground arith

  drive-rests :
      (m : SprayFsm R) (desired safety_ok enabled : Bool) (now : R)
      → rests (drive m desired safety_ok enabled now).0.state ≡ true
      → (rests m.state ≡ true)
        × ((drive m desired safety_ok enabled now).0.state ≡ on_confirmed → m.state ≡ on_confirmed)
  unfolding drive
  drive-rests m desired safety_ok enabled now h = ground arith

  edges-rests :
      (m : SprayFsm R) (enabled safety_ok : Bool) (now : R)
      → rests (edges m enabled safety_ok now).state ≡ true
      → ((edges m enabled safety_ok now).state ≡ m.state)
        × ((enabled && not m.prev_enabled) ≡ false)
  unfolding edges
  edges-rests m enabled safety_ok now h = ground arith

  -- A state that rests on a confirmed OFF is kept from before, or is reached by the answer to an OFF.
  abbrev Rested : SprayFsm R → Input R → SprayFsm R → Type 0
  Rested m i m' =
      rests m'.state ≡ true
      → ((rests m.state ≡ true) × (enables m i ≡ false))
        ⊎ ((m.state ≡ off_pending) × (confirms m i ≡ true))

  step-Rested : (m : SprayFsm R) (i : Input R) → Rested m i (step m i).0
  unfolding step
  step-Rested m (ticks desired safety_ok enabled now) =
      let m₁ = edges m enabled safety_ok now in
      tick_cases m desired safety_ok enabled now
        (λ s. Rested m (ticks desired safety_ok enabled now) s.0)
        (λ c e h. ground (arith, check-rests m₁ now h, edges-rests m enabled safety_ok now))
        λ e h. ground (
          arith,
          drive-rests (check_pending_timeout m₁ now).0 desired safety_ok enabled now h,
          check-rests m₁ now,
          edges-rests m enabled safety_ok now,
        )
  step-Rested m (acks seq success now) = ground arith
  step-Rested m (resets now) = ground arith

  -- ON_CONFIRMED is entered only by the success answer to the ON command that is awaited.
  pub spraying_needs_ack :
      (m : SprayFsm R) (i : Input R)
      → (step m i).0.state ≡ on_confirmed
      → (m.state ≡ on_confirmed) ⊎ ((m.state ≡ on_pending) × (confirms m i ≡ true))
  unfolding step
  spraying_needs_ack m (ticks desired safety_ok enabled now) =
      let m₁ = edges m enabled safety_ok now in
      tick_cases m desired safety_ok enabled now
        (λ s.
          s.0.state ≡ on_confirmed
          → (m.state ≡ on_confirmed)
            ⊎ ((m.state ≡ on_pending) × (confirms m (ticks desired safety_ok enabled now) ≡ true)))
        (λ c e h. ground (arith, check-rests m₁ now, edges-rests m enabled safety_ok now))
        λ e h. ground (
          arith,
          drive-rests (check_pending_timeout m₁ now).0 desired safety_ok enabled now,
          check-rests m₁ now,
          edges-rests m enabled safety_ok now,
        )
  spraying_needs_ack m (acks seq success now) = ground arith
  spraying_needs_ack m (resets now) = ground arith

  module _ (p : Params R) where
    -- The machine after the calls, the latest first.
    abbrev pub history : List (Input R) → SprayFsm R
    history = after (λ m i. (step m i).0) (initial p)

    -- Since the machine was last enabled, an awaited OFF was answered with success.
    unfoldable pub off_answered : List (Input R) → Bool
    off_answered [] = false
    off_answered (i ∷ is) =
        not (enables (history is) i)
        && (off_answered is || (awaits_off (history is).state && confirms (history is) i))

    rests_needs_off :
        (is : List (Input R)) → rests (history is).state ≡ true → off_answered is ≡ true
    unfolding after initial off_answered
    rests_needs_off [] h = ground arith
    rests_needs_off (i ∷ is) h = ground (arith, step-Rested (history is) i h, rests_needs_off is)

    -- While the machine is in OFF_CONFIRMED, ON_PENDING or ON_CONFIRMED, and whenever the next call
    -- dispatches an ON, an awaited OFF was answered with success since the machine was last enabled.
    pub on_needs_off :
        (is : List (Input R)) (i : Input R)
        → (rests (history is).state || opens (step (history is) i).1) ≡ true
        → off_answered is ≡ true
    on_needs_off is i h = ground (arith, rests_needs_off is, open_needs (history is) i, h)
