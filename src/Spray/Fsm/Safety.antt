-- ===== src/Spray/Fsm/Safety.antt =====
-- When the valve may open, and that it closes.
use dyx_3wd.Base.{
  ◌+◌, ◌≡◌, ◌⊎◌, ◌∙◌, subst, Bool, true, false, not, ◌&&◌, Option, none, some, arith, u32,
  if◌then◌else◌,
}
use dyx_3wd.Base.Real.{Real}
use dyx_3wd.Spray.Fsm.Types.{
  State, off_unconfirmed, off_confirmed, on_pending, off_pending, Command, SprayFsm, commanded,
}
use dyx_3wd.Spray.Fsm.Ops.{
  Step, tick, Input, ticks, acks, resets, step, check_pending_timeout, edges, drive,
}
use dyx_3wd.Spray.Fsm.Tick.{tick_cases}

-- The command opens, or closes, the valve.
abbrev pub opens : Option Command → Bool
opens none = false
opens (some c) = c.on

abbrev pub closes : Option Command → Bool
closes none = false
closes (some c) = not c.on

-- An ON command is out, or nothing is known of the valve.
abbrev at_risk : State → Bool
at_risk off_unconfirmed = true
at_risk s = commanded s

module _ {R : Type 0} ⦃r : Real R⦄ where
  -- The tick asks for spray, with the safety gates passing and the machine enabled.
  abbrev pub asks : Input R → Bool
  asks (ticks desired safety_ok enabled now) = desired && safety_ok && enabled
  asks _ = false

  edges-state :
      (m : SprayFsm R) (enabled safety_ok : Bool) (now : R)
      → ((edges m enabled safety_ok now).state ≡ m.state)
        ⊎ ((edges m enabled safety_ok now).state ≡ off_unconfirmed)
  unfolding edges
  edges-state m enabled safety_ok now = ground arith

  check-quiet :
      (m : SprayFsm R) (now : R)
      → let (m', sent) = check_pending_timeout m now in
        (opens sent ≡ false) × (m'.state ≡ off_confirmed → m.state ≡ off_confirmed)
  unfolding check_pending_timeout
  check-quiet m now = ground arith

  drive-opens :
      (m : SprayFsm R) (desired safety_ok enabled : Bool) (now : R)
      → opens (drive m desired safety_ok enabled now).1 ≡ true
      → ((desired && safety_ok && enabled) ≡ true) × (m.state ≡ off_confirmed)
  unfolding drive
  drive-opens m desired safety_ok enabled now h = ground arith

  -- An ON command goes out only in a tick that asks for spray with the safety gates passing and the
  -- machine enabled, and only from a confirmed OFF.
  pub open_needs :
      (m : SprayFsm R) (i : Input R)
      → opens (step m i).1 ≡ true
      → (asks i ≡ true) × (m.state ≡ off_confirmed)
  unfolding step
  open_needs m (ticks desired safety_ok enabled now) =
      let m₁ = edges m enabled safety_ok now in
      let quiet = check-quiet m₁ now in
      tick_cases m desired safety_ok enabled now
        (λ s.
          opens s.1 ≡ true → ((desired && safety_ok && enabled) ≡ true) × (m.state ≡ off_confirmed))
        (λ c e h. ground arith)
        λ _ h. ground (
          arith,
          drive-opens (check_pending_timeout m₁ now).0 desired safety_ok enabled now h,
          edges-state m enabled safety_ok now,
        )
  open_needs m (acks seq success now) = ground arith
  open_needs m (resets now) = ground arith

  -- A step that sends nothing keeps the sequence number; a command carries the next one, and leaves
  -- the machine waiting for its answer.
  abbrev pub Numbered : SprayFsm R → Step R → Type 0
  Numbered m (m', none) = m'.seq ≡ m.seq
  Numbered m (m', some c) =
      (m'.seq ≡ u32 (m.seq + 1))
      × (c.seq ≡ m'.seq)
      × (m'.state ≡ (if c.on then on_pending else off_pending))
      × (m'.have_pending ≡ true)

  edges-seq :
      (m : SprayFsm R) (enabled safety_ok : Bool) (now : R)
      → (edges m enabled safety_ok now).seq ≡ m.seq
  unfolding edges
  edges-seq m enabled safety_ok now = ground arith

  check-Numbered : (m : SprayFsm R) (now : R) → Numbered m (check_pending_timeout m now)
  unfolding check_pending_timeout
  check-Numbered m now = ground arith

  drive-Numbered :
      (m : SprayFsm R) (desired safety_ok enabled : Bool) (now : R)
      → Numbered m (drive m desired safety_ok enabled now)
  unfolding drive
  drive-Numbered m desired safety_ok enabled now = ground arith

  Numbered-via : (m m' : SprayFsm R) (s : Step R) → m'.seq ≡ m.seq → Numbered m' s → Numbered m s
  Numbered-via m m' (m'', none) e h = h ∙ e
  Numbered-via m m' (m'', some c) e h = ground arith

  -- Every command of every call carries the next sequence number and is then awaited; a call without
  -- a command keeps the number.
  pub spray_step-Numbered : (m : SprayFsm R) (i : Input R) → Numbered m (step m i)
  unfolding step
  spray_step-Numbered m (ticks desired safety_ok enabled now) =
      let m₁ = edges m enabled safety_ok now in
      let m₂ = (check_pending_timeout m₁ now).0 in
      let kept = edges-seq m enabled safety_ok now in
      let checked = check-Numbered m₁ now in
      tick_cases m desired safety_ok enabled now (Numbered m)
        (λ c e. Numbered-via m m₁ (m₂, some c) kept (subst (λ o. Numbered m₁ (m₂, o)) e checked))
        λ e.
          Numbered-via m m₂ (drive m₂ desired safety_ok enabled now)
            (subst (λ o. Numbered m₁ (m₂, o)) e checked ∙ kept)
            (drive-Numbered m₂ desired safety_ok enabled now)
  spray_step-Numbered m (acks seq success now) = ground arith
  spray_step-Numbered m (resets now) = ground arith

  check-at_risk :
      (m : SprayFsm R) (now : R)
      → let (m', sent) = check_pending_timeout m now in
        (closes sent ≡ true → m'.state ≡ off_pending)
        × (opens sent ≡ false)
        × (at_risk m.state ≡ true → sent ≡ none → at_risk m'.state ≡ true)
  unfolding check_pending_timeout
  check-at_risk m now = ground arith

  drive-closes :
      (m : SprayFsm R) (desired safety_ok enabled : Bool) (now : R)
      → (safety_ok && enabled) ≡ false
      → let (m', sent) = drive m desired safety_ok enabled now in
        (commanded m'.state ≡ false) × (at_risk m.state ≡ true → closes sent ≡ true)
  unfolding drive
  drive-closes m desired safety_ok enabled now h = ground arith

  -- A tick that finds the safety gates failing or the machine disabled leaves the valve commanded
  -- off; if it was commanded on, the OFF goes out in that very tick.
  pub failing_gates_close :
      (m : SprayFsm R) (desired safety_ok enabled : Bool) (now : R)
      → (safety_ok && enabled) ≡ false
      → let (m', sent) = tick m desired safety_ok enabled now in
        (commanded m'.state ≡ false) × (commanded m.state ≡ true → closes sent ≡ true)
  failing_gates_close m desired safety_ok enabled now h =
      let m₁ = edges m enabled safety_ok now in
      tick_cases m desired safety_ok enabled now
        (λ s. (commanded s.0.state ≡ false) × (commanded m.state ≡ true → closes s.1 ≡ true))
        (λ c e. ground (arith, check-at_risk m₁ now))
        λ e. ground (
          arith,
          check-at_risk m₁ now,
          edges-state m enabled safety_ok now,
          drive-closes (check_pending_timeout m₁ now).0 desired safety_ok enabled now h,
        )
