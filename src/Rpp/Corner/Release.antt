-- ===== src/Rpp/Corner/Release.antt =====
-- When the machine turns, and when it lets the rover go on.
use dyx_3wd.Base.{ℕ, ◌≡◌, ◌⊎◌, Bool, true, false, not, arith, if◌then◌else◌}
use dyx_3wd.Base.Real.{Real}
use dyx_3wd.Rpp.Corner.Stop.{
  at_rest, StopTelemetry, StopPivotParams, StopConfirm, elapsed, satisfied,
}
use dyx_3wd.Rpp.Corner.Ops.{
  tracking, CornerAction, pivots, advances, CornerInput, CornerFsm, go, record_transition,
  watch_pivot, heading_ok, measured_ok, settle, finish, step,
}

-- The action goes on to the next segment, or drives the turn.
abbrev pub is_advance : CornerAction → Bool
is_advance advances = true
is_advance _ = false

abbrev pub is_pivot : CornerAction → Bool
is_pivot pivots = true
is_pivot _ = false

-- Since when the velocity has been stale, counted to this tick.
abbrev pub stale_since : StopConfirm → ℕ → ℕ
stale_since s now = if s.stale then s.stale_ns else now

module _ {R : Type 0} ⦃r : Real R⦄ where
  -- The corner is one at which the rover stops.
  abbrev pub is_corner : CornerFsm R → CornerInput R → Bool
  is_corner f i = not (r.lt i.corner_deg f.params.corner_threshold_deg)

  -- Since when the release gates have held, counted to this tick.
  abbrev pub settled_since : CornerFsm R → CornerInput R → ℕ
  settled_since f i = if f.settle_active then f.settle_since_ns else i.now_ns

  settle-facts :
      (f : CornerFsm R) (i : CornerInput R) (late : Bool)
      → let (f', settled) = settle f i late in
        (f'.stop_complete ≡ f.stop_complete)
        × (f'.stop ≡ f.stop)
        × (f'.state ≡ f.state)
        × (f'.params ≡ f.params)
        × (settled ≡ true
            → (f.stop_complete ≡ true)
              × (heading_ok f.params i late ≡ true)
              × (measured_ok f.params i late ≡ true)
              × (r.le f.params.align_settle_s (elapsed i.now_ns (settled_since f i)) ≡ true))
        × (f'.settle_active ≡ true → f.stop_complete ≡ true)
  unfolding settle
  settle-facts f i late = ground arith

  finish-facts :
      (f : CornerFsm R) (i : CornerInput R) (late settled : Bool)
      → let (f', out) = finish f i late settled in
        (is_advance out.action ≡ true → settled ≡ true)
        × (is_pivot out.action ≡ true
            → (f'.stop_complete ≡ true)
              × ((f.stop_complete ≡ true) ⊎ ((satisfied f.stop i.now_ns i.tel f.params).1 ≡ true)))
  unfolding finish go record_transition
  finish-facts f i late settled = ground arith

  -- At a corner the machine goes on only once the stop is complete and the heading, the speed and the
  -- yaw rate have passed their release gates since the settling time at least; what it keeps is then
  -- reset, so that the next corner needs a stop of its own.
  pub advance_needs_release :
      (f : CornerFsm R) (i : CornerInput R)
      → is_corner f i ≡ true
      → is_advance (step f i).1.action ≡ true
      → let late = (watch_pivot f i).1 in
        (f.stop_complete ≡ true)
        × (heading_ok f.params i late ≡ true)
        × (measured_ok f.params i late ≡ true)
        × (r.le f.params.align_settle_s (elapsed i.now_ns (settled_since f i)) ≡ true)
        × ((step f i).0.stop_complete ≡ false)
        × ((step f i).0.state ≡ tracking)
  unfolding step finish
  advance_needs_release f i c a =
      let (watchdog, late) = watch_pivot f i in
      let g = record f { pivot = watchdog } in
      let (g', settled) = settle g i late in
      ground (arith, settle-facts g i late, finish-facts g' i late settled)

  -- A fresh measurement that shows rest, or none for the time allowed.
  abbrev pub IsStopped : StopConfirm → ℕ → StopTelemetry R → StopPivotParams R → Type 0
  IsStopped s now t p =
      ((t.vel_fresh ≡ true) × (at_rest t p ≡ true))
      ⊎ ((t.vel_fresh ≡ false) × (r.le p.stale_vel_hold_s (elapsed now (stale_since s now)) ≡ true))

  satisfied-IsStopped :
      (s : StopConfirm) (now : ℕ) (t : StopTelemetry R) (p : StopPivotParams R)
      → (satisfied s now t p).1 ≡ true
      → IsStopped s now t p
  unfolding satisfied
  satisfied-IsStopped s now t p h = ground arith

  -- The machine turns in place only at a corner, once the stop is complete: it was before, or this tick
  -- confirms it by a fresh measurement of rest or by a measurement that is stale for the time allowed.
  pub turn_needs_stop :
      (f : CornerFsm R) (i : CornerInput R)
      → is_pivot (step f i).1.action ≡ true
      → (is_corner f i ≡ true)
        × ((step f i).0.stop_complete ≡ true)
        × ((f.stop_complete ≡ true) ⊎ IsStopped f.stop i.now_ns i.tel f.params)
  unfolding step
  turn_needs_stop f i a =
      let (watchdog, late) = watch_pivot f i in
      let g = record f { pivot = watchdog } in
      let (g', settled) = settle g i late in
      ground (
        arith,
        settle-facts g i late,
        finish-facts g' i late settled,
        satisfied-IsStopped f.stop i.now_ns i.tel f.params,
      )
