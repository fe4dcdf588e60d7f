-- ===== src/Spray/Fsm/Tick.antt =====
-- The cases of a tick: it ends in the time-out check or in the drive.
use dyx_3wd.Base.{◌≡◌, Bool, none, some, inl, inr, Option-cases}
use dyx_3wd.Base.Real.{Real}
use dyx_3wd.Spray.Fsm.Types.{Command, SprayFsm}
use dyx_3wd.Spray.Fsm.Ops.{Step, tick, edges, check_pending_timeout, drive}

module _ {R : Type 0} ⦃r : Real R⦄ (m : SprayFsm R) (desired safety_ok enabled : Bool)
    (now : R) where
  pub tick_cases :
      (P : Step R → Type 0)
      → let (m', sent) = check_pending_timeout (edges m enabled safety_ok now) now in
        ((c : Command) → sent ≡ some c → P (m', some c))
        → (sent ≡ none → P (drive m' desired safety_ok enabled now))
        → P (tick m desired safety_ok enabled now)
  unfolding tick
  tick_cases P timed_out driven =
      elim (Option-cases (check_pending_timeout (edges m enabled safety_ok now) now).1) [
        | inl e ↦ rw (e, tick) (driven e)
        | inr (c, e) ↦ rw (e, tick) (timed_out c e)
      ]
