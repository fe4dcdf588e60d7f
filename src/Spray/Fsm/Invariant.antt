-- ===== src/Spray/Fsm/Invariant.antt =====
-- What holds of the machine between two calls.
use dyx_3wd.Base.{◌≡◌, Bool, true, false, not, List, arith, subst, ◌∙◌}
use dyx_3wd.Base.Real.{Real}
use dyx_3wd.Base.Trace.{after, after_inv}
use dyx_3wd.Spray.Fsm.Types.{
  State, on_pending, off_pending, recovery, disabled, Params, SprayFsm, initial,
}
use dyx_3wd.Spray.Fsm.Tick.{tick_cases}
use dyx_3wd.Spray.Fsm.Ops.{
  tick, Input, ticks, acks, resets, step, check_pending_timeout, edges, drive,
}

abbrev pub is_pending : State → Bool
is_pending on_pending = true
is_pending off_pending = true
is_pending _ = false

module _ {R : Type 0} ⦃r : Real R⦄ where
  -- A command is awaited exactly in the pending states, a recovery has a deadline, the machine is
  -- disabled exactly while the last tick said so, and DISABLED is a state of a disabled machine.
  pub record IsSound (m : SprayFsm R) : Type 0 where
    pub pending : m.have_pending ≡ is_pending m.state
    pub deadline : m.state ≡ recovery → m.have_deadline ≡ true
    pub flag : m.disabled ≡ not m.prev_enabled
    pub off : m.state ≡ disabled → m.disabled ≡ true

  pub initial-IsSound : (p : Params R) → IsSound (initial p)
  unfolding initial
  initial-IsSound p = ground arith

  edges-IsSound :
      (m : SprayFsm R) (enabled safety_ok : Bool) (now : R)
      → IsSound m
      → let m' = edges m enabled safety_ok now in IsSound m' × (m'.prev_enabled ≡ enabled)
  unfolding edges
  edges-IsSound m enabled safety_ok now h = ground arith

  check-IsSound :
      (m : SprayFsm R) (now : R)
      → IsSound m
      → let m' = (check_pending_timeout m now).0 in IsSound m' × (m'.prev_enabled ≡ m.prev_enabled)
  unfolding check_pending_timeout
  check-IsSound m now h = ground arith

  drive-IsSound :
      (m : SprayFsm R) (desired safety_ok : Bool) (now : R)
      → IsSound m
      → IsSound (drive m desired safety_ok m.prev_enabled now).0
  unfolding drive
  drive-IsSound m desired safety_ok now h = ground arith

  tick-IsSound :
      (m : SprayFsm R) (desired safety_ok enabled : Bool) (now : R)
      → IsSound m
      → IsSound (tick m desired safety_ok enabled now).0
  tick-IsSound m desired safety_ok enabled now h =
      let m₁ = edges m enabled safety_ok now in
      let (sound₁, prev₁) = edges-IsSound m enabled safety_ok now h in
      let (sound₂, prev₂) = check-IsSound m₁ now sound₁ in
      tick_cases m desired safety_ok enabled now (λ s. IsSound s.0) (λ c _. sound₂)
        λ _.
          subst (λ e. IsSound (drive (check_pending_timeout m₁ now).0 desired safety_ok e now).0)
            (prev₂ ∙ prev₁) (drive-IsSound _ desired safety_ok now sound₂)

  pub step-IsSound : (m : SprayFsm R) (i : Input R) → IsSound m → IsSound (step m i).0
  unfolding step
  step-IsSound m (ticks desired safety_ok enabled now) h = tick-IsSound m _ _ _ now h
  step-IsSound m (acks seq success now) h = ground arith
  step-IsSound m (resets now) h = ground arith

  -- After every history of calls the machine is sound.
  pub spray_history-IsSound :
      (p : Params R) (is : List (Input R)) → IsSound (after (λ m i. (step m i).0) (initial p) is)
  spray_history-IsSound p = after_inv _ (initial p) IsSound (initial-IsSound p) step-IsSound
