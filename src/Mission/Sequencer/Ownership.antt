-- ===== src/Mission/Sequencer/Ownership.antt =====
-- The disarm of what an execution armed or may have armed.
use dyx_3wd.Base.{ℕ, ◌≡◌, ◌≢◌, Bool, true, false, ◌&&◌, ◌||◌, List, [], ◌∷◌, All, arith, ◌==◌}
use dyx_3wd.Base.Trace.{after}
use dyx_3wd.Mission.Sequencer.Types.{
  Px4Result, ok, refused, timeout, arm_reason_timeout, Outcome, Flight, Sequencer, is_arm,
  is_disarm, any,
}
use dyx_3wd.Mission.Sequencer.Ops.{release, expire, note_arm_result, step, Call, begins, ticks}

-- PX4 armed or may have: the arm was confirmed, timed out, or was refused for a timeout.
abbrev pub may_arm : Outcome → Bool
may_arm o = is_arm o.op && arms o.result
  where
    arms : Px4Result → Bool
    arms ok = true
    arms timeout = true
    arms refused = o.reason_code == arm_reason_timeout

expire-owns :
    {R : Type 0} (fs : List Flight) (s : Sequencer R) (now : ℕ)
    → (s.armed_earlier || any may_arm (expire fs s now).1) ≡ true
    → (expire fs s now).0.armed_earlier ≡ true
unfolding expire
expire-owns [] s now h = ground arith
expire-owns (f ∷ fs) s now h =
    ground (arith, expire-owns fs s now, expire-owns fs (note_arm_result s timeout 0) now)

step-owns :
    {R : Type 0} (to_ns : R → ℕ) (s : Sequencer R) (c : Call)
    → c ≢ begins
    → (s.armed_earlier || any may_arm (step to_ns s c).1.outcomes) ≡ true
    → (step to_ns s c).0.armed_earlier ≡ true
unfolding step
step-owns to_ns s (ticks now) b h = expire-owns s.flights s now h
step-owns to_ns s _ b h = ground arith

module _ {R : Type 0} (to_ns : R → ℕ) (s : Sequencer R) where
  -- The sequencer after the calls of an execution, the latest first.
  abbrev pub reached : List Call → Sequencer R
  reached = after (λ t c. (step to_ns t c).0) s

  -- An outcome of these calls says that PX4 armed or may have.
  unfoldable pub may_have_armed : List Call → Bool
  may_have_armed [] = false
  may_have_armed (c ∷ cs) = may_have_armed cs || any may_arm (step to_ns (reached cs) c).1.outcomes

  reached-owns :
      (cs : List Call)
      → All (λ c. c ≢ begins) cs
      → may_have_armed cs ≡ true
      → (reached cs).armed_earlier ≡ true
  unfolding after may_have_armed
  reached-owns [] b h = cc
  reached-owns (c ∷ cs) b h =
      ground (arith, reached-owns cs b.1, step-owns to_ns (reached cs) c b.0)

  -- If an outcome since the execution began (no `begin_execution` in between) says that the vehicle
  -- armed or may have, the release queues a disarm, whatever came later.
  pub armed_is_disarmed :
      (cs : List Call) (force : Bool)
      → All (λ c. c ≢ begins) cs
      → may_have_armed cs ≡ true
      → (reached cs).releasing ≡ false
      → any is_disarm (release (reached cs) force).queue ≡ true
  unfolding release
  armed_is_disarmed cs force b h r = ground (arith, reached-owns cs b h)
