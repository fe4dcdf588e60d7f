-- ===== src/Examples/Sequencer.antt =====
-- The PX4 sequencer's theorems at an execution whose arm request times out.
use dyx_3wd.Base.{ℕ, ◌*◌, ◌≡◌, refl, true, false, List, [], ◌∷◌, arith}
use dyx_3wd.Base.Trace.{after}
use dyx_3wd.Mission.Sequencer.Types.{arm, offboard_on, Timeouts, Sequencer, is_disarm, any}
use dyx_3wd.Mission.Sequencer.Ops.{initial, release, step, Call, engages, releases, sends, ticks}
use dyx_3wd.Mission.Sequencer.Ownership.{may_have_armed, armed_is_disarmed}
use dyx_3wd.Mission.Sequencer.Release.{
  IsSound, history, sequencer_history-IsSound, Releases, release_engages_nothing,
}

-- Timeouts of 3 and 2 seconds.
abbrev limits : Timeouts ℕ
limits = record { arm_s = 3; offboard_s = 2 }

abbrev to_ns : ℕ → ℕ
to_ns s = s * 1000

-- The arm is sent at 10, times out at 3010, and OFFBOARD is sent after it.
abbrev engagement : List Call
engagement = sends 3020 ∷ ticks 3010 ∷ sends 20 ∷ sends 10 ∷ engages offboard_on ∷ engages arm ∷ []

abbrev reached_state : Sequencer ℕ
reached_state = history to_ns limits engagement

armed_is_disarmed_example : any is_disarm (release reached_state false).queue ≡ true
unfolding after initial step may_have_armed
armed_is_disarmed_example =
    armed_is_disarmed to_ns (initial limits) engagement false (ground arith) (ground arith) refl

sequencer_history-IsSound_example : IsSound reached_state
sequencer_history-IsSound_example = sequencer_history-IsSound to_ns limits engagement

release_engages_nothing_example :
    Releases
      (step to_ns
        (history to_ns limits (engages arm ∷ releases false ∷ engagement))
        (sends 3030)).1.request
unfolding after initial step
release_engages_nothing_example =
    release_engages_nothing to_ns (history to_ns limits (releases false ∷ engagement))
      (engages arm ∷ []) (sends 3030)
      (sequencer_history-IsSound to_ns limits (releases false ∷ engagement)) refl (ground arith)
