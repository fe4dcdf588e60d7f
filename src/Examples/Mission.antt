-- ===== src/Examples/Mission.antt =====
-- A mission of dyx3_mission's mission_fsm.cpp that starts, drives, pauses, re-engages and ends.
use dyx_3wd.Base.{ℕ, ◌≡◌, refl, inl, true, false, List, [], ◌∷◌, length}
use dyx_3wd.Base.Trace.{after}
use dyx_3wd.Mission.Fsm.Types.{State, initial}
use dyx_3wd.Mission.Fsm.Ops.{trim, go, refuse, ok_no_change}
use dyx_3wd.Mission.Fsm.Calls.{
  Call, call, start, artifact_loaded, placed, armed, engaged, rpp_ack, pause, reengage,
  reengage_gate, gate_lost, rpp_stale,
}
use dyx_3wd.Mission.Fsm.History.{history, IsRecorded, history-IsRecorded}
use dyx_3wd.Mission.Fsm.Contract.{Phase, view, view-call}
use dyx_3wd.Mission.Fsm.Safety.{
  Done, begun, loaded, located, powered, offboard, running_needs_steps, history-IsMarked, IsParked,
  no_automatic_resume,
}

-- The calls up to RUNNING, the latest first.
abbrev drive : List (ℕ × Call)
drive =
    (6, rpp_ack true)
    ∷ (5, engaged true 0 "")
    ∷ (4, armed true 0 "")
    ∷ (3, placed true 0 "")
    ∷ (2, artifact_loaded true "")
    ∷ (1, start true)
    ∷ []

-- An operator's pause, and a resume that arms again first.
abbrev again : List (ℕ × Call)
again =
    (11, reengage_gate true)
    ∷ (10, engaged true 0 "")
    ∷ (9, armed true 0 "")
    ∷ (8, reengage)
    ∷ (7, pause)
    ∷ drive

again-runs : (history again).state ≡ State.running
unfolding after initial call go refuse ok_no_change
again-runs = refl

-- A start is refused without the pre-arm gate, and its log entry says so.
refused-logged : length (history ((1, start false) ∷ [])).log ≡ 1
unfolding after initial call go refuse ok_no_change trim
refused-logged = refl

view-call_example : view (call (history drive) (7, gate_lost 6)).0 ≡ Phase.paused
unfolding after initial call go refuse ok_no_change
view-call_example = view-call (history drive) 7 (gate_lost 6) (history-IsMarked drive)

running_needs_steps_example : Done (offboard ∷ powered ∷ located ∷ loaded ∷ begun ∷ []) again
unfolding after initial call go refuse ok_no_change
running_needs_steps_example = running_needs_steps again refl

no_automatic_resume_example :
    IsParked
      (after
        (λ n i. (call n i).0)
        (history ((7, pause) ∷ drive))
        ((9, rpp_ack true) ∷ (8, rpp_stale) ∷ [])).state
unfolding after initial call go refuse ok_no_change
no_automatic_resume_example =
    no_automatic_resume (history ((7, pause) ∷ drive)) ((9, rpp_ack true) ∷ (8, rpp_stale) ∷ [])
      (inl refl) (refl, (refl, tt))

history-IsRecorded_example : IsRecorded (history again)
history-IsRecorded_example = history-IsRecorded again
