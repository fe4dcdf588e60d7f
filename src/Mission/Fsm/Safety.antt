-- ===== src/Mission/Fsm/Safety.antt =====
-- What reaches RUNNING, and what never leaves a pause or an end.
use dyx_3wd.Base.{
  ℕ, ◌+◌, ◌≡◌, ◌≢◌, ◌⊎◌, inl, inr, refl, Bool, true, false, List, [], ◌∷◌, Option, some, none,
  arith, All, u32, if◌then◌else◌,
}
use dyx_3wd.Base.Trace.{after, after_inv}
use dyx_3wd.Mission.Fsm.Types.{State, reason_estop, MissionFsm, initial, active, terminal}
use dyx_3wd.Mission.Fsm.Ops.{go, refuse, ok_no_change}
use dyx_3wd.Mission.Fsm.Calls.{
  Call, call, start, artifact_loaded, placed, armed, engaged, rpp_ack, resume, reengage,
  reengage_gate, estop,
}
use dyx_3wd.Mission.Fsm.History.{history}
use dyx_3wd.Mission.Fsm.Contract.{
  Phase, view, next, IsMarked, initial-IsMarked, call-IsMarked, view-call,
}

-- The call brings the verdict that the full safety gate passes.
abbrev pub grants : Call → Bool
grants (rpp_ack gate_ok) = gate_ok
grants (resume gate_ok) = gate_ok
grants (reengage_gate gate_ok) = gate_ok
grants _ = false

-- A call that enters RUNNING from another state brings the verdict that the full gate passes.
pub running_needs_gate :
    (m : MissionFsm) (now : ℕ) (c : Call)
    → m.state ≢ State.running
    → (call m (now, c)).0.state ≡ State.running
    → grants c ≡ true
unfolding call go refuse ok_no_change
running_needs_gate m now (start b) before h = ground arith
running_needs_gate m now _ before h = ground arith

-- The steps of an execution before it may move.
pub data Step : Type 0 where
  begun loaded located powered offboard : Step

abbrev pub performs : Call → Option Step
performs (start true) = some begun
performs (artifact_loaded true _) = some loaded
performs (placed true _ _) = some located
performs (armed true _ _) = some powered
performs (engaged true _ _) = some offboard
performs _ = none

-- The calls (the latest first) have among them one for each step, in this order.
pub data Done : List Step → List (ℕ × Call) → Type 0 where
  nothing : {is : List (ℕ × Call)} → Done [] is
  skip : {ks : List Step} {is : List (ℕ × Call)} {i : ℕ × Call} → Done ks is → Done ks (i ∷ is)
  take :
      {k : Step} {ks : List Step} {is : List (ℕ × Call)} {i : ℕ × Call}
      → performs i.1 ≡ some k
      → Done ks is
      → Done (k ∷ ks) (i ∷ is)

-- The steps behind a phase, the latest first.
abbrev pub behind : Phase → List Step
behind Phase.loading = begun ∷ []
behind Phase.placing = loaded ∷ begun ∷ []
behind Phase.arming = located ∷ loaded ∷ begun ∷ []
behind Phase.engaging = powered ∷ located ∷ loaded ∷ begun ∷ []
behind Phase.idle = []
behind Phase.completed = []
behind Phase.aborted = []
behind Phase.error = []
behind _ = offboard ∷ powered ∷ located ∷ loaded ∷ begun ∷ []

abbrev Grows : List Step → List Step → Option Step → Type 0
Grows ks ks' k = (ks' ≡ []) ⊎ ((ks' ≡ ks) ⊎ ((s : Step) × (k ≡ some s) × (ks' ≡ s ∷ ks)))

behind-next : (p : Phase) (c : Call) → Grows (behind p) (behind (next p c)) (performs c)
behind-next Phase.idle c = ground arith
behind-next _ c = ground arith

Grows-Done :
    {ks ks' : List Step} (i : ℕ × Call) (is : List (ℕ × Call))
    → Grows ks ks' (performs i.1)
    → Done ks is
    → Done ks' (i ∷ is)
Grows-Done i is (inl e) d = rw e nothing
Grows-Done i is (inr (inl e)) d = rw e (skip d)
Grows-Done i is (inr (inr (s, p, e))) d = rw e (take p d)

pub history-IsMarked : (is : List (ℕ × Call)) → IsMarked (history is)
history-IsMarked = after_inv _ initial IsMarked initial-IsMarked call-IsMarked

history-Done : (is : List (ℕ × Call)) → Done (behind (view (history is))) is
unfolding after initial
history-Done [] = nothing
history-Done (i ∷ is) =
    rw (view-call (history is) i.0 i.1 (history-IsMarked is))
      (Grows-Done i is (behind-next (view (history is)) i.1) (history-Done is))

-- A history (the latest call first) that ends in RUNNING has had, in this order, a start with a
-- passing gate, a valid artifact, a placement, a confirmed arm and a confirmed OFFBOARD.
pub running_needs_steps :
    (is : List (ℕ × Call))
    → (history is).state ≡ State.running
    → Done (offboard ∷ powered ∷ located ∷ loaded ∷ begun ∷ []) is
running_needs_steps is h =
    let e : view (history is) ≡ Phase.running = ground arith in rw e at (history-Done is)

-- A call by which an operator starts or resumes an execution.
abbrev pub operates : Call → Bool
operates (start _) = true
operates (resume _) = true
operates reengage = true
operates _ = false

abbrev pub IsParked : State → Type 0
IsParked s = (s ≡ State.paused) ⊎ (terminal s ≡ true)

-- Nothing but a start, a resume or a re-engage leads out of PAUSED and the terminal states.
call-IsParked :
    (m : MissionFsm) (i : ℕ × Call)
    → operates i.1 ≡ false
    → IsParked m.state
    → IsParked (call m i).0.state
unfolding call go refuse ok_no_change
call-IsParked m (now, start b) o h = ground arith
call-IsParked m (now, _) o h = ground arith

-- A paused or ended execution stays paused or ended through any calls without a start, a resume or
-- a re-engage: there is no automatic resume.
pub no_automatic_resume :
    (m : MissionFsm) (is : List (ℕ × Call))
    → IsParked m.state
    → All (λ i. operates i.1 ≡ false) is
    → IsParked (after (λ n i. (call n i).0) m is).state
unfolding after
no_automatic_resume m [] h o = h
no_automatic_resume m (i ∷ is) h o = call-IsParked _ i o.0 (no_automatic_resume m is h o.1)

-- An emergency stop ends every active execution, with its own reason, and changes no other state.
pub estop_lem :
    (m : MissionFsm) (now : ℕ)
    → let m' = (call m (now, estop)).0 in
      (active m'.state ≡ false)
      × (active m.state ≡ true → (m'.state ≡ State.aborted) × (m'.reason ≡ reason_estop))
      × (active m.state ≡ false → (m'.state ≡ m.state) × (m'.reason ≡ m.reason))
unfolding call go refuse ok_no_change
estop_lem m now = ground arith

-- The calls of a history (the latest first) that were accepted starts.
unfoldable pub starts : List (ℕ × Call) → ℕ
starts [] = 0
starts ((now, start b) ∷ is) =
    starts is + (if (call (history is) (now, start b)).1.accepted then 1 else 0)
starts (_ ∷ is) = starts is

call-mission_id :
    (m : MissionFsm) (now : ℕ) (c : Call)
    → (call m (now, c)).0.mission_id ≡ (
        if (call m (now, c)).1.accepted
        then (elim c [ start b ↦ u32 (m.mission_id + 1) | _ ↦ m.mission_id ])
        else m.mission_id)
unfolding call go refuse ok_no_change
call-mission_id m now (start b) = ground arith
call-mission_id m now _ = ground arith

-- The mission id is the number of accepted starts, as a uint32.
pub history-mission_id : (is : List (ℕ × Call)) → (history is).mission_id ≡ u32 (starts is)
unfolding after starts initial
history-mission_id [] = refl
history-mission_id ((now, start b) ∷ is) =
    ground (arith, call-mission_id (history is) now (start b), history-mission_id is)
history-mission_id ((now, c) ∷ is) =
    ground (arith, call-mission_id (history is) now c, history-mission_id is)
