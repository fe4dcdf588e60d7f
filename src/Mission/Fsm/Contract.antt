-- ===== src/Mission/Fsm/Contract.antt =====
-- The abstract lifecycle: the transition table of docs/contracts/dyx3_mission.md, section 3, over the
-- states that it tells apart, and the view of the machine as one of them.
use dyx_3wd.Base.{Bool, true, false, ◌≡◌, ◌⊎◌, if◌then◌else◌, arith}
use dyx_3wd.Mission.Fsm.Types.{State, MissionFsm, initial}
use dyx_3wd.Mission.Fsm.Ops.{go, refuse, ok_no_change}
use dyx_3wd.Mission.Fsm.Calls.{
  Call, call, start, artifact_loaded, placed, armed, engaged, rpp_ack, resume, reengage_gate, pause,
  reengage, rpp_complete, rpp_error, estop, rpp_stale, rpp_pivot_timeout, reengage_timeout, abort,
  gate_lost, ekf_reset, rpp_ack_timeout,
}
use dyx_3wd.Base.{ℕ}

-- `rearming`, `reengaging` and `reengaged` are the ARMING and ENGAGING of a re-engage, the last
-- with OFFBOARD confirmed.
pub data Phase : Type 0 where
  idle loading placing arming engaging ready running paused : Phase
  rearming reengaging reengaged completed aborted error : Phase

abbrev pub phase : State → Bool → Bool → Phase
phase State.idle _ _ = idle
phase State.loading _ _ = loading
phase State.placing _ _ = placing
phase State.arming false _ = arming
phase State.arming true _ = rearming
phase State.engaging false _ = engaging
phase State.engaging true false = reengaging
phase State.engaging true true = reengaged
phase State.ready _ _ = ready
phase State.running _ _ = running
phase State.paused _ _ = paused
phase State.completed _ _ = completed
phase State.aborted _ _ = aborted
phase State.error _ _ = error

abbrev pub view : MissionFsm → Phase
view m = phase m.state m.reengaging m.reengage_confirmed

-- What ends an execution from the outside, wherever it is active.
abbrev stop : Phase → Phase → Phase
stop idle _ = idle
stop completed _ = completed
stop aborted _ = aborted
stop error _ = error
stop _ end = end

abbrev begin : Phase → Phase
begin idle = loading
begin completed = loading
begin aborted = loading
begin error = loading
begin p = p

-- The safety gate is lost.
abbrev lose : Phase → Phase
lose running = paused
lose paused = paused
lose p = stop p error

-- RPP reports an error: it holds a path from READY on.
abbrev fail : Phase → Phase
fail loading = loading
fail placing = placing
fail arming = arming
fail engaging = engaging
fail p = stop p error

-- The EKF frame moved: an execution that has not begun to drive fails, else it pauses.
abbrev shift : Phase → Phase
shift loading = loading
shift placing = placing
shift ready = paused
shift running = paused
shift paused = paused
shift p = stop p error

abbrev pub next : Phase → Call → Phase
next p (start true) = begin p
next loading (artifact_loaded ok _) = if ok then placing else error
next placing (placed ok _ _) = if ok then arming else error
next arming (armed ok _ _) = if ok then engaging else error
next rearming (armed ok _ _) = if ok then reengaging else error
next engaging (engaged ok _ _) = if ok then ready else error
next reengaging (engaged ok _ _) = if ok then reengaged else error
next reengaged (engaged ok _ _) = if ok then reengaged else error
next ready (rpp_ack true) = running
next paused (resume true) = running
next paused reengage = rearming
next reengaged (reengage_gate true) = running
next reengaged (reengage_timeout _) = error
next running pause = paused
next running rpp_stale = paused
next running rpp_pivot_timeout = paused
next running rpp_complete = completed
next ready (rpp_ack_timeout _ _) = error
next p (abort _) = stop p aborted
next p estop = stop p aborted
next p rpp_error = fail p
next p (gate_lost _) = lose p
next p (ekf_reset _) = shift p
next p _ = p

-- The marks of a re-engage stand only in its own states.
pub record IsMarked (m : MissionFsm) : Type 0 where
  pub mark : m.reengaging ≡ true → (m.state ≡ State.arming) ⊎ (m.state ≡ State.engaging)
  pub confirm : m.reengage_confirmed ≡ true → (m.reengaging ≡ true) × (m.state ≡ State.engaging)

pub initial-IsMarked : IsMarked initial
unfolding initial
initial-IsMarked = ground arith

-- Every call keeps the marks of a re-engage sound: they stand only in ARMING and ENGAGING.
pub call-IsMarked : (m : MissionFsm) (i : ℕ × Call) → IsMarked m → IsMarked (call m i).0
unfolding call go refuse ok_no_change
call-IsMarked m (now, start b) h = ground arith
call-IsMarked m (now, _) h = ground arith

-- A machine whose re-engage marks are sound takes the step that the contract's table gives, in every
-- phase and for every call.
pub view-call :
    (m : MissionFsm) (now : ℕ) (c : Call) → IsMarked m → view (call m (now, c)).0 ≡ next (view m) c
unfolding call go refuse ok_no_change
view-call m now (start b) h = ground arith
view-call m now _ h = ground arith
