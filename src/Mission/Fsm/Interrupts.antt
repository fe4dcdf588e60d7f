-- ===== src/Mission/Fsm/Interrupts.antt =====
-- mission_fsm.cpp: the methods that end or interrupt an execution.
use Prim.Native.String.{String}
use dyx_3wd.Base.{ℕ, Bool, true, false, not, ◌&&◌, ◌||◌, ◌==◌, if◌then◌else◌}
use dyx_3wd.Mission.Fsm.Types.{
  ready, running, paused, completed, aborted, error, arming, engaging, ◌is◌, Event, Reject, Reason,
  reason_none, reason_operator, reason_safety, reason_ekf_reset, reason_rpp_ack_timeout,
  reason_estop, reason_rpp_error, reason_rpp_stale, reason_rpp_pivot_timeout, map_guard_reason,
  Result, MissionFsm, active, before_running,
}
use dyx_3wd.Mission.Fsm.Ops.{go, refuse, ok_no_change}

unfoldable pub abort : MissionFsm → Reason → ℕ → MissionFsm × Result
abort m reason now =
    if not (active m.state)
    then refuse m Event.abort Reject.not_active false "no active mission" now
    else go m aborted Event.abort
        (if reason == reason_safety then reason_safety else reason_operator) "abort requested" now 0

unfoldable pub rpp_complete : MissionFsm → ℕ → MissionFsm × Result
rpp_complete m now =
    if m.state is running
    then go m completed Event.rpp_complete reason_none "rpp reports complete" now 0
    else if m.state is paused || m.reengaging
    then ok_no_change m Event.rpp_complete "complete while paused ignored" now
    else refuse m Event.rpp_complete Reject.illegal true "not running" now

-- A re-engage's RPP still holds the execution.
unfoldable pub rpp_error : MissionFsm → ℕ → MissionFsm × Result
rpp_error m now =
    if m.state is ready || m.state is running || m.state is paused || m.reengaging
    then go m error Event.rpp_error reason_rpp_error "rpp reports error" now 0
    else if active m.state
    then ok_no_change m Event.rpp_error "rpp holds no path of this execution yet" now
    else refuse m Event.rpp_error Reject.illegal true "no active mission" now

unfoldable pub gate_lost : MissionFsm → ℕ → ℕ → MissionFsm × Result
gate_lost m guard_reason now =
    let r = map_guard_reason guard_reason in
    if before_running m.state
    then go m error Event.gate_lost r "safety gate lost before motion" now guard_reason
    else if m.state is running
    then go m paused Event.gate_lost r "automatic safety pause" now guard_reason
    else ok_no_change m Event.gate_lost "no running mission" now

unfoldable pub estop : MissionFsm → ℕ → MissionFsm × Result
estop m now =
    if active m.state
    then go m aborted Event.estop reason_estop "emergency stop" now 0
    else ok_no_change m Event.estop "no active mission" now

-- PAUSED to PAUSED is a transition: the pause reason becomes EKF_RESET.
unfoldable pub ekf_reset : MissionFsm → String → ℕ → MissionFsm × Result
ekf_reset m detail now =
    if m.state is arming || m.state is engaging
    then go m error Event.ekf_reset reason_ekf_reset detail now 0
    else if m.state is ready || m.state is running || m.state is paused
    then go m paused Event.ekf_reset reason_ekf_reset detail now 0
    else ok_no_change m Event.ekf_reset "no placed execution" now

unfoldable pub rpp_stale : MissionFsm → ℕ → MissionFsm × Result
rpp_stale m now =
    if m.state is running
    then go m paused Event.rpp_stale reason_rpp_stale "rpp status stale: automatic pause" now 0
    else ok_no_change m Event.rpp_stale "no running mission" now

unfoldable pub rpp_pivot_timeout : MissionFsm → ℕ → MissionFsm × Result
rpp_pivot_timeout m now =
    if m.state is running
    then go m paused Event.rpp_pivot_timeout reason_rpp_pivot_timeout
        "rpp pivot watchdog expired (heading not reached)" now 0
    else ok_no_change m Event.rpp_pivot_timeout "no running mission" now

unfoldable pub rpp_ack_timeout : MissionFsm → Bool → ℕ → ℕ → MissionFsm × Result
rpp_ack_timeout m gate_ok guard_reason now =
    if not (m.state is ready)
    then ok_no_change m Event.rpp_ack_timeout "not waiting for an ack" now
    else if not gate_ok
    then go m error Event.rpp_ack_timeout (map_guard_reason guard_reason)
        "full safety gate never passed while READY" now guard_reason
    else go m error Event.rpp_ack_timeout reason_rpp_ack_timeout
        "rpp never acknowledged the execution" now 0

-- A re-engage is still a paused execution to the operator.
unfoldable pub skip_point : MissionFsm → Bool → ℕ → MissionFsm × Result
skip_point m has_active_point now =
    if not (m.state is running) && not (m.state is paused) && not m.reengaging
    then refuse m Event.skip_point Reject.not_running false "not running" now
    else if not has_active_point
    then refuse m Event.skip_point Reject.no_active_point false "no active point" now
    else ok_no_change m Event.skip_point "point skip accepted" now
