-- ===== src/Mission/Fsm/Calls.antt =====
-- The public methods of `MissionFsm` as one step: a call is a method with its arguments. The time
-- of every call comes first.
use Prim.Native.String.{String}
use dyx_3wd.Base.{ℕ, Bool}
use dyx_3wd.Mission.Fsm.Types.{MissionFsm, Result, Reason}
use dyx_3wd.Mission.Fsm.Ops
use dyx_3wd.Mission.Fsm.Interrupts

pub data Call : Type 0 where
  start : Bool → Call
  artifact_loaded : Bool → String → Call
  placed armed engaged : Bool → Reason → String → Call
  rpp_ack resume reengage_gate skip_point : Bool → Call
  pause reengage rpp_complete rpp_error estop rpp_stale rpp_pivot_timeout : Call
  reengage_timeout abort gate_lost : ℕ → Call
  ekf_reset : String → Call
  rpp_ack_timeout : Bool → ℕ → Call

unfoldable pub call : MissionFsm → ℕ × Call → MissionFsm × Result
unfolding Ops.start Ops.artifact_loaded Ops.placed Ops.armed Ops.engaged Ops.rpp_ack Ops.pause
    Ops.resume Ops.reengage Ops.reengage_gate Ops.reengage_timeout Interrupts.abort
    Interrupts.rpp_complete Interrupts.rpp_error Interrupts.gate_lost Interrupts.estop
    Interrupts.ekf_reset Interrupts.rpp_stale Interrupts.rpp_pivot_timeout
    Interrupts.rpp_ack_timeout Interrupts.skip_point
call m (now, start pre_arm_ok) = Ops.start m pre_arm_ok now
call m (now, artifact_loaded valid detail) = Ops.artifact_loaded m valid detail now
call m (now, placed ok reason detail) = Ops.placed m ok reason detail now
call m (now, armed ok reason detail) = Ops.armed m ok reason detail now
call m (now, engaged ok reason detail) = Ops.engaged m ok reason detail now
call m (now, rpp_ack gate_ok) = Ops.rpp_ack m gate_ok now
call m (now, pause) = Ops.pause m now
call m (now, resume gate_ok) = Ops.resume m gate_ok now
call m (now, reengage) = Ops.reengage m now
call m (now, reengage_gate gate_ok) = Ops.reengage_gate m gate_ok now
call m (now, reengage_timeout guard_reason) = Ops.reengage_timeout m guard_reason now
call m (now, abort reason) = Interrupts.abort m reason now
call m (now, rpp_complete) = Interrupts.rpp_complete m now
call m (now, rpp_error) = Interrupts.rpp_error m now
call m (now, gate_lost guard_reason) = Interrupts.gate_lost m guard_reason now
call m (now, estop) = Interrupts.estop m now
call m (now, ekf_reset detail) = Interrupts.ekf_reset m detail now
call m (now, rpp_stale) = Interrupts.rpp_stale m now
call m (now, rpp_pivot_timeout) = Interrupts.rpp_pivot_timeout m now
call m (now, rpp_ack_timeout gate_ok guard_reason) =
    Interrupts.rpp_ack_timeout m gate_ok guard_reason now
call m (now, skip_point has_active_point) = Interrupts.skip_point m has_active_point now
