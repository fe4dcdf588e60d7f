-- ===== src/Mission/Fsm/Types.antt =====
-- mission_fsm.hpp: states, events, refusals, the log entry and the machine's fields.
use Prim.Native.String.{String}
use dyx_3wd.Base.{ℕ, ◌==◌, Bool, false, List, [], ◌||◌, ◌&&◌, not, if◌then◌else◌}

pub data State : Type 0 where
  idle loading ready running paused completed aborted error placing arming engaging : State

-- The ABI value of a state.
abbrev pub state_value : State → ℕ
state_value idle = 0
state_value loading = 1
state_value ready = 2
state_value running = 3
state_value paused = 4
state_value completed = 5
state_value aborted = 6
state_value error = 7
state_value placing = 8
state_value arming = 9
state_value engaging = 10

infix 50 ◌is◌
abbrev pub ◌is◌ : State → State → Bool
s is t = state_value s == state_value t

pub data Event : Type 0 where
  start artifact_loaded placed armed engaged rpp_ack pause resume abort : Event
  rpp_complete rpp_error gate_lost estop ekf_reset skip_point rpp_stale : Event
  rpp_ack_timeout reengage reengaged reengage_timeout rpp_pivot_timeout : Event

pub data Reject : Type 0 where
  none busy safety_gate not_running not_paused not_active invalid_artifact : Reject
  no_active_point illegal : Reject

-- MissionState.REASON_*, a uint8.
abbrev pub Reason : Type 0
Reason = ℕ

abbrev pub reason_none : Reason
reason_none = 0

abbrev pub reason_operator : Reason
reason_operator = 1

abbrev pub reason_safety : Reason
reason_safety = 2

abbrev pub reason_rtk : Reason
reason_rtk = 3

abbrev pub reason_path_error : Reason
reason_path_error = 4

abbrev pub reason_ekf_reset : Reason
reason_ekf_reset = 6

abbrev pub reason_rpp_ack_timeout : Reason
reason_rpp_ack_timeout = 14

abbrev pub reason_estop : Reason
reason_estop = 15

abbrev pub reason_rpp_error : Reason
reason_rpp_error = 16

abbrev pub reason_rpp_stale : Reason
reason_rpp_stale = 17

abbrev pub reason_rpp_pivot_timeout : Reason
reason_rpp_pivot_timeout = 18

abbrev pub guard_reason_rtk_gate : ℕ
guard_reason_rtk_gate = 6

-- The RTK gate keeps its own code, every other gate is SAFETY.
abbrev pub map_guard_reason : ℕ → Reason
map_guard_reason g = if g == guard_reason_rtk_gate then reason_rtk else reason_safety

pub record Transition : Type 0 where
  pub seq : ℕ
  pub source : State
  pub target : State
  pub event : Event
  pub reason : Reason
  pub refused : Bool
  pub reject : Reject
  pub detail : String
  pub stamp_ns : ℕ

pub record Result : Type 0 where
  pub accepted : Bool
  pub reject : Reject
  pub transitioned : Bool
  pub state : State

-- The log is a deque, its back at the end of the list. `observed` is the list of the calls made of
-- the observer, the latest first.
pub record MissionFsm : Type 0 where
  pub state : State
  pub reason : Reason
  pub gate_reason : ℕ
  pub detail : String
  pub entered_ns : ℕ
  pub mission_id : ℕ
  pub seq : ℕ
  pub changes : ℕ
  pub reengaging : Bool
  pub reengage_confirmed : Bool
  pub log : List Transition
  pub observed : List Transition

abbrev pub log_capacity : ℕ
log_capacity = 256

unfoldable pub initial : MissionFsm
initial = record {
  state = idle;
  reason = reason_none;
  gate_reason = 0;
  detail = "";
  entered_ns = 0;
  mission_id = 0;
  seq = 0;
  changes = 0;
  reengaging = false;
  reengage_confirmed = false;
  log = [];
  observed = [];
}

abbrev pub terminal : State → Bool
terminal s = s is completed || s is aborted || s is error

abbrev pub active : State → Bool
active s = not (s is idle) && not (terminal s)

abbrev pub before_running : State → Bool
before_running s = s is loading || s is placing || s is arming || s is engaging || s is ready

abbrev pub awaiting_reengage_gate : MissionFsm → Bool
awaiting_reengage_gate m = m.reengaging && m.reengage_confirmed
