-- ===== src/Recorder/Lifecycle/Ops.antt =====
-- run_lifecycle.hpp and .cpp. The note on a closed run is the state that the mission went to.
use Prim.Native.String.{String}
use dyx_3wd.Base.{ℕ, Bool, true, false, not, ◌&&◌, ◌||◌, Option, none, some, ◌==◌, if◌then◌else◌}

abbrev pub idle : ℕ
idle = 0

abbrev pub ready : ℕ
ready = 2

abbrev pub running : ℕ
running = 3

abbrev pub completed : ℕ
completed = 5

abbrev pub aborted : ℕ
aborted = 6

abbrev pub error : ℕ
error = 7

unfoldable pub mission_state_name : ℕ → String
mission_state_name s =
    if s == idle
    then "IDLE"
    else if s == 1
    then "LOADING"
    else if s == ready
    then "READY"
    else if s == running
    then "RUNNING"
    else if s == 4
    then "PAUSED"
    else if s == completed
    then "COMPLETED"
    else if s == aborted
    then "ABORTED"
    else if s == error
    then "ERROR"
    else if s == 8
    then "PLACING"
    else if s == 9
    then "ARMING"
    else if s == 10
    then "ENGAGING"
    else "UNKNOWN"

pub record LifecycleAction : Type 0 where
  pub stop : Bool
  pub final_state : String
  pub stop_note : Option String
  pub start : Bool
  pub start_running : Bool
  pub runs : Bool

pub record RunLifecycle : Type 0 where
  pub recording : Bool
  pub running_seen : Bool
  pub mission_id : ℕ
  pub run_index : ℕ

abbrev pub lifecycle : RunLifecycle
lifecycle = record { recording = false; running_seen = false; mission_id = 0; run_index = 0 }

abbrev pub no_action : LifecycleAction
no_action = record {
  stop = false;
  final_state = "";
  stop_note = none;
  start = false;
  start_running = false;
  runs = false;
}

abbrev pub is_terminal : ℕ → Bool
is_terminal s = s == completed || s == aborted || s == error || s == idle

unfoldable pub reset : RunLifecycle → RunLifecycle
reset l = record l { recording = false; running_seen = false }

abbrev pub close_terminal : RunLifecycle → ℕ → LifecycleAction
close_terminal l s =
    if l.running_seen
    then record no_action { stop = true; final_state = mission_state_name s }
    else record no_action {
      stop = true;
      final_state = "NOT_STARTED";
      stop_note = some (mission_state_name s);
    }

abbrev pub superseded : RunLifecycle → String
superseded l = if l.running_seen then "SUPERSEDED" else "NOT_STARTED"

-- A message while a run is open.
unfoldable pub on_open : RunLifecycle → ℕ → ℕ → ℕ → RunLifecycle × LifecycleAction
unfolding reset
on_open l s mission_id run_index =
    let same = mission_id == l.mission_id && run_index == l.run_index in
    if is_terminal s
    then (reset l, close_terminal l s)
    else if (s == running || s == ready) && not same
    then (
      record l { mission_id = mission_id; run_index = run_index; running_seen = s == running },
      record no_action {
        stop = true;
        final_state = superseded l;
        start = true;
        start_running = s == running;
      },
    )
    else if s == running && not l.running_seen
    then (record l { running_seen = true }, record no_action { runs = true })
    else (l, no_action)

unfoldable pub on_mission : RunLifecycle → ℕ → ℕ → ℕ → RunLifecycle × LifecycleAction
on_mission l s mission_id run_index =
    if l.recording
    then on_open l s mission_id run_index
    else if s == ready || s == running
    then (
      record {
        recording = true;
        running_seen = s == running;
        mission_id = mission_id;
        run_index = run_index;
      },
      record no_action { start = true; start_running = s == running },
    )
    else (l, no_action)

-- The methods that change the lifecycle.
pub data Call : Type 0 where
  messages : ℕ → ℕ → ℕ → Call
  resets : Call

unfoldable pub call : RunLifecycle → Call → RunLifecycle × LifecycleAction
unfolding on_mission reset
call l (messages s mission_id run_index) = on_mission l s mission_id run_index
call l resets = (reset l, no_action)
