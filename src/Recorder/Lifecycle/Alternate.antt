-- ===== src/Recorder/Lifecycle/Alternate.antt =====
-- The starts and the stops of the recorder alternate.
use dyx_3wd.Base.{ℕ, ◌≡◌, Bool, true, false, Option, none, some, arith, if◌then◌else◌}
use dyx_3wd.Recorder.Lifecycle.Ops.{LifecycleAction, RunLifecycle, on_open, on_mission, reset}

-- What the recorder has open: a run and whether it was seen RUNNING.
pub record OpenRun : Type 0 where
  pub mission_id : ℕ
  pub run_index : ℕ
  pub running_seen : Bool

abbrev pub open_run : RunLifecycle → Option OpenRun
open_run l =
    if l.recording
    then some (record {
      mission_id = l.mission_id;
      run_index = l.run_index;
      running_seen = l.running_seen;
    })
    else none

-- The recorder's own view of an action: it stops first, then starts.
abbrev pub close_run : LifecycleAction → Option OpenRun → Option OpenRun
close_run a o = if a.stop then none else o

abbrev pub note_running : LifecycleAction → Option OpenRun → Option OpenRun
note_running a none = none
note_running a (some r) = some (if a.runs then record r { running_seen = true } else r)

abbrev pub begin_run : ℕ → ℕ → LifecycleAction → Option OpenRun → Option OpenRun
begin_run mission_id run_index a o =
    if a.start
    then some
        (record { mission_id = mission_id; run_index = run_index; running_seen = a.start_running })
    else o

abbrev pub obey : ℕ → ℕ → LifecycleAction → Option OpenRun → Option OpenRun
obey mission_id run_index a o = begin_run mission_id run_index a (note_running a (close_run a o))

-- A recorder that carries out the actions of a message has open what the lifecycle says; the stop
-- comes only with an open run, a start only with none left open, and RUNNING is noted once, of an
-- open run.
pub on_mission-obey :
    (l : RunLifecycle) (s mission_id run_index : ℕ)
    → let (k, a) = on_mission l s mission_id run_index in
      (open_run k ≡ obey mission_id run_index a (open_run l))
      × (a.stop ≡ true → l.recording ≡ true)
      × (a.start ≡ true → close_run a (open_run l) ≡ none)
      × (a.runs ≡ true → (l.recording ≡ true) × (l.running_seen ≡ false) × (k.running_seen ≡ true))
unfolding on_mission on_open reset
on_mission-obey l s mission_id run_index = ground arith
