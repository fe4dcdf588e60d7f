-- ===== src/Examples/Gateway.antt =====
-- The recorder's runs and the gateway's events, at concrete runs.
use dyx_3wd.Base.{◌+◌, ◌≡◌, true, false, none, List, [], ◌∷◌, u64, All}
use dyx_3wd.Base.Milli.{Milli, milli, milli_real}
use dyx_3wd.Recorder.Lifecycle.Ops.{RunLifecycle, on_mission}
use dyx_3wd.Recorder.Lifecycle.Alternate.{open_run, close_run, obey, on_mission-obey}
use dyx_3wd.Gateway.Events.Ops.{event_stream, offers, flushes, Call}
use dyx_3wd.Gateway.Events.Conserve.{held_in, told, Clean}
use dyx_3wd.Gateway.Events.Account.{Numbered, history, transitions_told}
use dyx_3wd.Gateway.Events.Keys.{transitions}

-- A run that is open and RUNNING, and another mission that gets READY.
abbrev busy : RunLifecycle
busy = record { recording = true; running_seen = true; mission_id = 7; run_index = 1 }

on_mission-obey_example :
    let (k, a) = on_mission busy 2 8 1 in
    (open_run k ≡ obey 8 1 a (open_run busy))
    × (a.stop ≡ true → true ≡ true)
    × (a.start ≡ true → close_run a (open_run busy) ≡ none)
    × (a.runs ≡ true → (true ≡ true) × (true ≡ false) × (k.running_seen ≡ true))
on_mission-obey_example = on_mission-obey busy 2 8 1

-- Three states of the mission within one window, and a flush after it.
abbrev run : List (Call Milli)
run =
    flushes (milli 900)
    ∷ offers "mission_state" "PAUSED" "{}" (milli 300)
    ∷ offers "mission_state" "RUNNING" "{}" (milli 200)
    ∷ offers "mission_state" "READY" "{}" (milli 100)
    ∷ []

transitions_told_example :
    let (s, es) = history (λ n. n) (event_stream (milli 500)) run in
    All Clean s.kinds
    × (u64 (told es + held_in s.kinds) ≡ u64 (transitions run))
    × Numbered 0 es s.seq
transitions_told_example = transitions_told (λ n. n) (milli 500) run
