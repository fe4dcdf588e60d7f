-- ===== src/Examples/Setpoint.antt =====
-- The gate of the setpoints, the topics of the session and the handshake, at concrete runs.
use dyx_3wd.Base.{
  ℕ, ◌<◌, ◌≡◌, refl, ◌≢◌, ◌↔◌, true, false, not, none, List, [], ◌∷◌, arith, u32, length, All,
}
use dyx_3wd.Base.Trace.{after}
use dyx_3wd.Base.Milli.{Milli, milli, milli_real}
use dyx_3wd.Link.Setpoint.Ops.{
  Command, ok, GateInputs, stop_setpoint, validate, validate_mode, step_command, to_setpoint, Call,
  commands, steps, gate, on_command, step, call,
}
use dyx_3wd.Link.Setpoint.Safety.{WellFormed, to_setpoint-WellFormed}
use dyx_3wd.Link.Setpoint.Stream.{Newest, forwards-Newest, restart_is_discarded}
use dyx_3wd.Link.Topics.Ops.{
  timesync, gps, has_bit, StalenessMonitor, limits, monitor, evaluate, note_alive, assess_all,
  assess, all_fresh, consume_reset, samples, evaluates, Call as TopicCall, call as topic_call,
}
use dyx_3wd.Link.Topics.Fresh.{is_stale, evaluate_lem}
use dyx_3wd.Link.Topics.Resets.{returned, unreported, resets_lem}
use dyx_3wd.Link.Handshake.Ops.{
  HandshakeTopic, Handshake, handshake, state, requests, responds, scan, respond, due, construct,
  judge, mark_mismatch, Call as ShakeCall, call as shake_call,
}
use dyx_3wd.Link.Handshake.Verdict.{required}
use dyx_3wd.Link.Handshake.Proof.{Proven, ok_needs_answers}

-- A command to drive at 0.3 m/s on a heading.
abbrev drive : ℕ → Command Milli
drive n = record {
  seq = n;
  mode = 1;
  speed_body_x = milli 300;
  yaw_setpoint = milli 1000;
  yaw_rate_setpoint = none;
  valid = true;
  source_pose_sample_us = 0;
}

abbrev at : ℕ → GateInputs Milli
at now = record {
  now_s = milli now;
  handshake_ok = true;
  session_alive = true;
  stale_topics_mask = 0;
}

to_setpoint-WellFormed_example :
    WellFormed (to_setpoint (drive 5))
    × (validate (drive 5) ≢ ok → to_setpoint (drive 5) ≡ stop_setpoint)
to_setpoint-WellFormed_example = to_setpoint-WellFormed (drive 5)

abbrev driven : List (Call Milli)
driven = commands (drive 5) (milli 120) ∷ steps (at 110) ∷ commands (drive 5) (milli 100) ∷ []

forwards-Newest_example :
    let g = after call (gate (milli 200)) driven in
    ((step g (at 250)).1.sp ≡ to_setpoint g.cmd)
    × Newest (gate (milli 200)) g.cmd g.received_s driven
    × (milli_real.lt g.max_age (milli_real.sub (milli 250) g.received_s) ≡ false)
unfolding after call gate on_command step step_command validate validate_mode
forwards-Newest_example = forwards-Newest (milli 200) driven (at 250) refl

restart_is_discarded_example :
    let g = after call (gate (milli 200)) driven in
    let out =
      (step (after call (on_command g (drive 2) (milli 130)).0 (steps (at 140) ∷ [])) (at 150)).1 in
    (out.forwarded ≡ false) × (out.sp ≡ stop_setpoint)
unfolding after call gate on_command step step_command validate validate_mode
restart_is_discarded_example =
    restart_is_discarded (after call (gate (milli 200)) driven) (drive 2) (milli 130)
      (steps (at 140) ∷ []) (at 150) refl (omega arith) (refl, tt)

-- The time synchronisation comes, stops, and comes back.
abbrev session_run : List (TopicCall Milli)
session_run =
    evaluates (milli 9100)
    ∷ samples timesync (milli 9000)
    ∷ evaluates (milli 8000)
    ∷ evaluates (milli 200)
    ∷ samples gps (milli 100)
    ∷ samples timesync (milli 100)
    ∷ []

abbrev watched : StalenessMonitor Milli
watched = after topic_call (monitor limits) session_run

evaluate_lem_example :
    let report = (evaluate watched (milli 9200)).1 in
    ((t : _) → has_bit report.mask t ≡ is_stale watched (milli 9200) t)
    × (report.session_alive ≡ not (is_stale watched (milli 9200) timesync))
    × ((report.mask ≡ 0) ↔ (all_fresh watched (milli 9200) ≡ true))
evaluate_lem_example = evaluate_lem watched (milli 9200)

one_reset : watched.resets ≡ 1
unfolding after topic_call monitor limits note_alive assess_all assess
one_reset = refl

resets_lem_example :
    (watched.resets ≡ u32 (returned (monitor limits) session_run))
    × ((consume_reset watched).1 ≡ unreported (monitor limits) session_run)
    × ((consume_reset (consume_reset watched).0).1 ≡ false)
resets_lem_example = resets_lem limits session_run

abbrev topic_list : List HandshakeTopic
topic_list =
    record {
      request_name = "/fmu/in/vehicle_command";
      expected_hash = 17;
      definition_missing = false;
      optional = false;
    }
    ∷ record {
      request_name = "/fmu/out/vehicle_odometry";
      expected_hash = 29;
      definition_missing = false;
      optional = true;
    }
    ∷ []

abbrev answered : List (ShakeCall Milli)
answered =
    responds "/fmu/out/vehicle_odometry" false 0
    ∷ responds "/fmu/in/vehicle_command" true 17
    ∷ requests (milli 100)
    ∷ []

abbrev shaken : List (ShakeCall Milli) → Handshake Milli
shaken = after shake_call (handshake topic_list (milli 1000))

ok_needs_answers_example :
    (0 < length (required (shaken answered).entries))
    × All (λ e. Proven e.topic answered) (required (shaken answered).entries)
unfolding after shake_call handshake state scan respond due construct judge mark_mismatch
ok_needs_answers_example = ok_needs_answers topic_list (milli 1000) answered refl

abbrev wrong : List (ShakeCall Milli)
wrong = responds "/fmu/in/vehicle_command" true 18 ∷ []
