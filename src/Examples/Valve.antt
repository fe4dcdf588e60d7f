-- ===== src/Examples/Valve.antt =====
-- The gates and the parameters of the spray package at concrete inputs.
use dyx_3wd.Base.{ℕ, ◌≡◌, refl, true, false, not, ◌&&◌, ◌||◌, some, List, [], ◌∷◌}
use dyx_3wd.Base.Int.{pos}
use dyx_3wd.Base.Trace.{after}
use dyx_3wd.Base.Milli.{Milli, milli, milli_real}
use dyx_3wd.Spray.Gates.Ops.{
  RtkGateConfig, new_gate, evaluate, OwnershipInputs, GateInputs, pass, ownership_status,
}
use dyx_3wd.Spray.Gates.Recovery.{Look, good_since, look, held_enough, opens_after_hold}
use dyx_3wd.Spray.Params.Types.{Item, SetContext}
use dyx_3wd.Spray.Params.Ops.{param_set, set_many, find_index, find_from, validate, validate_number}
use dyx_3wd.Spray.Params.Table.{table}
use dyx_3wd.Spray.Params.Run.{all_allowed}
use dyx_3wd.Spray.Params.Whole.{IsWhole, set_many-IsWhole}

abbrev config : RtkGateConfig Milli
config = record {
  require_rtk_fix = true;
  min_fix_type = pos 6;
  max_h_acc_m = milli 100;
  require_accuracy = true;
  fix_timeout_s = milli 500;
  recover_hold_s = milli 1000;
}

abbrev at : ℕ → Look Milli
at now = record {
  config = config;
  sample = record {
    fix_type = pos 6;
    h_acc_m = some (milli 20);
    sample_age_s = some (milli 100);
    corrections_fresh = true;
  };
  now_s = milli now;
}

opens_after_hold_example :
    (evaluate
      (after look new_gate (at 600 ∷ at 100 ∷ []))
      config
      (at 1200).sample
      (milli 1200)).1.ok
    ≡ (true && (not true || held_enough (at 1200) (good_since (at 1200 ∷ at 600 ∷ at 100 ∷ []))))
opens_after_hold_example = opens_after_hold (at 1200) (at 600 ∷ at 100 ∷ [])

abbrev ownership : OwnershipInputs Milli
ownership = record {
  mission_running = true;
  mission_id = 4;
  rpp_known = true;
  rpp_age_s = milli 100;
  rpp_timeout_s = milli 500;
  rpp_state = 1;
  rpp_mission_id = 4;
}

abbrev inputs : GateInputs Milli
inputs = record {
  ownership = ownership_status ownership;
  heading_evidence = pass;
  armed = true;
  offboard = true;
  path_loaded = true;
  pose_fresh = true;
  velocity_fresh = true;
  tracking_seen = true;
  pivoting = false;
  estop_clear = true;
  require_offboard = true;
  rtk = pass;
}

abbrev request : List (Item Milli)
request =
    record { name = "min_flow_value"; num = milli 300; str = "" }
    ∷ record { name = "debounce_samples"; num = milli 2000; str = "" }
    ∷ []

abbrev idle : SetContext
idle = record { mission_running = false; source = "cli" }

set_many-IsWhole_example :
    IsWhole param_set request idle (set_many (λ _. "number") param_set request idle)
set_many-IsWhole_example = set_many-IsWhole (λ _. "number") param_set request idle

-- Both changes of the request are allowed.
request_is_allowed : all_allowed idle request ≡ true
unfolding find_index find_from validate validate_number table
request_is_allowed = refl
