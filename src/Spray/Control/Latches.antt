-- ===== src/Spray/Control/Latches.antt =====
-- The calls of the controller in any order, and what its latches stand for.
use dyx_3wd.Base.{
  ℕ, ◌≡◌, refl, Bool, true, false, not, ◌&&◌, ◌||◌, Option, some, List, arith, ◌==◌, if_cases,
}
use dyx_3wd.Base.Trace.{after, after_inv}
use dyx_3wd.Base.Real.{Real}
use dyx_3wd.Spray.Boundary.{Geometry, PathModel}
use dyx_3wd.Spray.Fsm.Types.{Params}
use dyx_3wd.Spray.Gates.Ops.{rpp_state}
use dyx_3wd.Spray.Control.Types.{
  VehicleSnapshot, RtkSnapshot, MissionPhase, idle, loading, ready, running, paused, completed,
  aborted, error, unknown_phase, is_running, ManualResult, Settings, Controller, new_controller,
}
use dyx_3wd.Spray.Control.Ops.{
  is_tracking, phase_locks, manual_locked, vehicle_armed, watchdog_ok, load_path, note_vehicle,
  note_rtk, note_rpp, set_mission, note_estop, note_watchdog, set_manual, controller_ack, shutdown,
  reassert_due, lease, drive_fsm,
}
use dyx_3wd.Spray.Control.Tick.{
  tick, decide, keep_decision, debounce, hold_entry, cut_low_speed, expire_manual, update_flow,
}

-- The settings are those at the time of the call.
pub data Call (R : Type 0) : Type 0 where
  loads : Option (PathModel R) → Call R
  sees_vehicle : VehicleSnapshot R → R → Call R
  sees_rtk : RtkSnapshot R → R → Call R
  sees_rpp : ℕ → ℕ → ℕ → R → R → Bool → R → Call R
  sees_estop : Bool → R → Call R
  sees_watchdog : Bool → Bool → R → Call R
  sees_mission : MissionPhase → ℕ → Call R
  asks_manual : Settings R → Bool → R → Call R
  ticks : Settings R → R → Call R
  acks : ℕ → Bool → R → Call R
  shuts_down : R → Call R

seen_bool :
    (tracks runs same seen : Bool)
    → (seen ≡ true → runs ≡ true)
    → (tracks && runs && same || seen) ≡ true
    → runs ≡ true
seen_bool tracks true same seen h e = refl
seen_bool true false same seen h e = h e
seen_bool false false same seen h e = h e

phase_runs :
    (phase : MissionPhase)
    → is_running phase ≡ true
    → ◌≡◌ {A = Option MissionPhase} (some phase) (some running)
phase_runs running e = refl
phase_runs idle e = ground (arith, e)
phase_runs loading e = ground (arith, e)
phase_runs ready e = ground (arith, e)
phase_runs paused e = ground (arith, e)
phase_runs completed e = ground (arith, e)
phase_runs aborted e = ground (arith, e)
phase_runs error e = ground (arith, e)
phase_runs unknown_phase e = ground (arith, e)

kept_tracking : (runs other seen : Bool) → (not (not runs || other) && seen) ≡ true → runs ≡ true
kept_tracking true other seen e = refl
kept_tracking false other seen e = ground (arith, e)

kept_manual : (locked manual : Bool) → (not locked && manual) ≡ true → locked ≡ false
kept_manual false manual e = refl
kept_manual true manual e = ground (arith, e)

first_bool : (a b : Bool) → (a && b) ≡ true → a ≡ true
first_bool true b e = refl
first_bool false b e = e

module _ {R : Type 0} ⦃r : Real R⦄ (g : Geometry R) where
  unfoldable pub call : Controller R → Call R → Controller R
  call c (loads model) = load_path c model
  call c (sees_vehicle v now) = note_vehicle c v now
  call c (sees_rtk snapshot now) = note_rtk c snapshot now
  call c (sees_rpp state id run heading travel valid now) =
      note_rpp c state id run heading travel valid now
  call c (sees_estop asserted now) = note_estop c asserted now
  call c (sees_watchdog alive authority now) = note_watchdog c alive authority now
  call c (sees_mission phase id) = set_mission c phase id
  call c (asks_manual s on now) = (set_manual s c on now).0
  call c (ticks s now) = (tick s g c now).0
  call c (acks seq success now) = (controller_ack c seq success now).0
  call c (shuts_down now) = (shutdown c now).0

  -- The evidence of tracking and the manual request belong to a mission that runs, or to none.
  pub record Owned (c : Controller R) : Type 0 where
    pub running : c.mission_running ≡ true → c.mission ≡ some running
    pub tracked : c.tracking_seen ≡ true → c.mission_running ≡ true
    pub manual : c.manual_active ≡ true → manual_locked c ≡ false

  -- The request is dropped, or taken while no mission owns the valve.
  set_manual_cases :
      (P : Controller R → Type 0) (s : Settings R) (c : Controller R) (on : Bool) (now : R)
      → P (record c { manual_active = false })
      → ((until : R)
          → manual_locked c ≡ false
          → P (record c { manual_active = true; manual_deadline_s = until }))
      → P (set_manual s c on now).0
  unfolding set_manual
  set_manual_cases P s c on now dropped taken =
      if_cases (λ (o : Controller R × ManualResult). P o.0) (not on) _ _ (λ no. dropped)
        (λ asked.
          if_cases (λ (o : Controller R × ManualResult). P o.0) (not s.spray_enabled) _ _
            (λ no. dropped)
            (λ enabled.
              if_cases (λ (o : Controller R × ManualResult). P o.0) (not (vehicle_armed s c now)) _
                _ (λ no. dropped)
                (λ armed.
                  if_cases (λ (o : Controller R × ManualResult). P o.0) (not (watchdog_ok s c now))
                    _ _ (λ no. dropped)
                    (λ guarded.
                      if_cases (λ (o : Controller R × ManualResult). P o.0) (manual_locked c) _ _
                        (λ no. dropped) (λ unlocked. taken _ unlocked)))))

  call-shut_down :
      (c : Controller R) (i : Call R) → c.shut_down ≡ true → (call c i).shut_down ≡ true
  unfolding call load_path note_vehicle note_rtk note_rpp set_mission note_estop note_watchdog tick
      drive_fsm decide keep_decision debounce hold_entry cut_low_speed expire_manual update_flow
      controller_ack shutdown
  call-shut_down c (loads model) h = h
  call-shut_down c (sees_vehicle v now) h = h
  call-shut_down c (sees_rtk snapshot now) h = h
  call-shut_down c (sees_rpp state id run heading travel valid now) h = h
  call-shut_down c (sees_estop asserted now) h = h
  call-shut_down c (sees_watchdog alive authority now) h = h
  call-shut_down c (sees_mission phase id) h = h
  call-shut_down c (asks_manual s on now) h =
      set_manual_cases (λ d. d.shut_down ≡ true) s c on now h (λ until unlocked. h)
  call-shut_down c (ticks s now) h = h
  call-shut_down c (acks seq success now) h = h
  call-shut_down c (shuts_down now) h = refl

  call-Owned : (c : Controller R) (i : Call R) → Owned c → Owned (call c i)
  unfolding call load_path note_vehicle note_rtk note_rpp set_mission note_estop note_watchdog tick
      drive_fsm decide keep_decision debounce hold_entry cut_low_speed expire_manual update_flow
      controller_ack shutdown
  call-Owned c (loads model) h = record {
    running = h.running;
    tracked = λ e. ground (arith, e);
    manual = h.manual;
  }
  call-Owned c (sees_vehicle v now) h = record {
    running = h.running;
    tracked = h.tracked;
    manual = h.manual;
  }
  call-Owned c (sees_rtk snapshot now) h = record {
    running = h.running;
    tracked = h.tracked;
    manual = h.manual;
  }
  call-Owned c (sees_rpp state id run heading travel valid now) h = record {
    running = h.running;
    tracked =
        seen_bool (is_tracking (rpp_state state)) c.mission_running (id == c.mission_id)
          c.tracking_seen h.tracked;
    manual = h.manual;
  }
  call-Owned c (sees_estop asserted now) h = record {
    running = h.running;
    tracked = h.tracked;
    manual = h.manual;
  }
  call-Owned c (sees_watchdog alive authority now) h = record {
    running = h.running;
    tracked = h.tracked;
    manual = h.manual;
  }
  call-Owned c (sees_mission phase id) h = record {
    running = phase_runs phase;
    tracked = λ e. kept_tracking (is_running phase) (not (id == c.mission_id)) c.tracking_seen e;
    manual = λ e. kept_manual (phase_locks (some phase)) c.manual_active e;
  }
  call-Owned c (asks_manual s on now) h =
      set_manual_cases Owned s c on now
        (record { running = h.running; tracked = h.tracked; manual = λ e. ground (arith, e) })
        (λ until unlocked. record {
          running = h.running;
          tracked = h.tracked;
          manual = λ e. unlocked;
        })
  call-Owned c (ticks s now) h = record {
    running = h.running;
    tracked = h.tracked;
    manual = λ e. h.manual (first_bool c.manual_active _ e);
  }
  call-Owned c (acks seq success now) h = record {
    running = h.running;
    tracked = h.tracked;
    manual = h.manual;
  }
  call-Owned c (shuts_down now) h = record {
    running = h.running;
    tracked = h.tracked;
    manual = λ e. ground (arith, e);
  }

  is_down : (c : Controller R) (now : R) → (call c (shuts_down now)).shut_down ≡ true
  unfolding call shutdown
  is_down c now = refl

  new_controller-Owned : (params : Params R) (period : R) → Owned (new_controller params period)
  unfolding new_controller
  new_controller-Owned params period = record {
    running = λ e. ground (arith, e);
    tracked = λ e. ground (arith, e);
    manual = λ e. ground (arith, e);
  }

  -- After any calls of a new spray controller the evidence of tracking is there only while a
  -- mission runs, and the manual request only while no mission owns the valve.
  pub history-Owned :
      (params : Params R) (period : R) (calls : List (Call R))
      → Owned (after call (new_controller params period) calls)
  history-Owned params period =
      after_inv call (new_controller params period) Owned (new_controller-Owned params period)
        call-Owned

  -- Once the spray controller was shut down, whatever was called before or is called later, its
  -- lease never allows ON and it never asks to affirm an ON.
  pub shutdown_revokes :
      (c : Controller R) (before later : List (Call R)) (now : R) (s : Settings R) (at : R)
      → let c' = after call (call (after call c before) (shuts_down now)) later in
        ((lease s c' at).allow_on ≡ false) × (reassert_due s c' at ≡ false)
  unfolding lease reassert_due
  shutdown_revokes c before later now s at =
      let down =
        after_inv call (call (after call c before) (shuts_down now)) (λ d. d.shut_down ≡ true)
          (is_down (after call c before) now) call-shut_down later in
      (ground (arith, down), ground (arith, down))
