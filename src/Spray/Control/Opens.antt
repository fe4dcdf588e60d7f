-- ===== src/Spray/Control/Opens.antt =====
-- When a tick opens the valve.
use dyx_3wd.Base.{
  ◌≡◌, refl, ◌⊎◌, inl, inr, Bool, true, false, not, ◌&&◌, ◌||◌, arith, if◌then◌else◌, Bool-cases,
}
use dyx_3wd.Base.Real.{Real}
use dyx_3wd.Spray.Boundary.{Geometry, make_decision_lem}
use dyx_3wd.Spray.Gates.Ops.{auto_safety_status}
use dyx_3wd.Spray.Gates.Stack.{conditions, stack_lem}
use dyx_3wd.Spray.Fsm.Types.{off_confirmed}
use dyx_3wd.Spray.Fsm.Ops.{ticks, step}
use dyx_3wd.Spray.Fsm.Safety.{opens, open_needs}
use dyx_3wd.Spray.Control.Types.{Settings, Controller}
use dyx_3wd.Spray.Control.Ops.{
  manual_locked, vehicle_armed, estop_clear, watchdog_ok, fsm_safety_ok, effective_desired,
  drive_fsm, decision_safe, safety_allows_on,
}
use dyx_3wd.Spray.Control.Tick.{
  expire_manual, inputs_at, look_gates, flow_tick, update_flow, hold_entry, cut_low_speed,
  keep_decision, debounce, decide, tick, decision_input, decision_params, decision_state,
  heading_evidence, fresh_heading,
}

both_of :
    (safe gates tripped all : Bool)
    → safe ≡ (gates && not tripped)
    → gates ≡ all
    → safe ≡ true
    → (all ≡ true) × (tripped ≡ false)
both_of safe gates tripped all e k h = (ground (arith, e, k, h), ground (arith, e, k, h))

all_bool : (a b c : Bool) → (a && b && c) ≡ true → (a ≡ true) × (b ≡ true) × (c ≡ true)
all_bool a b c h = (ground (arith, h), ground (arith, h), ground (arith, h))

rest_bool :
    (manual auto : Bool) → (if manual then true else auto) ≡ true → manual ≡ false → auto ≡ true
rest_bool manual auto h e = ground (arith, h, e)

kept_bool :
    (manual over locked unsafe : Bool)
    → (manual && not (over || locked || unsafe)) ≡ true
    → (manual ≡ true) × (over ≡ false) × (locked ≡ false)
kept_bool manual over locked unsafe h = (ground (arith, h), ground (arith, h), ground (arith, h))

denied_bool :
    (e a w m l d : Bool)
    → (if not e
        then false
        else if not a
        then false
        else if not w
        then false
        else if m && not l
        then true
        else d)
      ≡ true
    → (e ≡ true) × (a ≡ true) × (w ≡ true) × (((m ≡ true) × (l ≡ false)) ⊎ (d ≡ true))
denied_bool true true true true false d h = (refl, refl, refl, inl (refl, refl))
denied_bool true true true true true d h = (refl, refl, refl, inr h)
denied_bool true true true false l d h = (refl, refl, refl, inr h)
denied_bool true true false m l d h = ground (arith, h)
denied_bool true false w m l d h = ground (arith, h)
denied_bool false a w m l d h = ground (arith, h)

module _ {R : Type 0} ⦃r : Real R⦄ (s : Settings R) (g : Geometry R) where
  -- Every gate of automatic spray, at the controller's evidence.
  abbrev pub gates_open : Controller R → R → Bool
  gates_open c now = conditions (inputs_at s c now).ownership.ok (inputs_at s c now)

  -- The manual request holds, or all gates of automatic spray do and the desire has settled.
  abbrev pub Asked : Controller R → R → Type 0
  Asked c now =
      ((c.manual_active ≡ true)
        × (r.le c.manual_deadline_s now ≡ false)
        × (manual_locked c ≡ false))
      ⊎ ((gates_open c now ≡ true)
          × ((decide s g c now).dstate.xtrack_tripped ≡ false)
          × ((decide s g c now).desired_debounced ≡ true))

  -- What every ON needs.
  pub record Interlocked (c : Controller R) (now : R) : Type 0 where
    pub enabled : s.spray_enabled ≡ true
    pub estop : estop_clear c now ≡ true
    pub armed : vehicle_armed s c now ≡ true
    pub watchdog : watchdog_ok s c now ≡ true
    pub off : c.fsm.state ≡ off_confirmed
    pub asked : Asked c now

  decide-safe :
      (c : Controller R) (now : R)
      → decision_safe (decide s g c now).last_decision ≡ true
      → (gates_open c now ≡ true) × ((decide s g c now).dstate.xtrack_tripped ≡ false)
  unfolding decide keep_decision debounce hold_entry cut_low_speed expire_manual update_flow
      heading_evidence fresh_heading
  decide-safe c now h =
      let i = inputs_at s c now in
      let c2 = flow_tick s (look_gates s (expire_manual s c now) now) now in
      let facts =
        make_decision_lem g (decision_input s g c2 now (auto_safety_status i))
          (decision_params s g c2) (decision_state s c2 now) in
      both_of _ _ _ _ facts.1 (stack_lem i) h

  fsm_safety_ok-needs :
      (c : Controller R) (now : R)
      → fsm_safety_ok s c now ≡ true
      → (estop_clear c now ≡ true)
        × (vehicle_armed s c now ≡ true)
        × (watchdog_ok s c now ≡ true)
        × (((c.manual_active ≡ true) × (manual_locked c ≡ false))
            ⊎ (decision_safe c.last_decision ≡ true))
  unfolding fsm_safety_ok
  fsm_safety_ok-needs c now h =
      denied_bool (estop_clear c now) (vehicle_armed s c now) (watchdog_ok s c now) c.manual_active
        (manual_locked c) (decision_safe c.last_decision) h

  -- What a tick leaves of the manual request.
  decide-manual :
      (c : Controller R) (now : R)
      → (decide s g c now).manual_active ≡ true
      → (c.manual_active ≡ true)
        × (r.le c.manual_deadline_s now ≡ false)
        × (manual_locked c ≡ false)
  unfolding decide keep_decision debounce hold_entry cut_low_speed expire_manual update_flow
  decide-manual c now h =
      kept_bool c.manual_active (r.le c.manual_deadline_s now) (manual_locked c)
        (not (safety_allows_on s c now)) h

  decide-Asked :
      (c : Controller R) (now : R)
      → effective_desired (decide s g c now) ≡ true
      → (((decide s g c now).manual_active ≡ true) × (manual_locked c ≡ false))
        ⊎ (decision_safe (decide s g c now).last_decision ≡ true)
      → Asked c now
  decide-Asked c now h k = elim (Bool-cases (decide s g c now).manual_active) [
    | inl manual ↦ inl (decide-manual c now manual)
    | inr auto ↦ elim k [
      | inl (manual, unlocked) ↦ absurd (ground (arith, manual, auto))
      | inr safe ↦
          let (gates, track) = decide-safe c now safe in inr (gates, track, rest_bool _ _ h auto)
    ]
  ]

  -- Whatever the geometry says, a tick of the spray controller opens the valve only with spraying
  -- enabled, the E-stop known to be clear and the vehicle to be armed, by fresh evidence, the
  -- watchdog ready if it is required, and from a confirmed OFF; and only if a manual request is
  -- not over and no mission owns the valve, or every gate of automatic spray is open, the track
  -- error is not tripped and the debounced desire is ON.
  pub tick-Interlocked :
      (c : Controller R) (now : R) → opens (tick s g c now).1 ≡ true → Interlocked c now
  unfolding tick drive_fsm step decide keep_decision debounce hold_entry cut_low_speed expire_manual
      update_flow
  tick-Interlocked c now h =
      let c' = decide s g c now in
      let need =
        open_needs c'.fsm
          (ticks (effective_desired c') (fsm_safety_ok s c' now) s.spray_enabled now) h in
      let (wanted, safe, on) =
        all_bool (effective_desired c') (fsm_safety_ok s c' now) s.spray_enabled need.0 in
      let (clear, armed, guarded, source) = fsm_safety_ok-needs c' now safe in
      record {
        enabled = on;
        estop = clear;
        armed = armed;
        watchdog = guarded;
        off = need.1;
        asked = decide-Asked c now wanted source;
      }
