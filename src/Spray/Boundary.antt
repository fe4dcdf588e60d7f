-- ===== src/Spray/Boundary.antt =====
-- boundary_projection.hpp and make_decision of boundary_projection.cpp. The projection on the path,
-- the place of the nozzle and the cosine of an angle are geometry: an argument here, of which nothing
-- is assumed. A distance of infinity is `none`.
use dyx_3wd.Base.{
  ℕ, ◌≡◌, refl, Bool, true, false, not, ◌&&◌, ◌||◌, Option, none, some, List, [], ◌∷◌, arith,
  if◌then◌else◌,
}
use dyx_3wd.Base.Int.{ℤ}
use dyx_3wd.Base.Real.{Real, zero_real, max_real}
use dyx_3wd.Spray.Gates.Ops.{GateReason}

pub data BoundaryKind : Type 0 where
  transit_to_mark mark_to_transit : BoundaryKind

abbrev pub same_kind : BoundaryKind → BoundaryKind → Bool
same_kind transit_to_mark transit_to_mark = true
same_kind mark_to_transit mark_to_transit = true
same_kind _ _ = false

pub record Boundary (R : Type 0) : Type 0 where
  pub s : R
  pub kind : BoundaryKind

pub record PathModel (R : Type 0) : Type 0 where
  pub north : List R
  pub east : List R
  pub flags : List Bool
  pub run_ids : List ℕ
  pub cumulative_s : List R
  pub boundaries : List (Boundary R)

pub record Projection (R : Type 0) : Type 0 where
  pub segment_index : ℤ
  pub t : R
  pub proj_n : R
  pub proj_e : R
  pub s : R
  pub xtrack_error_m : R
  pub current_flag : Bool

pub record ProjectionConfig (R : Type 0) : Type 0 where
  pub prev_s : Option R
  pub window_back_m : R
  pub window_fwd_m : R
  pub reacquire_dist_m : R
  pub heading_rad : Option R
  pub direction_gate_cos : R

pub record Geometry (R : Type 0) : Type 0 where
  pub project_onto_path : PathModel R → R → R → ProjectionConfig R → Option (Projection R)
  pub nozzle_position_ned : R → R → R → R → R → R × R
  pub direction_gate_cos : R → R

pub data LeadEvent : Type 0 where
  no_event on_early off_early terminal_off : LeadEvent

pub record DecisionParams (R : Type 0) : Type 0 where
  pub solenoid_open_delay_s : R
  pub solenoid_close_delay_s : R
  pub debounce_delay_s : R
  pub on_overspray_margin_m : R
  pub off_overspray_margin_m : R
  pub max_xtrack_error_m : R
  pub max_xtrack_from_mission : Bool
  pub xtrack_trip_error_m : R
  pub xtrack_gate_min_off_s : R
  pub terminal_off_epsilon_m : R
  pub terminal_off_speed_mps : R
  pub projection_window_back_m : R
  pub projection_window_fwd_m : R
  pub projection_reacquire_dist_m : R
  pub projection_direction_gate_cos : R

pub record DecisionState (R : Type 0) : Type 0 where
  pub prev_projection_s : Option R
  pub xtrack_tripped : Bool
  pub xtrack_tripped_elapsed_s : R

-- Why spraying is not safe: a gate, or the error across the track with both levels.
pub data SafetyReason (R : Type 0) : Type 0 where
  gate : GateReason R → SafetyReason R
  xtrack : R → R → R → Bool → SafetyReason R

pub record DecisionInput (R : Type 0) : Type 0 where
  pub model : Option (PathModel R)
  pub nozzle : Option (R × R)
  pub speed_mps : R
  pub yaw_rad : R
  pub safety_ok : Bool
  pub safety_reason : GateReason R

pub record Decision (R : Type 0) : Type 0 where
  pub desired : Bool
  pub geometry_desired : Bool
  pub safety_ok : Bool
  pub safety_reason : SafetyReason R
  pub projection : Option (Projection R)
  pub next_boundary : Option (Boundary R)
  pub distance_to_boundary_m : Option R
  pub event : LeadEvent
  pub xtrack_tripped : Bool

module _ {R : Type 0} ⦃r : Real R⦄ where
  unfoldable pub find_boundary : BoundaryKind → R → List (Boundary R) → Option (Boundary R)
  find_boundary wanted current_s [] = none
  find_boundary wanted current_s (b ∷ bs) =
      let rest = find_boundary wanted current_s bs in
      if same_kind b.kind wanted && r.lt (r.add current_s (r.lit 1 1000000000)) b.s
      then some b
      else rest

  abbrev pub next_boundary : PathModel R → R → Bool → Option (Boundary R)
  next_boundary m current_s current_flag =
      find_boundary (if current_flag then mark_to_transit else transit_to_mark) current_s
        m.boundaries

  -- The new `geometry_desired` and the event.
  unfoldable pub apply_mark_boundary_lead : Bool → BoundaryKind → R → R → R → Bool × LeadEvent
  apply_mark_boundary_lead desired kind dist on_lead off_lead =
      if not (r.finite dist)
      then (desired, no_event)
      else if not desired && same_kind kind transit_to_mark && r.le dist on_lead
      then (true, on_early)
      else if desired && same_kind kind mark_to_transit && r.le dist off_lead
      then (false, off_early)
      else (desired, no_event)

  abbrev pub project_nozzle :
      Geometry R
      → DecisionInput R
      → DecisionParams R
      → DecisionState R
      → Option (PathModel R)
      → Option (R × R)
      → Option (PathModel R × Projection R)
  project_nozzle g i p st none nozzle = none
  project_nozzle g i p st (some m) none = none
  project_nozzle g i p st (some m) (some (n, e)) =
      elim (g.project_onto_path m n e (record {
        prev_s = st.prev_projection_s;
        window_back_m = p.projection_window_back_m;
        window_fwd_m = p.projection_window_fwd_m;
        reacquire_dist_m = p.projection_reacquire_dist_m;
        heading_rad = some i.yaw_rad;
        direction_gate_cos = p.projection_direction_gate_cos;
      })) [ none ↦ none | some pr ↦ some (m, pr) ]

  abbrev pub trip_level : DecisionParams R → R
  trip_level p =
      if p.max_xtrack_from_mission
      then p.max_xtrack_error_m
      else max_real p.max_xtrack_error_m p.xtrack_trip_error_m

  -- Trip at the wide level; clear under the tight one, once the dwell is over.
  unfoldable pub trips : DecisionParams R → DecisionState R → R → Bool
  trips p st error =
      if st.xtrack_tripped
      then r.lt p.max_xtrack_error_m error
        || r.lt st.xtrack_tripped_elapsed_s p.xtrack_gate_min_off_s
      else r.lt (trip_level p) error

  -- The lead of the next boundary.
  abbrev pub lead_boundary :
      DecisionInput R → DecisionParams R → R → Bool → Option (Boundary R) → Bool × LeadEvent
  lead_boundary i p s flag none = (flag, no_event)
  lead_boundary i p s flag (some b) =
      apply_mark_boundary_lead flag b.kind (r.sub b.s s)
        (r.add (r.mul i.speed_mps (r.add p.solenoid_open_delay_s p.debounce_delay_s))
          p.on_overspray_margin_m)
        (max_real zero_real (
          r.sub (r.mul i.speed_mps (r.add p.solenoid_close_delay_s p.debounce_delay_s))
            p.off_overspray_margin_m))

  abbrev pub boundary_distance : R → Option (Boundary R) → Option R
  boundary_distance s none = none
  boundary_distance s (some b) = if r.finite (r.sub b.s s) then some (r.sub b.s s) else none

  unfoldable pub last_of : List R → Option R
  last_of [] = none
  last_of (x ∷ []) = some x
  last_of (x ∷ y ∷ ys) = last_of (y ∷ ys)

  abbrev pub at_terminal : DecisionInput R → DecisionParams R → R → Option R → Bool
  at_terminal i p s none = false
  at_terminal i p s (some end) =
      r.le i.speed_mps p.terminal_off_speed_mps && r.le (r.sub end s) p.terminal_off_epsilon_m

  abbrev pub decide_on :
      DecisionInput R
      → DecisionParams R
      → DecisionState R
      → Option (PathModel R × Projection R)
      → Decision R
  decide_on i p st none = record {
    desired = false;
    geometry_desired = false;
    safety_ok = i.safety_ok;
    safety_reason = gate i.safety_reason;
    projection = none;
    next_boundary = none;
    distance_to_boundary_m = none;
    event = no_event;
    xtrack_tripped = false;
  }
  decide_on i p st (some (m, pr)) =
      let tripped = trips p st pr.xtrack_error_m in
      let safe = i.safety_ok && not tripped in
      let next = next_boundary m pr.s pr.current_flag in
      let lead = lead_boundary i p pr.s pr.current_flag next in
      let at_end = lead.0 && at_terminal i p pr.s (last_of m.cumulative_s) in
      let desired = lead.0 && not at_end in
      record {
        desired = desired && safe;
        geometry_desired = desired;
        safety_ok = safe;
        safety_reason =
            if tripped
            then xtrack pr.xtrack_error_m (trip_level p) p.max_xtrack_error_m
                p.max_xtrack_from_mission
            else gate i.safety_reason;
        projection = some pr;
        next_boundary = next;
        distance_to_boundary_m = boundary_distance pr.s next;
        event = if at_end then terminal_off else lead.1;
        xtrack_tripped = tripped;
      }

  unfoldable pub make_decision :
      Geometry R → DecisionInput R → DecisionParams R → DecisionState R → Decision R
  make_decision g i p st = decide_on i p st (project_nozzle g i p st i.model i.nozzle)

  Decided : DecisionInput R → Decision R → Type 0
  Decided i d =
      (d.desired ≡ (d.geometry_desired && d.safety_ok))
      × (d.safety_ok ≡ (i.safety_ok && not d.xtrack_tripped))

  decided :
      (i : DecisionInput R) (p : DecisionParams R) (st : DecisionState R)
      (o : Option (PathModel R × Projection R))
      → Decided i (decide_on i p st o)
  unfolding Decided
  decided i p st none = (refl, ground arith)
  decided i p st (some (m, pr)) = (refl, refl)

  -- Nothing is desired without the gates, nor beyond the trip level.
  pub make_decision_lem :
      (g : Geometry R) (i : DecisionInput R) (p : DecisionParams R) (st : DecisionState R)
      → let d = make_decision g i p st in
        (d.desired ≡ (d.geometry_desired && d.safety_ok))
        × (d.safety_ok ≡ (i.safety_ok && not d.xtrack_tripped))
  unfolding make_decision Decided
  make_decision_lem g i p st = decided i p st (project_nozzle g i p st i.model i.nozzle)
