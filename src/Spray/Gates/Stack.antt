-- ===== src/Spray/Gates/Stack.antt =====
-- The stack of the gates, and the pivot evidence.
use dyx_3wd.Base.{◌≡◌, ap, ◌∙◌, Bool, not, ◌&&◌, ◌||◌, arith, ◌==◌}
use dyx_3wd.Base.Real.{Real, zero_real, max_real}
use dyx_3wd.Spray.Gates.Ops.{
  OwnershipInputs, GateInputs, is_marking, rpp_state, ownership_status, auto_safety_status,
}

module _ {R : Type 0} ⦃r : Real R⦄ where
  -- The mission owns the valve: it runs, and the follower is fresh, of the same mission, and in a
  -- state that may lay paint.
  abbrev pub owns : OwnershipInputs R → Bool
  owns o =
      o.mission_running
      && o.rpp_known
      && r.le o.rpp_age_s (max_real zero_real o.rpp_timeout_s)
      && o.rpp_mission_id == o.mission_id
      && is_marking (rpp_state o.rpp_state)

  -- The conditions of the stack, the mission's ownership as one of them.
  abbrev pub conditions : Bool → GateInputs R → Bool
  conditions owned i =
      i.estop_clear
      && owned
      && i.heading_evidence.ok
      && i.armed
      && (not i.require_offboard || i.offboard)
      && i.path_loaded
      && i.pose_fresh
      && i.velocity_fresh
      && i.rtk.ok
      && i.tracking_seen
      && not i.pivoting

  ownership_status_lem : (o : OwnershipInputs R) → (ownership_status o).ok ≡ owns o
  unfolding ownership_status
  ownership_status_lem o = ground arith

  pub stack_lem : (i : GateInputs R) → (auto_safety_status i).ok ≡ conditions i.ownership.ok i
  unfolding auto_safety_status
  stack_lem i = ground arith

  -- The stack, with the ownership evaluated as the controller does, is open exactly if every one of
  -- its conditions holds.
  pub auto_safety_status_lem :
      (i : GateInputs R) (o : OwnershipInputs R)
      → i.ownership ≡ ownership_status o
      → (auto_safety_status i).ok ≡ conditions (owns o) i
  auto_safety_status_lem i o e =
      stack_lem i ∙ ap (λ b. conditions b i) (ap (λ g. g.ok) e ∙ ownership_status_lem o)
