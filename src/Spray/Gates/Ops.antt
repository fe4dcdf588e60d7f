-- ===== src/Spray/Gates/Ops.antt =====
-- spray_gates.hpp and .cpp. The texts of the reasons are values of data types; a reason that another
-- component gives is a text.
use Prim.Native.String.{String}
use dyx_3wd.Base.{ℕ, Bool, true, false, not, ◌&&◌, ◌||◌, Option, none, some, ◌==◌, if◌then◌else◌}
use dyx_3wd.Base.Int.{ℤ, pos, ltb_ℤ, eqb_ℤ}
use dyx_3wd.Base.Real.{Real, zero_real, max_real}

pub data FixName : Type 0 where
  no_gps no_fix fix_2d fix_3d dgps rtk_float rtk_fixed static ppp : FixName
  other_fix : ℤ → FixName

unfoldable pub fix_name_of : ℤ → FixName
fix_name_of f =
    if eqb_ℤ f (pos 0)
    then no_gps
    else if eqb_ℤ f (pos 1)
    then no_fix
    else if eqb_ℤ f (pos 2)
    then fix_2d
    else if eqb_ℤ f (pos 3)
    then fix_3d
    else if eqb_ℤ f (pos 4)
    then dgps
    else if eqb_ℤ f (pos 5)
    then rtk_float
    else if eqb_ℤ f (pos 6)
    then rtk_fixed
    else if eqb_ℤ f (pos 7)
    then static
    else if eqb_ℤ f (pos 8)
    then ppp
    else other_fix f

-- What the quality of a sample lacks; `good` is the empty text.
pub data QualityReason (R : Type 0) : Type 0 where
  good unavailable accuracy_unknown : QualityReason R
  sample_stale accuracy_above : R → R → QualityReason R
  fix_below : ℤ → ℤ → QualityReason R
  not_rover : ℤ → QualityReason R

pub record RtkQuality (R : Type 0) : Type 0 where
  pub fresh : Bool
  pub acceptable : Bool
  pub fix_name : FixName
  pub reason : QualityReason R

pub record RtkGateConfig (R : Type 0) : Type 0 where
  pub require_rtk_fix : Bool
  pub min_fix_type : ℤ
  pub max_h_acc_m : R
  pub require_accuracy : Bool
  pub fix_timeout_s : R
  pub recover_hold_s : R

-- Why a gate is closed; `open_gate` is the empty text.
pub data GateReason (R : Type 0) : Type 0 where
  open_gate corrections_stale gps_stale : GateReason R
  quality : QualityReason R → GateReason R
  recovering : R → R → GateReason R
  not_running rpp_stale rpp_mismatch rpp_not_marking : GateReason R
  estop_asserted disarmed not_offboard no_path pose_stale velocity_stale : GateReason R
  awaiting_tracking pivoting_in_place : GateReason R
  said : String → GateReason R

pub record GateResult (R : Type 0) : Type 0 where
  pub ok : Bool
  pub reason : GateReason R

pub record RtkGate (R : Type 0) : Type 0 where
  pub have_since : Bool
  pub since_s : R

pub record Sample (R : Type 0) : Type 0 where
  pub fix_type : ℤ
  pub h_acc_m : Option R
  pub sample_age_s : Option R
  pub corrections_fresh : Bool

abbrev pub is_rover_fix : ℤ → Bool
is_rover_fix f = eqb_ℤ f (pos 5) || eqb_ℤ f (pos 6)

pub record PivotGate (R : Type 0) : Type 0 where
  pub have_state : Bool
  pub pivoting : Bool
  pub recv_s : R

pub data RppState : Type 0 where
  idle tracking stopping pivoting creeping complete error loaded : RppState

-- `static_cast` of a byte: a value that is no state refuses like IDLE.
abbrev pub rpp_state : ℕ → RppState
rpp_state n =
    if n == 1
    then tracking
    else if n == 2
    then stopping
    else if n == 3
    then pivoting
    else if n == 4
    then creeping
    else if n == 5
    then complete
    else if n == 6
    then error
    else if n == 7
    then loaded
    else idle

abbrev pub is_marking : RppState → Bool
is_marking tracking = true
is_marking stopping = true
is_marking pivoting = true
is_marking creeping = true
is_marking _ = false

pub record OwnershipInputs (R : Type 0) : Type 0 where
  pub mission_running : Bool
  pub mission_id : ℕ
  pub rpp_known : Bool
  pub rpp_age_s : R
  pub rpp_timeout_s : R
  pub rpp_state : ℕ
  pub rpp_mission_id : ℕ

pub record GateInputs (R : Type 0) : Type 0 where
  pub ownership : GateResult R
  pub heading_evidence : GateResult R
  pub armed : Bool
  pub offboard : Bool
  pub path_loaded : Bool
  pub pose_fresh : Bool
  pub velocity_fresh : Bool
  pub tracking_seen : Bool
  pub pivoting : Bool
  pub estop_clear : Bool
  pub require_offboard : Bool
  pub rtk : GateResult R

module _ {R : Type 0} where
  abbrev pub refuse : GateReason R → GateResult R
  refuse reason = record { ok = false; reason = reason }

  abbrev pub pass : GateResult R
  pass = record { ok = true; reason = open_gate }

  abbrev pub verdict : FixName → Bool → Bool → QualityReason R → RtkQuality R
  verdict name fresh acceptable reason = record {
    fresh = fresh;
    acceptable = acceptable;
    fix_name = name;
    reason = reason;
  }

module _ {R : Type 0} ⦃r : Real R⦄ where
  -- An accuracy counts only if it is finite and not negative.
  abbrev pub usable_accuracy : Option R → Option R
  usable_accuracy none = none
  usable_accuracy (some a) = if r.finite a && r.le zero_real a then some a else none

  unfoldable pub judge_accuracy : FixName → Option R → R → Bool → RtkQuality R
  judge_accuracy name none max_h_acc require_accuracy =
      if require_accuracy
      then verdict name true false accuracy_unknown
      else verdict name true true good
  judge_accuracy name (some acc) max_h_acc require_accuracy =
      if r.lt zero_real max_h_acc && r.lt max_h_acc acc
      then verdict name true false (accuracy_above acc max_h_acc)
      else verdict name true true good

  unfoldable pub judge_fix : FixName → ℤ → Option R → ℤ → R → Bool → RtkQuality R
  judge_fix name fix_type h_acc min_fix max_h_acc require_accuracy =
      if ltb_ℤ fix_type min_fix
      then verdict name true false (fix_below fix_type min_fix)
      else if not (is_rover_fix fix_type)
      then verdict name true false (not_rover fix_type)
      else judge_accuracy name (usable_accuracy h_acc) max_h_acc require_accuracy

  unfoldable pub evaluate_rtk_quality : ℤ → Option R → Option R → R → ℤ → R → Bool → RtkQuality R
  evaluate_rtk_quality fix_type h_acc none timeout min_fix max_h_acc require_accuracy =
      verdict (fix_name_of fix_type) false false unavailable
  evaluate_rtk_quality fix_type h_acc (some age) timeout min_fix max_h_acc require_accuracy =
      let limit = max_real zero_real timeout in
      if not (r.finite age)
      then verdict (fix_name_of fix_type) false false unavailable
      else if r.lt age zero_real || r.lt limit age
      then verdict (fix_name_of fix_type) false false (sample_stale (max_real zero_real age) limit)
      else judge_fix (fix_name_of fix_type) fix_type h_acc min_fix max_h_acc require_accuracy

  unfoldable pub new_gate : RtkGate R
  new_gate = record { have_since = false; since_s = zero_real }

  abbrev pub drop_since : RtkGate R → RtkGate R
  drop_since g = record g { have_since = false }

  abbrev pub quality_of : RtkGateConfig R → Sample R → RtkQuality R
  quality_of cfg s =
      evaluate_rtk_quality s.fix_type s.h_acc_m s.sample_age_s cfg.fix_timeout_s cfg.min_fix_type
        cfg.max_h_acc_m cfg.require_accuracy

  abbrev pub begin_hold : RtkGate R → R → RtkGate R
  begin_hold g now = if not g.have_since then record { have_since = true; since_s = now } else g

  unfoldable pub hold_gate : RtkGate R → RtkGateConfig R → R → RtkGate R × GateResult R
  hold_gate g cfg now =
      let held = r.sub now g.since_s in
      let hold = max_real zero_real cfg.recover_hold_s in
      if r.lt held hold then (g, refuse (recovering held hold)) else (g, pass)

  unfoldable pub evaluate : RtkGate R → RtkGateConfig R → Sample R → R → RtkGate R × GateResult R
  evaluate g cfg s now =
      let q = quality_of cfg s in
      if not s.corrections_fresh
      then (drop_since g, refuse corrections_stale)
      else if not cfg.require_rtk_fix
      then (drop_since g, pass)
      else if not q.fresh
      then (drop_since g, refuse gps_stale)
      else if not q.acceptable
      then (drop_since g, refuse (quality q.reason))
      else hold_gate (begin_hold g now) cfg now

  unfoldable pub note_state : PivotGate R → Bool → R → PivotGate R
  note_state g turning now = record { have_state = true; pivoting = turning; recv_s = now }

  unfoldable pub active : PivotGate R → Bool → R → R → PivotGate R × Bool
  active g off_during_pivot timeout now =
      if not off_during_pivot
      then (g, false)
      else if not g.have_state
      then (g, false)
      else if r.lt (max_real zero_real timeout) (r.sub now g.recv_s)
      then (record g { have_state = false }, false)
      else (g, g.pivoting)

  unfoldable pub ownership_status : OwnershipInputs R → GateResult R
  ownership_status i =
      if not i.mission_running
      then refuse not_running
      else if not i.rpp_known || not (r.le i.rpp_age_s (max_real zero_real i.rpp_timeout_s))
      then refuse rpp_stale
      else if not (i.rpp_mission_id == i.mission_id)
      then refuse rpp_mismatch
      else if is_marking (rpp_state i.rpp_state)
      then pass
      else refuse rpp_not_marking

unfoldable pub auto_safety_status : {R : Type 0} → GateInputs R → GateResult R
auto_safety_status i =
    if not i.estop_clear
    then refuse estop_asserted
    else if not i.ownership.ok
    then i.ownership
    else if not i.heading_evidence.ok
    then i.heading_evidence
    else if not i.armed
    then refuse disarmed
    else if i.require_offboard && not i.offboard
    then refuse not_offboard
    else if not i.path_loaded
    then refuse no_path
    else if not i.pose_fresh
    then refuse pose_stale
    else if not i.velocity_fresh
    then refuse velocity_stale
    else if not i.rtk.ok
    then refuse i.rtk.reason
    else if not i.tracking_seen
    then refuse awaiting_tracking
    else if i.pivoting
    then refuse pivoting_in_place
    else pass
