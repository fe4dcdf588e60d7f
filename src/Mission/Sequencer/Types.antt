-- ===== src/Mission/Sequencer/Types.antt =====
-- px4_sequencer.hpp: the requests, outcomes and the state of the sequencer.
use dyx_3wd.Base.{
  ℕ, Bool, true, false, ◌||◌, List, [], ◌∷◌, Option, none, some, ◌==◌, if◌then◌else◌,
}

pub data Op : Type 0 where
  arm offboard_on offboard_off disarm : Op

pub data Px4Result : Type 0 where
  ok refused timeout : Px4Result

abbrev pub arm_reason_timeout : ℕ
arm_reason_timeout = 3

pub record Request : Type 0 where
  pub op : Op
  pub id : ℕ

pub record Outcome : Type 0 where
  pub op : Op
  pub result : Px4Result
  pub reason_code : ℕ
  pub id : ℕ
  pub abandoned : Bool

pub record Timeouts (R : Type 0) : Type 0 where
  pub arm_s : R
  pub offboard_s : R

-- What is known of the arm request of the current engage cycle.
pub data Arm : Type 0 where
  unasked in_flight confirmed declined doubt : Arm

pub record Flight : Type 0 where
  pub req : Request
  pub deadline_ns : ℕ
  pub abandoned : Bool

pub record Sequencer (R : Type 0) : Type 0 where
  pub timeouts : Timeouts R
  pub queue : List Op
  pub flights : List Flight
  pub arm_state : Arm
  pub armed_earlier : Bool
  pub offboard_requested : Bool
  pub releasing : Bool
  pub next_id : ℕ

abbrev pub is_release : Op → Bool
is_release offboard_off = true
is_release disarm = true
is_release _ = false

abbrev pub is_arm : Op → Bool
is_arm arm = true
is_arm _ = false

abbrev pub is_disarm : Op → Bool
is_disarm disarm = true
is_disarm _ = false

abbrev pub is_offboard_on : Op → Bool
is_offboard_on offboard_on = true
is_offboard_on _ = false

abbrev pub any {ℓ} : {A : Type ℓ} → (A → Bool) → List A → Bool
any p [] = false
any p (x ∷ xs) = p x || any p xs

abbrev pub holds_arm : Arm → Bool
holds_arm in_flight = true
holds_arm confirmed = true
holds_arm doubt = true
holds_arm _ = false

abbrev pub is_empty {ℓ} : {A : Type ℓ} → List A → Bool
is_empty [] = true
is_empty (_ ∷ _) = false

abbrev pub abandon : List Flight → List Flight
abandon [] = []
abandon (f ∷ fs) = record f { abandoned = true } ∷ abandon fs

unfoldable pub first_release : List Flight → Option Op
first_release [] = none
first_release (f ∷ fs) = if is_release f.req.op then some f.req.op else first_release fs

abbrev pub front : List Op → Option Op
front [] = none
front (op ∷ _) = some op

abbrev pub judge : Px4Result → ℕ → Arm
judge ok _ = confirmed
judge timeout _ = doubt
judge refused reason = if reason == arm_reason_timeout then doubt else declined

-- The flight of a request, and the others.
unfoldable pub take_flight : ℕ → List Flight → Option (Flight × List Flight)
take_flight id [] = none
take_flight id (f ∷ fs) =
    if f.req.id == id
    then some (f, fs)
    else elim (take_flight id fs) [ none ↦ none | some (g, gs) ↦ some (g, f ∷ gs) ]
