-- ===== src/Spray/Fsm/Types.antt =====
-- spray_fsm.hpp: states, commands, parameters and the fields of the machine.
use dyx_3wd.Base.{ℕ, Bool, true, false}
use dyx_3wd.Base.Real.{Real, zero_real}

pub data State : Type 0 where
  off_unconfirmed off_confirmed on_pending on_confirmed off_pending recovery disabled : State

pub record Command : Type 0 where
  pub on : Bool
  pub seq : ℕ
  pub force : Bool

pub record Params (R : Type 0) : Type 0 where
  pub backoff_base_s : R
  pub backoff_max_s : R
  pub ack_timeout_s : R

pub record SprayFsm (R : Type 0) : Type 0 where
  pub params : Params R
  pub state : State
  pub seq : ℕ
  pub have_pending : Bool
  pub pending_since : R
  pub disabled : Bool
  pub recovery_attempt : ℕ
  pub have_deadline : Bool
  pub recovery_deadline : R
  pub prev_enabled : Bool
  pub prev_safety_ok : Bool

unfoldable pub initial : {R : Type 0} ⦃r : Real R⦄ → Params R → SprayFsm R
initial p = record {
  params = p;
  state = off_unconfirmed;
  seq = 0;
  have_pending = false;
  pending_since = zero_real;
  disabled = false;
  recovery_attempt = 0;
  have_deadline = false;
  recovery_deadline = zero_real;
  prev_enabled = true;
  prev_safety_ok = true;
}

abbrev pub spraying : State → Bool
spraying on_confirmed = true
spraying _ = false

abbrev pub commanded : State → Bool
commanded on_pending = true
commanded on_confirmed = true
commanded _ = false

abbrev pub in_recovery : State → Bool
in_recovery recovery = true
in_recovery _ = false
