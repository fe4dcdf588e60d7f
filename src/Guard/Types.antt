-- ===== src/Guard/Types.antt =====
-- motion_types.hpp, estop_gate.hpp and .cpp, freshness_watchdog.hpp: commands, modes, reasons, the
-- per-mode contract of a command, the E-stop latch and the freshness of a source.
use Prim.Native.String.{String}
use text.Mathlib.Text.{◌==◌ as text_eq}
use dyx_3wd.Base.{
  ℕ, zero, suc, Bool, true, false, not, ◌&&◌, ◌||◌, Option, none, some, if◌then◌else◌, leb,
}
use dyx_3wd.Base.Real.{Real, zero_real}

pub data Mode : Type 0 where
  stop track_heading track_rate pivot creep : Mode

pub data Reason : Type 0 where
  ok invalid_message stale sequence mission_gate estop rtk_gate limit_clamped : Reason
  px4_link_unhealthy heading_unhealthy operator_link_lost arming_gate estimator_unhealthy : Reason
  global_reference_invalid actuator_stall : Reason

-- The ABI value of a reason.
abbrev pub reason_value : Reason → ℕ
reason_value ok = 0
reason_value invalid_message = 1
reason_value stale = 2
reason_value sequence = 3
reason_value mission_gate = 4
reason_value estop = 5
reason_value rtk_gate = 6
reason_value limit_clamped = 7
reason_value px4_link_unhealthy = 8
reason_value heading_unhealthy = 9
reason_value operator_link_lost = 10
reason_value arming_gate = 11
reason_value estimator_unhealthy = 12
reason_value global_reference_invalid = 13
reason_value actuator_stall = 14

abbrev pub is_ok : Reason → Bool
is_ok ok = true
is_ok _ = false

-- `static_cast<Mode>` of a byte; `none` for a byte that is no mode.
abbrev pub to_mode : ℕ → Option Mode
to_mode zero = some stop
to_mode (suc zero) = some track_heading
to_mode (suc (suc zero)) = some track_rate
to_mode (suc (suc (suc zero))) = some pivot
to_mode (suc (suc (suc (suc zero)))) = some creep
to_mode (suc (suc (suc (suc (suc _))))) = none

pub record Motion (R : Type 0) : Type 0 where
  pub mode : Mode
  pub speed_body_x : R
  pub yaw_setpoint : R
  pub yaw_rate_setpoint : R

pub record Command (R : Type 0) : Type 0 where
  pub seq : ℕ
  pub mode : ℕ
  pub speed_body_x : R
  pub yaw_setpoint : R
  pub yaw_rate_setpoint : R
  pub valid : Bool
  pub source_pose_sample_ns : ℕ

abbrev pub uses_rate : Mode → Bool
uses_rate track_rate = true
uses_rate pivot = true
uses_rate creep = true
uses_rate _ = false

module _ {R : Type 0} ⦃r : Real R⦄ where
  abbrev pub canonical_stop : Motion R
  canonical_stop = record {
    mode = stop;
    speed_body_x = zero_real;
    yaw_setpoint = r.nan;
    yaw_rate_setpoint = zero_real;
  }

  -- The fields that a mode asks for.
  unfoldable pub fits_mode : Option Mode → Command R → Bool
  fits_mode none c = false
  fits_mode (some stop) c = true
  fits_mode (some track_heading) c =
      r.finite c.speed_body_x && r.finite c.yaw_setpoint && r.is_nan c.yaw_rate_setpoint
  fits_mode (some pivot) c =
      r.finite c.speed_body_x
      && r.eq c.speed_body_x zero_real
      && r.finite c.yaw_rate_setpoint
      && r.is_nan c.yaw_setpoint
  fits_mode (some _) c =
      r.finite c.speed_body_x && r.finite c.yaw_rate_setpoint && r.is_nan c.yaw_setpoint

  unfoldable pub command_is_valid : Command R → Bool
  unfolding fits_mode
  command_is_valid c = c.valid && leb c.mode 4 && fits_mode (to_mode c.mode) c

pub record EstopLatch : Type 0 where
  pub asserted : Bool
  pub source : String

abbrev pub known_source : String → Bool
known_source s =
    text_eq s "tablet" || text_eq s "backend" || text_eq s "ble" || text_eq s "physical"

-- A request from an unknown source changes nothing.
unfoldable pub request : EstopLatch → Bool → String → EstopLatch × Bool
request l asserted source =
    if not (known_source source)
    then (l, false)
    else (record { asserted = asserted; source = if asserted then source else "" }, true)

pub record Watch (R : Type 0) : Type 0 where
  pub seen : Bool
  pub t_s : R

module _ {R : Type 0} ⦃r : Real R⦄ where
  unfoldable pub touch : Watch R → R → Watch R
  touch w now = record { seen = true; t_s = now }

  unfoldable pub fresh : Watch R → R → R → Bool
  fresh w now max_age = w.seen && r.le w.t_s now && r.le (r.sub now w.t_s) max_age
