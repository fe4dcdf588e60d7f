-- ===== src/Spray/Lease.antt =====
-- ros2_ws/src/dyx3_spray/{include/dyx3_spray,src}/safety_lease.{hpp,cpp}: the lease's validation and
-- the freshness monitor. The texts of the reasons are values of data types here; a reason given by a
-- caller is a text.
use Prim.Native.String.{String}
use text.Mathlib.Text.{◌==◌ as text_eq}
use dyx_3wd.Base.{ℕ, Bool, true, false, not, ◌&&◌, ◌||◌, Option, none, some, if◌then◌else◌}
use dyx_3wd.Base.Int.{ℤ, pos, ltb_ℤ, eqb_ℤ, within}
use dyx_3wd.Base.Real.{Real, zero_real}

pub record Lease (R : Type 0) : Type 0 where
  pub allow_on : Bool
  pub command_seq : ℤ
  pub backend : ℤ
  pub actuator_set_index : ℤ
  pub off_value : R
  pub servo_instance : ℤ
  pub off_pwm_us : ℤ

abbrev pub backend_actuator : ℤ
backend_actuator = pos 0

abbrev pub backend_servo_pwm : ℤ
backend_servo_pwm = pos 1

pub record ActuatorMapping (R : Type 0) : Type 0 where
  pub backend : ℤ
  pub actuator_set_index : ℤ
  pub off_value : R
  pub servo_instance : ℤ
  pub off_pwm_us : ℤ

-- What `validate_lease` says; `none` is its empty string.
pub data Fault : Type 0 where
  negative_seq bad_index bad_off_value bad_servo bad_pwm : Fault
  unsupported_backend : ℤ → Fault

pub data InvalidReason : Type 0 where
  cleared now_not_finite unspecified : InvalidReason
  faulty : Fault → InvalidReason
  said : String → InvalidReason

pub data OffCause : Type 0 where
  no_cause no_lease invalidated stale denied shutdown : OffCause

abbrev pub cause_value : OffCause → ℕ
cause_value no_cause = 0
cause_value no_lease = 1
cause_value invalidated = 2
cause_value stale = 3
cause_value denied = 4
cause_value shutdown = 5

abbrev pub required : OffCause → Bool
required no_cause = false
required _ = true

pub record LeaseMonitor (R : Type 0) : Type 0 where
  pub timeout_s : R
  pub have_lease : Bool
  pub last_lease : Lease R
  pub last_receive_s : R
  pub invalid : Bool
  pub shut_down : Bool
  pub invalid_reason : InvalidReason

-- An empty text stands for the default reason.
abbrev or_default : InvalidReason → InvalidReason
or_default (said s) = if text_eq s "" then unspecified else said s
or_default reason = reason

module _ {R : Type 0} ⦃r : Real R⦄ where
  unfoldable pub actuator_mapping : Lease R → ActuatorMapping R
  actuator_mapping l = record {
    backend = l.backend;
    actuator_set_index = l.actuator_set_index;
    off_value = l.off_value;
    servo_instance = l.servo_instance;
    off_pwm_us = l.off_pwm_us;
  }

  unfoldable pub same_actuator_mapping : ActuatorMapping R → ActuatorMapping R → Bool
  same_actuator_mapping a b =
      eqb_ℤ a.backend b.backend
      && eqb_ℤ a.actuator_set_index b.actuator_set_index
      && r.eq a.off_value b.off_value
      && eqb_ℤ a.servo_instance b.servo_instance
      && eqb_ℤ a.off_pwm_us b.off_pwm_us

  unfoldable pub validate_lease : Lease R → Option Fault
  validate_lease l =
      if ltb_ℤ l.command_seq (pos 0)
      then some negative_seq
      else if not (eqb_ℤ l.backend backend_actuator) && not (eqb_ℤ l.backend backend_servo_pwm)
      then some (unsupported_backend l.backend)
      else if not (within (pos 1) (pos 6) l.actuator_set_index)
      then some bad_index
      else if not (r.finite l.off_value)
          || r.lt l.off_value (r.neg (r.lit 1 1))
          || r.lt (r.lit 1 1) l.off_value
      then some bad_off_value
      else if not (within (pos 1) (pos 16) l.servo_instance)
      then some bad_servo
      else if not (within (pos 0) (pos 2200) l.off_pwm_us)
      then some bad_pwm
      else none

  -- The lease that a monitor holds before the first one is a default value.
  abbrev default_lease : Lease R
  default_lease = record {
    allow_on = false;
    command_seq = pos 0;
    backend = backend_actuator;
    actuator_set_index = pos 1;
    off_value = r.neg (r.lit 1 1);
    servo_instance = pos 1;
    off_pwm_us = pos 0;
  }

  -- The constructor; `none` where it throws.
  unfoldable pub monitor : R → Option (LeaseMonitor R)
  monitor timeout =
      if not (r.finite timeout) || r.le timeout zero_real
      then none
      else some (record {
        timeout_s = timeout;
        have_lease = false;
        last_lease = default_lease;
        last_receive_s = zero_real;
        invalid = false;
        shut_down = false;
        invalid_reason = cleared;
      })

  unfoldable pub invalidate : LeaseMonitor R → InvalidReason → Bool → LeaseMonitor R
  invalidate m reason is_shutdown = record m {
    invalid = true;
    shut_down = m.shut_down || is_shutdown;
    invalid_reason = or_default reason;
  }

  -- Whether the lease was accepted, or why not.
  unfoldable pub observe : LeaseMonitor R → Lease R → R → LeaseMonitor R × Option InvalidReason
  observe m l now =
      if not (r.finite now)
      then (invalidate m now_not_finite false, some now_not_finite)
      else elim (validate_lease l) [
        | some why ↦ (invalidate m (faulty why) false, some (faulty why))
        | none ↦ (
          record m {
            last_lease = l;
            last_receive_s = now;
            have_lease = true;
            invalid = false;
            invalid_reason = cleared;
          },
          none,
        )
      ]

  -- `std::fmax` passes over a NaN.
  abbrev fmax : R → R → R
  fmax a b = if r.is_nan a then b else if r.is_nan b then a else if r.lt a b then b else a

  abbrev pub age : LeaseMonitor R → R → R
  age m now = fmax zero_real (r.sub now m.last_receive_s)

  unfoldable pub off_reason : LeaseMonitor R → R → OffCause
  off_reason m now =
      if m.invalid
      then if m.shut_down then shutdown else invalidated
      else if not m.have_lease
      then no_lease
      else if r.lt m.timeout_s (age m now)
      then stale
      else if not m.last_lease.allow_on
      then denied
      else no_cause
