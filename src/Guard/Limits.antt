-- ===== src/Guard/Limits.antt =====
-- limits.hpp and .cpp: the hard envelopes, and the shaper that tests use. A `float` and a `double`
-- are both an `R` here: the conversions between them are not told apart.
use dyx_3wd.Base.{Bool, true, false, not, ◌&&◌, ◌||◌, if◌then◌else◌}
use dyx_3wd.Base.Real.{Real, zero_real, min_real, max_real}
use dyx_3wd.Guard.Types.{Mode, stop, pivot, Motion, uses_rate, canonical_stop}

pub record Limits (R : Type 0) : Type 0 where
  pub max_forward_speed_mps : R
  pub max_reverse_speed_mps : R
  pub max_yaw_rate_radps : R
  pub profile_shaping_test_mode : Bool
  pub max_accel_mps2 : R
  pub max_decel_mps2 : R
  pub max_yaw_accel_radps2 : R
  pub max_jerk_mps3 : R

pub record LimitState (R : Type 0) : Type 0 where
  pub last_speed : R
  pub last_accel : R
  pub last_rate : R

pub record Limited (R : Type 0) : Type 0 where
  pub motion : Motion R
  pub clamped : Bool

abbrev pub is_stop : Mode → Bool
is_stop stop = true
is_stop _ = false

abbrev pub is_pivot : Mode → Bool
is_pivot pivot = true
is_pivot _ = false

module _ {R : Type 0} ⦃r : Real R⦄ where
  abbrev positive : R → Bool
  positive v = r.finite v && r.lt zero_real v

  abbrev optional : R → Bool
  optional v = r.is_nan v || positive v

  unfoldable pub limits_valid : Limits R → Bool
  limits_valid l =
      positive l.max_forward_speed_mps
      && r.finite l.max_reverse_speed_mps
      && r.le zero_real l.max_reverse_speed_mps
      && positive l.max_yaw_rate_radps
      && positive l.max_accel_mps2
      && positive l.max_decel_mps2
      && optional l.max_yaw_accel_radps2
      && optional l.max_jerk_mps3

  abbrev pub reset : LimitState R
  reset = record { last_speed = zero_real; last_accel = zero_real; last_rate = zero_real }

  -- `step_toward` where `v` is not negative.
  unfoldable pub step_from : R → R → R → R → R → R
  step_from v target dt accel decel =
      if r.eq v zero_real
      then if r.lt zero_real target
        then min_real target (r.mul accel dt)
        else if r.lt target zero_real
        then max_real target (r.mul (r.neg accel) dt)
        else zero_real
      else if r.le v target
      then min_real target (r.add v (r.mul accel dt))
      else if r.le zero_real target
      then max_real target (r.sub v (r.mul decel dt))
      else let t0 = r.div v decel in
        if r.le dt t0
        then r.sub v (r.mul decel dt)
        else max_real target (r.mul (r.neg accel) (r.sub dt t0))

  -- The recursion on `-v` is one deep: `-v` is not negative.
  unfoldable pub step_toward : R → R → R → R → R → R
  unfolding step_from
  step_toward v target dt accel decel =
      if r.lt v zero_real
      then r.neg (step_from (r.neg v) (r.neg target) dt accel decel)
      else step_from v target dt accel decel

  -- `if (v > hi) v = hi; if (v < lo) v = lo;`, and whether either did.
  unfoldable pub clamp_to : R → R → R → R × Bool
  clamp_to lo hi v =
      let above = r.lt hi v in
      let v' = if above then hi else v in if r.lt v' lo then (lo, true) else (v', above)

  -- `std::clamp`.
  abbrev clamp : R → R → R → R
  clamp v lo hi = if r.lt v lo then lo else if r.lt hi v then hi else v

  abbrev differs : R → R → Bool
  differs a b = r.lt (r.lit 1 1000000000) (r.abs (r.sub a b))

  -- The jerk bound on a speed step.
  unfoldable pub bound_jerk : R → R → Limits R → LimitState R → R
  bound_jerk nv dt lim st =
      let da = r.mul lim.max_jerk_mps3 dt in
      let a =
        clamp (r.div (r.sub nv st.last_speed) dt) (r.sub st.last_accel da)
          (r.add st.last_accel da) in
      if not (r.is_nan lim.max_jerk_mps3) && r.lt zero_real dt
      then r.add st.last_speed (r.mul a dt)
      else nv

  -- The speed ramp of the shaper: the speed, whether it differs, and the state.
  unfoldable pub shape_speed :
      Mode → R → R → Limits R → LimitState R → Bool → R × Bool × LimitState R
  unfolding step_toward bound_jerk
  shape_speed mode v dt lim st clamped =
      if is_pivot mode
      then (zero_real, clamped, record st { last_speed = zero_real; last_accel = zero_real })
      else let nv =
          bound_jerk (step_toward st.last_speed v dt lim.max_accel_mps2 lim.max_decel_mps2) dt lim
            st in
        (
          nv,
          clamped || differs nv v,
          record st {
            last_accel = if r.lt zero_real dt then r.div (r.sub nv st.last_speed) dt else zero_real;
            last_speed = nv;
          },
        )

  unfoldable pub shape_rate :
      Mode → R → R → Limits R → LimitState R → Bool → R × Bool × LimitState R
  shape_rate mode rate dt lim st clamped =
      let most = r.mul lim.max_yaw_accel_radps2 dt in
      let nr = clamp rate (r.sub st.last_rate most) (r.add st.last_rate most) in
      if not (uses_rate mode)
      then (rate, clamped, record st { last_rate = zero_real })
      else if r.is_nan lim.max_yaw_accel_radps2
      then (rate, clamped, record st { last_rate = rate })
      else (nr, clamped || differs nr rate, record st { last_rate = nr })

  unfoldable pub apply_limits : Motion R → R → Limits R → LimitState R → Limited R × LimitState R
  apply_limits i dt lim st =
      if is_stop i.mode
      then (record { motion = canonical_stop; clamped = false }, reset)
      else let (v, slowed) =
          clamp_to (r.neg lim.max_reverse_speed_mps) lim.max_forward_speed_mps i.speed_body_x in
        let (turn, turned) =
          let most = lim.max_yaw_rate_radps in
          let pair : R × Bool =
            if uses_rate i.mode
            then clamp_to (r.neg most) most i.yaw_rate_setpoint
            else (i.yaw_rate_setpoint, false) in
          pair in
        if not lim.profile_shaping_test_mode
        then (
          record {
            motion = record i {
              speed_body_x = v;
              yaw_rate_setpoint = if uses_rate i.mode then turn else i.yaw_rate_setpoint;
            };
            clamped = slowed || turned;
          },
          reset,
        )
        else let (v', c, st') = shape_speed i.mode v dt lim st (slowed || turned) in
          let (turn', c', st'') = shape_rate i.mode turn dt lim st' c in
          (
            record {
              motion = record i {
                speed_body_x = v';
                yaw_rate_setpoint = if uses_rate i.mode then turn' else i.yaw_rate_setpoint;
              };
              clamped = c';
            },
            st'',
          )
