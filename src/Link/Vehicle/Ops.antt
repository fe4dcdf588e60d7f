-- ===== src/Link/Vehicle/Ops.antt =====
-- vehicle_state_assembler.hpp and .cpp. `atan2` and `remainder` are those of the mathematical library
-- and arguments.
use dyx_3wd.Base.{ℕ, ◌-◌, Bool, true, false, not, ◌&&◌, ltb, ◌==◌, if◌then◌else◌}
use dyx_3wd.Base.Real.{Real, zero_real}

pub record Quaternion (R : Type 0) : Type 0 where
  pub w : R
  pub x : R
  pub y : R
  pub z : R

pub record LocalPositionSample (R : Type 0) : Type 0 where
  pub xy_valid : Bool
  pub v_xy_valid : Bool
  pub z_valid : Bool
  pub v_z_valid : Bool
  pub x : R
  pub y : R
  pub z : R
  pub vx : R
  pub vy : R
  pub vz : R
  pub heading : R
  pub heading_good_for_control : Bool
  pub xy_reset_counter : ℕ
  pub delta_x : R
  pub delta_y : R
  pub xy_global : Bool
  pub ref_lat : R
  pub ref_lon : R
  pub ref_alt : R
  pub timestamp_sample_us : ℕ

pub record StatusSample : Type 0 where
  pub arming_state : ℕ
  pub nav_state : ℕ
  pub failsafe : Bool
  pub pre_flight_checks_pass : Bool

pub record Freshness : Type 0 where
  pub local_position : Bool
  pub attitude : Bool
  pub status : Bool

pub record VehicleState (R : Type 0) : Type 0 where
  pub position_valid : Bool
  pub velocity_valid : Bool
  pub attitude_valid : Bool
  pub vertical_position_valid : Bool
  pub vertical_velocity_valid : Bool
  pub north : R
  pub east : R
  pub down : R
  pub vn : R
  pub ve : R
  pub vd : R
  pub q : Quaternion R
  pub heading : R
  pub xy_reset_counter : ℕ
  pub delta_north : R
  pub delta_east : R
  pub global_reference_valid : Bool
  pub ref_lat : R
  pub ref_lon : R
  pub ref_alt : R
  pub arming_state : ℕ
  pub nav_state : ℕ
  pub failsafe : Bool
  pub preflight_checks_pass : Bool
  pub px4_sample_us : ℕ

pub record YawRateEstimator (R : Type 0) : Type 0 where
  pub tau_s : R
  pub have_prev : Bool
  pub have_rate : Bool
  pub prev_yaw : R
  pub prev_us : ℕ
  pub prev_reset : ℕ
  pub rate : R

module _ {R : Type 0} ⦃r : Real R⦄ where
  abbrev pub finite_q : Quaternion R → Bool
  finite_q q = r.finite q.w && r.finite q.x && r.finite q.y && r.finite q.z

  unfoldable pub nothing : VehicleState R
  nothing = record {
    position_valid = false;
    velocity_valid = false;
    attitude_valid = false;
    vertical_position_valid = false;
    vertical_velocity_valid = false;
    north = zero_real;
    east = zero_real;
    down = zero_real;
    vn = zero_real;
    ve = zero_real;
    vd = zero_real;
    q = record { w = zero_real; x = zero_real; y = zero_real; z = zero_real };
    heading = zero_real;
    xy_reset_counter = 0;
    delta_north = zero_real;
    delta_east = zero_real;
    global_reference_valid = false;
    ref_lat = zero_real;
    ref_lon = zero_real;
    ref_alt = zero_real;
    arming_state = 0;
    nav_state = 0;
    failsafe = false;
    preflight_checks_pass = false;
    px4_sample_us = 0;
  }

  unfoldable pub add_position : VehicleState R → LocalPositionSample R → VehicleState R
  add_position o lp = record o {
    position_valid = lp.xy_valid && r.finite lp.x && r.finite lp.y;
    velocity_valid = lp.v_xy_valid && r.finite lp.vx && r.finite lp.vy;
    vertical_position_valid = lp.z_valid && r.finite lp.z;
    vertical_velocity_valid = lp.v_z_valid && r.finite lp.vz;
    north = lp.x;
    east = lp.y;
    down = lp.z;
    vn = lp.vx;
    ve = lp.vy;
    vd = lp.vz;
    heading = lp.heading;
    xy_reset_counter = lp.xy_reset_counter;
    delta_north = lp.delta_x;
    delta_east = lp.delta_y;
    global_reference_valid =
        lp.xy_global && r.finite lp.ref_lat && r.finite lp.ref_lon && r.finite lp.ref_alt;
    ref_lat = lp.ref_lat;
    ref_lon = lp.ref_lon;
    ref_alt = lp.ref_alt;
    px4_sample_us = lp.timestamp_sample_us;
  }

  unfoldable pub add_attitude :
      VehicleState R → LocalPositionSample R → Quaternion R → VehicleState R
  add_attitude o lp q = record o {
    attitude_valid = lp.heading_good_for_control && finite_q q && r.finite lp.heading;
    q = if finite_q q then q else o.q;
  }

  unfoldable pub add_status : VehicleState R → StatusSample → VehicleState R
  add_status o st = record o {
    arming_state = st.arming_state;
    nav_state = st.nav_state;
    failsafe = st.failsafe;
    preflight_checks_pass = st.pre_flight_checks_pass;
  }

  unfoldable pub assemble :
      LocalPositionSample R → Quaternion R → StatusSample → Freshness → VehicleState R
  assemble lp q st fresh =
      let placed = if fresh.local_position then add_position nothing lp else nothing in
      let turned =
        if fresh.attitude && fresh.local_position then add_attitude placed lp q else placed in
      if fresh.status then add_status turned st else turned

  unfoldable pub yaw_of : (R → R → R) → Quaternion R → R
  yaw_of atan2 q =
      atan2 (r.mul (r.lit 2 1) (r.add (r.mul q.w q.z) (r.mul q.x q.y)))
        (r.sub (r.lit 1 1) (r.mul (r.lit 2 1) (r.add (r.mul q.y q.y) (r.mul q.z q.z))))

  unfoldable pub estimator : R → YawRateEstimator R
  estimator tau = record {
    tau_s = tau;
    have_prev = false;
    have_rate = false;
    prev_yaw = zero_real;
    prev_us = 0;
    prev_reset = 0;
    rate = zero_real;
  }

  abbrev pub max_dt_s : R
  max_dt_s = r.lit 1 5

  abbrev pub two_pi : R
  two_pi = r.lit 6283185307179586 1000000000000000

  abbrev pub keep_sample : YawRateEstimator R → R → ℕ → ℕ → YawRateEstimator R
  keep_sample e yaw us reset = record e {
    have_prev = true;
    prev_yaw = yaw;
    prev_us = us;
    prev_reset = reset;
  }

  -- The rate over `dt`, through the low-pass.
  unfoldable pub new_rate : (R → R → R) → YawRateEstimator R → R → R → R
  new_rate remainder e yaw dt =
      let raw = r.div (remainder (r.sub yaw e.prev_yaw) two_pi) dt in
      if e.have_rate
      then r.add e.rate (r.mul (r.div dt (r.add e.tau_s dt)) (r.sub raw e.rate))
      else raw

  -- The rate after a sample that is not the last one again.
  unfoldable pub next_rate : (R → R → R) → YawRateEstimator R → Bool → R → ℕ → YawRateEstimator R
  next_rate remainder e continuous yaw us =
      let dt = r.mul (r.lit (us - e.prev_us) 1) (r.lit 1 1000000) in
      if continuous && ltb e.prev_us us && r.le dt max_dt_s
      then record e { have_rate = true; rate = new_rate remainder e yaw dt }
      else record e { have_rate = false }

  unfoldable pub update :
      (R → R → R) → (R → R → R) → YawRateEstimator R → Quaternion R → ℕ → ℕ → YawRateEstimator R
  update atan2 remainder e q us reset =
      let continuous = e.have_prev && reset == e.prev_reset in
      let next = next_rate remainder e continuous (yaw_of atan2 q) us in
      if not (finite_q q)
      then record e { have_prev = false; have_rate = false }
      else if continuous && us == e.prev_us
      then e
      else keep_sample next (yaw_of atan2 q) us reset

  abbrev pub rate_of : YawRateEstimator R → R
  rate_of e = if e.have_rate then e.rate else zero_real
