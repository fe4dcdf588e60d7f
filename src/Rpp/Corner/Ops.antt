-- ===== src/Rpp/Corner/Ops.antt =====
-- stop_pivot_fsm.cpp: the corner machine. The ring of the log is a function from its index.
use Prim.Native.String.{String}
use dyx_3wd.Base.{
  ℕ, ◌+◌, ◌-◌, ◌%◌, Bool, true, false, not, ◌&&◌, Option, some, ltb, ◌==◌, u64, if◌then◌else◌,
}
use dyx_3wd.Base.Real.{Real, zero_real, min_real, max_real}
use dyx_3wd.Rpp.Corner.Stop.{
  StopTelemetry, StopPivotParams, StopConfirm, PivotWatchdog, reset_confirm, reset_watchdog,
  elapsed, brake_speed, satisfied, timed_out,
}

pub data FsmState : Type 0 where
  tracking brake pivot release_settle advance done : FsmState

abbrev pub state_value : FsmState → ℕ
state_value tracking = 0
state_value brake = 1
state_value pivot = 2
state_value release_settle = 3
state_value advance = 4
state_value done = 5

pub record Transition : Type 0 where
  pub seq : ℕ
  pub source : FsmState
  pub target : FsmState
  pub reason : String
  pub t_ns : ℕ

pub data CornerAction : Type 0 where
  brakes pivots settle_brakes advances : CornerAction

pub record CornerOutput (R : Type 0) : Type 0 where
  pub action : CornerAction
  pub state : FsmState
  pub brake_speed : R
  pub heading_err : R
  pub collinear : Bool
  pub zero_speed_memory : Bool
  pub set_speed_memory : Bool
  pub speed_memory : R
  pub pivot_timed_out : Bool

pub record CornerInput (R : Type 0) : Type 0 where
  pub now_ns : ℕ
  pub heading_err_rad : R
  pub corner_deg : R
  pub tel : StopTelemetry R
  pub turn_angle_rad : R

abbrev pub log_capacity : ℕ
log_capacity = 256

pub record CornerFsm (R : Type 0) : Type 0 where
  pub params : StopPivotParams R
  pub stop : StopConfirm
  pub pivot : PivotWatchdog R
  pub stop_complete : Bool
  pub settle_active : Bool
  pub settle_since_ns : ℕ
  pub state : FsmState
  pub log : ℕ → Option Transition
  pub log_head : ℕ
  pub log_count : ℕ
  pub seq : ℕ

module _ {R : Type 0} where
  unfoldable pub record_transition : CornerFsm R → FsmState → FsmState → String → ℕ → CornerFsm R
  record_transition f source target reason now =
      let entry : Transition = record {
        seq = u64 (f.seq + 1);
        source = source;
        target = target;
        reason = reason;
        t_ns = now;
      } in
      record f {
        log = λ i. if i == f.log_head then some entry else f.log i;
        log_head = (f.log_head + 1) % log_capacity;
        log_count = if ltb f.log_count log_capacity then f.log_count + 1 else f.log_count;
        seq = u64 (f.seq + 1);
      }

  unfoldable pub go : CornerFsm R → FsmState → String → ℕ → CornerFsm R
  unfolding record_transition
  go f to reason now =
      if state_value to == state_value f.state
      then f
      else record (record_transition f f.state to reason now) { state = to }

  abbrev pub log_entry : CornerFsm R → ℕ → Option Transition
  log_entry f i = f.log ((f.log_head + log_capacity - f.log_count + i) % log_capacity)

  abbrev pub carry_stop_complete : CornerFsm R → CornerFsm R
  carry_stop_complete f = record f { stop_complete = true }

module _ {R : Type 0} ⦃r : Real R⦄ where
  abbrev pub reset : CornerFsm R → CornerFsm R
  reset f = record f {
    stop = reset_confirm f.stop;
    pivot = reset_watchdog f.pivot;
    stop_complete = false;
    settle_active = false;
    state = tracking;
  }

  -- The output with its default values.
  abbrev blank : CornerInput R → CornerAction → FsmState → CornerOutput R
  blank i action state = record {
    action = action;
    state = state;
    brake_speed = zero_real;
    heading_err = i.heading_err_rad;
    collinear = false;
    zero_speed_memory = false;
    set_speed_memory = false;
    speed_memory = zero_real;
    pivot_timed_out = false;
  }

  -- `M_PI / 180`.
  abbrev degree : R
  degree = r.div (r.lit 3141592653589793 1000000000000000) (r.lit 180 1)

  abbrev pub turn_angle : CornerInput R → R
  turn_angle i = if r.finite i.turn_angle_rad then i.turn_angle_rad else r.mul i.corner_deg degree

  -- The watchdog runs only once the stop is complete.
  abbrev pub watch_pivot : CornerFsm R → CornerInput R → PivotWatchdog R × Bool
  watch_pivot f i =
      if f.stop_complete
      then timed_out f.pivot i.now_ns (turn_angle i) f.params
      else (f.pivot, false)

  abbrev pub release_tol : StopPivotParams R → Bool → R
  release_tol p late =
      min_real
        (if late
          then max_real p.heading_tolerance_rad p.timeout_heading_tol_rad
          else p.heading_tolerance_rad)
        p.release_max_rad

  abbrev pub heading_ok : StopPivotParams R → CornerInput R → Bool → Bool
  heading_ok p i late = r.le (r.abs i.heading_err_rad) (release_tol p late)

  -- With a stale velocity the two measured gates are replaced by the time-out.
  abbrev pub measured_ok : StopPivotParams R → CornerInput R → Bool → Bool
  measured_ok p i late =
      if i.tel.vel_fresh
      then r.lt (r.abs i.tel.yaw_rate) p.stop_yaw_rate_threshold
        && r.lt i.tel.speed p.align_speed_threshold
      else late

  -- The release gates held together for the settling time.
  unfoldable pub settle : CornerFsm R → CornerInput R → Bool → CornerFsm R × Bool
  settle f i late =
      let since = if f.settle_active then f.settle_since_ns else i.now_ns in
      if f.stop_complete && heading_ok f.params i late && measured_ok f.params i late
      then (
        record f { settle_active = true; settle_since_ns = since },
        r.le f.params.align_settle_s (elapsed i.now_ns since),
      )
      else (record f { settle_active = false }, false)

  -- The turn toward the exit heading.
  unfoldable pub turn : CornerFsm R → CornerInput R → Bool → CornerFsm R × CornerOutput R
  turn f i late = (
    go f pivot "stopped, heading outside release band" i.now_ns,
    record (blank i pivots pivot) {
      pivot_timed_out = late;
      set_speed_memory = true;
      speed_memory = f.params.corner_speed;
    },
  )

  -- The tick before the stop is complete.
  unfoldable pub stopping : CornerFsm R → CornerInput R → Bool → CornerFsm R × CornerOutput R
  unfolding turn
  stopping f i late =
      let (stop, at_rest) = satisfied f.stop i.now_ns i.tel f.params in
      let f' = record f { stop = stop } in
      if not at_rest
      then (
        go f' brake "stop not confirmed" i.now_ns,
        record (blank i brakes brake) {
          brake_speed = brake_speed i.tel f.params;
          zero_speed_memory = true;
        },
      )
      else turn
          (record_transition (record f' { stop_complete = true }) f.state f.state "stop confirmed"
            i.now_ns)
          i late

  -- The tick after the release gates were looked at.
  unfoldable pub finish : CornerFsm R → CornerInput R → Bool → Bool → CornerFsm R × CornerOutput R
  unfolding turn stopping
  finish f i late settled =
      if settled
      then (
        reset (go f advance "release gates settled" i.now_ns),
        record (blank i advances advance) { zero_speed_memory = true },
      )
      else if f.stop_complete && heading_ok f.params i late
      then (
        go f release_settle "heading inside release band" i.now_ns,
        record (blank i settle_brakes release_settle) {
          brake_speed = brake_speed i.tel f.params;
          zero_speed_memory = true;
        },
      )
      else if not f.stop_complete
      then stopping f i late
      else turn f i late

  unfoldable pub step : CornerFsm R → CornerInput R → CornerFsm R × CornerOutput R
  unfolding settle finish
  step f i =
      let (watchdog, late) = watch_pivot f i in
      let (f', settled) = settle (record f { pivot = watchdog }) i late in
      if r.lt i.corner_deg f.params.corner_threshold_deg
      then (
        reset (go f advance "collinear junction" i.now_ns),
        record (blank i advances advance) { collinear = true },
      )
      else finish f' i late settled
