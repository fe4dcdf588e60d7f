-- ===== src/Spray/Control/Flow.antt =====
-- FlowModulator of flow_model.cpp: the flow for a speed, between its floor and its full value.
use dyx_3wd.Base.{◌&&◌, if◌then◌else◌}
use dyx_3wd.Base.Real.{Real, zero_real, min_real, max_real}

pub record FlowModulator (R : Type 0) : Type 0 where
  pub min_flow_value : R
  pub on_value : R
  pub rated : R
  pub max_slew : R
  pub lo : R
  pub hi : R
  pub last : R

module _ {R : Type 0} ⦃r : Real R⦄ where
  unfoldable pub flow_modulator : R → R → R → R → FlowModulator R
  flow_modulator min_flow on rated slew = record {
    min_flow_value = min_flow;
    on_value = on;
    rated = max_real (r.lit 1 1000000) rated;
    max_slew = max_real zero_real slew;
    lo = min_real min_flow on;
    hi = max_real min_flow on;
    last = min_flow;
  }

  unfoldable pub reset : FlowModulator R → FlowModulator R
  reset f = record f { last = f.min_flow_value }

  unfoldable pub target : FlowModulator R → R → R
  target f speed =
      let frac = min_real (r.lit 1 1) (r.div (max_real zero_real speed) f.rated) in
      let wanted = r.add f.min_flow_value (r.mul (r.sub f.on_value f.min_flow_value) frac) in
      max_real f.lo (min_real f.hi wanted)

  abbrev pub limit_step : R → R → R
  limit_step delta max_step =
      if r.lt max_step delta
      then max_step
      else if r.lt delta (r.neg max_step)
      then r.neg max_step
      else delta

  -- The modulator with the new value.
  unfoldable pub update : FlowModulator R → R → R → FlowModulator R
  update f speed dt_s =
      let goal = target f speed in
      let dt = max_real zero_real dt_s in
      if r.lt zero_real f.max_slew && r.lt zero_real dt
      then record f { last = r.add f.last (limit_step (r.sub goal f.last) (r.mul f.max_slew dt)) }
      else record f { last = goal }
