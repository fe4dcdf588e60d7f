-- ===== src/Spray/Gates/Recovery.antt =====
-- The RTK gate drops at once and opens again only after a hold.
use dyx_3wd.Base.{
  ◌≡◌, refl, Bool, true, false, not, ◌&&◌, ◌||◌, Option, none, some, List, [], ◌∷◌, arith,
  if◌then◌else◌,
}
use dyx_3wd.Base.Real.{Real, zero_real, max_real}
use dyx_3wd.Base.Trace.{after}
use dyx_3wd.Spray.Gates.Ops.{
  RtkGateConfig, RtkGate, Sample, new_gate, begin_hold, quality_of, hold_gate, evaluate,
}

pub record Look (R : Type 0) : Type 0 where
  pub config : RtkGateConfig R
  pub sample : Sample R
  pub now_s : R

module _ {R : Type 0} ⦃r : Real R⦄ where
  -- The sample satisfies a configuration that asks for a fix.
  abbrev pub is_good : Look R → Bool
  is_good l =
      let q = quality_of l.config l.sample in
      l.sample.corrections_fresh && l.config.require_rtk_fix && q.fresh && q.acceptable

  -- When the unbroken run of good samples began that the latest one ends.
  abbrev pub good_since : List (Look R) → Option R
  good_since [] = none
  good_since (l ∷ ls) =
      let earlier = good_since ls in
      if is_good l then (elim earlier [ none ↦ some l.now_s | some t ↦ some t ]) else none

  unfoldable pub look : RtkGate R → Look R → RtkGate R
  unfolding evaluate
  look g l = (evaluate g l.config l.sample l.now_s).0

  abbrev Since : Option R → RtkGate R → Type 0
  Since none g = g.have_since ≡ false
  Since (some t) g = (g.have_since ≡ true) × (g.since_s ≡ t)

  hold_gate_same : (g : RtkGate R) (cfg : RtkGateConfig R) (now : R) → (hold_gate g cfg now).0 ≡ g
  unfolding hold_gate
  hold_gate_same g cfg now = ground arith

  look-Since :
      (g : RtkGate R) (l : Look R) (since : Option R)
      → Since since g
      → Since
          (if is_good l then (elim since [ none ↦ some l.now_s | some t ↦ some t ]) else none)
          (look g l)
  unfolding look evaluate
  look-Since g l since h = ground (arith, h, hold_gate_same (begin_hold g l.now_s) l.config l.now_s)

  after-Since : (ls : List (Look R)) → Since (good_since ls) (after look new_gate ls)
  unfolding after new_gate
  after-Since [] = refl
  after-Since (l ∷ ls) = look-Since (after look new_gate ls) l (good_since ls) (after-Since ls)

  -- The time that a run of good samples has lasted is the hold asked for at least.
  abbrev pub held_enough : Look R → Option R → Bool
  held_enough l none = false
  held_enough l (some t) = not (r.lt (r.sub l.now_s t) (max_real zero_real l.config.recover_hold_s))

  -- After any looks of a new gate it opens exactly if the corrections are fresh and either no fix is
  -- asked for, or this sample is good and ends an unbroken run of good ones that began the hold ago
  -- at least.
  pub opens_after_hold :
      (l : Look R) (ls : List (Look R))
      → (evaluate (after look new_gate ls) l.config l.sample l.now_s).1.ok ≡ (
          l.sample.corrections_fresh
          && (not l.config.require_rtk_fix || held_enough l (good_since (l ∷ ls))))
  unfolding evaluate hold_gate
  opens_after_hold l ls = ground (arith, after-Since ls)
