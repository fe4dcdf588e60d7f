-- ===== src/Guard/Safety.antt =====
-- What the guard forwards, and when.
use dyx_3wd.Base.{◌≡◌, inl, inr, Bool, true, false, not, Option, none, some, arith, Option-cases}
use dyx_3wd.Base.Real.{Real}
use dyx_3wd.Guard.Types.{Mode, stop, Command, ok, canonical_stop, command_is_valid, to_mode}
use dyx_3wd.Guard.Gates.{GateInputs, first_failing_safety_gate, mission_running}
use dyx_3wd.Guard.Limits.{reset, is_stop}
use dyx_3wd.Guard.Core.{GuardCore, Decision, decide, judge, execute, input_age, move, accepting}

module _ {R : Type 0} ⦃r : Real R⦄ where
  -- A decision whose motion is not the canonical STOP.
  abbrev pub moves : Decision R → Bool
  moves d = not (is_stop d.out.mode)

  abbrev Gated : GuardCore R → GateInputs R → Type 0
  Gated g gates =
      (first_failing_safety_gate gates g.cfg.gates ≡ ok) × (mission_running gates.mission ≡ true)

  move-Gated :
      (g : GuardCore R) (c : Command R) (mode : Mode) (now dt age : R) (gates : GateInputs R)
      → (move g c mode now dt age gates).1.accepted ≡ true
      → Gated g gates
  unfolding move
  move-Gated g c mode now dt age gates h = ground arith

  execute-Gated :
      (g : GuardCore R) (c : Command R) (mode : Option Mode) (now dt age : R) (gates : GateInputs R)
      → let d = (execute g c mode now dt age gates).1 in
        d.accepted ≡ true → moves d ≡ true → Gated g gates
  unfolding execute
  execute-Gated g c none now dt age gates a m = ground arith
  execute-Gated g c (some stop) now dt age gates a m = ground arith
  execute-Gated g c (some mode) now dt age gates a m = move-Gated g c _ now dt age gates a

  -- Motion is forwarded only for a valid command that is not older than allowed, of an accepted
  -- session, with every safety gate passing and the mission running.
  pub move_needs :
      (g : GuardCore R) (c : Command R) (now dt : R) (gates : GateInputs R)
      → g.cmd ≡ some c
      → let d = (decide g now dt gates).1 in
        d.accepted ≡ true
        → moves d ≡ true
        → (command_is_valid c ≡ true)
          × (r.lt g.cfg.command_max_age_s (input_age g now) ≡ false)
          × (accepting g.seq ≡ true)
          × (first_failing_safety_gate gates g.cfg.gates ≡ ok)
          × (mission_running gates.mission ≡ true)
  unfolding decide judge
  move_needs g c now dt gates e a m =
      ground (arith, execute-Gated g c (to_mode c.mode) now dt (input_age g now) gates)

  move-refused :
      (g : GuardCore R) (c : Command R) (mode : Mode) (now dt age : R) (gates : GateInputs R)
      → let (g', d) = move g c mode now dt age gates in
        d.accepted ≡ false → (d.out ≡ canonical_stop) × (g'.lim ≡ reset)
  unfolding move
  move-refused g c mode now dt age gates h = ground arith

  execute-refused :
      (g : GuardCore R) (c : Command R) (mode : Option Mode) (now dt age : R) (gates : GateInputs R)
      → let (g', d) = execute g c mode now dt age gates in
        d.accepted ≡ false → (d.out ≡ canonical_stop) × (g'.lim ≡ reset)
  unfolding execute
  execute-refused g c none now dt age gates h = ground arith
  execute-refused g c (some stop) now dt age gates h = ground arith
  execute-refused g c (some mode) now dt age gates h = move-refused g c _ now dt age gates h

  -- A command that is not accepted, for whatever reason, comes out as the canonical STOP at once, and
  -- leaves no ramp state behind.
  pub refused_is_stop :
      (g : GuardCore R) (now dt : R) (gates : GateInputs R)
      → let (g', d) = decide g now dt gates in
        d.accepted ≡ false → (d.out ≡ canonical_stop) × (g'.lim ≡ reset)
  unfolding decide judge
  refused_is_stop g now dt gates h = elim (Option-cases g.cmd) [
    | inl e ↦ ground arith
    | inr (c, e) ↦
        ground (arith, execute-refused g c (to_mode c.mode) now dt (input_age g now) gates)
  ]

  -- A valid STOP that is not older than allowed, of an accepted session, is forwarded whatever the
  -- gates say, and clears the stall latch.
  pub stop_is_forwarded :
      (g : GuardCore R) (c : Command R) (now dt : R) (gates : GateInputs R)
      → g.cmd ≡ some c
      → c.valid ≡ true
      → c.mode ≡ 0
      → r.lt g.cfg.command_max_age_s (input_age g now) ≡ false
      → accepting g.seq ≡ true
      → let (g', d) = decide g now dt gates in
        (d.accepted ≡ true)
        × (d.reason ≡ ok)
        × (d.out ≡ canonical_stop)
        × (g'.stall.latched ≡ false)
  unfolding decide judge execute command_is_valid
  stop_is_forwarded g c now dt gates e v m a s = ground arith
