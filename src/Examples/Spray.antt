-- ===== src/Examples/Spray.antt =====
-- The spray state machine's theorems on a run that opens the valve and loses the safety gates.
use dyx_3wd.Base.{◌≡◌, refl, true, false, List, [], ◌∷◌}
use dyx_3wd.Base.Trace.{after}
use dyx_3wd.Base.Milli.{Milli, milli, milli_real}
use dyx_3wd.Spray.Fsm.Types.{Params, initial}
use dyx_3wd.Spray.Fsm.Ops.{Input, ticks, acks, step, edges, check_pending_timeout, drive}
use dyx_3wd.Spray.Fsm.Safety.{Numbered, spray_step-Numbered}
use dyx_3wd.Spray.Fsm.Confirm.{history, off_answered, on_needs_off}

abbrev params : Params Milli
params = record {
  backoff_base_s = milli 500;
  backoff_max_s = milli 8000;
  ack_timeout_s = milli 1000;
}

-- The first OFF is sent and answered, then the ON.
abbrev closed : List (Input Milli)
closed = acks 1 true (milli 200) ∷ ticks false true true (milli 100) ∷ []

abbrev opening : List (Input Milli)
opening = ticks true true true (milli 300) ∷ closed

abbrev spraying : List (Input Milli)
spraying = acks 2 true (milli 400) ∷ opening

on_needs_off_example : off_answered params spraying ≡ true
unfolding after initial step edges check_pending_timeout drive
on_needs_off_example = on_needs_off params spraying (ticks true true true (milli 500)) refl

spray_step-Numbered_example :
    let m = history params closed in Numbered m (step m (ticks true true true (milli 300)))
spray_step-Numbered_example =
    spray_step-Numbered (history params closed) (ticks true true true (milli 300))
