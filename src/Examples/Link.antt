-- ===== src/Examples/Link.antt =====
-- The OFFBOARD session and the acknowledgement tokens at concrete runs.
use dyx_3wd.Base.{◌≡◌, ◌⊎◌, inl, inr, refl, true, false, List, [], ◌∷◌}
use dyx_3wd.Base.Trace.{after}
use dyx_3wd.Base.Milli.{Milli, milli, milli_real}
use dyx_3wd.Link.Offboard.Ops.{
  requested, active, OffboardTiming, OffboardSession, session, Call, enables, steps, call, step,
}
use dyx_3wd.Link.Offboard.Session.{
  Ended, forwards, forwards_needs_offboard, no_silent_request, session-IsSound,
}
use dyx_3wd.Link.Tokens.Ops.{unversioned, Event, reserves, restarts, durable, unchanged}
use dyx_3wd.Link.Tokens.Unique.{Distinct, handed_out, identities_differ}

abbrev timing : OffboardTiming Milli
timing = record {
  prestream_s = milli 500;
  confirm_timeout_s = milli 2000;
  disable_stop_s = milli 300;
}

abbrev run : List (Call Milli) → OffboardSession Milli
run = after (λ s c. (call s c).0) (session timing)

-- The session is enabled, asks for the mode at 600, and is confirmed at 700; the mode is left at 800.
abbrev asked : List (Call Milli)
asked = steps (milli 600) true false ∷ enables true (milli 100) ∷ []

abbrev left : List (Call Milli)
left = steps (milli 800) true false ∷ steps (milli 700) true true ∷ asked

forwards_needs_offboard_example :
    (true ≡ true)
    × (true ≡ true)
    × ((run asked).enabled ≡ true)
    × (((run asked).state ≡ requested) ⊎ ((run asked).state ≡ active))
    × ((step (run asked) (milli 700) true true).0.state ≡ active)
unfolding after session call
forwards_needs_offboard_example = forwards_needs_offboard (run asked) (milli 700) true true refl

no_silent_request_example :
    let (s, out) = call (run (steps (milli 900) true true ∷ left)) (steps (milli 5000) true true) in
    Ended s.state × (out.send_mode_command ≡ false) × (forwards out ≡ false)
unfolding after session call
no_silent_request_example =
    no_silent_request (run left) (steps (milli 900) true true ∷ []) (steps (milli 5000) true true)
      (inr (inl refl)) (session-IsSound timing left) (refl, (refl, tt))

-- Two reservations, a restart that loses the rest of the block, and a failed write.
abbrev wear : List Event
wear =
    reserves durable
    ∷ restarts
    ∷ reserves unchanged
    ∷ restarts
    ∷ reserves durable
    ∷ reserves durable
    ∷ []

identities_differ_example : Distinct (handed_out (unversioned 4) wear)
identities_differ_example = identities_differ (unversioned 4) wear
