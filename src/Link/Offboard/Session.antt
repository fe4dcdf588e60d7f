-- ===== src/Link/Offboard/Session.antt =====
-- When the guard's command is forwarded, and what never happens silently.
use dyx_3wd.Base.{◌≡◌, ◌≢◌, ◌⊎◌, Bool, true, false, not, ◌&&◌, List, [], ◌∷◌, All, arith}
use dyx_3wd.Base.Real.{Real}
use dyx_3wd.Base.Trace.{after, after_inv}
use dyx_3wd.Link.Offboard.Ops.{
  OffboardState, disabled, prestream, requested, active, failed, lost, OffboardTiming, OffboardStep,
  OffboardSession, session, Call, enables, refuses, steps, call, step,
}

-- The step streams a command that is not the explicit STOP.
abbrev pub forwards : OffboardStep → Bool
forwards o = o.publish_heartbeat && not o.stop_only

-- The session failed, was lost, or was disabled.
abbrev pub Ended : OffboardState → Type 0
Ended s = (s ≡ failed) ⊎ ((s ≡ lost) ⊎ (s ≡ disabled))

module _ {R : Type 0} ⦃r : Real R⦄ where
  -- A call that asks the operator's side to enable the session.
  abbrev pub restarts : Call R → Bool
  restarts (enables on now) = on
  restarts _ = false

  -- A session is DISABLED exactly while it is not enabled.
  pub record IsSound (s : OffboardSession R) : Type 0 where
    pub off : s.enabled ≡ false → s.state ≡ disabled
    pub on : s.enabled ≡ true → s.state ≢ disabled

  call-IsSound : (s : OffboardSession R) (c : Call R) → IsSound s → IsSound (call s c).0
  unfolding call
  call-IsSound s (enables on now) h = ground arith
  call-IsSound s refuses h = ground arith
  call-IsSound s (steps now link_ok nav) h = ground arith

  -- A command other than the explicit STOP is streamed only by a step with the link up while PX4
  -- shows OFFBOARD, of an enabled session that asked for the mode or was confirmed before; and it
  -- leaves the session confirmed.
  pub forwards_needs_offboard :
      (s : OffboardSession R) (now : R) (link_ok nav : Bool)
      → forwards (step s now link_ok nav).1 ≡ true
      → (link_ok ≡ true)
        × (nav ≡ true)
        × (s.enabled ≡ true)
        × ((s.state ≡ requested) ⊎ (s.state ≡ active))
        × ((step s now link_ok nav).0.state ≡ active)
  unfolding step
  forwards_needs_offboard s now link_ok nav h = ground arith

  call-Ended :
      (s : OffboardSession R) (c : Call R)
      → restarts c ≡ false
      → Ended s.state × IsSound s
      → (Ended (call s c).0.state × IsSound (call s c).0)
        × ((call s c).1.send_mode_command ≡ false)
        × (forwards (call s c).1 ≡ false)
  unfolding call
  call-Ended s (enables on now) n h = ground arith
  call-Ended s refuses n h = ground arith
  call-Ended s (steps now link_ok nav) n h = ground arith

  after-Ended :
      (s : OffboardSession R) (cs : List (Call R))
      → Ended s.state × IsSound s
      → All (λ c. restarts c ≡ false) cs
      → let t = after (λ u c. (call u c).0) s cs in Ended t.state × IsSound t
  unfolding after
  after-Ended s [] h n = h
  after-Ended s (c ∷ cs) h n = (call-Ended _ c n.0 (after-Ended s cs h n.1)).0

  -- A sound session that failed, was lost or was disabled stays so through any calls without an
  -- enable(true): none of them asks for the mode or streams a command other than the explicit STOP.
  pub no_silent_request :
      (s : OffboardSession R) (cs : List (Call R)) (c : Call R)
      → Ended s.state
      → IsSound s
      → All (λ d. restarts d ≡ false) (c ∷ cs)
      → let (t, out) = call (after (λ u d. (call u d).0) s cs) c in
        Ended t.state × (out.send_mode_command ≡ false) × (forwards out ≡ false)
  no_silent_request s cs c e h n =
      let (kept, asks, out) = call-Ended _ c n.0 (after-Ended s cs (e, h) n.1) in
      (kept.0, asks, out)

  -- OFFBOARD is asked for only with the link up, in PRESTREAM, once the time set has passed since
  -- it began; the session then waits for the answer, so that the next step asks nothing.
  pub request_needs_prestream :
      (s : OffboardSession R) (now later : R) (link_ok nav link_ok' nav' : Bool)
      → (step s now link_ok nav).1.send_mode_command ≡ true
      → let (s', out) = step s now link_ok nav in
        (link_ok ≡ true)
        × (s.state ≡ prestream)
        × (r.le s.timing.prestream_s (r.sub now s.since_s) ≡ true)
        × (out.stop_only ≡ true)
        × (s'.state ≡ requested)
        × (s'.since_s ≡ now)
        × ((step s' later link_ok' nav').1.send_mode_command ≡ false)
  unfolding step
  request_needs_prestream s now later link_ok nav link_ok' nav' h = ground arith

  -- After any calls a new session is DISABLED exactly while it is not enabled.
  pub session-IsSound :
      (t : OffboardTiming R) (cs : List (Call R))
      → IsSound (after (λ s c. (call s c).0) (session t) cs)
  unfolding session
  session-IsSound t = after_inv _ (session t) IsSound (ground arith) call-IsSound
