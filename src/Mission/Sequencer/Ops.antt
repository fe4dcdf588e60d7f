-- ===== src/Mission/Sequencer/Ops.antt =====
-- px4_sequencer.cpp. `to_ns` is the conversion of a timeout in seconds to nanoseconds,
-- `llround(s * 1e9)`; times are those of a steady clock.
use dyx_3wd.Base.{
  ℕ, ◌+◌, Bool, true, false, not, ◌&&◌, ◌||◌, List, [], ◌∷◌, ◌++◌, Option, none, some, ltb,
  if◌then◌else◌, u64,
}
use dyx_3wd.Mission.Sequencer.Types.{
  Op, arm, offboard_off, disarm, Px4Result, ok, refused, timeout, Request, Outcome, Timeouts,
  unasked, in_flight, confirmed, doubt, Flight, Sequencer, is_release, is_arm, is_disarm,
  is_offboard_on, any, holds_arm, is_empty, abandon, first_release, front, judge, take_flight,
}

module _ {R : Type 0} where
  unfoldable pub initial : Timeouts R → Sequencer R
  initial t = record {
    timeouts = t;
    queue = [];
    flights = [];
    arm_state = unasked;
    armed_earlier = false;
    offboard_requested = false;
    releasing = false;
    next_id = 1;
  }

  abbrev pub arm_owned : Sequencer R → Bool
  arm_owned s = s.armed_earlier || holds_arm s.arm_state

  unfoldable pub busy : Sequencer R → Bool
  busy s = not (is_empty s.flights) || not (is_empty s.queue)

  unfoldable pub begin_execution : Sequencer R → Sequencer R
  begin_execution s = record s {
    queue = [];
    flights = [];
    arm_state = unasked;
    armed_earlier = false;
    offboard_requested = false;
    releasing = false;
  }

  unfoldable pub engage : Sequencer R → Op → Sequencer R
  engage s op = if s.releasing || is_release op then s else record s { queue = s.queue ++ op ∷ [] }

  unfoldable pub release : Sequencer R → Bool → Sequencer R
  release s force_disarm =
      if s.releasing
      then if force_disarm
          && not (any is_disarm s.queue)
          && not (any (λ (f : Flight). is_disarm f.req.op) s.flights)
        then record s { queue = s.queue ++ disarm ∷ [] }
        else s
      else record s {
        releasing = true;
        flights = abandon s.flights;
        queue =
            (if s.offboard_requested then offboard_off ∷ [] else [])
            ++ (if force_disarm || arm_owned s then disarm ∷ [] else []);
      }

  unfoldable pub release_pending : Sequencer R → Option Op
  unfolding first_release
  release_pending s = elim (first_release s.flights) [
    | some op ↦ some op
    | none ↦ if s.releasing then front s.queue else none
  ]

  abbrev pub timeout_s : Timeouts R → Op → R
  timeout_s t arm = t.arm_s
  timeout_s t disarm = t.arm_s
  timeout_s t _ = t.offboard_s

  -- The body of `next` once the front `op` of the queue is to be sent.
  unfoldable pub send : (R → ℕ) → Sequencer R → Op → List Op → ℕ → Sequencer R × Option Request
  send to_ns s op rest now =
      let req : Request = record { op = op; id = s.next_id } in
      let flight : Flight = record {
        req = req;
        deadline_ns = now + to_ns (timeout_s s.timeouts op);
        abandoned = false;
      } in
      (
        record s {
          queue = rest;
          flights = s.flights ++ flight ∷ [];
          next_id = u64 (s.next_id + 1);
          arm_state = if is_arm op then in_flight else s.arm_state;
          offboard_requested = is_offboard_on op || s.offboard_requested;
        },
        some req,
      )

  unfoldable pub next : (R → ℕ) → Sequencer R → ℕ → Sequencer R × Option Request
  unfolding send
  next to_ns s now = elim s.queue [
    | [] ↦ (s, none)
    | op ∷ rest ↦
        if any (λ (f : Flight). not f.abandoned) s.flights
        then (s, none)
        else send to_ns s op rest now
  ]

  unfoldable pub note_arm_result : Sequencer R → Px4Result → ℕ → Sequencer R
  note_arm_result s r reason = elim (judge r reason) [
    | confirmed ↦ record s { arm_state = confirmed; armed_earlier = true }
    | doubt ↦ record s { arm_state = doubt; armed_earlier = true }
    | a ↦ record s { arm_state = a }
  ]

  unfoldable pub on_response : Sequencer R → ℕ → Bool → ℕ → Sequencer R × Option Outcome
  unfolding take_flight note_arm_result
  on_response s id accepted reason = elim (take_flight id s.flights) [
    | none ↦ (s, none)
    | some (f, fs) ↦
        let result = if accepted then ok else refused in
        let s' = record s { flights = fs } in
        (
          if is_arm f.req.op then note_arm_result s' result reason else s',
          some (record {
            op = f.req.op;
            result = result;
            reason_code = reason;
            id = id;
            abandoned = f.abandoned;
          }),
        )
  ]

  -- The loop of `on_tick` over the flights: those that stay, and the outcomes.
  unfoldable pub expire : List Flight → Sequencer R → ℕ → Sequencer R × List Outcome
  unfolding note_arm_result
  expire [] s now = (record s { flights = [] }, [])
  expire (f ∷ fs) s now =
      let late = not (ltb now f.deadline_ns) in
      let (s', out) =
        expire fs (if late && is_arm f.req.op then note_arm_result s timeout 0 else s) now in
      if late
      then (
        s',
        record {
          op = f.req.op;
          result = timeout;
          reason_code = 0;
          id = f.req.id;
          abandoned = f.abandoned;
        }
            ∷ out,
      )
      else (record s' { flights = f ∷ s'.flights }, out)

  unfoldable pub on_tick : Sequencer R → ℕ → Sequencer R × List Outcome
  unfolding expire
  on_tick s now = expire s.flights s now

-- The methods as one step, with the request to send and the outcomes.
pub data Call : Type 0 where
  begins : Call
  engages : Op → Call
  releases : Bool → Call
  sends : ℕ → Call
  responds : ℕ → Bool → ℕ → Call
  ticks : ℕ → Call

abbrev pub Effect : Type 0
Effect = record { request : Option Request; outcomes : List Outcome }

abbrev pub quiet : Effect
quiet = record { request = none; outcomes = [] }

abbrev pub to_list : Option Outcome → List Outcome
to_list none = []
to_list (some o) = o ∷ []

unfoldable pub step : {R : Type 0} → (R → ℕ) → Sequencer R → Call → Sequencer R × Effect
unfolding begin_execution engage release next on_response on_tick
step to_ns s begins = (begin_execution s, quiet)
step to_ns s (engages op) = (engage s op, quiet)
step to_ns s (releases force) = (release s force, quiet)
step to_ns s (sends now) =
    let (s', r) = next to_ns s now in (s', record { request = r; outcomes = [] })
step to_ns s (responds id accepted reason) =
    let (s', o) = on_response s id accepted reason in
    (s', record { request = none; outcomes = to_list o })
step to_ns s (ticks now) =
    let (s', os) = on_tick s now in (s', record { request = none; outcomes = os })
