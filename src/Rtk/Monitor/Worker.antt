-- ===== src/Rtk/Monitor/Worker.antt =====
-- worker_state.hpp and .cpp. An event is a record with the members of the JSON object; the deque is a
-- list, the oldest event first.
use Prim.Native.String.{String}
use text.Mathlib.Text.{◌==◌ as text_eq}
use text.Mathlib.TextEquality.{eq_iff}
use dyx_3wd.Base.{
  ℕ, suc, ◌-◌, ◌≤◌, ◌≡◌, refl, sym, ap, ◌∙◌, subst, true, false, ◌&&◌, List, [], ◌∷◌, ◌++◌, arith,
  ltb, ◌==◌, if◌then◌else◌, if_cases, length, drop,
}
use dyx_3wd.Base.Chain.{LeadsTo, LeadsTo-append, LeadsTo-drop}
use dyx_3wd.Base.Trace.{after, after_inv}

pub data WorkerState : Type 0 where
  stopped starting wait_source wait_rtcm wait_transport injecting degraded : WorkerState
  reconfiguring error : WorkerState

abbrev pub state_name : WorkerState → String
state_name stopped = "STOPPED"
state_name starting = "STARTING"
state_name wait_source = "WAIT_SOURCE"
state_name wait_rtcm = "WAIT_RTCM"
state_name wait_transport = "WAIT_TRANSPORT"
state_name injecting = "INJECTING"
state_name degraded = "DEGRADED"
state_name reconfiguring = "RECONFIGURING"
state_name error = "ERROR"

abbrev pub state_value : WorkerState → ℕ
state_value stopped = 0
state_value starting = 1
state_value wait_source = 2
state_value wait_rtcm = 3
state_value wait_transport = 4
state_value injecting = 5
state_value degraded = 6
state_value reconfiguring = 7
state_value error = 8

pub record WorkerEvent : Type 0 where
  pub timestamp_utc : String
  pub previous : String
  pub state : String
  pub reason_code : String
  pub reason : String
  pub config_revision : ℕ

pub record WorkerStateMachine : Type 0 where
  pub state : WorkerState
  pub reason_code : String
  pub events : List WorkerEvent

abbrev pub worker : WorkerStateMachine
worker = record { state = stopped; reason_code = "SERVICE_STOPPED"; events = [] }

-- The loop that drops the oldest events.
unfoldable pub trim : List WorkerEvent → List WorkerEvent
trim [] = []
trim (e ∷ es) = let rest = trim es in if ltb 100 (length (e ∷ es)) then rest else e ∷ es

abbrev pub event : WorkerStateMachine → WorkerState → String → String → String → ℕ → WorkerEvent
event m next code reason timestamp revision = record {
  timestamp_utc = timestamp;
  previous = state_name m.state;
  state = state_name next;
  reason_code = code;
  reason = reason;
  config_revision = revision;
}

unfoldable pub transition :
    WorkerStateMachine → WorkerState → String → String → String → ℕ → WorkerStateMachine
transition m next code reason timestamp revision =
    if state_value next == state_value m.state && text_eq code m.reason_code then m else record {
      state = next;
      reason_code = code;
      events = trim (m.events ++ event m next code reason timestamp revision ∷ []);
    }

pub record Change : Type 0 where
  pub next : WorkerState
  pub code : String
  pub reason : String
  pub timestamp : String
  pub revision : ℕ

unfoldable pub change : WorkerStateMachine → Change → WorkerStateMachine
unfolding transition
change m c = transition m c.next c.code c.reason c.timestamp c.revision

after_first : (n : ℕ) → ltb 100 (suc n) ≡ true → suc (n - 100) ≡ suc n - 100
after_first n long = ground (arith, long)

none_over : (n : ℕ) → ltb 100 (suc n) ≡ false → 0 ≡ suc n - 100
none_over n short = ground (arith, short)

trim-drop : (es : List WorkerEvent) → trim es ≡ drop (length es - 100) es
unfolding trim
trim-drop [] = refl
trim-drop (e ∷ es) =
    if_cases (λ xs. xs ≡ drop (suc (length es) - 100) (e ∷ es)) (ltb 100 (suc (length es))) _ _
      (λ long. trim-drop es ∙ ap (λ n. drop n (e ∷ es)) (after_first (length es) long))
      (λ short. ap (λ n. drop n (e ∷ es)) (none_over (length es) short))

-- The events are at most 100, each begins in the state that the one before it ended in, and the last
-- ended in the machine's state.
pub record IsHistory (m : WorkerStateMachine) : Type 0 where
  pub short : length m.events ≤ 100
  pub leads : LeadsTo (λ e. e.previous) (λ e. e.state) m.events (state_name m.state)

push-LeadsTo :
    (events : List WorkerEvent) (e : WorkerEvent)
    → LeadsTo (λ f. f.previous) (λ f. f.state) events e.previous
    → LeadsTo (λ f. f.previous) (λ f. f.state) (trim (events ++ e ∷ [])) e.state
push-LeadsTo events e h =
    let grown = events ++ e ∷ [] in
    subst (λ es. LeadsTo (λ f. f.previous) (λ f. f.state) es e.state) (sym (trim-drop grown))
      (LeadsTo-drop (λ f. f.previous) (λ f. f.state) (length grown - 100) grown e.state
        (LeadsTo-append (λ f. f.previous) (λ f. f.state) events e h))

length-trim : (es : List WorkerEvent) → length (trim es) ≤ 100
unfolding trim
length-trim [] = omega arith
length-trim (e ∷ es) = ground (arith, length-trim es)

change-IsHistory : (m : WorkerStateMachine) (c : Change) → IsHistory m → IsHistory (change m c)
unfolding change transition
change-IsHistory m c h =
    if_cases IsHistory (state_value c.next == state_value m.state && text_eq c.code m.reason_code) _
      _ (λ same. h)
      (λ other. record {
        short = length-trim _;
        leads =
            push-LeadsTo m.events (event m c.next c.code c.reason c.timestamp c.revision) h.leads;
      })

new_worker : IsHistory worker
new_worker = record { short = omega arith; leads = ("STOPPED", tt, refl) }

same_state : (s t : WorkerState) → (state_value s == state_value t) ≡ true → s ≡ t
same_state s t h = ground arith

change_state :
    (m : WorkerStateMachine) (c : Change)
    → ((change m c).state ≡ c.next) × ((change m c).reason_code ≡ c.code)
unfolding change transition
change_state m c =
    if_cases (λ (n : WorkerStateMachine). (n.state ≡ c.next) × (n.reason_code ≡ c.code))
      (state_value c.next == state_value m.state && text_eq c.code m.reason_code) _ _
      (λ same. (
        sym (same_state c.next m.state (ground (arith, same))),
        sym ((eq_iff c.code m.reason_code).0 (ground (arith, same))),
      ))
      (λ other. (refl, refl))

-- After any changes the service keeps at most 100 events without gaps that end in its state, which
-- is that of the latest change.
pub change_lem :
    (c : Change) (cs : List Change)
    → let m = after change worker (c ∷ cs) in
      IsHistory m × (m.state ≡ c.next) × (m.reason_code ≡ c.code)
unfolding after
change_lem c cs =
    let m = after change worker cs in
    let (state, code) = change_state m c in
    (after_inv change worker IsHistory new_worker change-IsHistory (c ∷ cs), state, code)
