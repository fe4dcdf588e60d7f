-- ===== src/Mission/Sequencer/Release.antt =====
-- Which requests can be in flight, and what a release lets through.
use dyx_3wd.Base.{
  ℕ, suc, ◌+◌, ◌≤◌, ◌≡◌, ◌≢◌, refl, Bool, true, false, not, ◌&&◌, ◌||◌, List, [], ◌∷◌, ◌++◌, Option,
  none, some, All, arith,
}
use dyx_3wd.Base.Trace.{after, after_inv}
use dyx_3wd.Mission.Sequencer.Types.{
  Op, timeout, Flight, Sequencer, Request, Timeouts, is_release, is_disarm, any, abandon,
  take_flight,
}
use dyx_3wd.Mission.Sequencer.Ops.{
  initial, arm_owned, release, expire, note_arm_result, step, next, timeout_s, Call, begins,
  engages, releases, sends, responds, ticks,
}

-- The request is still awaited.
abbrev pub live : Flight → Bool
live f = not f.abandoned

abbrev pub awaits_engage : Flight → Bool
awaits_engage f = live f && not (is_release f.req.op)

abbrev pub live_count : List Flight → ℕ
live_count [] = 0
live_count (f ∷ fs) = let n = live_count fs in elim f.abandoned [ true ↦ n | false ↦ suc n ]

-- Before a release only engage steps are queued, and no flight is abandoned; from then on only
-- release steps are queued, and no engage step is awaited. One request is awaited at a time.
pub record IsSound {R : Type 0} (s : Sequencer R) : Type 0 where
  pub single : live_count s.flights ≤ 1
  pub engaging : s.releasing ≡ false → any is_release s.queue ≡ false
  pub releasing : s.releasing ≡ true → any (λ op. not (is_release op)) s.queue ≡ false
  pub awaited : s.releasing ≡ true → any awaits_engage s.flights ≡ false

any-append {ℓ} :
    {A : Type ℓ} (p : A → Bool) (xs ys : List A) → any p (xs ++ ys) ≡ (any p xs || any p ys)
any-append p [] ys = refl
any-append p (x ∷ xs) ys = ground (arith, any-append p xs ys)

live_count-append :
    (fs : List Flight) (g : Flight) → any live fs ≡ false → live_count (fs ++ g ∷ []) ≤ 1
live_count-append [] g h = ground arith
live_count-append (f ∷ fs) g h = ground (arith, live_count-append fs g)

live_count-abandon : (fs : List Flight) → live_count (abandon fs) ≡ 0
live_count-abandon [] = refl
live_count-abandon (f ∷ fs) = live_count-abandon fs

awaits-abandon : (fs : List Flight) → any awaits_engage (abandon fs) ≡ false
awaits-abandon [] = refl
awaits-abandon (f ∷ fs) = awaits-abandon fs

not-any-append {ℓ} :
    {A : Type ℓ} (p : A → Bool) (xs : List A) (x : A)
    → any p xs ≡ false
    → p x ≡ false
    → any p (xs ++ x ∷ []) ≡ false
not-any-append p [] x h k = ground arith
not-any-append p (y ∷ xs) x h k = ground (arith, not-any-append p xs x)

-- Taking a flight out keeps what every flight satisfies.
abbrev Keeps : List Flight → Option (Flight × List Flight) → (Flight → Bool) → Type 0
Keeps fs none p = Unit
Keeps fs (some (f, gs)) p = (live_count gs ≤ live_count fs) × (any p fs ≡ false → any p gs ≡ false)

take_flight-Keeps : (id : ℕ) (fs : List Flight) (p : Flight → Bool) → Keeps fs (take_flight id fs) p
unfolding take_flight
take_flight-Keeps id [] p = tt
take_flight-Keeps id (f ∷ fs) p = ground (arith, take_flight-Keeps id fs p)

expire-Keeps :
    {R : Type 0} (fs : List Flight) (s : Sequencer R) (now : ℕ) (p : Flight → Bool)
    → let s' = (expire fs s now).0 in
      (live_count s'.flights ≤ live_count fs)
      × (any p fs ≡ false → any p s'.flights ≡ false)
      × (s'.queue ≡ s.queue)
      × (s'.releasing ≡ s.releasing)
unfolding expire note_arm_result
expire-Keeps [] s now p = ground arith
expire-Keeps (f ∷ fs) s now p =
    ground (arith, expire-Keeps fs s now p, expire-Keeps fs (note_arm_result s timeout 0) now p)

awaits-send :
    (fs : List Flight) (g : Flight)
    → any live fs ≡ false
    → (awaits_engage g ≡ false → any awaits_engage (fs ++ g ∷ []) ≡ false)
      × (live_count (fs ++ g ∷ []) ≤ 1)
awaits-send [] g h = ground arith
awaits-send (f ∷ fs) g h = ground (arith, awaits-send fs g)

next-IsSound :
    {R : Type 0} (to_ns : R → ℕ) (s : Sequencer R) (now : ℕ) (q : List Op)
    → s.queue ≡ q
    → IsSound s
    → IsSound (next to_ns s now).0
unfolding next
next-IsSound to_ns s now [] e v = ground arith
next-IsSound to_ns s now (op ∷ rest) e v = ground (
  arith,
  awaits-send s.flights (record {
    req = record { op = op; id = s.next_id };
    deadline_ns = now + to_ns (timeout_s s.timeouts op);
    abandoned = false;
  }),
)

step-IsSound :
    {R : Type 0} (to_ns : R → ℕ) (s : Sequencer R) (c : Call)
    → IsSound s
    → IsSound (step to_ns s c).0
unfolding step
step-IsSound to_ns s begins v = ground arith
step-IsSound to_ns s (engages op) v = ground (arith, not-any-append is_release s.queue op)
step-IsSound to_ns s (releases force) v = ground (
  arith,
  live_count-abandon s.flights,
  awaits-abandon s.flights,
  not-any-append (λ (op : Op). not (is_release op)) s.queue Op.disarm,
)
step-IsSound to_ns s (sends now) v = next-IsSound to_ns s now s.queue refl v
step-IsSound to_ns s (responds id accepted reason) v =
    ground (arith, take_flight-Keeps id s.flights awaits_engage)
step-IsSound to_ns s (ticks now) v = ground (arith, expire-Keeps s.flights s now awaits_engage)

initial-IsSound : {R : Type 0} (t : Timeouts R) → IsSound (initial t)
unfolding initial
initial-IsSound t = ground arith

module _ {R : Type 0} (to_ns : R → ℕ) (t : Timeouts R) where
  -- The sequencer after any calls, the latest first.
  abbrev pub history : List Call → Sequencer R
  history = after (λ s c. (step to_ns s c).0) (initial t)

  -- After any calls at most one request is awaited, only engage steps are queued before a release,
  -- and after it only release steps are queued and awaited.
  pub sequencer_history-IsSound : (cs : List Call) → IsSound (history cs)
  sequencer_history-IsSound =
      after_inv _ (initial t) IsSound (initial-IsSound t) (step-IsSound to_ns)

abbrev pub Releases : Option Request → Type 0
Releases none = Unit
Releases (some r) = is_release r.op ≡ true

step-releasing :
    {R : Type 0} (to_ns : R → ℕ) (s : Sequencer R) (c : Call)
    → c ≢ begins
    → s.releasing ≡ true
    → (step to_ns s c).0.releasing ≡ true
unfolding step
step-releasing to_ns s (ticks now) b h = ground (arith, expire-Keeps s.flights s now live)
step-releasing to_ns s _ b h = ground arith

step-Releases :
    {R : Type 0} (to_ns : R → ℕ) (s : Sequencer R) (c : Call)
    → IsSound s
    → s.releasing ≡ true
    → Releases (step to_ns s c).1.request
unfolding step
step-Releases to_ns s (sends now) v h = ground arith
step-Releases to_ns s _ v h = ground arith

-- Once a sound sequencer is releasing, no call before the next `begin_execution` sends an arm or an
-- OFFBOARD-on request.
pub release_engages_nothing :
    {R : Type 0} (to_ns : R → ℕ) (s : Sequencer R) (cs : List Call) (c : Call)
    → IsSound s
    → s.releasing ≡ true
    → All (λ d. d ≢ begins) (c ∷ cs)
    → Releases (step to_ns (after (λ u d. (step to_ns u d).0) s cs) c).1.request
unfolding after
release_engages_nothing to_ns s cs c v h b =
    let (sound, releasing) = kept cs b.1 in step-Releases to_ns _ c sound releasing
  where
    kept :
        (ds : List Call)
        → All (λ d. d ≢ begins) ds
        → let u = after (λ u d. (step to_ns u d).0) s ds in IsSound u × (u.releasing ≡ true)
    kept [] _ = (v, h)
    kept (d ∷ ds) k =
        let (sound, releasing) = kept ds k.1 in
        (step-IsSound to_ns _ d sound, step-releasing to_ns _ d k.0 releasing)

live-abandon : (fs : List Flight) → any live (abandon fs) ≡ false
live-abandon [] = refl
live-abandon (f ∷ fs) = live-abandon fs

-- When a release begins for an execution that requested OFFBOARD and may have armed (or a disarm is
-- forced), OFFBOARD off is sent at once, also while an engage request is unanswered; while that is
-- unanswered nothing else is sent, and only the disarm waits.
pub release_order :
    {R : Type 0} (to_ns : R → ℕ) (s : Sequencer R) (force : Bool) (now later : ℕ)
    → s.releasing ≡ false
    → s.offboard_requested ≡ true
    → (force || arm_owned s) ≡ true
    → let (s₁, first) = next to_ns (release s force) now in
      (first ≡ some (record { op = Op.offboard_off; id = s.next_id }))
      × ((next to_ns s₁ later).1 ≡ none)
      × (s₁.queue ≡ Op.disarm ∷ [])
unfolding release next
release_order to_ns s force now later r o a =
    let answer : Flight = record {
      req = record { op = Op.offboard_off; id = s.next_id };
      deadline_ns = now + to_ns s.timeouts.offboard_s;
      abandoned = false;
    } in
    ground (arith, live-abandon s.flights, any-append live (abandon s.flights) (answer ∷ []))

-- After a release with a forced disarm, as an emergency stop's, a disarm is queued or in flight,
-- whatever the execution owns.
pub estop_disarms :
    {R : Type 0} (s : Sequencer R)
    → let s' = release s true in
      (any is_disarm s'.queue || any (λ (f : Flight). is_disarm f.req.op) s'.flights) ≡ true
unfolding release
estop_disarms s = ground (arith, any-append is_disarm s.queue (Op.disarm ∷ []))
