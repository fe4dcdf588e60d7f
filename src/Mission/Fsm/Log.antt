-- ===== src/Mission/Fsm/Log.antt =====
-- The log entry of a call.
use dyx_3wd.Base.{ℕ, ◌+◌, ◌≡◌, false, not, List, [], ◌∷◌, ◌++◌, arith, u64}
use dyx_3wd.Mission.Fsm.Types.{Transition, Result, MissionFsm}
use dyx_3wd.Mission.Fsm.Ops.{trim, go, refuse, ok_no_change}
use dyx_3wd.Mission.Fsm.Calls.{Call, call, start}

-- The entry `t` tells the step from `m` to `m'` with the result `r`.
pub record IsEntry (t : Transition) (now : ℕ) (m m' : MissionFsm) (r : Result) : Type 0 where
  pub logged : m'.log ≡ trim (m.log ++ t ∷ [])
  pub from_state : t.source ≡ m.state
  pub to_state : t.target ≡ m'.state
  pub numbered : t.seq ≡ u64 (m.seq + 1)
  pub counted : m'.seq ≡ t.seq
  pub stamped : t.stamp_ns ≡ now
  pub told : t.refused ≡ not r.accepted
  pub why : t.reject ≡ r.reject
  pub returned : r.state ≡ m'.state
  pub kept : r.transitioned ≡ false → m'.state ≡ m.state
  pub refusal_keeps : r.accepted ≡ false → r.transitioned ≡ false

abbrev pub Tells : ℕ → MissionFsm → MissionFsm → Result → List Transition → Type 0
Tells now m m' r [] = ⊥
Tells now m m' r (t ∷ ts) = (ts ≡ m.observed) × IsEntry t now m m' r

-- Every call, refused or not, adds one entry to the log and tells it to the observer: its states, number,
-- time and verdict are those of the call, whose result gives the new state; a call that reports no
-- transition, as every refused one, keeps the state.
pub call-Tells :
    (m : MissionFsm) (now : ℕ) (c : Call)
    → Tells now m (call m (now, c)).0 (call m (now, c)).1 (call m (now, c)).0.observed
unfolding call go refuse ok_no_change
call-Tells m now (start b) = ground arith
call-Tells m now _ = ground arith
