-- ===== src/Mission/Fsm/History.antt =====
-- The log over a whole history.
use mathlib.Core.List.{reverse, reverse-cons}
use dyx_3wd.Base.{
  ℕ, suc, ◌+◌, ◌-◌, ◌≡◌, refl, sym, ap, ◌∙◌, List, [], ◌∷◌, ◌++◌, arith, length, length-append,
  length-drop, drop, drop-append, drop-drop, ltb, Bool-cases, inl, inr,
}
use dyx_3wd.Base.Trace.{after, after_inv}
use dyx_3wd.Mission.Fsm.Types.{State, Transition, Result, MissionFsm, log_capacity, initial}
use dyx_3wd.Mission.Fsm.Ops.{trim}
use dyx_3wd.Mission.Fsm.Calls.{Call, call}
use dyx_3wd.Mission.Fsm.Log.{Tells, call-Tells}

abbrev pub history : List (ℕ × Call) → MissionFsm
history = after (λ m i. (call m i).0) initial

-- The loop of `record` keeps the latest entries that fit.
pub trim-drop : (ts : List Transition) → trim ts ≡ drop (length ts - log_capacity) ts
unfolding trim
trim-drop [] = refl
trim-drop (t ∷ ts) = elim (Bool-cases (ltb log_capacity (suc (length ts)))) [
  | inl over ↦
      let e : suc (length ts) - log_capacity ≡ suc (length ts - log_capacity) = ground arith in
      rw (over, trim) (trim-drop ts ∙ ap (λ k. drop k (t ∷ ts)) (sym e))
  | inr fits ↦
      let e : suc (length ts) - log_capacity ≡ 0 = ground arith in
      rw (fits, trim) (ap (λ k. drop k (t ∷ ts)) (sym e))
]

-- The entries of all calls, the first call first.
abbrev pub told : MissionFsm → List Transition
told m = reverse m.observed

abbrev pub latest : List Transition → List Transition
latest ts = drop (length ts - log_capacity) ts

latest-push :
    (ts : List Transition) (t : Transition) → trim (latest ts ++ t ∷ []) ≡ latest (ts ++ t ∷ [])
latest-push ts t =
    let n = length ts - log_capacity in
    let kept = length (latest ts ++ t ∷ []) - log_capacity in
    let e : n + kept ≡ length (ts ++ t ∷ []) - log_capacity =
      omega
        (arith, length-append (latest ts) (t ∷ []), length-append ts (t ∷ []), length-drop n ts) in
    trim-drop (latest ts ++ t ∷ [])
    ∙ ap (drop kept) (sym (drop-append n ts (t ∷ []) (omega arith)))
    ∙ drop-drop kept n (ts ++ t ∷ [])
    ∙ ap (λ k. drop k (ts ++ t ∷ [])) e

-- Each entry starts where the one before it ended.
abbrev pub Links : State → List Transition → State → Type 0
Links s [] s' = s' ≡ s
Links s (t ∷ ts) s' = (t.target ≡ s') × Links s ts t.source

-- The entries of `m` (the latest first) lead from IDLE to its state; the log is the latest of them.
pub record IsRecorded (m : MissionFsm) : Type 0 where
  pub linked : Links State.idle m.observed m.state
  pub kept : m.log ≡ latest (told m)

initial-IsRecorded : IsRecorded initial
unfolding initial
initial-IsRecorded = record { linked = refl; kept = refl }

Tells-IsRecorded :
    (now : ℕ) (m m' : MissionFsm) (r : Result) (ts : List Transition)
    → m'.observed ≡ ts
    → Tells now m m' r ts
    → IsRecorded m
    → IsRecorded m'
Tells-IsRecorded now m m' r [] e no_entry h = absurd no_entry
Tells-IsRecorded now m m' r (t ∷ ts) e (rest, entry) h = record {
  linked = rw e (entry.to_state, rw (rest, entry.from_state) h.linked);
  kept =
      entry.logged
      ∙ rw h.kept (latest-push (told m) t)
      ∙ ap latest (sym (reverse-cons t m.observed))
      ∙ ap (λ l. latest (reverse l))
          (let back : t ∷ m.observed ≡ m'.observed = rw (e, rest) in back);
}

-- After every history the entries lead without a gap from IDLE to the state of the machine, and
-- the log holds exactly the latest 256 of them, in order.
pub history-IsRecorded : (is : List (ℕ × Call)) → IsRecorded (history is)
history-IsRecorded =
    after_inv _ initial IsRecorded initial-IsRecorded
      λ m i. Tells-IsRecorded i.0 m _ _ _ refl (call-Tells m i.0 i.1)
