-- ===== src/Link/Topics/Resets.antt =====
-- The resets of the session against the history of the evaluations.
use dyx_3wd.Base.{
  ℕ, suc, ◌≡◌, refl, sym, ap, subst, Bool, true, false, not, ◌&&◌, ◌||◌, List, [], ◌∷◌, arith,
  if◌then◌else◌, u32,
}
use dyx_3wd.Base.Real.{Real}
use dyx_3wd.Base.Trace.{after}
use dyx_3wd.Link.Topics.Ops.{
  TopicBit, timesync, StalenessMonitor, Call, samples, evaluates, consumes, call, monitor,
  note_alive, evaluate, consume_reset,
}
use dyx_3wd.Link.Topics.Fresh.{is_stale, evaluate_lem}

-- What the evaluations found: nothing alive yet, alive the last time, or dead since it was alive.
pub data Phase : Type 0 where
  never alive dead : Phase

abbrev pub fall : Phase → Phase
fall never = never
fall _ = dead

abbrev pub is_dead : Phase → Bool
is_dead dead = true
is_dead _ = false

module _ {R : Type 0} ⦃r : Real R⦄ where
  -- Whether the time synchronisation is fresh when the monitor evaluates after the calls.
  abbrev pub lives : StalenessMonitor R → List (Call R) → R → Bool
  lives m cs now = not (is_stale (after call m cs) now timesync)

  unfoldable pub phase : StalenessMonitor R → List (Call R) → Phase
  phase m [] = never
  phase m (evaluates now ∷ cs) = let p = phase m cs in if lives m cs now then alive else fall p
  phase m (_ ∷ cs) = phase m cs

  -- The evaluation finds the session alive again.
  abbrev pub returns : StalenessMonitor R → List (Call R) → R → Bool
  returns m cs now = lives m cs now && is_dead (phase m cs)

  -- How often the session came back, and whether it did since the last consume_reset.
  unfoldable pub returned : StalenessMonitor R → List (Call R) → ℕ
  returned m [] = 0
  returned m (evaluates now ∷ cs) = let n = returned m cs in if returns m cs now then suc n else n
  returned m (_ ∷ cs) = returned m cs

  unfoldable pub unreported : StalenessMonitor R → List (Call R) → Bool
  unreported m [] = false
  unreported m (evaluates now ∷ cs) = let u = unreported m cs in returns m cs now || u
  unreported m (consumes ∷ cs) = false
  unreported m (samples t now ∷ cs) = unreported m cs

  abbrev Tracks : Phase → ℕ → Bool → StalenessMonitor R → Type 0
  Tracks p n u m =
      (elim p [
        | never ↦ (m.was_alive ≡ false) × (m.had_dead_after_alive ≡ false)
        | alive ↦ (m.was_alive ≡ true) × (m.had_dead_after_alive ≡ false)
        | dead ↦ (m.was_alive ≡ true) × (m.had_dead_after_alive ≡ true)
      ])
      × (m.resets ≡ u32 n)
      × (m.reset_flag ≡ u)

  note_alive-Tracks :
      (p : Phase) (n : ℕ) (u a : Bool) (m : StalenessMonitor R)
      → Tracks p n u m
      → Tracks
          (if a then alive else fall p)
          (if a && is_dead p then suc n else n)
          ((a && is_dead p) || u)
          (note_alive m a)
  unfolding note_alive
  note_alive-Tracks p n u a m h = ground arith

  evaluate-note_alive :
      (m : StalenessMonitor R) (now : R)
      → (evaluate m now).0 ≡ note_alive m (not (is_stale m now timesync))
  unfolding evaluate
  evaluate-note_alive m now = ap (note_alive m) (evaluate_lem m now).1

  after-Tracks :
      (m : StalenessMonitor R) (cs : List (Call R))
      → Tracks never 0 false m
      → Tracks (phase m cs) (returned m cs) (unreported m cs) (after call m cs)
  unfolding after call phase returned unreported
  after-Tracks m [] h = h
  after-Tracks m (samples t now ∷ cs) h = ground (arith, after-Tracks m cs h)
  after-Tracks m (consumes ∷ cs) h = ground (arith, after-Tracks m cs h)
  after-Tracks m (evaluates now ∷ cs) h =
      subst
        (Tracks (phase m (evaluates now ∷ cs)) (returned m (evaluates now ∷ cs))
          (unreported m (evaluates now ∷ cs)))
        (sym (evaluate-note_alive (after call m cs) now))
        (note_alive-Tracks (phase m cs) (returned m cs) (unreported m cs) (lives m cs now) _
          (after-Tracks m cs h))

  monitor-Tracks : (max_age : TopicBit → R) → Tracks never 0 false (monitor max_age)
  unfolding monitor
  monitor-Tracks max_age = ground arith

  -- After any calls of a new monitor, the number of resets is the number of evaluations that found
  -- the session alive after one that found it dead since it was alive, modulo 2^32, and
  -- consume_reset says whether there was one since it was last asked; then it says no.
  pub resets_lem :
      (max_age : TopicBit → R) (cs : List (Call R))
      → let m = monitor max_age in
        let n = after call m cs in
        (n.resets ≡ u32 (returned m cs))
        × ((consume_reset n).1 ≡ unreported m cs)
        × ((consume_reset (consume_reset n).0).1 ≡ false)
  unfolding consume_reset
  resets_lem max_age cs =
      let h = after-Tracks (monitor max_age) cs (monitor-Tracks max_age) in (h.1, h.2, refl)
