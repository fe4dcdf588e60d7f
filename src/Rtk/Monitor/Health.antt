-- ===== src/Rtk/Monitor/Health.antt =====
-- CorrectionHealth of correction_health.hpp and .cpp. The deque of the stamps is a list, the oldest
-- first.
use dyx_3wd.Base.{
  ℕ, suc, ◌+◌, ◌-◌, ◌≡◌, Bool, true, false, ◌&&◌, Option, none, some, List, [], ◌∷◌, ◌++◌, arith,
  ltb, ◌==◌, if◌then◌else◌, u64,
}
use dyx_3wd.Base.Real.{Real, zero_real}
use dyx_3wd.Base.Trace.{after}

pub record CorrectionHealth (R : Type 0) : Type 0 where
  pub window_s : R
  pub stamps : List R
  pub have_frame : Bool
  pub last_frame_s : R
  pub connected_since_s : Option R
  pub frames : ℕ
  pub bytes : ℕ

module _ {R : Type 0} ⦃r : Real R⦄ where
  unfoldable pub health : R → CorrectionHealth R
  health window = record {
    window_s = window;
    stamps = [];
    have_frame = false;
    last_frame_s = zero_real;
    connected_since_s = none;
    frames = 0;
    bytes = 0;
  }

  -- The loop that drops the stamps at the front that are older than the window.
  unfoldable pub drop_old : R → R → List R → List R
  drop_old window now [] = []
  drop_old window now (t ∷ ts) =
      let rest = drop_old window now ts in if r.lt window (r.sub now t) then rest else t ∷ ts

  unfoldable pub on_frame : CorrectionHealth R → R → ℕ → CorrectionHealth R
  on_frame h now size = record h {
    have_frame = true;
    last_frame_s = now;
    frames = u64 (h.frames + 1);
    bytes = u64 (h.bytes + size);
    stamps = drop_old h.window_s now (h.stamps ++ now ∷ []);
  }

  unfoldable pub on_connected : CorrectionHealth R → R → CorrectionHealth R
  on_connected h now = record h { connected_since_s = some now }

  unfoldable pub on_disconnected : CorrectionHealth R → CorrectionHealth R
  on_disconnected h = record h { connected_since_s = none }

  unfoldable pub reset_stream : CorrectionHealth R → CorrectionHealth R
  reset_stream h = record h { connected_since_s = none; have_frame = false; stamps = [] }

  abbrev pub connected : CorrectionHealth R → Bool
  connected h = elim h.connected_since_s [ none ↦ false | some _ ↦ true ]

  abbrev pub age_s : CorrectionHealth R → R → R
  age_s h now = if h.have_frame then r.sub now h.last_frame_s else r.lit 1000000000 1

  unfoldable pub fresh : CorrectionHealth R → R → R → Bool
  fresh h now limit =
      h.have_frame && connected h && r.le zero_real (age_s h now) && r.le (age_s h now) limit

  abbrev pub connected_for_s : CorrectionHealth R → R → R
  connected_for_s h now = elim h.connected_since_s [ none ↦ zero_real | some t ↦ r.sub now t ]

  -- The loop of `rate_hz`: how many stamps are in the window, and the first of them.
  unfoldable pub in_window : R → R → List R → ℕ → R → ℕ × R
  in_window window now [] n first = (n, first)
  in_window window now (t ∷ ts) n first =
      let skipped = in_window window now ts n first in
      let counted = in_window window now ts (suc n) (if n == 0 then t else first) in
      if r.le (r.sub now t) window then counted else skipped

  -- `of_count` is the conversion of a count to a double.
  unfoldable pub rate_hz : (ℕ → R) → CorrectionHealth R → R → R
  rate_hz of_count h now =
      let (n, first) = in_window h.window_s now h.stamps 0 zero_real in
      let span = r.sub h.last_frame_s first in
      if ltb n 2
      then zero_real
      else if r.lt zero_real span
      then r.div (of_count (n - 1)) span
      else zero_real

-- The methods that change the health.
pub data Call (R : Type 0) : Type 0 where
  frames : R → ℕ → Call R
  connects : R → Call R
  disconnects : Call R
  resets : Call R

unfoldable pub call : {R : Type 0} ⦃r : Real R⦄ → CorrectionHealth R → Call R → CorrectionHealth R
unfolding on_frame on_connected on_disconnected reset_stream
call h (frames now size) = on_frame h now size
call h (connects now) = on_connected h now
call h disconnects = on_disconnected h
call h resets = reset_stream h

module _ {R : Type 0} ⦃r : Real R⦄ where
  -- The latest frame since the last reset, and whether the stream is up.
  abbrev pub latest_frame : List (Call R) → Option R
  latest_frame [] = none
  latest_frame (frames now size ∷ cs) = some now
  latest_frame (resets ∷ cs) = none
  latest_frame (_ ∷ cs) = latest_frame cs

  abbrev pub is_up : List (Call R) → Bool
  is_up [] = false
  is_up (connects now ∷ cs) = true
  is_up (frames now size ∷ cs) = is_up cs
  is_up (_ ∷ cs) = false

  abbrev Agrees : List (Call R) → CorrectionHealth R → Type 0
  Agrees cs h = (connected h ≡ is_up cs) × (elim (latest_frame cs) [
    | none ↦ h.have_frame ≡ false
    | some t ↦ (h.have_frame ≡ true) × (h.last_frame_s ≡ t)
  ])

  after-Agrees : (window : R) (cs : List (Call R)) → Agrees cs (after call (health window) cs)
  unfolding after call health on_frame on_connected on_disconnected reset_stream
  after-Agrees window [] = ground arith
  after-Agrees window (frames now size ∷ cs) = ground (arith, after-Agrees window cs)
  after-Agrees window (connects now ∷ cs) = ground (arith, after-Agrees window cs)
  after-Agrees window (disconnects ∷ cs) = ground (arith, after-Agrees window cs)
  after-Agrees window (resets ∷ cs) = ground (arith, after-Agrees window cs)

  -- After any calls of a new monitor, corrections are fresh exactly if the stream is up and a frame
  -- came since the last reset, the latest one not after now and not older than the limit.
  pub fresh_lem :
      (window : R) (cs : List (Call R)) (now limit : R)
      → fresh (after call (health window) cs) now limit ≡ (elim (latest_frame cs) [
        | none ↦ false
        | some t ↦ is_up cs && r.le zero_real (r.sub now t) && r.le (r.sub now t) limit
      ])
  unfolding fresh
  fresh_lem window cs now limit = ground (arith, after-Agrees window cs)
