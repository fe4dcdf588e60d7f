-- ===== src/Guard/Session.antt =====
-- The sequence rule of a publisher's session.
use dyx_3wd.Base.{ℕ, suc, ◌+◌, ◌≤◌, ◌<◌, ◌≡◌, true, List, [], ◌∷◌, arith, length}
use dyx_3wd.Base.Real.{Real}
use dyx_3wd.Base.Trace.{after}
use dyx_3wd.Guard.Types.{Command}
use dyx_3wd.Guard.Core.{SequenceTracker, GuardCore, track, on_command, accepting}

module _ {R : Type 0} ⦃r : Real R⦄ where
  -- A command with the number of the last one changes nothing: it cannot refresh a stale command.
  pub duplicate_changes_nothing :
      (g : GuardCore R) (c : Command R) (now : R)
      → g.seq.have ≡ true
      → c.seq ≡ g.seq.last
      → on_command g c now ≡ g
  unfolding on_command
  duplicate_changes_nothing g c now h e = ground arith

  abbrev pub tracked : SequenceTracker R → List (ℕ × R) → SequenceTracker R
  tracked = after (λ t i. (track t i.0 i.1).0)

  track-count :
      (t : SequenceTracker R) (seq : ℕ) (now : R)
      → let t' = (track t seq now).0 in (t'.count ≤ suc t.count) × (t'.accept ≡ t.accept)
  unfolding track
  track-count t seq now = ground arith

  tracked-count :
      (t : SequenceTracker R) (is : List (ℕ × R))
      → ((tracked t is).count ≤ length is + t.count) × ((tracked t is).accept ≡ t.accept)
  unfolding after
  tracked-count t [] = omega arith
  tracked-count t ((seq, now) ∷ is) =
      omega (arith, tracked-count t is, track-count (tracked t is) seq now)

  -- After a restart (a lower number) motion stays refused until `accept` commands, the restarting one
  -- included, have come.
  pub restart_needs_commands :
      (t : SequenceTracker R) (seq : ℕ) (now : R) (is : List (ℕ × R))
      → seq < t.last
      → accepting (tracked (track t seq now).0 is) ≡ true
      → t.accept ≤ suc (length is)
  unfolding track
  restart_needs_commands t seq now is low h = ground (arith, tracked-count (track t seq now).0 is)

  -- The count never passes the largest uint32, so it never wraps.
  pub track-bounded :
      (t : SequenceTracker R) (seq : ℕ) (now : R)
      → t.count ≤ 4294967295
      → (track t seq now).0.count ≤ 4294967295
  unfolding track
  track-bounded t seq now h = ground arith
