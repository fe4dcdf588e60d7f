-- ===== src/Link/Handshake/Verdict.antt =====
-- The link's state against the states of the required topics.
use dyx_3wd.Base.{
  ℕ, suc, ◌+◌, ◌≡◌, refl, Bool, true, false, not, ◌&&◌, ◌||◌, none, some, List, [], ◌∷◌, arith, ltb,
  if◌then◌else◌, length,
}
use dyx_3wd.Link.Handshake.Ops.{
  pending, ok, mismatch, Entry, Handshake, is_ok, is_mismatch, scan, state, count_pending,
  pending_count,
}

module _ {R : Type 0} where
  unfoldable pub required : List (Entry R) → List (Entry R)
  required [] = []
  required (e ∷ es) = let rest = required es in if e.topic.optional then rest else e ∷ rest

  abbrev pub any_mismatch : List (Entry R) → Bool
  any_mismatch [] = false
  any_mismatch (e ∷ es) = let rest = any_mismatch es in is_mismatch e.state || rest

  abbrev pub all_ok : List (Entry R) → Bool
  all_ok [] = true
  all_ok (e ∷ es) = let rest = all_ok es in is_ok e.state && rest

  -- What the loop finds, of the required entries alone.
  scan-required :
      (es : List (Entry R)) (b : Bool) (n : ℕ)
      → scan es (b, n) ≡ (
          if any_mismatch (required es)
          then none
          else some (b && all_ok (required es), n + length (required es)))
  unfolding scan required
  scan-required [] b n = ground arith
  scan-required (e ∷ es) b n =
      let skipped = scan-required es b n in
      let noted = scan-required es (if not (is_ok e.state) then false else b) (suc n) in
      ground (arith, skipped, noted)

  pending_required : (es : List (Entry R)) → count_pending es ≡ count_pending (required es)
  unfolding count_pending required
  pending_required [] = refl
  pending_required (e ∷ es) = ground (arith, pending_required es)

  -- The link is in MISMATCH exactly if a required topic is, else OK exactly if there is a required
  -- topic and all are OK, and else PENDING: the optional topics never count.
  pub state_lem :
      (h : Handshake R)
      → (state h ≡ (
          if any_mismatch (required h.entries)
          then mismatch
          else if all_ok (required h.entries) && ltb 0 (length (required h.entries))
          then ok
          else pending))
        × (pending_count h ≡ count_pending (required h.entries))
  unfolding state pending_count
  state_lem h = ground (arith, scan-required h.entries true 0, pending_required h.entries)
