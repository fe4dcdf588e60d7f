-- ===== src/Link/Handshake/Permanent.antt =====
-- A mismatch stays until the handshake is armed again.
use Prim.Native.String.{String}
use dyx_3wd.Base.{ℕ, suc, ◌≡◌, refl, ◌∙◌, Bool, true, false, List, [], ◌∷◌, arith, All}
use dyx_3wd.Base.Real.{Real}
use dyx_3wd.Base.Trace.{after}
use dyx_3wd.Link.Handshake.Ops.{
  mismatch, MismatchReason, Entry, Handshake, judge, mark_mismatch, respond, on_response, state,
  due, due_requests, Call, requests, responds, rearms, call,
}
use dyx_3wd.Link.Handshake.Verdict.{required, any_mismatch, state_lem}

module _ {R : Type 0} ⦃r : Real R⦄ where
  abbrev pub rearming : Call R → Bool
  rearming rearms = true
  rearming _ = false

  due-mismatch :
      (now : R) (es : List (Entry R)) (retry : R) (i : ℕ)
      → any_mismatch (required (due es retry now i).0) ≡ any_mismatch (required es)
  unfolding due required
  due-mismatch now [] retry i = refl
  due-mismatch now (e ∷ es) retry i = ground (arith, due-mismatch now es retry (suc i))

  respond-mismatch :
      (es : List (Entry R)) (why : MismatchReason) (name : String) (success : Bool) (hash : ℕ)
      → any_mismatch (required es) ≡ true
      → any_mismatch (required (respond es why name success hash).0) ≡ true
  unfolding respond required judge mark_mismatch
  respond-mismatch [] why name success hash h = h
  respond-mismatch (e ∷ es) why name success hash h =
      ground (arith, h, respond-mismatch es why name success hash)

  after-mismatch :
      (h : Handshake R) (cs : List (Call R))
      → any_mismatch (required h.entries) ≡ true
      → All (λ c. rearming c ≡ false) cs
      → any_mismatch (required (after call h cs).entries) ≡ true
  unfolding after call due_requests on_response
  after-mismatch h [] m n = m
  after-mismatch h (requests now ∷ cs) m n =
      due-mismatch now (after call h cs).entries _ 0 ∙ after-mismatch h cs m n.1
  after-mismatch h (responds name success hash ∷ cs) m n =
      respond-mismatch _ _ name success hash (after-mismatch h cs m n.1)
  after-mismatch h (rearms ∷ cs) m n = absurd (ground (arith, n.0))

  -- Once the link is in MISMATCH it stays there, whatever is requested and answered, until it is
  -- armed again.
  pub mismatch_is_permanent :
      (h : Handshake R) (cs : List (Call R))
      → state h ≡ mismatch
      → All (λ c. rearming c ≡ false) cs
      → state (after call h cs) ≡ mismatch
  mismatch_is_permanent h cs is_mismatch n =
      let found : any_mismatch (required h.entries) ≡ true =
        ground (arith, is_mismatch, state_lem h) in
      ground (arith, after-mismatch h cs found n, state_lem (after call h cs))
