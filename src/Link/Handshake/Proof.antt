-- ===== src/Link/Handshake/Proof.antt =====
-- What an OK topic was answered, and that a mismatch stays.
use Prim.Native.String.{String}
use text.Mathlib.Text.{◌==◌ as text_eq}
use text.Mathlib.TextEquality.{eq_iff}
use dyx_3wd.Base.{
  ℕ, suc, ◌<◌, ◌≡◌, refl, sym, subst, ◌⊎◌, inl, inr, Bool, true, false, not, List, [], ◌∷◌, arith,
  if◌then◌else◌, length, All,
}
use dyx_3wd.Base.Real.{Real}
use dyx_3wd.Base.Trace.{after}
use dyx_3wd.Link.Handshake.Ops.{
  mark_mismatch, HandshakeTopic, ok, MismatchReason, Entry, is_pending, is_ok, judge, respond,
  on_response, state, handshake, construct, due, due_requests, rearm, rearm_all, Call, requests,
  responds, rearms, call,
}
use dyx_3wd.Link.Handshake.Verdict.{required, state_lem, all_ok}

-- Two nested tests.
by_tests :
    {A : Type 0} (Q : A → Type 0) (b c : Bool) (x y z : A)
    → Q x
    → Q y
    → (b ≡ true → c ≡ true → Q z)
    → Q (if not b then x else if not c then y else z)
by_tests Q false c x y z p q h = p
by_tests Q true false x y z p q h = q
by_tests Q true true x y z p q h = h refl refl

module _ {R : Type 0} where
  -- Since the last rearm the firmware confirmed the format of the topic.
  unfoldable pub Proven : HandshakeTopic → List (Call R) → Type 0
  Proven t [] = ⊥
  Proven t (responds name success hash ∷ cs) =
      ((name ≡ t.request_name) × (success ≡ true) × (hash ≡ t.expected_hash)) ⊎ Proven t cs
  Proven t (requests now ∷ cs) = Proven t cs
  Proven t (rearms ∷ cs) = ⊥

  -- The entry is OK only with a proof.
  abbrev pub Honest : List (Call R) → Entry R → Type 0
  Honest cs e = e.state ≡ ok → Proven e.topic cs

  All-map :
      {P Q : Entry R → Type 0} (es : List (Entry R))
      → ((e : Entry R) → P e → Q e)
      → All P es
      → All Q es
  All-map [] f h = tt
  All-map (e ∷ es) f h = (f e h.0, All-map es f h.1)

  -- A response changes at most an entry of its name.
  respond-All :
      (P Q : Entry R → Type 0) (es : List (Entry R)) (why : MismatchReason) (name : String)
      (success : Bool) (hash : ℕ)
      → ((e : Entry R) → P e → Q e)
      → ((e : Entry R)
          → e.topic.request_name ≡ name
          → is_pending e.state ≡ true
          → P e
          → Q (judge e why success hash).0)
      → All P es
      → All Q (respond es why name success hash).0
  unfolding respond
  respond-All P Q [] why name success hash f g h = tt
  respond-All P Q (e ∷ es) why name success hash f g h =
      let rest = respond-All P Q es why name success hash f g h.1 in
      by_tests {A = List (Entry R) × MismatchReason} (λ p. All Q p.0)
        (text_eq e.topic.request_name name) (is_pending e.state) _ _ _ (f e h.0, rest)
        (f e h.0, All-map es f h.1)
        (λ same waits. (g e ((eq_iff _ _).0 same) waits h.0, All-map es f h.1))

  judge_ok :
      (e : Entry R) (why : MismatchReason) (success : Bool) (hash : ℕ)
      → let k = (judge e why success hash).0 in
        (k.topic ≡ e.topic) × (k.state ≡ ok → (success ≡ true) × (hash ≡ e.topic.expected_hash))
  unfolding judge mark_mismatch
  judge_ok e why success hash = ground arith

  judge-Honest :
      (cs : List (Call R)) (e : Entry R) (why : MismatchReason) (name : String) (success : Bool)
      (hash : ℕ)
      → e.topic.request_name ≡ name
      → Honest (responds name success hash ∷ cs) (judge e why success hash).0
  unfolding Proven
  judge-Honest cs e why name success hash same is_ok =
      let (topic, answer) = judge_ok e why success hash in
      let (said, equal) = answer is_ok in
      subst (λ t. Proven t (responds name success hash ∷ cs)) (sym topic)
        (inl (sym same, said, equal))

  later :
      (cs : List (Call R)) (name : String) (success : Bool) (hash : ℕ) (t : HandshakeTopic)
      → Proven t cs
      → Proven t (responds name success hash ∷ cs)
  unfolding Proven
  later cs name success hash t h = inr h

construct-Honest :
    (R : Type 0) ⦃r : Real R⦄ (ts : List HandshakeTopic) (why : MismatchReason)
    → All (Honest {R = R} []) (construct ts why).0
unfolding construct mark_mismatch
construct-Honest R [] why = tt
construct-Honest R (t ∷ ts) why = (λ is_ok. absurd (ground (arith, is_ok)), construct-Honest R ts _)

module _ {R : Type 0} ⦃r : Real R⦄ where
  due-Honest :
      (cs : List (Call R)) (now : R) (es : List (Entry R)) (retry : R) (i : ℕ)
      → All (Honest cs) es
      → All (Honest (requests now ∷ cs)) (due es retry now i).0
  unfolding due Proven
  due-Honest cs now [] retry i h = tt
  due-Honest cs now (e ∷ es) retry i h = ground (arith, due-Honest cs now es retry (suc i) h.1)

  rearm_all-Honest :
      (cs : List (Call R)) (es : List (Entry R)) (why : MismatchReason)
      → All (Honest cs) (rearm_all es why).0
  unfolding rearm_all mark_mismatch
  rearm_all-Honest cs [] why = tt
  rearm_all-Honest cs (e ∷ es) why =
      (λ is_ok. absurd (ground (arith, is_ok)), rearm_all-Honest cs es _)

  after-Honest :
      (ts : List HandshakeTopic) (retry : R) (cs : List (Call R))
      → All (Honest cs) (after call (handshake ts retry) cs).entries
  unfolding after call handshake due_requests on_response rearm
  after-Honest ts retry [] = construct-Honest R ts _
  after-Honest ts retry (requests now ∷ cs) = due-Honest cs now _ _ 0 (after-Honest ts retry cs)
  after-Honest ts retry (rearms ∷ cs) = rearm_all-Honest _ _ _
  after-Honest ts retry (responds name success hash ∷ cs) =
      let h = after call (handshake ts retry) cs in
      respond-All (Honest cs) (Honest (responds name success hash ∷ cs)) h.entries h.mismatch_reason
        name success hash (λ e honest is_ok. later cs name success hash e.topic (honest is_ok))
        (λ e same waits honest. judge-Honest cs e h.mismatch_reason name success hash same)
        (after-Honest ts retry cs)

  all_ok-Proven :
      (cs : List (Call R)) (es : List (Entry R))
      → All (Honest cs) es
      → all_ok (required es) ≡ true
      → All (λ e. Proven e.topic cs) (required es)
  unfolding required
  all_ok-Proven cs [] h a = tt
  all_ok-Proven cs (e ∷ es) h a = ground (arith, a, h.0, all_ok-Proven cs es h.1)

  -- While the link is OK, there is a required topic, and since the last rearm the firmware answered
  -- for every required one with success and the hash that the installed definition has.
  pub ok_needs_answers :
      (ts : List HandshakeTopic) (retry : R) (cs : List (Call R))
      → let h = after call (handshake ts retry) cs in
        state h ≡ ok
        → (0 < length (required h.entries)) × All (λ e. Proven e.topic cs) (required h.entries)
  ok_needs_answers ts retry cs is_ok =
      let h = after call (handshake ts retry) cs in
      let (all, some_required) : (all_ok (required h.entries) ≡ true)
          × (0 < length (required h.entries)) =
        ground (arith, is_ok, state_lem h) in
      (some_required, all_ok-Proven cs h.entries (after-Honest ts retry cs) all)
