-- ===== src/Link/Handshake/Ops.antt =====
-- msg_version_handshake.hpp and .cpp. The texts of the reasons are values of a data type. The loops
-- over the entries are structural; an entry keeps its place in the list.
use Prim.Native.String.{String}
use text.Mathlib.Text.{◌==◌ as text_eq}
use dyx_3wd.Base.{
  ℕ, suc, ◌+◌, Bool, true, false, not, ◌&&◌, Option, none, some, List, [], ◌∷◌, ltb, ◌==◌,
  if◌then◌else◌, u32,
}
use dyx_3wd.Base.Real.{Real}

pub record HandshakeTopic : Type 0 where
  pub request_name : String
  pub expected_hash : ℕ
  pub definition_missing : Bool
  pub optional : Bool

pub data HandshakeState : Type 0 where
  pending ok mismatch : HandshakeState

-- What a mismatch says; `no_mismatch` is the empty text.
pub data MismatchReason : Type 0 where
  no_mismatch : MismatchReason
  no_definition unknown_topic : String → MismatchReason
  hash_differs : String → ℕ → ℕ → MismatchReason

pub record Entry (R : Type 0) : Type 0 where
  pub topic : HandshakeTopic
  pub state : HandshakeState
  pub last_sent_s : R
  pub reason : MismatchReason

pub record Handshake (R : Type 0) : Type 0 where
  pub entries : List (Entry R)
  pub retry_s : R
  pub mismatch_reason : MismatchReason
  pub generation : ℕ

abbrev pub is_pending : HandshakeState → Bool
is_pending pending = true
is_pending _ = false

abbrev pub is_ok : HandshakeState → Bool
is_ok ok = true
is_ok _ = false

abbrev pub is_mismatch : HandshakeState → Bool
is_mismatch mismatch = true
is_mismatch _ = false

abbrev pub is_none : MismatchReason → Bool
is_none no_mismatch = true
is_none _ = false

module _ {R : Type 0} where
  -- `mark_mismatch`: the entry, and the reason of the link.
  unfoldable pub mark_mismatch :
      Entry R → MismatchReason → MismatchReason → Entry R × MismatchReason
  mark_mismatch e link_reason why = (
    record e { state = mismatch; reason = why },
    if not e.topic.optional then why else link_reason,
  )

  abbrev pub missing : Entry R → MismatchReason
  missing e = no_definition e.topic.request_name

  -- The verdict on a response, for a pending entry of its name.
  unfoldable pub judge : Entry R → MismatchReason → Bool → ℕ → Entry R × MismatchReason
  unfolding mark_mismatch
  judge e link_reason success hash =
      if not success
      then mark_mismatch e link_reason (unknown_topic e.topic.request_name)
      else if not (hash == e.topic.expected_hash)
      then mark_mismatch e link_reason
          (hash_differs e.topic.request_name hash e.topic.expected_hash)
      else (record e { state = ok }, link_reason)

  -- The loop of `on_response`, which ends at the first entry of the name.
  unfoldable pub respond :
      List (Entry R) → MismatchReason → String → Bool → ℕ → List (Entry R) × MismatchReason
  respond [] link_reason name success hash = ([], link_reason)
  respond (e ∷ es) link_reason name success hash =
      let (rest, later) = respond es link_reason name success hash in
      let (judged, reason) = judge e link_reason success hash in
      if not (text_eq e.topic.request_name name)
      then (e ∷ rest, later)
      else if not (is_pending e.state)
      then (e ∷ es, link_reason)
      else (judged ∷ es, reason)

  unfoldable pub on_response : Handshake R → String → Bool → ℕ → Handshake R
  on_response h name success hash =
      let (entries, reason) = respond h.entries h.mismatch_reason name success hash in
      record h { entries = entries; mismatch_reason = reason }

  abbrev pub note_required : Entry R → Bool × ℕ → Bool × ℕ
  note_required e (all_ok, required) = (if not (is_ok e.state) then false else all_ok, suc required)

  -- The loop of `state`; `none` where it returns MISMATCH.
  unfoldable pub scan : List (Entry R) → Bool × ℕ → Option (Bool × ℕ)
  scan [] counts = some counts
  scan (e ∷ es) counts =
      let same = scan es counts in
      let noted = scan es (note_required e counts) in
      if e.topic.optional then same else if is_mismatch e.state then none else noted

  unfoldable pub state : Handshake R → HandshakeState
  state h = elim (scan h.entries (true, 0)) [
    | none ↦ mismatch
    | some (all_ok, required) ↦ if all_ok && ltb 0 required then ok else pending
  ]

  unfoldable pub count_pending : List (Entry R) → ℕ
  count_pending [] = 0
  count_pending (e ∷ es) =
      let n = count_pending es in if not e.topic.optional && is_pending e.state then suc n else n

  unfoldable pub pending_count : Handshake R → ℕ
  pending_count h = count_pending h.entries

module _ {R : Type 0} ⦃r : Real R⦄ where
  -- Long before any clock: -1.0e18.
  abbrev pub never_sent : R
  never_sent = r.neg (r.lit 1000000000000000000 1)

  abbrev pub new_entry : HandshakeTopic → Entry R
  new_entry t = record {
    topic = t;
    state = pending;
    last_sent_s = never_sent;
    reason = no_mismatch;
  }

  -- The loop of the constructor: the first missing definition is the one that is reported.
  unfoldable pub construct : List HandshakeTopic → MismatchReason → List (Entry R) × MismatchReason
  unfolding mark_mismatch
  construct [] link_reason = ([], link_reason)
  construct (t ∷ ts) link_reason =
      let e : Entry R = new_entry t in
      let (marked, reason) = mark_mismatch e link_reason (missing e) in
      let kept = if not (is_none link_reason) then link_reason else reason in
      let (entries, last) = construct ts (if t.definition_missing then kept else link_reason) in
      ((if t.definition_missing then marked else e) ∷ entries, last)

  unfoldable pub handshake : List HandshakeTopic → R → Handshake R
  handshake topics retry =
      let (entries, reason) = construct topics no_mismatch in
      record { entries = entries; retry_s = retry; mismatch_reason = reason; generation = 0 }

  unfoldable pub due : List (Entry R) → R → R → ℕ → List (Entry R) × List ℕ
  due [] retry now i = ([], [])
  due (e ∷ es) retry now i =
      let (rest, indices) = due es retry now (suc i) in
      if is_pending e.state && r.le retry (r.sub now e.last_sent_s)
      then (record e { last_sent_s = now } ∷ rest, i ∷ indices)
      else (e ∷ rest, indices)

  unfoldable pub due_requests : Handshake R → R → Handshake R × List ℕ
  due_requests h now =
      let (entries, indices) = due h.entries h.retry_s now 0 in
      (record h { entries = entries }, indices)

  unfoldable pub rearm_all : List (Entry R) → MismatchReason → List (Entry R) × MismatchReason
  unfolding mark_mismatch
  rearm_all [] link_reason = ([], link_reason)
  rearm_all (e ∷ es) link_reason =
      let cleared = record e { last_sent_s = never_sent; reason = no_mismatch } in
      let (marked, reason) = mark_mismatch cleared link_reason (missing e) in
      let (rest, last) =
        rearm_all es (if e.topic.definition_missing then reason else link_reason) in
      (
        (if e.topic.definition_missing then marked else record cleared { state = pending }) ∷ rest,
        last,
      )

  unfoldable pub rearm : Handshake R → Handshake R
  rearm h =
      let (entries, reason) = rearm_all h.entries no_mismatch in
      record h { entries = entries; mismatch_reason = reason; generation = u32 (h.generation + 1) }

-- The methods that change the handshake.
pub data Call (R : Type 0) : Type 0 where
  requests : R → Call R
  responds : String → Bool → ℕ → Call R
  rearms : Call R

unfoldable pub call : {R : Type 0} ⦃r : Real R⦄ → Handshake R → Call R → Handshake R
unfolding due_requests on_response rearm
call h (requests now) = (due_requests h now).0
call h (responds name success hash) = on_response h name success hash
call h rearms = rearm h
