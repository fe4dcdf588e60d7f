-- ===== src/Gateway/Events/Ops.antt =====
-- event_stream.hpp and .cpp. The line of an event is a record with its members; the map of the kinds
-- is a list in the order of the names. What the wall clock says when event number n is pushed is
-- `wall n`. The mutex makes one method follow another.
use Prim.Native.String.{String, compare}
use text.Mathlib.Text.{◌==◌ as text_eq, is_lt}
use dyx_3wd.Base.{
  ℕ, ◌+◌, Bool, true, false, not, ◌&&◌, ◌||◌, Option, none, some, List, [], ◌∷◌, ltb, ◌==◌,
  if◌then◌else◌, u64,
}
use dyx_3wd.Base.Real.{Real, zero_real}

pub record Event (R : Type 0) : Type 0 where
  pub kind : String
  pub seq : ℕ
  pub t_mono_s : R
  pub t_wall_ms : ℕ
  pub coalesced : ℕ
  pub is_replay : Bool
  pub json : String

pub record Kind (R : Type 0) : Type 0 where
  pub seen : Bool
  pub key : String
  pub pending : Bool
  pub folded : ℕ
  pub json : String
  pub observed_s : R
  pub last_push_s : R
  pub last_seq : ℕ
  pub replay_line : Option (Event R)

pub record EventStream (R : Type 0) : Type 0 where
  pub coalesce_s : R
  pub kinds : List (String × Kind R)
  pub seq : ℕ

module _ {R : Type 0} ⦃r : Real R⦄ where
  unfoldable pub new_kind : Kind R
  new_kind = record {
    seen = false;
    key = "";
    pending = false;
    folded = 0;
    json = "";
    observed_s = zero_real;
    last_push_s = r.neg (r.lit 1000000000000000000 1);
    last_seq = 0;
    replay_line = none;
  }

  unfoldable pub event_stream : R → EventStream R
  event_stream coalesce = record { coalesce_s = coalesce; kinds = []; seq = 0 }

  -- `kinds_[name]`: a missing kind is a new one.
  unfoldable pub find_kind : String → List (String × Kind R) → Kind R
  find_kind name [] = new_kind
  find_kind name ((n, k) ∷ ks) = let rest = find_kind name ks in if text_eq n name then k else rest

  unfoldable pub has_kind : String → List (String × Kind R) → Bool
  has_kind name [] = false
  has_kind name ((n, k) ∷ ks) = let rest = has_kind name ks in text_eq n name || rest

  unfoldable pub replace_kind : String → Kind R → List (String × Kind R) → List (String × Kind R)
  replace_kind name k [] = []
  replace_kind name k ((n, j) ∷ ks) =
      let rest = replace_kind name k ks in if text_eq n name then (name, k) ∷ ks else (n, j) ∷ rest

  -- A new name goes to its place in the order of the names.
  unfoldable pub insert_kind : String → Kind R → List (String × Kind R) → List (String × Kind R)
  insert_kind name k [] = (name, k) ∷ []
  insert_kind name k ((n, j) ∷ ks) =
      let rest = insert_kind name k ks in
      if is_lt (compare name n) then (name, k) ∷ (n, j) ∷ ks else (n, j) ∷ rest

  unfoldable pub put_kind : String → Kind R → List (String × Kind R) → List (String × Kind R)
  put_kind name k ks = if has_kind name ks then replace_kind name k ks else insert_kind name k ks

  -- `push_locked`: the kind, and the line that is sent.
  unfoldable pub push : String → Kind R → ℕ → (ℕ → ℕ) → R → Kind R × Event R
  push name k seq wall now =
      let line : Event R = record {
        kind = name;
        seq = seq;
        t_mono_s = k.observed_s;
        t_wall_ms = wall seq;
        coalesced = k.folded;
        is_replay = false;
        json = k.json;
      } in
      (
        record k {
          pending = false;
          last_push_s = now;
          last_seq = seq;
          replay_line = some (record line { is_replay = true });
          folded = 0;
        },
        line,
      )

  -- The kind's window since its last push has passed.
  unfoldable pub window_passed : R → Kind R → R → Bool
  window_passed coalesce k now =
      r.le (r.sub coalesce (r.lit 1 1000000000)) (r.sub now k.last_push_s)

  abbrev pub is_transition : Kind R → String → Bool
  is_transition k key = not k.seen || not (text_eq key k.key)

  -- The kind after it has seen a key.
  unfoldable pub note_key : Kind R → String → Kind R
  note_key k key = record k {
    seen = true;
    key = key;
    folded = if is_transition k key && k.pending then u64 (k.folded + 1) else k.folded;
    pending = is_transition k key || k.pending;
  }

  abbrev pub pushed_to : EventStream R → String → Kind R × Event R → EventStream R × List (Event R)
  pushed_to s name (k, line) =
      (record s { kinds = put_kind name k s.kinds; seq = u64 (s.seq + 1) }, line ∷ [])

  unfoldable pub offer :
      EventStream R → (ℕ → ℕ) → String → String → String → R → EventStream R × List (Event R)
  offer s wall name key json now =
      let k = note_key (find_kind name s.kinds) key in
      let carried = record k { json = json; observed_s = now } in
      if not k.pending
      then (record s { kinds = put_kind name k s.kinds }, [])
      else if window_passed s.coalesce_s carried now
      then pushed_to s name (push name carried (u64 (s.seq + 1)) wall now)
      else (record s { kinds = put_kind name carried s.kinds }, [])

  unfoldable pub flush_kinds :
      R → (ℕ → ℕ) → R → List (String × Kind R) → ℕ → List (String × Kind R) × ℕ × List (Event R)
  flush_kinds coalesce wall now [] seq = ([], seq, [])
  flush_kinds coalesce wall now ((name, k) ∷ ks) seq =
      let next = u64 (seq + 1) in
      let (pushed, line) = push name k next wall now in
      let (ks', seq', lines) = flush_kinds coalesce wall now ks next in
      let (kept, seq_kept, lines_kept) = flush_kinds coalesce wall now ks seq in
      if k.pending && window_passed coalesce k now
      then ((name, pushed) ∷ ks', seq', line ∷ lines)
      else ((name, k) ∷ kept, seq_kept, lines_kept)

  unfoldable pub flush : EventStream R → (ℕ → ℕ) → R → EventStream R × List (Event R)
  flush s wall now =
      let (kinds, seq, lines) = flush_kinds s.coalesce_s wall now s.kinds s.seq in
      (record s { kinds = kinds; seq = seq }, lines)

  -- `replay`: the lines of the kinds that were pushed, sorted by their sequence numbers.
  unfoldable pub insert_line :
      ℕ × Option (Event R) → List (ℕ × Option (Event R)) → List (ℕ × Option (Event R))
  insert_line l [] = l ∷ []
  insert_line l (m ∷ ms) =
      let rest = insert_line l ms in if ltb l.0 m.0 then l ∷ m ∷ ms else m ∷ rest

  unfoldable pub replay_order : List (String × Kind R) → List (ℕ × Option (Event R))
  replay_order [] = []
  replay_order ((name, k) ∷ ks) =
      let rest = replay_order ks in
      if k.last_seq == 0 then rest else insert_line (k.last_seq, k.replay_line) rest

-- The methods that change the stream.
pub data Call (R : Type 0) : Type 0 where
  offers : String → String → String → R → Call R
  flushes : R → Call R

unfoldable pub call :
    {R : Type 0} ⦃r : Real R⦄ → (ℕ → ℕ) → EventStream R → Call R → EventStream R × List (Event R)
unfolding offer flush
call wall s (offers name key json now) = offer s wall name key json now
call wall s (flushes now) = flush s wall now
