-- ===== src/Gateway/Events/Keys.antt =====
-- A kind keeps the key that was offered last under its name.
use Prim.Native.String.{String, compare}
use text.Mathlib.Text.{◌==◌ as text_eq, is_lt}
use text.Mathlib.TextEquality.{eq_iff}
use dyx_3wd.Base.{
  ℕ, ◌+◌, ◌≡◌, refl, sym, ap, ◌∙◌, inl, inr, Bool, true, false, not, ◌&&◌, Option, none, some, List,
  [], ◌∷◌, arith, if◌then◌else◌, u64, Bool-cases, if_cases,
}
use dyx_3wd.Base.Real.{Real}
use dyx_3wd.Gateway.Events.Ops.{
  Event, Kind, EventStream, event_stream, new_kind, find_kind, has_kind, replace_kind, insert_kind,
  put_kind, push, window_passed, is_transition, note_key, offer, flush_kinds, flush, Call, offers,
  flushes, call,
}

-- Two names that are the same are told apart alike from a third.
same_name : (a b c : String) → text_eq a b ≡ true → text_eq a c ≡ text_eq b c
same_name a b c h = ap (λ n. text_eq n c) ((eq_iff a b).0 h)

other_name : (a b c : String) → text_eq a b ≡ false → text_eq a c ≡ true → text_eq b c ≡ false
other_name a b c h k = elim (Bool-cases (text_eq b c)) [
  | inl same ↦
      let e = (eq_iff a c).0 k ∙ sym ((eq_iff b c).0 same) in
      absurd (ground (arith, h, (eq_iff a b).1 e))
  | inr differ ↦ differ
]

abbrev pub differs_from : Option String → String → Bool
differs_from none key = true
differs_from (some k) key = not (text_eq key k)

same_if :
    {A : Type 0} (a b : Bool) (k j f : A)
    → b ≡ a
    → (if a then k else f) ≡ (if a then k else if b then j else f)
same_if true b k j f h = refl
same_if false b k j f h = ap (λ c. if c then j else f) (sym h)

other_if :
    {A : Type 0} (a b : Bool) (k j f : A)
    → (b ≡ true → a ≡ false)
    → (if b then j else if a then k else f) ≡ (if a then k else if b then j else f)
other_if true true k j f h = absurd (ground (arith, h refl))
other_if true false k j f h = refl
other_if false b k j f h = refl

module _ {R : Type 0} ⦃r : Real R⦄ where
  -- The key offered last under a name, of the calls, the latest first.
  abbrev pub last_key : String → List (Call R) → Option String
  last_key name [] = none
  last_key name (offers n key json now ∷ cs) = if text_eq n name then some key else last_key name cs
  last_key name (flushes now ∷ cs) = last_key name cs

  -- How many offers had another key than the one before under their name.
  abbrev pub transitions : List (Call R) → ℕ
  transitions [] = 0
  transitions (offers name key json now ∷ cs) =
      transitions cs + (if differs_from (last_key name cs) key then 1 else 0)
  transitions (flushes now ∷ cs) = transitions cs

  abbrev pub key_of : Kind R → Option String
  key_of k = if k.seen then some k.key else none

  abbrev pub Remembers : List (Call R) → List (String × Kind R) → Type 0
  Remembers cs ks = (name : String) → key_of (find_kind name ks) ≡ last_key name cs

  pub is_transition_lem :
      (k : Kind R) (key : String) → is_transition k key ≡ differs_from (key_of k) key
  is_transition_lem k key =
      if_cases (λ (o : Option String). is_transition k key ≡ differs_from o key) k.seen _ _
        (λ seen. ground (arith, seen)) (λ unseen. ground (arith, unseen))

  key_if :
      (b : Bool) (k j : Kind R) → key_of (if b then k else j) ≡ (if b then key_of k else key_of j)
  key_if true k j = refl
  key_if false k j = refl

  keys_if :
      (b : Bool) (k j k' j' : Kind R)
      → key_of k ≡ key_of k'
      → key_of j ≡ key_of j'
      → key_of (if b then k else j) ≡ key_of (if b then k' else j')
  keys_if true k j k' j' e f = e
  keys_if false k j k' j' e f = f

  find-replace :
      (name n : String) (k : Kind R) (ks : List (String × Kind R))
      → has_kind n ks ≡ true
      → find_kind name (replace_kind n k ks) ≡ (if text_eq n name then k else find_kind name ks)
  unfolding find_kind replace_kind has_kind
  find-replace name n k [] h = absurd (ground (arith, h))
  find-replace name n k ((m, j) ∷ ks) h = elim (Bool-cases (text_eq m n)) [
    | inl same ↦
        ap (λ b. find_kind name (if b then (n, k) ∷ ks else (m, j) ∷ replace_kind n k ks)) same
        ∙ same_if (text_eq n name) (text_eq m name) k j (find_kind name ks)
            (same_name m n name same)
    | inr other ↦
        let rest = find-replace name n k ks (ground (arith, h, other)) in
        ap (λ b. find_kind name (if b then (n, k) ∷ ks else (m, j) ∷ replace_kind n k ks)) other
        ∙ ap (λ f. if text_eq m name then j else f) rest
        ∙ other_if (text_eq n name) (text_eq m name) k j (find_kind name ks)
            (other_name m n name other)
  ]

  find-insert :
      (name n : String) (k : Kind R) (ks : List (String × Kind R))
      → has_kind n ks ≡ false
      → find_kind name (insert_kind n k ks) ≡ (if text_eq n name then k else find_kind name ks)
  unfolding find_kind insert_kind has_kind
  find-insert name n k [] h = refl
  find-insert name n k ((m, j) ∷ ks) h =
      let (other, missing) : (text_eq m n ≡ false) × (has_kind n ks ≡ false) = ground (arith, h) in
      if_cases
        (λ l. find_kind name l ≡ (if text_eq n name then k else find_kind name ((m, j) ∷ ks)))
        (is_lt (compare n m)) _ _ (λ here. refl)
        (λ later.
          ap (λ f. if text_eq m name then j else f) (find-insert name n k ks missing)
          ∙ other_if (text_eq n name) (text_eq m name) k j (find_kind name ks)
              (other_name m n name other))

  find-put :
      (name n : String) (k : Kind R) (ks : List (String × Kind R))
      → find_kind name (put_kind n k ks) ≡ (if text_eq n name then k else find_kind name ks)
  unfolding put_kind
  find-put name n k ks =
      if_cases (λ l. find_kind name l ≡ (if text_eq n name then k else find_kind name ks))
        (has_kind n ks) _ _ (find-replace name n k ks) (find-insert name n k ks)

  -- A kind with the new key is put in the place of its name.
  put-Remembers :
      (cs : List (Call R)) (name key json : String) (now : R) (k : Kind R)
      (ks : List (String × Kind R))
      → key_of k ≡ some key
      → Remembers cs ks
      → Remembers (offers name key json now ∷ cs) (put_kind name k ks)
  put-Remembers cs name key json now k ks e h other =
      ap key_of (find-put other name k ks)
      ∙ key_if (text_eq name other) k (find_kind other ks)
      ∙ ap (λ o. if text_eq name other then o else key_of (find_kind other ks)) e
      ∙ ap (λ o. if text_eq name other then some key else o) (h other)

  offer-Remembers :
      (wall : ℕ → ℕ) (cs : List (Call R)) (s : EventStream R) (name key json : String) (now : R)
      → Remembers cs s.kinds
      → Remembers (offers name key json now ∷ cs) (offer s wall name key json now).0.kinds
  unfolding offer push note_key
  offer-Remembers wall cs s name key json now h =
      let k = note_key (find_kind name s.kinds) key in
      let carried = record k { json = json; observed_s = now } in
      let P = λ (o : EventStream R × List (Event R)).
        Remembers (offers name key json now ∷ cs) o.0.kinds in
      if_cases P (not k.pending) _ _ (λ quiet. put-Remembers cs name key json now k s.kinds refl h)
        (λ waiting.
          if_cases P (window_passed s.coalesce_s carried now) _ _
            (λ passed. put-Remembers cs name key json now _ s.kinds refl h)
            (λ early. put-Remembers cs name key json now carried s.kinds refl h))

  flush_kinds-keys :
      (coalesce : R) (wall : ℕ → ℕ) (now : R) (ks : List (String × Kind R)) (seq : ℕ)
      (name : String)
      → key_of (find_kind name (flush_kinds coalesce wall now ks seq).0)
        ≡ key_of (find_kind name ks)
  unfolding flush_kinds push find_kind
  flush_kinds-keys coalesce wall now [] seq name = refl
  flush_kinds-keys coalesce wall now ((n, k) ∷ ks) seq name =
      if_cases
        (λ (o : List (String × Kind R) × ℕ × List (Event R)).
          key_of (find_kind name o.0) ≡ key_of (find_kind name ((n, k) ∷ ks)))
        (k.pending && window_passed coalesce k now) _ _
        (λ due.
          keys_if (text_eq n name) (push n k (u64 (seq + 1)) wall now).0 _ k (find_kind name ks)
            refl (flush_kinds-keys coalesce wall now ks (u64 (seq + 1)) name))
        (λ kept.
          keys_if (text_eq n name) k _ k (find_kind name ks) refl
            (flush_kinds-keys coalesce wall now ks seq name))

  pub call-Remembers :
      (wall : ℕ → ℕ) (cs : List (Call R)) (s : EventStream R) (c : Call R)
      → Remembers cs s.kinds
      → Remembers (c ∷ cs) (call wall s c).0.kinds
  unfolding call flush
  call-Remembers wall cs s (offers name key json now) h =
      offer-Remembers wall cs s name key json now h
  call-Remembers wall cs s (flushes now) h =
      λ name. flush_kinds-keys s.coalesce_s wall now s.kinds s.seq name ∙ h name

  pub event_stream-Remembers : (coalesce : R) → Remembers [] (event_stream coalesce).kinds
  unfolding event_stream find_kind new_kind
  event_stream-Remembers coalesce name = refl
