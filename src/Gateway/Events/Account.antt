-- ===== src/Gateway/Events/Account.antt =====
-- The account of the transitions over a history of offers and flushes.
use Prim.Native.String.{String}
use dyx_3wd.Base.{
  ℕ, ◌+◌, ◌≡◌, refl, ap, ◌∙◌, subst, false, not, ◌&&◌, List, [], ◌∷◌, ◌++◌, arith, if◌then◌else◌,
  u64, if_cases, All,
}
use dyx_3wd.Base.Real.{Real}
use dyx_3wd.Gateway.Events.Ops.{
  Event, Kind, EventStream, event_stream, find_kind, put_kind, push, window_passed, is_transition,
  note_key, offer, flush_kinds, flush, Call, offers, flushes, call,
}
use dyx_3wd.Gateway.Events.Conserve.{
  held, held_in, told, Clean, find_kind-Clean, put_kind-Clean, held_in-put_kind,
}
use dyx_3wd.Gateway.Events.Keys.{
  differs_from, transitions, Remembers, is_transition_lem, call-Remembers, event_stream-Remembers,
}

module _ {R : Type 0} ⦃r : Real R⦄ where
  -- The events have the numbers after `seq`, one after another, up to `last`.
  abbrev pub Numbered : ℕ → List (Event R) → ℕ → Type 0
  Numbered seq [] last = last ≡ seq
  Numbered seq (e ∷ es) last = (e.seq ≡ u64 (seq + 1)) × Numbered (u64 (seq + 1)) es last

  -- What a call adds to the transitions offered.
  abbrev new_transitions : EventStream R → Call R → ℕ
  new_transitions s (offers name key json now) =
      if is_transition (find_kind name s.kinds) key then 1 else 0
  new_transitions s (flushes now) = 0

  abbrev Balanced : EventStream R → ℕ → EventStream R × List (Event R) → Type 0
  Balanced s n (t, es) =
      All Clean t.kinds
      × (u64 (told es + held_in t.kinds) ≡ u64 (held_in s.kinds + n))
      × Numbered s.seq es t.seq

  note_key_lem :
      (k : Kind R) (key : String)
      → (k.pending ≡ false → k.folded ≡ 0)
      → let j = note_key k key in
        (u64 (held j) ≡ u64 (held k + (if is_transition k key then 1 else 0)))
        × (j.pending ≡ false → j.folded ≡ 0)
  unfolding note_key
  note_key_lem k key c = ground (arith, c)

  -- A kind is put in place of what stood under its name.
  put-Balanced :
      (s : EventStream R) (name : String) (k : Kind R) (es : List (Event R)) (n seq : ℕ)
      → All Clean s.kinds
      → Clean (name, k)
      → u64 (told es + held k) ≡ u64 (held (find_kind name s.kinds) + n)
      → Numbered s.seq es seq
      → Balanced s n (record s { kinds = put_kind name k s.kinds; seq = seq }, es)
  put-Balanced s name k es n seq h c e numbered =
      let x = held_in-put_kind name k s.kinds in
      (put_kind-Clean name k s.kinds h c, omega (arith, x, e), numbered)

  offer-Balanced :
      (s : EventStream R) (wall : ℕ → ℕ) (name key json : String) (now : R)
      → All Clean s.kinds
      → Balanced s (new_transitions s (offers name key json now)) (offer s wall name key json now)
  unfolding offer push
  offer-Balanced s wall name key json now h =
      let (balance, clean) =
        note_key_lem (find_kind name s.kinds) key (find_kind-Clean name s.kinds h) in
      let n = new_transitions s (offers name key json now) in
      let k = note_key (find_kind name s.kinds) key in
      let carried = record k { json = json; observed_s = now } in
      let sent = push name carried (u64 (s.seq + 1)) wall now in
      if_cases (Balanced s (new_transitions s (offers name key json now))) (not k.pending) _ _
        (λ quiet. put-Balanced s name k [] n s.seq h clean (omega (arith, balance)) refl)
        (λ waiting.
          if_cases (Balanced s (new_transitions s (offers name key json now)))
            (window_passed s.coalesce_s carried now) _ _
            (λ passed.
              put-Balanced s name sent.0 (sent.1 ∷ []) n (u64 (s.seq + 1)) h (λ _. refl)
                (ground (arith, balance, waiting)) (refl, refl))
            (λ early. put-Balanced s name carried [] n s.seq h clean (omega (arith, balance)) refl))

  flush_kinds_lem :
      (coalesce : R) (wall : ℕ → ℕ) (now : R) (ks : List (String × Kind R)) (seq : ℕ)
      → All Clean ks
      → let (js, last, es) = flush_kinds coalesce wall now ks seq in
        All Clean js × (told es + held_in js ≡ held_in ks) × Numbered seq es last
  unfolding flush_kinds push
  flush_kinds_lem coalesce wall now [] seq h = (tt, refl, refl)
  flush_kinds_lem coalesce wall now ((name, k) ∷ ks) seq h =
      let (c, b, n) = flush_kinds_lem coalesce wall now ks (u64 (seq + 1)) h.1 in
      let (c', b', n') = flush_kinds_lem coalesce wall now ks seq h.1 in
      if_cases
        (λ (out : List (String × Kind R) × ℕ × List (Event R)).
          All Clean out.0
          × (told out.2 + held_in out.0 ≡ held_in ((name, k) ∷ ks))
          × Numbered seq out.2 out.1)
        (k.pending && window_passed coalesce k now) _ _
        (λ due. (((λ _. refl), c), ground (arith, b, due), (refl, n)))
        (λ kept. ((h.0, c'), omega (arith, b'), n'))

  call-Balanced :
      (wall : ℕ → ℕ) (s : EventStream R) (c : Call R)
      → All Clean s.kinds
      → Balanced s (new_transitions s c) (call wall s c)
  unfolding call flush
  call-Balanced wall s (offers name key json now) h = offer-Balanced s wall name key json now h
  call-Balanced wall s (flushes now) h =
      let (c, b, n) = flush_kinds_lem s.coalesce_s wall now s.kinds s.seq h in
      (c, omega (arith, b), n)

  -- The stream after the calls, the latest first, and the events sent, in order.
  unfoldable pub history : (ℕ → ℕ) → EventStream R → List (Call R) → EventStream R × List (Event R)
  history wall s [] = (s, [])
  history wall s (c ∷ cs) =
      let (t, es) = history wall s cs in let (t', fs) = call wall t c in (t', es ++ fs)

  history-Remembers :
      (wall : ℕ → ℕ) (coalesce : R) (cs : List (Call R))
      → Remembers cs (history wall (event_stream coalesce) cs).0.kinds
  unfolding history
  history-Remembers wall coalesce [] = event_stream-Remembers coalesce
  history-Remembers wall coalesce (c ∷ cs) =
      call-Remembers wall cs (history wall (event_stream coalesce) cs).0 c
        (history-Remembers wall coalesce cs)

  -- The stream's test of a key is the test against the key offered last.
  new_transitions_lem :
      (cs : List (Call R)) (s : EventStream R) (c : Call R)
      → Remembers cs s.kinds
      → transitions cs + new_transitions s c ≡ transitions (c ∷ cs)
  new_transitions_lem cs s (offers name key json now) h =
      ap (λ b. transitions cs + (if b then 1 else 0))
        (is_transition_lem (find_kind name s.kinds) key ∙ ap (λ o. differs_from o key) (h name))
  new_transitions_lem cs s (flushes now) h = omega arith

  told-append : (es fs : List (Event R)) → told (es ++ fs) ≡ told es + told fs
  told-append [] fs = omega arith
  told-append (e ∷ es) fs = omega (arith, told-append es fs)

  Numbered-append :
      (seq mid last : ℕ) (es fs : List (Event R))
      → Numbered seq es mid
      → Numbered mid fs last
      → Numbered seq (es ++ fs) last
  Numbered-append seq mid last [] fs e f = subst (λ n. Numbered n fs last) e f
  Numbered-append seq mid last (x ∷ es) fs e f =
      (e.0, Numbered-append (u64 (seq + 1)) mid last es fs e.1 f)

  -- Over any offers and flushes of a new stream no transition is lost, where a transition is an offer
  -- whose key is not the key offered before it under its name, or the first under its name: the
  -- transitions offered are, modulo 2^64, those that the events sent stand for and those that wait in
  -- pending events; and the events sent are numbered one after another.
  pub transitions_told :
      (wall : ℕ → ℕ) (coalesce : R) (cs : List (Call R))
      → let (s, es) = history wall (event_stream coalesce) cs in
        All Clean s.kinds
        × (u64 (told es + held_in s.kinds) ≡ u64 (transitions cs))
        × Numbered 0 es s.seq
  unfolding history event_stream
  transitions_told wall coalesce [] = (tt, refl, refl)
  transitions_told wall coalesce (c ∷ cs) =
      let (s, es) = history wall (event_stream coalesce) cs in
      let (clean, balance, numbered) = transitions_told wall coalesce cs in
      let (clean', balance', numbered') = call-Balanced wall s c clean in
      let x = told-append es (call wall s c).1 in
      let n = new_transitions_lem cs s c (history-Remembers wall coalesce cs) in
      (
        clean',
        omega (arith, x, balance, balance', n),
        Numbered-append 0 s.seq (call wall s c).0.seq es (call wall s c).1 numbered numbered',
      )
