-- ===== src/Link/Setpoint/Stream.antt =====
-- Which command the gate keeps, over any calls.
use dyx_3wd.Base.{
  ℕ, ◌<◌, ◌≡◌, refl, sym, ap, ◌∙◌, subst, ◌⊎◌, inl, inr, Bool, true, false, List, [], ◌∷◌, arith,
  ◌==◌, All,
}
use dyx_3wd.Base.Real.{Real}
use dyx_3wd.Link.Setpoint.Safety.{step_lem}
use dyx_3wd.Base.Trace.{after}
use dyx_3wd.Link.Setpoint.Ops.{
  Command, GateInputs, CommandGate, Call, commands, steps, call, gate, to_setpoint, stop_setpoint,
  on_command, step, step_command,
}

module _ {R : Type 0} ⦃r : Real R⦄ where
  -- The command begins a stream, or has a larger number than every one since the stream began.
  abbrev pub IsNew : CommandGate R → Command R → Type 0
  IsNew g c = (g.have_seq ≡ false) ⊎ (g.last_seq < c.seq)

  -- The command arrived then as a new one, and later calls only repeated its number.
  unfoldable pub Newest : CommandGate R → Command R → R → List (Call R) → Type 0
  Newest g c t [] = ⊥
  Newest g c t (commands d now ∷ cs) =
      ((d ≡ c) × (now ≡ t) × IsNew (after call g cs) c) ⊎ ((d.seq ≡ c.seq) × Newest g c t cs)
  Newest g c t (steps i ∷ cs) = Newest g c t cs

  -- The kept command is the newest of the stream, and the gate's number is its own.
  unfoldable Kept : CommandGate R → List (Call R) → CommandGate R → Type 0
  Kept g cs h =
      h.have_cmd ≡ true
      → (h.have_seq ≡ true) × (h.last_seq ≡ h.cmd.seq) × Newest g h.cmd h.received_s cs

  step_keeps :
      (h : CommandGate R) (i : GateInputs R)
      → let k = (step h i).0 in
        (k.have_cmd ≡ h.have_cmd)
        × (k.have_seq ≡ h.have_seq)
        × (k.last_seq ≡ h.last_seq)
        × (k.cmd ≡ h.cmd)
        × (k.received_s ≡ h.received_s)
  unfolding step step_command
  step_keeps h i = ground arith

  -- What a command does to the gate: it restarts the stream, repeats the number, or is stored.
  pub on_command_lem :
      (h : CommandGate R) (c : Command R) (now : R)
      → let k = (on_command h c now).0 in
        ((k.have_cmd ≡ false) × (k.reset_pending ≡ true) × (k.last_seq ≡ c.seq))
        ⊎ (((k ≡ h) × (h.have_seq ≡ true) × (c.seq ≡ h.last_seq))
            ⊎ (IsNew h c
                × (k.have_seq ≡ true)
                × (k.last_seq ≡ c.seq)
                × (k.cmd ≡ c)
                × (k.received_s ≡ now)))
  unfolding on_command
  on_command_lem h c now = ground arith

  Kept-step :
      (g : CommandGate R) (i : GateInputs R) (cs : List (Call R)) (h k : CommandGate R)
      → (k.have_cmd ≡ h.have_cmd)
        × (k.have_seq ≡ h.have_seq)
        × (k.last_seq ≡ h.last_seq)
        × (k.cmd ≡ h.cmd)
        × (k.received_s ≡ h.received_s)
      → Kept g cs h
      → Kept g (steps i ∷ cs) k
  unfolding Kept Newest
  Kept-step g i cs h k e kept has =
      let (seq, number, newest) = kept (sym e.0 ∙ has) in
      (
        e.1 ∙ seq,
        e.2 ∙ number ∙ ap (λ c. c.seq) (sym e.3),
        subst (λ c. Newest g c k.received_s cs) (sym e.3)
            (subst (λ t. Newest g h.cmd t cs) (sym e.4) newest),
      )

  Kept-none :
      (g : CommandGate R) (cs : List (Call R)) (h : CommandGate R)
      → h.have_cmd ≡ false
      → Kept g cs h
  unfolding Kept
  Kept-none g cs h n has = absurd (ground (arith, n, has))

  Kept-new :
      (g : CommandGate R) (c : Command R) (now : R) (cs : List (Call R)) (k : CommandGate R)
      → IsNew (after call g cs) c
      → (k.have_seq ≡ true) × (k.last_seq ≡ c.seq) × (k.cmd ≡ c) × (k.received_s ≡ now)
      → Kept g (commands c now ∷ cs) k
  unfolding Kept Newest
  Kept-new g c now cs k new e has = (
    e.0,
    e.1 ∙ ap (λ d. d.seq) (sym e.2),
    inl (sym e.2, sym e.3, subst (IsNew (after call g cs)) (sym e.2) new),
  )

  Kept-repeat :
      (g : CommandGate R) (c : Command R) (now : R) (cs : List (Call R)) (h : CommandGate R)
      → c.seq ≡ h.last_seq
      → Kept g cs h
      → Kept g (commands c now ∷ cs) h
  unfolding Kept Newest
  Kept-repeat g c now cs h number kept has =
      let (seq, own, newest) = kept has in (seq, own, inr (number ∙ own, newest))

  after-Kept :
      (g : CommandGate R) (cs : List (Call R)) → g.have_cmd ≡ false → Kept g cs (after call g cs)
  unfolding after call
  after-Kept g [] n = Kept-none g [] g n
  after-Kept g (commands c now ∷ cs) n =
      let h = after call g cs in
      elim (on_command_lem h c now) [
        | inl gone ↦ Kept-none g _ _ gone.0
        | inr (inl (same, has, number)) ↦
            subst (Kept g (commands c now ∷ cs)) (sym same)
              (Kept-repeat g c now cs h number (after-Kept g cs n))
        | inr (inr (new, a, b, d, e)) ↦ Kept-new g c now cs _ new (a, b, d, e)
      ]
  after-Kept g (steps i ∷ cs) n =
      Kept-step g i cs (after call g cs) _ (step_keeps _ i) (after-Kept g cs n)

  gate-empty : (max_age : R) → (gate max_age).have_cmd ≡ false
  unfolding gate
  gate-empty max_age = refl

  -- After any calls of a new gate, the command that a step forwards arrived as a new one of its
  -- stream at the time its age is counted from; later calls only repeated its number.
  pub forwards-Newest :
      (max_age : R) (cs : List (Call R)) (i : GateInputs R)
      → let g = after call (gate max_age) cs in
        (step g i).1.forwarded ≡ true
        → ((step g i).1.sp ≡ to_setpoint g.cmd)
          × Newest (gate max_age) g.cmd g.received_s cs
          × (r.lt g.max_age (r.sub i.now_s g.received_s) ≡ false)
  unfolding Kept
  forwards-Newest max_age cs i f = elim (step_lem (after call (gate max_age) cs) i) [
    | inl sent ↦
        let (_, _, _, _, has, young, _, sp, _) = sent in
        (sp, (after-Kept (gate max_age) cs (gate-empty max_age) has).2, young)
    | inr kept ↦ absurd (ground (arith, f, kept.0))
  ]

  -- The calls that do not bring a command with another number.
  abbrev pub quiet : ℕ → Call R → Bool
  quiet n (commands c now) = c.seq == n
  quiet n (steps i) = true

  abbrev Dropped : ℕ → CommandGate R → Type 0
  Dropped n g = (g.have_cmd ≡ false) × (g.have_seq ≡ true) × (g.last_seq ≡ n)

  call-Dropped :
      (n : ℕ) (g : CommandGate R) (c : Call R)
      → quiet n c ≡ true
      → Dropped n g
      → Dropped n (call g c)
  unfolding call on_command step step_command
  call-Dropped n g (commands c now) q h = ground arith
  call-Dropped n g (steps i) q h = ground arith

  after-Dropped :
      (n : ℕ) (g : CommandGate R) (cs : List (Call R))
      → All (λ c. quiet n c ≡ true) cs
      → Dropped n g
      → Dropped n (after call g cs)
  unfolding after
  after-Dropped n g [] q h = h
  after-Dropped n g (c ∷ cs) q h = call-Dropped n _ c q.0 (after-Dropped n g cs q.1 h)

  restarted :
      (g : CommandGate R) (c : Command R) (now : R)
      → g.have_seq ≡ true
      → c.seq < g.last_seq
      → Dropped c.seq (on_command g c now).0
  unfolding on_command
  restarted g c now has less = ground arith

  -- A command with a smaller number than the last is discarded, and what was kept with it: until a
  -- command with yet another number arrives, no step forwards anything, and all send STOP.
  pub restart_is_discarded :
      (g : CommandGate R) (c : Command R) (now : R) (cs : List (Call R)) (i : GateInputs R)
      → g.have_seq ≡ true
      → c.seq < g.last_seq
      → All (λ d. quiet c.seq d ≡ true) cs
      → let out = (step (after call (on_command g c now).0 cs) i).1 in
        (out.forwarded ≡ false) × (out.sp ≡ stop_setpoint)
  restart_is_discarded g c now cs i has less q =
      let k = (on_command g c now).0 in
      let h = after-Dropped c.seq k cs q (restarted g c now has less) in
      elim (step_lem (after call k cs) i) [
        | inl sent ↦ absurd (ground (arith, sent, h))
        | inr kept ↦ (kept.0, kept.2)
      ]
