-- ===== src/Link/Tokens/Unique.antt =====
-- The identities that are handed out over a history.
use dyx_3wd.Base.{
  ℕ, zero, suc, ◌+◌, ◌-◌, ◌≤◌, ◌<◌, ◌≡◌, ◌≢◌, refl, ap, ◌∙◌, false, List, [], ◌∷◌, Option, none,
  some, All, arith,
}
use dyx_3wd.Base.Trace.{after}
use dyx_3wd.Link.Tokens.Ops.{
  durable, StateFile, versioned, unversioned, unreadable, load, capacity, Identity, identity,
  Ledger, Event, reserves, restarts, step, fresh,
}

-- The number that a restart would begin with.
abbrev mark : StateFile → ℕ
mark unreadable = 0
mark (versioned n) = n
mark (unversioned n) = n - 2

-- All numbers handed out lie below `bound`, the file's mark beyond them.
pub record IsBeyond (l : Ledger) (bound : ℕ) : Type 0 where
  pub handed : bound ≤ mark l.file
  pub working :
      l.tokens.failed ≡ false → (bound ≤ l.tokens.next) × (l.tokens.next ≤ l.tokens.reserved)
  pub persisted :
      l.tokens.failed ≡ false → (l.tokens.reserved ≡ mark l.file) × (l.tokens.reserved ≤ capacity)

-- What a step hands out lies at or beyond the bound, and moves it.
abbrev Moves : ℕ → Ledger → Option ℕ → Type 0
Moves bound l none = IsBeyond l bound
Moves bound l (some i) = (bound ≤ i) × (i < capacity) × IsBeyond l (suc i)

step-Moves :
    (l : Ledger) (e : Event) (bound : ℕ) → IsBeyond l bound → Moves bound (step l e).0 (step l e).1
unfolding step load
step-Moves l (reserves w) bound h = ground arith
step-Moves l restarts bound h = ground arith

fresh-IsBeyond : (file : StateFile) → IsBeyond (fresh file) 0
unfolding fresh load
fresh-IsBeyond file = ground arith

identity-injective : (i j : ℕ) → i < capacity → j < capacity → identity i ≡ identity j → i ≡ j
identity-injective i j h k e =
    omega (arith, ap (λ (d : Identity). d.system) e, ap (λ (d : Identity). d.component) e)

-- An identity is of a system 1 to 255 and of a component 2 to 999.
pub record IsValid (d : Identity) : Type 0 where
  pub system_from : 1 ≤ d.system
  pub system_to : d.system ≤ 255
  pub component_from : 2 ≤ d.component
  pub component_to : d.component ≤ 999

identity-IsValid : (i : ℕ) → i < capacity → IsValid (identity i)
identity-IsValid i h = record {
  system_from = omega arith;
  system_to = omega arith;
  component_from = omega arith;
  component_to = omega arith;
}

abbrev pub Distinct {ℓ} : {A : Type ℓ} → List A → Type ℓ
Distinct [] = Unit
Distinct (x ∷ xs) = All (λ y. x ≢ y) xs × Distinct xs

abbrev push : Option ℕ → List Identity → List Identity
push none ds = ds
push (some i) ds = identity i ∷ ds

-- The identities that were handed out over the events, the latest first.
pub handed_out : StateFile → List Event → List Identity
handed_out file [] = []
handed_out file (e ∷ es) =
    push (step (after (λ l d. (step l d).0) (fresh file) es) e).1 (handed_out file es)

-- The identities are valid, differ, and stand for numbers below the bound.
abbrev IsBelow : ℕ → List Identity → Type 0
IsBelow bound ds = All (λ d. (i : ℕ) × (i < bound) × (i < capacity) × (d ≡ identity i)) ds

All-imp {ℓ κ μ} :
    {A : Type ℓ} {P : A → Type κ} {Q : A → Type μ} (xs : List A)
    → ((x : A) → P x → Q x)
    → All P xs
    → All Q xs
All-imp [] f h = tt
All-imp (x ∷ xs) f h = (f x h.0, All-imp xs f h.1)

IsBelow-fresh :
    (i : ℕ) (ds : List Identity) → i < capacity → IsBelow i ds → All (λ d. identity i ≢ d) ds
IsBelow-fresh i ds c h =
    All-imp ds
      (λ d (j, below, fits, e) same.
        let twin = identity-injective i j c fits (same ∙ e) in omega (arith, twin, below))
      h

IsBelow-grow : (a b : ℕ) (ds : List Identity) → a ≤ b → IsBelow a ds → IsBelow b ds
IsBelow-grow a b ds le = All-imp ds λ d (i, below, fits, e). (i, omega (arith, below), fits, e)

push-kept :
    (bound : ℕ) (l : Ledger) (o : Option ℕ) (ds : List Identity)
    → Moves bound l o
    → IsBelow bound ds
    → Distinct ds
    → (b : ℕ) × IsBeyond l b × IsBelow b (push o ds) × Distinct (push o ds)
push-kept bound l none ds m h d = (bound, m, h, d)
push-kept bound l (some i) ds (from, fits, beyond) h d = (
  suc i,
  beyond,
  ((i, omega arith, fits, refl), IsBelow-grow bound (suc i) ds (omega arith) h),
  (IsBelow-fresh i ds fits (IsBelow-grow bound i ds from h), d),
)

handed_out-kept :
    (file : StateFile) (es : List Event)
    → (bound : ℕ) × IsBeyond (after (λ l d. (step l d).0) (fresh file) es) bound
      × IsBelow bound (handed_out file es)
      × Distinct (handed_out file es)
unfolding after handed_out
handed_out-kept file [] = (0, fresh-IsBeyond file, tt, tt)
handed_out-kept file (e ∷ es) =
    let (bound, beyond, below, distinct) = handed_out-kept file es in
    push-kept bound _ _ (handed_out file es) (step-Moves _ e bound beyond) below distinct

-- Through any reservations and restarts, and whatever becomes of the writes of the state file, no
-- identity is handed out twice.
pub identities_differ : (file : StateFile) (es : List Event) → Distinct (handed_out file es)
identities_differ file es = let (_, _, _, distinct) = handed_out-kept file es in distinct

-- Every identity that is handed out is of a system 1 to 255 and a component 2 to 999.
pub identities_fit : (file : StateFile) (es : List Event) → All IsValid (handed_out file es)
identities_fit file es =
    let (_, _, below, _) = handed_out-kept file es in
    All-imp (handed_out file es) (λ d (i, _, fits, e). rw e (identity-IsValid i fits)) below

abbrev pub reservations : ℕ → List Event
reservations zero = []
reservations (suc n) = reserves durable ∷ reservations n

-- The identities of `n` numbers from `v` on, the last first.
abbrev pub span_of : ℕ → ℕ → List Identity
span_of v zero = []
span_of v (suc n) = identity (v + n) ∷ span_of v n

serves-next :
    (l : Ledger)
    → l.tokens.failed ≡ false
    → l.tokens.next < capacity
    → l.tokens.next ≤ l.tokens.reserved
    → let (l', o) = step l (reserves durable) in
      (o ≡ some l.tokens.next)
      × (l'.tokens.failed ≡ false)
      × (l'.tokens.next ≡ suc l.tokens.next)
      × (l'.tokens.next ≤ l'.tokens.reserved)
unfolding step
serves-next l f h r = ground arith

served :
    (v n : ℕ)
    → v + n ≤ capacity
    → let l = after (λ l d. (step l d).0) (fresh (versioned v)) (reservations n) in
      (handed_out (versioned v) (reservations n) ≡ span_of v n)
      × (l.tokens.failed ≡ false)
      × (l.tokens.next ≡ v + n)
      × (l.tokens.next ≤ l.tokens.reserved)
unfolding after handed_out fresh load
served v zero h = ground arith
served v (suc n) h =
    let l = after (λ l d. (step l d).0) (fresh (versioned v)) (reservations n) in
    let (out, works, at, below) = served v n (omega arith) in
    let (o, works', at', below') = serves-next l works (omega arith) below in
    (rw (o, at, out), works', omega (arith, at, at'), below')

-- While the writes succeed, every number from that of the state file up to the end of the space is
-- handed out, one per reservation and in order.
pub reservations_serve :
    (v n : ℕ) → v + n ≤ capacity → handed_out (versioned v) (reservations n) ≡ span_of v n
reservations_serve v n h = (served v n h).0
