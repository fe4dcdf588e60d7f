-- ===== src/Spray/Params/Batch.antt =====
-- What a batch of changes can do to the parameters.
use Prim.Native.String.{String}
use dyx_3wd.Base.{
  ℕ, ◌≡◌, refl, sym, ap, ◌∙◌, subst, ◌≢◌, ◌⊎◌, inl, inr, Bool, true, false, Option, none, some,
  List, [], ◌∷◌, arith, ◌==◌, if◌then◌else◌, ==_iff, Bool-cases,
}
use dyx_3wd.Base.Real.{Real}
use dyx_3wd.Spray.Params.Types.{Descriptor, Change, SetContext, Item, Refusal, ParamSet}
use dyx_3wd.Spray.Params.Table.{table}
use dyx_3wd.Spray.Params.Ops.{
  descriptor, find_index, validate, Tentative, touch, take_startup, take_runtime, take_all,
  begin_batch, changes_runtime, changes_startup, apply, init_many, set_many,
}
use dyx_3wd.Spray.Params.Found.{
  some_injective, IsValid, Unchanged, Takes, runtime_blocked, runtime_found-Takes,
  startup_found-Takes,
}

pub inr_injective : {A B : Type 0} (a b : B) → ◌≡◌ {A = A ⊎ B} (inr a) (inr b) → a ≡ b
inr_injective a b h = ap (λ o. elim o [ inl x ↦ a | inr y ↦ y ]) h

module _ {R : Type 0} ⦃r : Real R⦄ where
  abbrev Sound : (Descriptor R → Bool) → ParamSet R → Tentative R → Type 0
  Sound blocked p t =
      (IsValid p.num p.str → IsValid t.num t.str) × Unchanged blocked p.num p.str t.num t.str

  pub same_descriptor :
      (i j : ℕ) (d e : Descriptor R)
      → (j == i) ≡ true
      → descriptor i table ≡ some d
      → descriptor j table ≡ some e
      → e ≡ d
  same_descriptor i j d e here at at' =
      some_injective e d (sym at' ∙ ap (λ k. descriptor k table) ((==_iff j i).0 here) ∙ at)

  touch-IsValid :
      (t : Tentative R) (i : ℕ) (d : Descriptor R) (item : Item R)
      → descriptor i table ≡ some d
      → validate d item.num item.str ≡ none
      → IsValid t.num t.str
      → IsValid (touch t i d item).num (touch t i d item).str
  touch-IsValid t i d item at valid h j e at' = elim (Bool-cases (j == i)) [
    | inl here ↦
        subst
          (λ b.
            validate e (if b then item.num else t.num j) (if b then item.str else t.str j) ≡ none)
          (sym here)
          (subst (λ f. validate f item.num item.str ≡ none)
            (sym (same_descriptor i j d e here at at')) valid)
    | inr there ↦
        subst
          (λ b.
            validate e (if b then item.num else t.num j) (if b then item.str else t.str j) ≡ none)
          (sym there) (h j e at')
  ]

  touch-Unchanged :
      (blocked : Descriptor R → Bool) (p : ParamSet R) (t : Tentative R) (i : ℕ) (d : Descriptor R)
      (item : Item R)
      → descriptor i table ≡ some d
      → blocked d ≡ false
      → Unchanged blocked p.num p.str t.num t.str
      → Unchanged blocked p.num p.str (touch t i d item).num (touch t i d item).str
  touch-Unchanged blocked p t i d item at free h j e at' b = elim (Bool-cases (j == i)) [
    | inl here ↦
        let same = ap blocked (same_descriptor i j d e here at at') in
        absurd (ground (arith, same, free, b))
    | inr there ↦
        subst
          (λ c.
            ((if c then item.num else t.num j) ≡ p.num j)
            × ((if c then item.str else t.str j) ≡ p.str j))
          (sym there) (h j e at' b)
  ]

  Takes-Sound :
      (blocked : Descriptor R → Bool) (p : ParamSet R) (t t' : Tentative R) (item : Item R)
      → Takes blocked t item t'
      → Sound blocked p t
      → Sound blocked p t'
  Takes-Sound blocked p t t' item (i, d, at, free, valid, same) h =
      subst (Sound blocked p) (sym same) (
        λ v. touch-IsValid t i d item at valid (h.0 v),
        touch-Unchanged blocked p t i d item at free h.1,
      )

  -- A batch that goes on has taken its first item.
  pub goes_on :
      (turn : Tentative R → Item R → Refusal ⊎ Tentative R) (items : List (Item R))
      (o : Refusal ⊎ Tentative R) (t' : Tentative R)
      → (elim o [ inl why ↦ inl why | inr t ↦ take_all turn t items ]) ≡ inr t'
      → (t : Tentative R) × (o ≡ inr t) × (take_all turn t items ≡ inr t')
  goes_on turn items (inl why) t' e = absurd (ground (arith, e))
  goes_on turn items (inr t) t' e = (t, refl, e)

  take_all-Sound :
      (blocked : Descriptor R → Bool) (p : ParamSet R)
      (turn : Tentative R → Item R → Refusal ⊎ Tentative R)
      → ((t : Tentative R) (item : Item R) (t' : Tentative R)
          → turn t item ≡ inr t'
          → Takes blocked t item t')
      → (items : List (Item R)) (t t' : Tentative R) → take_all turn t items ≡ inr t'
      → Sound blocked p t
      → Sound blocked p t'
  unfolding take_all
  take_all-Sound blocked p turn takes [] t t' e h = subst (Sound blocked p) (inr_injective t t' e) h
  take_all-Sound blocked p turn takes (item ∷ items) t t' e h =
      let (t1, first, rest) = goes_on turn items (turn t item) t' e in
      take_all-Sound blocked p turn takes items t1 t' rest
        (Takes-Sound blocked p t t1 item (takes t item t1 first) h)

  begin_batch-Sound :
      (blocked : Descriptor R → Bool) (p : ParamSet R) → Sound blocked p (begin_batch p)
  begin_batch-Sound blocked p = (λ v. v, λ i d at b. (refl, refl))

  runtime-Sound :
      (p : ParamSet R) (items : List (Item R)) (ctx : SetContext) (t : Tentative R)
      → take_all (take_runtime ctx) (begin_batch p) items ≡ inr t
      → Sound (runtime_blocked ctx) p t
  unfolding take_runtime
  runtime-Sound p items ctx t e =
      take_all-Sound (runtime_blocked ctx) p (take_runtime ctx)
        (λ u item u' h. runtime_found-Takes ctx u item (find_index item.name) u' refl h) items
        (begin_batch p) t e (begin_batch-Sound (runtime_blocked ctx) p)

  startup-Sound :
      (p : ParamSet R) (items : List (Item R)) (t : Tentative R)
      → take_all take_startup (begin_batch p) items ≡ inr t
      → Sound (λ _. false) p t
  unfolding take_startup
  startup-Sound p items t e =
      take_all-Sound (λ _. false) p take_startup
        (λ u item u' h. startup_found-Takes u item (find_index item.name) u' refl h) items
        (begin_batch p) t e (begin_batch-Sound (λ _. false) p)

  -- A refused batch changes nothing, and the values are sound.
  abbrev pub Kept : (Descriptor R → Bool) → ParamSet R → ParamSet R × Option Refusal → Type 0
  Kept blocked p (q, why) =
      ((why ≢ none) → q ≡ p)
      × (IsValid p.num p.str → IsValid q.num q.str)
      × Unchanged blocked p.num p.str q.num q.str

  refused-Kept :
      (blocked : Descriptor R → Bool) (p : ParamSet R) (why : Refusal)
      → Kept blocked p (p, some why)
  refused-Kept blocked p why = (λ _. refl, λ v. v, λ i d at b. (refl, refl))

  applied-Kept :
      (blocked : Descriptor R → Bool) (p : ParamSet R) (t : Tentative R) (j : List Change × ℕ)
      → Sound blocked p t
      → Kept blocked p (apply p t j, none)
  applied-Kept blocked p t j h = (λ n. absurd (n refl), h.0, h.1)

  outcome-Kept :
      (blocked : Descriptor R → Bool) (p : ParamSet R) (journal : Tentative R → List Change × ℕ)
      (o : Refusal ⊎ Tentative R)
      → ((t : Tentative R) → o ≡ inr t → Sound blocked p t)
      → Kept blocked p (elim o [ inl why ↦ (p, some why) | inr t ↦ (apply p t (journal t), none) ])
  outcome-Kept blocked p journal (inl why) h = refused-Kept blocked p why
  outcome-Kept blocked p journal (inr t) h = applied-Kept blocked p t (journal t) (h t refl)

  -- A batch of changes at run time that is refused changes nothing; valid parameters stay valid, and a
  -- RESTART parameter keeps its value, as does an IDLE_ONLY one while a
  -- mission is running.
  pub set_many-Kept :
      (number_text : R → String) (p : ParamSet R) (items : List (Item R)) (ctx : SetContext)
      → Kept (runtime_blocked ctx) p (set_many number_text p items ctx)
  unfolding set_many
  set_many-Kept number_text p items ctx =
      outcome-Kept (runtime_blocked ctx) p
        (λ t. changes_runtime number_text p t ctx.source p.seq t.touched)
        (take_all (take_runtime ctx) (begin_batch p) items) (runtime-Sound p items ctx)

  -- A load at startup that is refused changes nothing, and valid parameters stay valid.
  pub init_many-Kept :
      (number_text : R → String) (p : ParamSet R) (items : List (Item R))
      → Kept (λ _. false) p (init_many number_text p items)
  unfolding init_many
  init_many-Kept number_text p items =
      outcome-Kept (λ _. false) p (λ t. changes_startup number_text p t p.seq t.touched)
        (take_all take_startup (begin_batch p) items) (startup-Sound p items)
