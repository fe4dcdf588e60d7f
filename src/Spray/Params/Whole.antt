-- ===== src/Spray/Params/Whole.antt =====
-- A batch of changes is applied as a whole or not at all.
use Prim.Native.String.{String}
use dyx_3wd.Base.{
  ℕ, ◌+◌, ◌≡◌, refl, sym, ap, ◌∙◌, subst, ◌⊎◌, inl, inr, Bool, ◌&&◌, Option, none, some, List, [],
  ◌∷◌, arith, u64,
}
use dyx_3wd.Base.Real.{Real}
use dyx_3wd.Spray.Params.Types.{Descriptor, SetContext, Item, Refusal, ParamSet}
use dyx_3wd.Spray.Params.Ops.{
  find_index, Tentative, take_runtime, take_all, begin_batch, change, changes_runtime, apply,
  set_many,
}
use dyx_3wd.Spray.Params.Found.{found_name_lem, runtime_blocked}
use dyx_3wd.Spray.Params.Batch.{Kept, set_many-Kept}
use dyx_3wd.Spray.Params.Run.{
  is_none, is_taken, allows, all_allowed, Logged, Applied, Matches, Ran, turn_lem, take_all-Ran,
}

module _ {R : Type 0} ⦃r : Real R⦄ where
  changes-Logged :
      (number_text : R → String) (p : ParamSet R) (t : Tentative R) (source : String) (seq : ℕ)
      (xs : List (ℕ × Descriptor R)) (items : List (Item R))
      → Matches xs items
      → let (cs, last) = changes_runtime number_text p t source seq xs in
        Logged source seq items cs last
  unfolding changes_runtime change Matches
  changes-Logged number_text p t source seq [] [] h = refl
  changes-Logged number_text p t source seq [] (item ∷ items) h = h
  changes-Logged number_text p t source seq (x ∷ xs) [] h = h
  changes-Logged number_text p t source seq ((j, e) ∷ xs) (item ∷ items) h = (
    refl,
    refl,
    found_name_lem item.name j e h.0,
    changes-Logged number_text p t source (u64 (seq + 1)) xs items h.1,
  )

  next_lem :
      (turn : Tentative R → Item R → Refusal ⊎ Tentative R) (items : List (Item R))
      (o : Refusal ⊎ Tentative R) (b rest : Bool)
      → is_taken o ≡ b
      → ((t : Tentative R) → is_taken (take_all turn t items) ≡ rest)
      → is_taken (elim o [ inl why ↦ inl why | inr t ↦ take_all turn t items ]) ≡ (b && rest)
  next_lem turn items (inl why) b rest e f = ap (λ x. x && rest) e
  next_lem turn items (inr t) b rest e f = f t ∙ ap (λ x. x && rest) e

  taken_lem :
      (ctx : SetContext) (items : List (Item R)) (t : Tentative R)
      → is_taken (take_all (take_runtime ctx) t items) ≡ all_allowed ctx items
  unfolding take_all take_runtime
  taken_lem ctx [] t = refl
  taken_lem ctx (item ∷ items) t =
      next_lem (take_runtime ctx) items (take_runtime ctx t item)
        (allows ctx item (find_index item.name)) (all_allowed ctx items)
        (turn_lem ctx t item (find_index item.name)) (taken_lem ctx items)

  -- What a batch gives: it is accepted exactly if each change is allowed; it is then applied, and
  -- otherwise nothing is changed.
  pub record IsWhole (p : ParamSet R) (items : List (Item R)) (ctx : SetContext)
      (out : ParamSet R × Option Refusal) : Type 0 where
    pub decided : is_none out.1 ≡ all_allowed ctx items
    pub applied : out.1 ≡ none → Applied p items ctx out.0
    pub kept : Kept (runtime_blocked ctx) p out

  taken-Applied :
      (number_text : R → String) (p : ParamSet R) (items : List (Item R)) (ctx : SetContext)
      (t : Tentative R)
      → Ran (begin_batch p) items t
      → Applied p items ctx (apply p t (changes_runtime number_text p t ctx.source p.seq t.touched))
  unfolding Ran
  taken-Applied number_text p items ctx t (values, (xs, touched, matched)) = (
    values,
    (
      (changes_runtime number_text p t ctx.source p.seq t.touched).0,
      refl,
      changes-Logged number_text p t ctx.source p.seq t.touched items
          (subst (λ l. Matches l items) (sym touched) matched),
    ),
  )

  outcome_lem :
      (number_text : R → String) (p : ParamSet R) (items : List (Item R)) (ctx : SetContext)
      (o : Refusal ⊎ Tentative R)
      → ((t : Tentative R) → o ≡ inr t → Ran (begin_batch p) items t)
      → let out : ParamSet R × Option Refusal = elim o [
        | inl why ↦ (p, some why)
        | inr t ↦ (apply p t (changes_runtime number_text p t ctx.source p.seq t.touched), none)
      ] in
        (is_none out.1 ≡ is_taken o) × (out.1 ≡ none → Applied p items ctx out.0)
  outcome_lem number_text p items ctx (inl why) h = (refl, λ n. absurd (ground (arith, n)))
  outcome_lem number_text p items ctx (inr t) h =
      (refl, λ n. taken-Applied number_text p items ctx t (h t refl))

  -- A batch of changes at run time is accepted exactly if each change is of a known name, allowed in
  -- the context and valid. It then gives every parameter the value that the last change of its name
  -- asks for, and the others the value that they had, and the journal one entry for each change in
  -- order, with the next numbers; otherwise nothing is changed. Valid parameters stay valid, and a
  -- RESTART parameter keeps its value, as does an IDLE_ONLY one while a mission is running.
  pub set_many-IsWhole :
      (number_text : R → String) (p : ParamSet R) (items : List (Item R)) (ctx : SetContext)
      → IsWhole p items ctx (set_many number_text p items ctx)
  unfolding set_many
  set_many-IsWhole number_text p items ctx =
      let taken = take_all (take_runtime ctx) (begin_batch p) items in
      let (decided, applied) =
        outcome_lem number_text p items ctx taken (take_all-Ran ctx items (begin_batch p)) in
      record {
        decided = decided ∙ taken_lem ctx items (begin_batch p);
        applied = applied;
        kept = set_many-Kept number_text p items ctx;
      }
