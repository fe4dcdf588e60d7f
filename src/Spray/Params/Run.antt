-- ===== src/Spray/Params/Run.antt =====
-- What the loop over the changes of a batch has done.
use Prim.Native.String.{String}
use text.Mathlib.Text.{◌==◌ as text_eq}
use dyx_3wd.Base.{
  ℕ, ◌+◌, ◌≡◌, refl, sym, ap, ◌∙◌, subst, ◌⊎◌, inl, inr, Bool, true, false, not, ◌&&◌, Option, none,
  some, List, [], ◌∷◌, ◌++◌, arith, ◌==◌, if◌then◌else◌, u64, if_cases,
}
use dyx_3wd.Base.Real.{Real}
use dyx_3wd.Spray.Params.Types.{Descriptor, Change, SetContext, Item, Refusal, ParamSet}
use dyx_3wd.Spray.Params.Table.{table}
use dyx_3wd.Spray.Params.Ops.{
  descriptor, find_index, validate, is_class_restart, is_class_idle, Tentative, touch,
  runtime_found, take_runtime, take_all,
}
use dyx_3wd.Spray.Params.Found.{runtime_blocked}
use dyx_3wd.Spray.Params.Names.{names, found_there}
use dyx_3wd.Spray.Params.Batch.{inr_injective, goes_on}

abbrev pub is_none : {A : Type 0} → Option A → Bool
is_none none = true
is_none (some a) = false

abbrev pub is_taken : {A B : Type 0} → A ⊎ B → Bool
is_taken (inl a) = false
is_taken (inr b) = true

append_one : {A : Type 0} (xs : List A) (y : A) (ys : List A) → (xs ++ y ∷ []) ++ ys ≡ xs ++ y ∷ ys
append_one [] y ys = refl
append_one (x ∷ xs) y ys = ap (λ l. x ∷ l) (append_one xs y ys)

append_nil : {A : Type 0} (xs : List A) → xs ++ [] ≡ xs
append_nil [] = refl
append_nil (x ∷ xs) = ap (λ l. x ∷ l) (append_nil xs)

module _ {R : Type 0} ⦃r : Real R⦄ where
  -- The change is allowed: of a known name, not blocked, with a valid value.
  abbrev pub allows : SetContext → Item R → Option (ℕ × Descriptor R) → Bool
  allows ctx item none = false
  allows ctx item (some (i, d)) =
      not (runtime_blocked ctx d) && is_none (validate d item.num item.str)

  abbrev pub all_allowed : SetContext → List (Item R) → Bool
  all_allowed ctx [] = true
  all_allowed ctx (item ∷ items) = allows ctx item (find_index item.name) && all_allowed ctx items

  -- The value that the last change of a name asks for, or the one that it had.
  abbrev pub last_num : String → List (Item R) → R → R
  last_num name [] x = x
  last_num name (item ∷ items) x =
      last_num name items (if text_eq item.name name then item.num else x)

  abbrev pub last_str : String → List (Item R) → String → String
  last_str name [] x = x
  last_str name (item ∷ items) x =
      last_str name items (if text_eq item.name name then item.str else x)

  -- The new journal entries: one for each change, in order, with the next number.
  abbrev pub Logged : String → ℕ → List (Item R) → List Change → ℕ → Type 0
  Logged source seq [] [] last = last ≡ seq
  Logged source seq [] (c ∷ cs) last = ⊥
  Logged source seq (item ∷ items) [] last = ⊥
  Logged source seq (item ∷ items) (c ∷ cs) last =
      (c.seq ≡ u64 (seq + 1))
      × (c.source ≡ source)
      × (text_eq item.name c.name ≡ true)
      × Logged source (u64 (seq + 1)) items cs last

  -- Every parameter has the value that the last change of its name asks for.
  abbrev pub Valued : ParamSet R → List (Item R) → (ℕ → R) → (ℕ → String) → Type 0
  Valued p items num str =
      (i : ℕ) (d : Descriptor R)
      → descriptor i table ≡ some d
      → (num i ≡ last_num d.name items (p.num i)) × (str i ≡ last_str d.name items (p.str i))

  -- What a batch does that is not refused.
  abbrev pub Applied : ParamSet R → List (Item R) → SetContext → ParamSet R → Type 0
  Applied p items ctx q =
      Valued p items q.num q.str
      × ((changes : List Change) × (q.journal ≡ p.journal ++ changes)
          × Logged ctx.source p.seq items changes q.seq)

  -- What one turn does.
  pub turn_lem :
      (ctx : SetContext) (t : Tentative R) (item : Item R) (o : Option (ℕ × Descriptor R))
      → is_taken (runtime_found ctx t item o) ≡ allows ctx item o
  unfolding runtime_found
  turn_lem ctx t item none = refl
  turn_lem ctx t item (some (i, d)) = ground arith

  Turned : Tentative R → Item R → Option (ℕ × Descriptor R) → Refusal ⊎ Tentative R → Type 0
  Turned t item o (inl why) = Unit
  Turned t item o (inr t') =
      (i : ℕ) × (d : Descriptor R) × (o ≡ some (i, d)) × (t' ≡ touch t i d item)

  accept-Turned :
      (t : Tentative R) (i : ℕ) (d : Descriptor R) (item : Item R) (v : Option Refusal)
      → Turned t item (some (i, d)) (elim v [ some why ↦ inl why | none ↦ inr (touch t i d item) ])
  unfolding Turned
  accept-Turned t i d item none = (i, d, refl, refl)
  accept-Turned t i d item (some why) = tt

  turn-Turned :
      (ctx : SetContext) (t : Tentative R) (item : Item R) (o : Option (ℕ × Descriptor R))
      → Turned t item o (runtime_found ctx t item o)
  unfolding runtime_found Turned
  turn-Turned ctx t item none = tt
  turn-Turned ctx t item (some (i, d)) =
      if_cases (Turned t item (some (i, d))) (is_class_restart d.class) _ _ (λ refused. tt)
        (λ free.
          if_cases (Turned t item (some (i, d))) (is_class_idle d.class && ctx.mission_running) _ _
            (λ refused. tt) (λ now. accept-Turned t i d item (validate d item.num item.str)))

module _ {R : Type 0} ⦃r : Real R⦄ where
  -- The taken changes, each with its place.
  unfoldable pub Matches : List (ℕ × Descriptor R) → List (Item R) → Type 0
  Matches [] [] = Unit
  Matches (x ∷ xs) (item ∷ items) = (find_index item.name ≡ some x) × Matches xs items
  Matches _ _ = ⊥

  unfoldable pub Ran : Tentative R → List (Item R) → Tentative R → Type 0
  Ran t items t' =
      ((i : ℕ) (d : Descriptor R)
        → descriptor i table ≡ some d
        → (t'.num i ≡ last_num d.name items (t.num i))
          × (t'.str i ≡ last_str d.name items (t.str i)))
      × ((xs : List (ℕ × Descriptor R)) × (t'.touched ≡ t.touched ++ xs) × Matches xs items)

  touch-Ran :
      (t : Tentative R) (item : Item R) (items : List (Item R)) (j : ℕ) (e : Descriptor R)
      (t' : Tentative R)
      → find_index item.name ≡ some (j, e)
      → Ran (touch t j e item) items t'
      → Ran t (item ∷ items) t'
  unfolding Ran Matches
  touch-Ran t item items j e t' found (values, (xs, journal, matched)) = (
    λ i d at.
        let here : text_eq item.name d.name ≡ (i == j) =
          found_there i d item.name at ∙ ap (names i) found in
        let (num, str) = values i d at in
        (
          num ∙ ap (λ b. last_num d.name items (if b then item.num else t.num i)) (sym here),
          str ∙ ap (λ b. last_str d.name items (if b then item.str else t.str i)) (sym here),
        ),
    ((j, e) ∷ xs, journal ∙ append_one t.touched (j, e) xs, (found, matched)),
  )

  pub take_all-Ran :
      (ctx : SetContext) (items : List (Item R)) (t t' : Tentative R)
      → take_all (take_runtime ctx) t items ≡ inr t'
      → Ran t items t'
  unfolding take_all take_runtime Ran Matches Turned
  take_all-Ran ctx [] t t' h =
      subst (Ran t []) (inr_injective t t' h)
        ((λ i d at. (refl, refl)), ([], sym (append_nil t.touched), tt))
  take_all-Ran ctx (item ∷ items) t t' h =
      let (t1, one, rest) = goes_on (take_runtime ctx) items (take_runtime ctx t item) t' h in
      let (j, e, found, same) =
        subst (Turned t item (find_index item.name)) one
          (turn-Turned ctx t item (find_index item.name)) in
      touch-Ran t item items j e t' found
        (subst (λ u. Ran u items t') same (take_all-Ran ctx items t1 t' rest))
