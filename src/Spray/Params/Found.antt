-- ===== src/Spray/Params/Found.antt =====
-- What one item of a batch can touch.
use Prim.Native.String.{String}
use text.Mathlib.Text.{◌==◌ as text_eq}
use dyx_3wd.Base.{
  ℕ, suc, ◌+◌, ◌≡◌, refl, sym, ap, ◌∙◌, subst, inl, inr, Bool, true, false, ◌&&◌, ◌||◌, Option,
  none, some, List, [], ◌∷◌, arith, if◌then◌else◌, Bool-cases,
}
use dyx_3wd.Base.Real.{Real}
use dyx_3wd.Spray.Params.Types.{Descriptor, SetContext, Item}
use dyx_3wd.Spray.Params.Table.{table}
use dyx_3wd.Spray.Params.Ops.{
  descriptor, find_from, find_index, validate, Tentative, touch, startup_found, runtime_found,
  is_class_restart, is_class_idle,
}

pub some_injective {ℓ} : {A : Type ℓ} (a b : A) → some a ≡ some b → a ≡ b
some_injective a b h = ap (λ o. elim o [ none ↦ a | some x ↦ x ]) h

module _ {R : Type 0} ⦃r : Real R⦄ where
  -- A name that is found has its descriptor at its index.
  find_from_lem :
      (name : String) (ds : List (Descriptor R)) (i : ℕ) (found : ℕ × Descriptor R)
      → find_from name ds i ≡ some found
      → (k : ℕ) × (found.0 ≡ i + k) × (descriptor k ds ≡ some found.1)
  unfolding find_from descriptor
  find_from_lem name [] i found h = absurd (ground (arith, h))
  find_from_lem name (e ∷ ds) i found h = elim (Bool-cases (text_eq name e.name)) [
    | inl same ↦
        let here =
          some_injective (i, e) found
            (sym (ap (λ b. if b then some (i, e) else find_from name ds (suc i)) same) ∙ h) in
        (0, ap (λ p. p.0) (sym here) ∙ omega arith, ap (λ p. some p.1) here)
    | inr other ↦
        let (k, place, at) =
          find_from_lem name ds (suc i) found
            (sym (ap (λ b. if b then some (i, e) else find_from name ds (suc i)) other) ∙ h) in
        (suc k, omega (arith, place), at)
  ]

  -- The name that is looked for is that of the descriptor found.
  find_name_lem :
      (name : String) (ds : List (Descriptor R)) (i : ℕ) (found : ℕ × Descriptor R)
      → find_from name ds i ≡ some found
      → text_eq name found.1.name ≡ true
  unfolding find_from
  find_name_lem name [] i found h = absurd (ground (arith, h))
  find_name_lem name (e ∷ ds) i found h = elim (Bool-cases (text_eq name e.name)) [
    | inl same ↦
        let here =
          some_injective (i, e) found
            (sym (ap (λ b. if b then some (i, e) else find_from name ds (suc i)) same) ∙ h) in
        ap (λ (p : ℕ × Descriptor R). text_eq name p.1.name) (sym here) ∙ same
    | inr other ↦
        find_name_lem name ds (suc i) found
          (sym (ap (λ b. if b then some (i, e) else find_from name ds (suc i)) other) ∙ h)
  ]

  pub found_name_lem :
      (name : String) (i : ℕ) (d : Descriptor R)
      → find_index name ≡ some (i, d)
      → text_eq name d.name ≡ true
  unfolding find_index
  found_name_lem name i d h = find_name_lem name table 0 (i, d) h

  pub find_index_lem :
      (name : String) (i : ℕ) (d : Descriptor R)
      → find_index name ≡ some (i, d)
      → descriptor i table ≡ some d
  unfolding find_index
  find_index_lem name i d h =
      let (k, place, at) = find_from_lem name table 0 (i, d) h in
      subst (λ j. descriptor j table ≡ some d) (let e : k ≡ i = omega (arith, place) in e) at

  -- Every value is one that its descriptor allows.
  abbrev pub IsValid : (ℕ → R) → (ℕ → String) → Type 0
  IsValid num str =
      (i : ℕ) (d : Descriptor R) → descriptor i table ≡ some d → validate d (num i) (str i) ≡ none

  -- The descriptors that a rule blocks keep their values.
  abbrev pub Unchanged :
      (Descriptor R → Bool) → (ℕ → R) → (ℕ → String) → (ℕ → R) → (ℕ → String) → Type 0
  Unchanged blocked num str num' str' =
      (i : ℕ) (d : Descriptor R)
      → descriptor i table ≡ some d
      → blocked d ≡ true
      → (num' i ≡ num i) × (str' i ≡ str i)

  -- An item that is accepted touches a descriptor that is not blocked, with a valid value.
  abbrev pub Takes : (Descriptor R → Bool) → Tentative R → Item R → Tentative R → Type 0
  Takes blocked t item t' =
      (i : ℕ) × (d : Descriptor R) × (descriptor i table ≡ some d)
      × (blocked d ≡ false)
      × (validate d item.num item.str ≡ none)
      × (t' ≡ touch t i d item)

  -- The classes that cannot change in a context.
  abbrev pub runtime_blocked : SetContext → Descriptor R → Bool
  runtime_blocked ctx d = is_class_restart d.class || (is_class_idle d.class && ctx.mission_running)

  pub runtime_found-Takes :
      (ctx : SetContext) (t : Tentative R) (item : Item R) (o : Option (ℕ × Descriptor R))
      (t' : Tentative R)
      → find_index item.name ≡ o
      → runtime_found ctx t item o ≡ inr t'
      → Takes (runtime_blocked ctx) t item t'
  unfolding runtime_found
  runtime_found-Takes ctx t item none t' e h = absurd (ground (arith, h))
  runtime_found-Takes ctx t item (some (i, d)) t' e h =
      let (free, valid, same) : (runtime_blocked ctx d ≡ false)
          × (validate d item.num item.str ≡ none)
          × (t' ≡ touch t i d item) =
        ground (arith, h) in
      (i, d, find_index_lem item.name i d e, free, valid, same)

  pub startup_found-Takes :
      (t : Tentative R) (item : Item R) (o : Option (ℕ × Descriptor R)) (t' : Tentative R)
      → find_index item.name ≡ o
      → startup_found t item o ≡ inr t'
      → Takes (λ _. false) t item t'
  unfolding startup_found
  startup_found-Takes t item none t' e h = absurd (ground (arith, h))
  startup_found-Takes t item (some (i, d)) t' e h =
      let (valid, same) : (validate d item.num item.str ≡ none) × (t' ≡ touch t i d item) =
        ground (arith, h) in
      (i, d, find_index_lem item.name i d e, refl, valid, same)
