-- ===== src/Spray/Params/Ops.antt =====
-- spray_params.cpp: validation, and the changes at startup and at run time.
use Prim.Native.String.{String}
use text.Mathlib.Text.{◌==◌ as text_eq}
use dyx_3wd.Base.{
  ℕ, zero, suc, ◌+◌, ◌⊎◌, inl, inr, Bool, true, false, not, ◌&&◌, ◌||◌, Option, none, some, List,
  [], ◌∷◌, ◌++◌, ◌==◌, if◌then◌else◌, u64, length,
}
use dyx_3wd.Base.Real.{Real, zero_real}
use dyx_3wd.Spray.Params.Types.{
  bool_kind, string_kind, ParamClass, idle_only, restart, Descriptor, Change, SetContext, Item,
  Refusal, unknown, is_restart, is_idle_only, must_not_be_empty, not_finite, not_boolean,
  not_integer, out_of_range, not_positive, not_allowed, ParamSet, is_string, is_bool, is_int,
}
use dyx_3wd.Spray.Params.Table.{table}

abbrev pub any_text : String → List String → Bool
any_text s [] = false
any_text s (a ∷ more) = let rest = any_text s more in text_eq s a || rest

abbrev pub is_class_restart : ParamClass → Bool
is_class_restart restart = true
is_class_restart _ = false

abbrev pub is_class_idle : ParamClass → Bool
is_class_idle idle_only = true
is_class_idle _ = false

-- The values after a batch so far, and the indices it touched, in order.
pub record Tentative (R : Type 0) : Type 0 where
  pub num : ℕ → R
  pub str : ℕ → String
  pub touched : List (ℕ × Descriptor R)

module _ {R : Type 0} ⦃r : Real R⦄ where
  -- The descriptor at an index.
  unfoldable pub descriptor : ℕ → List (Descriptor R) → Option (Descriptor R)
  descriptor i [] = none
  descriptor zero (d ∷ ds) = some d
  descriptor (suc i) (d ∷ ds) = descriptor i ds

  -- The loop of `find_index`; `none` is -1.
  unfoldable pub find_from : String → List (Descriptor R) → ℕ → Option (ℕ × Descriptor R)
  find_from name [] i = none
  find_from name (d ∷ ds) i =
      let rest = find_from name ds (suc i) in if text_eq name d.name then some (i, d) else rest

  unfoldable pub find_index : String → Option (ℕ × Descriptor R)
  find_index name = find_from name table 0

  unfoldable pub param_set : ParamSet R
  param_set = record {
    num = λ i. elim (descriptor i table) [ none ↦ zero_real | some d ↦ d.dflt ];
    str = λ i. elim (descriptor i table) [ none ↦ "" | some d ↦ d.sdflt ];
    journal = [];
    seq = 0;
  }

  -- `num < lo` and `num > hi`.
  abbrev pub below : R → Option R → Bool
  below x none = false
  below x (some lo) = r.lt x lo

  abbrev pub above : R → Option R → Bool
  above x none = false
  above x (some hi) = r.lt hi x

  unfoldable pub validate_text : Descriptor R → String → Option Refusal
  validate_text d s =
      if d.nonempty && text_eq s ""
      then some (must_not_be_empty d.name)
      else if not (length d.allowed == 0) && not (any_text s d.allowed)
      then some (not_allowed d.name s)
      else none

  unfoldable pub validate_number : Descriptor R → R → Option Refusal
  validate_number d x =
      if not (r.finite x)
      then some (not_finite d.name)
      else if is_bool d.kind && not (r.eq x zero_real) && not (r.eq x (r.lit 1 1))
      then some (not_boolean d.name)
      else if is_int d.kind && not (r.eq x (r.floor x))
      then some (not_integer d.name)
      else if is_bool d.kind
      then none
      else if below x d.lo || above x d.hi
      then some (out_of_range d.name)
      else if d.positive && not (r.lt zero_real x)
      then some (not_positive d.name)
      else none

  -- `none` where the value is accepted.
  unfoldable pub validate : Descriptor R → R → String → Option Refusal
  validate d x s = if is_string d.kind then validate_text d s else validate_number d x

  abbrev pub touch : Tentative R → ℕ → Descriptor R → Item R → Tentative R
  touch t i d item = record {
    num = λ j. if j == i then item.num else t.num j;
    str = λ j. if j == i then item.str else t.str j;
    touched = t.touched ++ (i, d) ∷ [];
  }

  abbrev pub accept : Tentative R → ℕ → Descriptor R → Item R → Refusal ⊎ Tentative R
  accept t i d item = elim (validate d item.num item.str) [
    | some why ↦ inl why
    | none ↦ inr (touch t i d item)
  ]

  -- One turn of the loop of `init_many`, and of `set_many`, with what `find_index` found.
  unfoldable pub startup_found :
      Tentative R → Item R → Option (ℕ × Descriptor R) → Refusal ⊎ Tentative R
  startup_found t item none = inl (unknown item.name)
  startup_found t item (some (i, d)) = accept t i d item

  unfoldable pub take_startup : Tentative R → Item R → Refusal ⊎ Tentative R
  take_startup t item = startup_found t item (find_index item.name)

  unfoldable pub runtime_found :
      SetContext → Tentative R → Item R → Option (ℕ × Descriptor R) → Refusal ⊎ Tentative R
  runtime_found ctx t item none = inl (unknown item.name)
  runtime_found ctx t item (some (i, d)) =
      if is_class_restart d.class
      then inl (is_restart item.name)
      else if is_class_idle d.class && ctx.mission_running
      then inl (is_idle_only item.name)
      else accept t i d item

  unfoldable pub take_runtime : SetContext → Tentative R → Item R → Refusal ⊎ Tentative R
  take_runtime ctx t item = runtime_found ctx t item (find_index item.name)

  unfoldable pub take_all :
      (Tentative R → Item R → Refusal ⊎ Tentative R)
      → Tentative R
      → List (Item R)
      → Refusal ⊎ Tentative R
  take_all turn t [] = inr t
  take_all turn t (item ∷ items) = elim (turn t item) [
    | inl why ↦ inl why
    | inr t' ↦ take_all turn t' items
  ]

  abbrev pub begin_batch : ParamSet R → Tentative R
  begin_batch p = record { num = p.num; str = p.str; touched = [] }

  -- The text of a value.
  unfoldable pub fmt : (R → String) → Descriptor R → R → String → String
  fmt number_text d x s = elim d.kind [
    | string_kind ↦ s
    | bool_kind ↦ if not (r.eq x zero_real) then "true" else "false"
    | _ ↦ number_text x
  ]

  unfoldable pub change :
      (R → String) → ParamSet R → Tentative R → String → ℕ → ℕ → Descriptor R → Change
  change number_text p t source seq i d = record {
    seq = seq;
    name = d.name;
    old_value = fmt number_text d (p.num i) (p.str i);
    new_value = fmt number_text d (t.num i) (t.str i);
    source = source;
  }

  -- The loops that write the journal: the changes, and the last number.
  unfoldable pub changes_runtime :
      (R → String)
      → ParamSet R
      → Tentative R
      → String
      → ℕ
      → List (ℕ × Descriptor R)
      → List Change × ℕ
  changes_runtime number_text p t source seq [] = ([], seq)
  changes_runtime number_text p t source seq ((i, d) ∷ touched) =
      let next = u64 (seq + 1) in
      let (rest, last) = changes_runtime number_text p t source next touched in
      (change number_text p t source next i d ∷ rest, last)

  abbrev pub same_text : (R → String) → ParamSet R → Tentative R → ℕ → Descriptor R → Bool
  same_text number_text p t i d =
      text_eq (fmt number_text d (p.num i) (p.str i)) (fmt number_text d (t.num i) (t.str i))

  unfoldable pub changes_startup :
      (R → String) → ParamSet R → Tentative R → ℕ → List (ℕ × Descriptor R) → List Change × ℕ
  changes_startup number_text p t seq [] = ([], seq)
  changes_startup number_text p t seq ((i, d) ∷ touched) =
      let next = u64 (seq + 1) in
      let (same, same_last) = changes_startup number_text p t seq touched in
      let (rest, last) = changes_startup number_text p t next touched in
      if same_text number_text p t i d
      then (same, same_last)
      else (change number_text p t "startup" next i d ∷ rest, last)

  abbrev pub apply : ParamSet R → Tentative R → List Change × ℕ → ParamSet R
  apply p t (changes, seq) = record {
    num = t.num;
    str = t.str;
    journal = p.journal ++ changes;
    seq = seq;
  }

  unfoldable pub init_many : (R → String) → ParamSet R → List (Item R) → ParamSet R × Option Refusal
  init_many number_text p items = elim (take_all take_startup (begin_batch p) items) [
    | inl why ↦ (p, some why)
    | inr t ↦ (apply p t (changes_startup number_text p t p.seq t.touched), none)
  ]

  unfoldable pub set_many :
      (R → String) → ParamSet R → List (Item R) → SetContext → ParamSet R × Option Refusal
  set_many number_text p items ctx = elim (take_all (take_runtime ctx) (begin_batch p) items) [
    | inl why ↦ (p, some why)
    | inr t ↦ (apply p t (changes_runtime number_text p t ctx.source p.seq t.touched), none)
  ]

  unfoldable pub set : (R → String) → ParamSet R → Item R → SetContext → ParamSet R × Option Refusal
  unfolding set_many
  set number_text p item ctx = set_many number_text p (item ∷ []) ctx
