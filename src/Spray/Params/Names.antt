-- ===== src/Spray/Params/Names.antt =====
-- The names of the table differ: a name is found at the place of its own descriptor.
use Prim.Native.String.{String}
use text.Mathlib.Text.{◌==◌ as text_eq}
use text.Mathlib.TextEquality.{eq_iff}
use dyx_3wd.Base.{
  ℕ, zero, suc, ◌+◌, ◌≡◌, refl, sym, subst, Bool, true, false, ◌&&◌, Option, none, some, List, [],
  ◌∷◌, arith, ◌==◌,
}
use dyx_3wd.Base.Real.{Real}
use dyx_3wd.Spray.Params.Types.{Descriptor}
use dyx_3wd.Spray.Params.Table.{table}
use dyx_3wd.Spray.Params.Ops.{descriptor, find_index, find_from}
use dyx_3wd.Spray.Params.Found.{some_injective, find_index_lem, found_name_lem}
use dyx_3wd.Spray.Params.Batch.{same_descriptor}

both_ways : (a b : Bool) → (a ≡ true → b ≡ true) → (b ≡ true → a ≡ true) → a ≡ b
both_ways true b f g = sym (f refl)
both_ways false true f g = g refl
both_ways false false f g = refl

module _ {R : Type 0} ⦃r : Real R⦄ where
  abbrev pub names : ℕ → Option (ℕ × Descriptor R) → Bool
  names i none = false
  names i (some (j, d)) = i == j

  well_named : List (Descriptor R) → ℕ → Bool
  well_named [] i = true
  well_named (d ∷ ds) i = let rest = well_named ds (suc i) in names i (find_index d.name) && rest

table-well_named : (R : Type 0) ⦃r : Real R⦄ → well_named {R = R} table 0 ≡ true
unfolding well_named table find_index find_from
table-well_named R = refl

module _ {R : Type 0} ⦃r : Real R⦄ where
  own_place :
      (ds : List (Descriptor R)) (n i : ℕ) (d : Descriptor R)
      → well_named ds n ≡ true
      → descriptor i ds ≡ some d
      → names (n + i) (find_index {R = R} d.name) ≡ true
  unfolding well_named descriptor
  own_place [] n i d h at = absurd (ground (arith, at))
  own_place (e ∷ ds) n zero d h at =
      let same = some_injective e d at in
      let own : names n (find_index {R = R} e.name) ≡ true = ground (arith, h) in
      let place : n ≡ n + 0 = omega arith in
      subst (λ k. names k (find_index {R = R} d.name) ≡ true) place
        (subst (λ (f : Descriptor R). names n (find_index {R = R} f.name) ≡ true) same own)
  own_place (e ∷ ds) n (suc i) d h at =
      let place : suc n + i ≡ n + suc i = omega arith in
      subst (λ k. names k (find_index {R = R} d.name) ≡ true) place
        (own_place ds (suc n) i d (ground (arith, h)) at)

  places_agree :
      (i : ℕ) (d : Descriptor R) (name : String)
      → descriptor i table ≡ some d
      → text_eq name d.name ≡ true
      → names i (find_index {R = R} name) ≡ true
  places_agree i d name at same =
      subst (λ n. names i (find_index {R = R} n) ≡ true) (sym ((eq_iff name d.name).0 same))
        (let zero_add : 0 + i ≡ i = omega arith in
          subst (λ k. names k (find_index {R = R} d.name) ≡ true) zero_add
            (own_place table 0 i d (table-well_named R) at))

  found_names :
      (i : ℕ) (d : Descriptor R) (name : String) (o : Option (ℕ × Descriptor R))
      → descriptor i table ≡ some d
      → find_index name ≡ o
      → names i o ≡ true
      → text_eq name d.name ≡ true
  found_names i d name none at h k = absurd (ground (arith, k))
  found_names i d name (some (j, e)) at h k =
      let same = same_descriptor j i e d k (find_index_lem name j e h) at in
      subst (λ (f : Descriptor R). text_eq name f.name ≡ true) (sym same)
        (found_name_lem name j e h)

  -- A name is that of the descriptor at an index exactly if it is found there.
  pub found_there :
      (i : ℕ) (d : Descriptor R) (name : String)
      → descriptor i table ≡ some d
      → text_eq name d.name ≡ names i (find_index {R = R} name)
  found_there i d name at =
      both_ways _ _ (places_agree i d name at) (found_names i d name (find_index name) at refl)
