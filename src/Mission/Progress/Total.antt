-- ===== src/Mission/Progress/Total.antt =====
-- The reader ends: a turn of the loop over the keys sets one of the eight.
use dyx_3wd.Base.{
  ℕ, zero, suc, ◌+◌, ◌<◌, ◌≡◌, refl, ap, subst, ◌⊎◌, inl, inr, Bool, true, false, not, Option, none,
  some, List, arith, ◌==◌, if_cases,
}
use dyx_3wd.Mission.Progress.Reader.{codes, same_text, eat, peek, read_string, read_u32, at_end}
use dyx_3wd.Mission.Progress.Record.{MissionProgress, is_lower_hex64, known_state}
use dyx_3wd.Mission.Progress.Parse.{
  Outcome, out_of_fuel, fails, gives, Error, in_order, Draft, empty, once, with_value, read_list,
  Points, with_points, once_points, with_key, read_value, read_key, separator, read_pair,
  read_pairs, filled, check_record, finish, parse_progress, after_fill, behind_brace, after_pairs,
  after_brace,
}
use dyx_3wd.Mission.Progress.Points.{Ended, option_cases, read_list-Ended}

abbrev unset : {A : Type 0} → Option A → ℕ
unset none = 1
unset (some a) = 0

-- How many keys have no value.
abbrev missing : Draft → ℕ
missing d =
    unset d.schema
    + unset d.sha
    + unset d.mission_id
    + unset d.run_index
    + unset d.point_index
    + unset d.points
    + unset d.state
    + unset d.utc

-- The turn ended, and it set a key.
abbrev Turned : Draft → Outcome (Draft × List ℕ) → Type 0
Turned d out_of_fuel = ⊥
Turned d (fails e) = Unit
Turned d (gives (d', s)) = suc (missing d') ≡ missing d

value-Turned :
    {A : Type 0} (d : Draft) (key : List ℕ) (old : Option A) (o : Option (A × List ℕ))
    (put : A → Draft)
    → ((a : A) → old ≡ none → suc (missing (put a)) ≡ missing d)
    → Turned d (with_value key (once old o) put)
value-Turned d key (some a) o put h = tt
value-Turned d key none none put h = tt
value-Turned d key none (some (a, rest)) put h = h a refl

points-Turned :
    (d : Draft) (key : List ℕ) (old : Option (List ℕ)) (o : Points)
    → d.points ≡ old
    → Ended o
    → Turned d (with_points key d (once_points old o))
points-Turned d key (some vs) o h e = tt
points-Turned d key none out_of_fuel h e = e
points-Turned d key none (fails e) h k = tt
points-Turned d key none (gives none) h k = tt
points-Turned d key none (gives (some (vs, rest))) h k =
    let was : unset d.points ≡ 1 = ap unset h in omega (arith, was)

read_value-Turned : (d : Draft) (key s : List ℕ) → Turned d (read_value key d s)
unfolding read_value
read_value-Turned d key s =
    if_cases (Turned d) (same_text key (codes "schema")) _ _
      (λ this.
        value-Turned d key d.schema (read_u32 s) _
          (λ a h. let was : unset d.schema ≡ 1 = ap unset h in omega (arith, was)))
      (λ other0.
        if_cases (Turned d) (same_text key (codes "path_artifact_sha256")) _ _
          (λ this.
            value-Turned d key d.sha (read_string s) _
              (λ a h. let was : unset d.sha ≡ 1 = ap unset h in omega (arith, was)))
          (λ other1.
            if_cases (Turned d) (same_text key (codes "mission_id")) _ _
              (λ this.
                value-Turned d key d.mission_id (read_u32 s) _
                  (λ a h. let was : unset d.mission_id ≡ 1 = ap unset h in omega (arith, was)))
              (λ other2.
                if_cases (Turned d) (same_text key (codes "run_index")) _ _
                  (λ this.
                    value-Turned d key d.run_index (read_u32 s) _
                      (λ a h. let was : unset d.run_index ≡ 1 = ap unset h in omega (arith, was)))
                  (λ other3.
                    if_cases (Turned d) (same_text key (codes "point_index")) _ _
                      (λ this. value-Turned d key d.point_index (read_u32 s) _ (λ a h.
                        let was : unset d.point_index ≡ 1 = ap unset h in omega (arith, was)))
                      (λ other4.
                        if_cases (Turned d) (same_text key (codes "completed_points")) _ _
                          (λ this.
                            points-Turned d key d.points (read_list s) refl (read_list-Ended s))
                          (λ other5.
                            if_cases (Turned d) (same_text key (codes "state")) _ _
                              (λ this. value-Turned d key d.state (read_string s) _ (λ a h.
                                let was : unset d.state ≡ 1 = ap unset h in omega (arith, was)))
                              (λ other6.
                                if_cases (Turned d) (same_text key (codes "updated_utc")) _ _
                                  (λ this. value-Turned d key d.utc (read_string s) _ (λ a h.
                                    let was : unset d.utc ≡ 1 = ap unset h in omega (arith, was)))
                                  (λ other7. tt))))))))

key_cases : (d : Draft) (o : Option (List ℕ × List ℕ)) → Turned d (with_key d o)
key_cases d none = tt
key_cases d (some (key, s)) = read_value-Turned d key s

read_pair-Turned : (d : Draft) (first : Bool) (s : List ℕ) → Turned d (read_pair d first s)
unfolding read_pair
read_pair-Turned d first s = elim (option_cases (separator first s)) [
  | inl e ↦ rw (read_pair, e) tt
  | inr (behind, e) ↦ rw (read_pair, e) (key_cases d (read_key behind))
]

outcome_cases :
    {A : Type 0} (o : Outcome A)
    → (o ≡ out_of_fuel) ⊎ ((e : Error) × (o ≡ fails e)) ⊎ ((a : A) × (o ≡ gives a))
outcome_cases out_of_fuel = inl refl
outcome_cases (fails e) = inr (inl (e, refl))
outcome_cases (gives a) = inr (inr (a, refl))

-- More turns than keys without a value are enough.
read_pairs-Ended :
    (fuel : ℕ) (d : Draft) (first : Bool) (s : List ℕ)
    → missing d < fuel
    → Ended (read_pairs fuel d first s)
unfolding read_pairs
read_pairs-Ended zero d first s h = absurd (omega (arith, h))
read_pairs-Ended (suc fuel) d first s h =
    if_cases Ended (peek 125 s) _ _ (λ end. tt)
      (λ more. elim (outcome_cases (read_pair d first s)) [
        | inl e ↦ absurd (subst (Turned d) e (read_pair-Turned d first s))
        | inr (inl (error, e)) ↦ rw (Ended, e) tt
        | inr (inr ((d', rest), e)) ↦
            let less : suc (missing d') ≡ missing d =
              subst (Turned d) e (read_pair-Turned d first s) in
            rw (Ended, e) (read_pairs-Ended fuel d' false rest (omega (arith, less, h)))
      ])

check_record-Ended : (schema : ℕ) (p : MissionProgress) → Ended (check_record (schema, p))
unfolding check_record
check_record-Ended schema p =
    if_cases Ended (not (schema == 1)) _ _ (λ other. tt)
      (λ known.
        if_cases Ended (not (is_lower_hex64 p.path_artifact_sha256)) _ _ (λ refused. tt)
          (λ hex.
            if_cases Ended (not (known_state p.state)) _ _ (λ refused. tt)
              (λ state.
                if_cases Ended (not (in_order 0 p.completed_points)) _ _ (λ refused. tt)
                  (λ order. tt))))

after_fill-Ended : (o : Option (ℕ × MissionProgress)) → Ended (after_fill o)
after_fill-Ended none = tt
after_fill-Ended (some (schema, p)) = check_record-Ended schema p

finish-Ended : (d : Draft) (s : List ℕ) → Ended (finish d s)
unfolding finish
finish-Ended d s =
    if_cases Ended (not (at_end (behind_brace s))) _ _ (λ more. tt)
      (λ done. after_fill-Ended (filled d))

after_pairs-Ended : (o : Outcome (Draft × List ℕ)) → Ended o → Ended (after_pairs o)
after_pairs-Ended out_of_fuel h = h
after_pairs-Ended (fails e) h = tt
after_pairs-Ended (gives (d, rest)) h = finish-Ended d rest

after_brace-Ended : (o : Option (List ℕ)) → Ended (after_brace o)
after_brace-Ended none = tt
after_brace-Ended (some s) =
    after_pairs-Ended (read_pairs 9 empty true s) (read_pairs-Ended 9 empty true s (omega arith))

-- The reader of the record ends on every text: nine turns are enough for the keys, and as many
-- turns as there are bytes left, and one, for the points.
pub parse_progress-Ended : (bytes : List ℕ) → Ended (parse_progress bytes)
unfolding parse_progress
parse_progress-Ended bytes = after_brace-Ended (eat 123 bytes)
