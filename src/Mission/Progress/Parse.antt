-- ===== src/Mission/Progress/Parse.antt =====
-- parse_progress of mission_progress.cpp. A key that was seen has a value in the draft, which stands
-- for the bits of `seen`. The loop over the keys takes fuel: a turn sets a key that had no value, so
-- that nine turns are enough for the eight keys. The loop over the points takes as much as the text is
-- long, and one.
use dyx_3wd.Base.{
  ℕ, zero, suc, Bool, true, false, not, ◌&&◌, Option, none, some, List, [], ◌∷◌, ◌==◌,
  if◌then◌else◌, length,
}
use dyx_3wd.Mission.Progress.Reader.{codes, same_text, eat, peek, read_string, read_u32, at_end}
use dyx_3wd.Mission.Progress.Record.{MissionProgress, is_lower_hex64, known_state}

pub data Error : Type 0 where
  not_an_object expected_comma expected_key trailing_bytes key_missing bad_id bad_points : Error
  unknown_key bad_value unknown_state : List ℕ → Error
  unsupported_schema : ℕ → Error

pub data Outcome {ℓ} (A : Type ℓ) : Type ℓ where
  out_of_fuel : Outcome A
  fails : Error → Outcome A
  gives : A → Outcome A

pub record Draft : Type 0 where
  pub schema : Option ℕ
  pub sha : Option (List ℕ)
  pub mission_id : Option ℕ
  pub run_index : Option ℕ
  pub point_index : Option ℕ
  pub points : Option (List ℕ)
  pub state : Option (List ℕ)
  pub utc : Option (List ℕ)

abbrev pub empty : Draft
empty = record {
  schema = none;
  sha = none;
  mission_id = none;
  run_index = none;
  point_index = none;
  points = none;
  state = none;
  utc = none;
}

-- A read of a key that has no value yet.
abbrev pub once : {A : Type 0} → Option A → Option (A × List ℕ) → Option (A × List ℕ)
once (some _) value = none
once none value = value

abbrev pub with_value :
    {A : Type 0} → List ℕ → Option (A × List ℕ) → (A → Draft) → Outcome (Draft × List ℕ)
with_value key none put = fails (bad_value key)
with_value key (some (a, rest)) put = gives (put a, rest)

abbrev pub Points : Type 0
Points = Outcome (Option (List ℕ × List ℕ))

abbrev pub add_point : ℕ → Points → Points
add_point v out_of_fuel = out_of_fuel
add_point v (fails e) = fails e
add_point v (gives none) = gives none
add_point v (gives (some (vs, rest))) = gives (some (v ∷ vs, rest))

-- The do-while loop over the points; a failure is `none`.
unfoldable pub read_points : ℕ → List ℕ → Points
read_points zero s = out_of_fuel
read_points (suc n) s = elim (read_u32 s) [
  | none ↦ gives none
  | some (v, rest) ↦ elim (eat 44 rest) [
    | none ↦ gives (some (v ∷ [], rest))
    | some more ↦ add_point v (read_points n more)
  ]
]

-- The closing bracket behind the points.
abbrev pub close_points : List ℕ → List ℕ → Option (List ℕ × List ℕ)
close_points vs s = elim (eat 93 s) [ none ↦ none | some rest ↦ some (vs, rest) ]

abbrev pub close_all : Points → Points
close_all out_of_fuel = out_of_fuel
close_all (fails e) = fails e
close_all (gives none) = gives none
close_all (gives (some (vs, rest))) = gives (close_points vs rest)

abbrev pub read_inside : Option (List ℕ) → Points
read_inside none = gives none
read_inside (some inside) =
    if peek 93 inside
    then gives (close_points [] inside)
    else close_all (read_points (suc (length inside)) inside)

unfoldable pub read_list : List ℕ → Points
read_list s = read_inside (eat 91 s)

abbrev pub with_points : List ℕ → Draft → Points → Outcome (Draft × List ℕ)
with_points key d out_of_fuel = out_of_fuel
with_points key d (fails e) = fails e
with_points key d (gives value) = with_value key value (λ vs. record d { points = some vs })

abbrev pub once_points : Option (List ℕ) → Points → Points
once_points (some _) value = gives none
once_points none value = value

abbrev pub put_points : List ℕ → Draft → List ℕ → Outcome (Draft × List ℕ)
put_points key d s = with_points key d (once_points d.points (read_list s))

-- The value of a key.
unfoldable pub read_value : List ℕ → Draft → List ℕ → Outcome (Draft × List ℕ)
read_value key d s =
    if same_text key (codes "schema")
    then with_value key (once d.schema (read_u32 s)) (λ v. record d { schema = some v })
    else if same_text key (codes "path_artifact_sha256")
    then with_value key (once d.sha (read_string s)) (λ v. record d { sha = some v })
    else if same_text key (codes "mission_id")
    then with_value key (once d.mission_id (read_u32 s)) (λ v. record d { mission_id = some v })
    else if same_text key (codes "run_index")
    then with_value key (once d.run_index (read_u32 s)) (λ v. record d { run_index = some v })
    else if same_text key (codes "point_index")
    then with_value key (once d.point_index (read_u32 s)) (λ v. record d { point_index = some v })
    else if same_text key (codes "completed_points")
    then put_points key d s
    else if same_text key (codes "state")
    then with_value key (once d.state (read_string s)) (λ v. record d { state = some v })
    else if same_text key (codes "updated_utc")
    then with_value key (once d.utc (read_string s)) (λ v. record d { utc = some v })
    else fails (unknown_key key)

-- A key and its colon.
unfoldable pub read_key : List ℕ → Option (List ℕ × List ℕ)
read_key s = elim (read_string s) [
  | none ↦ none
  | some (key, rest) ↦ elim (eat 58 rest) [ none ↦ none | some value ↦ some (key, value) ]
]

abbrev pub separator : Bool → List ℕ → Option (List ℕ)
separator first s = if first then some s else eat 44 s

abbrev pub with_key : Draft → Option (List ℕ × List ℕ) → Outcome (Draft × List ℕ)
with_key d none = fails expected_key
with_key d (some (key, s)) = read_value key d s

-- One turn of the loop over the keys.
unfoldable pub read_pair : Draft → Bool → List ℕ → Outcome (Draft × List ℕ)
read_pair d first s = elim (separator first s) [
  | none ↦ fails expected_comma
  | some behind ↦ with_key d (read_key behind)
]

unfoldable pub read_pairs : ℕ → Draft → Bool → List ℕ → Outcome (Draft × List ℕ)
read_pairs zero d first s = out_of_fuel
read_pairs (suc n) d first s = if peek 125 s then gives (d, s) else elim (read_pair d first s) [
  | out_of_fuel ↦ out_of_fuel
  | fails e ↦ fails e
  | gives (d', rest) ↦ read_pairs n d' false rest
]

-- `completed_points[i] != i` nowhere.
unfoldable pub in_order : ℕ → List ℕ → Bool
in_order i [] = true
in_order i (p ∷ ps) = let rest = in_order (suc i) ps in p == i && rest

infixl 2 ◌>>=◌
abbrev ◌>>=◌ : {A B : Type 0} → Option A → (A → Option B) → Option B
none >>= f = none
some a >>= f = f a

-- The schema and the record of a draft with all keys.
unfoldable pub filled : Draft → Option (ℕ × MissionProgress)
filled d = do
  schema ← d.schema
  sha ← d.sha
  mission_id ← d.mission_id
  run_index ← d.run_index
  point_index ← d.point_index
  points ← d.points
  state ← d.state
  utc ← d.utc
  some (
    schema,
    record {
      path_artifact_sha256 = sha;
      mission_id = mission_id;
      run_index = run_index;
      point_index = point_index;
      completed_points = points;
      state = state;
      updated_utc = utc;
    },
  )

unfoldable pub check_record : ℕ × MissionProgress → Outcome MissionProgress
check_record (schema, p) =
    if not (schema == 1)
    then fails (unsupported_schema schema)
    else if not (is_lower_hex64 p.path_artifact_sha256)
    then fails bad_id
    else if not (known_state p.state)
    then fails (unknown_state p.state)
    else if not (in_order 0 p.completed_points)
    then fails bad_points
    else gives p

abbrev pub behind_brace : List ℕ → List ℕ
behind_brace s = elim (eat 125 s) [ none ↦ s | some behind ↦ behind ]

abbrev pub after_fill : Option (ℕ × MissionProgress) → Outcome MissionProgress
after_fill none = fails key_missing
after_fill (some record_of) = check_record record_of

-- What follows the loop; the closing brace is there.
unfoldable pub finish : Draft → List ℕ → Outcome MissionProgress
finish d s =
    let rest = behind_brace s in
    if not (at_end rest) then fails trailing_bytes else after_fill (filled d)

abbrev pub after_pairs : Outcome (Draft × List ℕ) → Outcome MissionProgress
after_pairs out_of_fuel = out_of_fuel
after_pairs (fails e) = fails e
after_pairs (gives (d, rest)) = finish d rest

abbrev pub after_brace : Option (List ℕ) → Outcome MissionProgress
after_brace none = fails not_an_object
after_brace (some s) = after_pairs (read_pairs 9 empty true s)

unfoldable pub parse_progress : List ℕ → Outcome MissionProgress
parse_progress bytes = after_brace (eat 123 bytes)
