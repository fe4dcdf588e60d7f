-- ===== src/Mission/Progress/RoundTrip.antt =====
-- The progress that is written is the progress that is read.
use dyx_3wd.Base.{ℕ, ◌≤◌, ◌≡◌, refl, ◌∙◌, true, false, some, List, [], ◌∷◌, ◌++◌, arith, All}
use dyx_3wd.Mission.Progress.Reader.{codes, ws, eat, peek, at_end, max_u32}
use dyx_3wd.Mission.Progress.Record.{
  MissionProgress, all_of, is_hex, decimal, join_points, is_lower_hex64, known_state, plain_string,
  serialize_progress,
}
use dyx_3wd.Mission.Progress.Parse.{
  Draft, empty, gives, read_pairs, in_order, filled, check_record, finish, parse_progress,
}
use dyx_3wd.Mission.Progress.Turns.{
  schema_turn, sha_turn, mission_turn, run_turn, point_turn, state_turn, utc_turn, points_turn,
  turn, last_turn,
}

-- What the writer holds: numbers of 32 bits, an id, texts that it writes, and the points in order.
pub record IsRecord (p : MissionProgress) : Type 0 where
  pub hex : is_lower_hex64 p.path_artifact_sha256 ≡ true
  pub mission : p.mission_id ≤ max_u32
  pub run : p.run_index ≤ max_u32
  pub point : p.point_index ≤ max_u32
  pub small : All (λ n. n ≤ max_u32) p.completed_points
  pub order : in_order 0 p.completed_points ≡ true
  pub known : known_state p.state ≡ true
  pub plain_state : plain_string p.state ≡ true
  pub plain_utc : plain_string p.updated_utc ≡ true

plain_hex : (s : List ℕ) → all_of is_hex s ≡ true → plain_string s ≡ true
unfolding plain_string
plain_hex [] h = refl
plain_hex (c ∷ s) h = ground (arith, h, plain_hex s)

hex-plain : (s : List ℕ) → is_lower_hex64 s ≡ true → plain_string s ≡ true
unfolding is_lower_hex64
hex-plain s h = plain_hex s (ground (arith, h))

-- The draft with all keys.
abbrev full : MissionProgress → Draft
full p = record {
  schema = some 1;
  sha = some p.path_artifact_sha256;
  mission_id = some p.mission_id;
  run_index = some p.run_index;
  point_index = some p.point_index;
  points = some p.completed_points;
  state = some p.state;
  utc = some p.updated_utc;
}

-- The text behind each of the values.
abbrev after_utc : List ℕ
after_utc = codes "}\n"

abbrev after_state : MissionProgress → List ℕ
after_state p = codes ",\"updated_utc\":\"" ++ (p.updated_utc ++ 34 ∷ after_utc)

abbrev after_points : MissionProgress → List ℕ
after_points p = codes ",\"state\":\"" ++ (p.state ++ 34 ∷ after_state p)

abbrev after_point : MissionProgress → List ℕ
after_point p =
    codes ",\"completed_points\":[" ++ (join_points p.completed_points ++ 93 ∷ after_points p)

abbrev after_run : MissionProgress → List ℕ
after_run p = codes ",\"point_index\":" ++ (decimal p.point_index ++ after_point p)

abbrev after_mission : MissionProgress → List ℕ
after_mission p = codes ",\"run_index\":" ++ (decimal p.run_index ++ after_run p)

abbrev after_sha : MissionProgress → List ℕ
after_sha p = codes ",\"mission_id\":" ++ (decimal p.mission_id ++ after_mission p)

abbrev after_schema : MissionProgress → List ℕ
after_schema p =
    codes ",\"path_artifact_sha256\":\"" ++ (p.path_artifact_sha256 ++ 34 ∷ after_sha p)

pairs_lem :
    (p : MissionProgress)
    → IsRecord p
    → read_pairs 9 empty true (codes "\"schema\":1" ++ after_schema p) ≡ gives (full p, after_utc)
unfolding peek ws
pairs_lem p h =
    turn 8 empty _ true _ _ refl (schema_turn (after_schema p) refl)
    ∙ turn 7 _ _ false _ _ refl (sha_turn _ _ (after_sha p) refl (hex-plain _ h.hex))
    ∙ turn 6 _ _ false _ _ refl (mission_turn _ _ (after_mission p) refl h.mission refl)
    ∙ turn 5 _ _ false _ _ refl (run_turn _ _ (after_run p) refl h.run refl)
    ∙ turn 4 _ _ false _ _ refl (point_turn _ _ (after_point p) refl h.point refl)
    ∙ turn 3 _ _ false _ _ refl (points_turn _ _ (after_points p) refl h.small)
    ∙ turn 2 _ _ false _ _ refl (state_turn _ _ (after_state p) refl h.plain_state)
    ∙ turn 1 _ _ false _ _ refl (utc_turn _ _ after_utc refl h.plain_utc)
    ∙ last_turn 0 _ false after_utc refl

finish_lem : (p : MissionProgress) → IsRecord p → finish (full p) after_utc ≡ gives p
unfolding finish eat ws at_end filled check_record
finish_lem p h = rw (h.hex, h.known, h.order)

parsed :
    (s rest : List ℕ) (d : Draft)
    → read_pairs 9 empty true s ≡ gives (d, rest)
    → parse_progress (123 ∷ s) ≡ finish d rest
unfolding parse_progress eat ws
parsed s rest d h = rw (parse_progress, h)

-- The text of a record that the writer holds is read back as that record.
pub parse_progress-serialize_progress :
    (p : MissionProgress) → IsRecord p → parse_progress (serialize_progress p) ≡ gives p
unfolding serialize_progress
parse_progress-serialize_progress p h =
    parsed (codes "\"schema\":1" ++ after_schema p) after_utc (full p) (pairs_lem p h)
    ∙ finish_lem p h
