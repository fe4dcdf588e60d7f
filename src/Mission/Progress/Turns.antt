-- ===== src/Mission/Progress/Turns.antt =====
-- Each key of the record is read by one turn of the loop.
use dyx_3wd.Base.{
  ℕ, suc, ◌≤◌, ◌≡◌, refl, Bool, true, false, none, some, List, [], ◌∷◌, ◌++◌, arith, length, All,
}
use dyx_3wd.Mission.Progress.Reader.{codes, ws, eat, peek, read_text, read_string, max_u32}
use dyx_3wd.Mission.Progress.Record.{digits_of, decimal, join_points, plain_string}
use dyx_3wd.Mission.Progress.Parse.{
  Draft, empty, gives, put_points, read_list, read_value, read_key, read_pair, read_pairs,
}
use dyx_3wd.Mission.Progress.Digits.{
  Ends, read_u32-decimal, read_text-plain, read_points-join, peek-join_points, length-join_points,
}

-- The first key follows the opening brace at once.
pub schema_turn :
    (t : List ℕ)
    → Ends t
    → read_pair empty true (codes "\"schema\":1" ++ t) ≡ gives (record empty { schema = some 1 }, t)
unfolding read_pair read_key read_string read_text eat ws read_value digits_of
schema_turn t e = rw (read_u32-decimal 1 t (omega arith) e)

pub sha_turn :
    (d : Draft) (s t : List ℕ)
    → d.sha ≡ none
    → plain_string s ≡ true
    → read_pair d false (codes ",\"path_artifact_sha256\":\"" ++ (s ++ 34 ∷ t))
      ≡ gives (record d { sha = some s }, t)
unfolding read_pair read_key read_string read_text eat ws read_value
sha_turn d s t h plain = rw (h, read_text-plain s t plain)

pub mission_turn :
    (d : Draft) (n : ℕ) (t : List ℕ)
    → d.mission_id ≡ none
    → n ≤ max_u32
    → Ends t
    → read_pair d false (codes ",\"mission_id\":" ++ (decimal n ++ t))
      ≡ gives (record d { mission_id = some n }, t)
unfolding read_pair read_key read_string read_text eat ws read_value
mission_turn d n t h small e = rw (h, read_u32-decimal n t small e)

pub run_turn :
    (d : Draft) (n : ℕ) (t : List ℕ)
    → d.run_index ≡ none
    → n ≤ max_u32
    → Ends t
    → read_pair d false (codes ",\"run_index\":" ++ (decimal n ++ t))
      ≡ gives (record d { run_index = some n }, t)
unfolding read_pair read_key read_string read_text eat ws read_value
run_turn d n t h small e = rw (h, read_u32-decimal n t small e)

pub point_turn :
    (d : Draft) (n : ℕ) (t : List ℕ)
    → d.point_index ≡ none
    → n ≤ max_u32
    → Ends t
    → read_pair d false (codes ",\"point_index\":" ++ (decimal n ++ t))
      ≡ gives (record d { point_index = some n }, t)
unfolding read_pair read_key read_string read_text eat ws read_value
point_turn d n t h small e = rw (h, read_u32-decimal n t small e)

pub state_turn :
    (d : Draft) (s t : List ℕ)
    → d.state ≡ none
    → plain_string s ≡ true
    → read_pair d false (codes ",\"state\":\"" ++ (s ++ 34 ∷ t))
      ≡ gives (record d { state = some s }, t)
unfolding read_pair read_key read_string read_text eat ws read_value
state_turn d s t h plain = rw (h, read_text-plain s t plain)

pub utc_turn :
    (d : Draft) (s t : List ℕ)
    → d.utc ≡ none
    → plain_string s ≡ true
    → read_pair d false (codes ",\"updated_utc\":\"" ++ (s ++ 34 ∷ t))
      ≡ gives (record d { utc = some s }, t)
unfolding read_pair read_key read_string read_text eat ws read_value
utc_turn d s t h plain = rw (h, read_text-plain s t plain)

read_list-join :
    (ns t : List ℕ)
    → All (λ m. m ≤ max_u32) ns
    → read_list (91 ∷ (join_points ns ++ 93 ∷ t)) ≡ gives (some (ns, t))
unfolding read_list eat ws peek join_points
read_list-join [] t h = refl
read_list-join (n ∷ ns) t h =
    let fuel = suc (length (join_points (n ∷ ns) ++ 93 ∷ t)) in
    let few = length-join_points n ns (93 ∷ t) h in
    rw (peek-join_points n ns (93 ∷ t) h, read_points-join fuel n ns t (omega (arith, few)) h)

pub points_turn :
    (d : Draft) (ns t : List ℕ)
    → d.points ≡ none
    → All (λ m. m ≤ max_u32) ns
    → read_pair d false (codes ",\"completed_points\":[" ++ (join_points ns ++ 93 ∷ t))
      ≡ gives (record d { points = some ns }, t)
unfolding read_pair read_key read_string read_text eat ws read_value
points_turn d ns t h small = rw (put_points, h, read_list-join ns t small)

-- A turn of the loop.
pub turn :
    (n : ℕ) (d d' : Draft) (first : Bool) (s t : List ℕ)
    → peek 125 s ≡ false
    → read_pair d first s ≡ gives (d', t)
    → read_pairs (suc n) d first s ≡ read_pairs n d' false t
unfolding read_pairs
turn n d d' first s t h e = rw (h, e)

-- The end of the loop.
pub last_turn :
    (n : ℕ) (d : Draft) (first : Bool) (s : List ℕ)
    → peek 125 s ≡ true
    → read_pairs (suc n) d first s ≡ gives (d, s)
unfolding read_pairs
last_turn n d first s h = rw h
