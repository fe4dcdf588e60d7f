-- ===== src/Mission/Progress/Record.antt =====
-- mission_progress.hpp, and serialize_progress of mission_progress.cpp. How a stream writes a number
-- is `decimal`; ten digits are enough for 32 bits.
use dyx_3wd.Base.{
  ℕ, zero, suc, ◌+◌, ◌/◌, ◌%◌, Bool, true, false, ◌&&◌, ◌||◌, List, [], ◌∷◌, ◌++◌, ltb, leb, ◌==◌,
  if◌then◌else◌, length,
}
use dyx_3wd.Mission.Progress.Reader.{codes, same_text, is_plain, is_digit}

pub record MissionProgress : Type 0 where
  pub path_artifact_sha256 : List ℕ
  pub mission_id : ℕ
  pub run_index : ℕ
  pub point_index : ℕ
  pub completed_points : List ℕ
  pub state : List ℕ
  pub updated_utc : List ℕ

abbrev pub all_of : (ℕ → Bool) → List ℕ → Bool
all_of f [] = true
all_of f (c ∷ s) = let rest = all_of f s in f c && rest

abbrev pub is_hex : ℕ → Bool
is_hex c = is_digit c || (leb 97 c && leb c 102)

unfoldable pub is_lower_hex64 : List ℕ → Bool
is_lower_hex64 s = length s == 64 && all_of is_hex s

abbrev pub any_text : List ℕ → List (List ℕ) → Bool
any_text s [] = false
any_text s (t ∷ ts) = let rest = any_text s ts in same_text s t || rest

abbrev pub state_names : List (List ℕ)
state_names =
    codes "IDLE"
    ∷ codes "LOADING"
    ∷ codes "READY"
    ∷ codes "RUNNING"
    ∷ codes "PAUSED"
    ∷ codes "COMPLETED"
    ∷ codes "ABORTED"
    ∷ codes "ERROR"
    ∷ codes "PLACING"
    ∷ codes "ARMING"
    ∷ codes "ENGAGING"
    ∷ []

unfoldable pub known_state : List ℕ → Bool
known_state s = any_text s state_names

unfoldable pub plain_string : List ℕ → Bool
plain_string s = all_of is_plain s

unfoldable pub complete : MissionProgress → Bool
complete p = same_text p.state (codes "COMPLETED")

-- The decimal digits of a number below 10^f.
unfoldable pub digits_of : ℕ → ℕ → List ℕ
digits_of zero n = []
digits_of (suc f) n =
    let front = digits_of f (n / 10) in
    if ltb n 10 then (48 + n) ∷ [] else front ++ (48 + n % 10) ∷ []

abbrev pub decimal : ℕ → List ℕ
decimal n = digits_of 10 n

unfoldable pub join_points : List ℕ → List ℕ
join_points [] = []
join_points (n ∷ []) = decimal n
join_points (n ∷ m ∷ ns) = decimal n ++ 44 ∷ join_points (m ∷ ns)

unfoldable pub serialize_progress : MissionProgress → List ℕ
serialize_progress p =
    codes "{\"schema\":1,\"path_artifact_sha256\":\""
    ++ (p.path_artifact_sha256
        ++ (codes "\",\"mission_id\":"
            ++ (decimal p.mission_id
                ++ (codes ",\"run_index\":"
                    ++ (decimal p.run_index
                        ++ (codes ",\"point_index\":"
                            ++ (decimal p.point_index
                                ++ (codes ",\"completed_points\":["
                                    ++ (join_points p.completed_points
                                        ++ (codes "],\"state\":\""
                                            ++ (p.state
                                                ++ (codes "\",\"updated_utc\":\""
                                                    ++ (p.updated_utc ++ codes "\"}\n")))))))))))))
