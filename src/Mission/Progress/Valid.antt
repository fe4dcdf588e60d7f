-- ===== src/Mission/Progress/Valid.antt =====
-- What the reader of the record accepts, and what the directory of records holds.
use dyx_3wd.Base.{
  ℕ, ◌≡◌, refl, ap, ◌∙◌, true, not, ◌||◌, Option, none, some, List, [], ◌∷◌, arith, ◌==◌, if_cases,
  All,
}
use dyx_3wd.Mission.Progress.Reader.{same_text, eat, at_end}
use dyx_3wd.Mission.Progress.Record.{MissionProgress, is_lower_hex64, known_state}
use dyx_3wd.Mission.Progress.Parse.{
  Outcome, out_of_fuel, fails, gives, in_order, Draft, empty, read_pairs, filled, check_record,
  finish, parse_progress, after_fill, behind_brace, after_pairs, after_brace,
}
use dyx_3wd.Mission.Progress.Files.{
  Entry, Loaded, skipped, warned, loaded, load_entry, Directory, load_all, load_progress_dir,
  keep_parsed, take_entry, read_entry, too_large,
}

-- An artifact's id, the name of a state, and the points 0 to k-1.
pub record IsValid (p : MissionProgress) : Type 0 where
  pub hex : is_lower_hex64 p.path_artifact_sha256 ≡ true
  pub known : known_state p.state ≡ true
  pub order : in_order 0 p.completed_points ≡ true

abbrev AllValid : Outcome MissionProgress → Type 0
AllValid out_of_fuel = Unit
AllValid (fails e) = Unit
AllValid (gives p) = IsValid p

check_record-AllValid : (schema : ℕ) (p : MissionProgress) → AllValid (check_record (schema, p))
unfolding check_record
check_record-AllValid schema p =
    if_cases AllValid (not (schema == 1)) _ _ (λ other. tt)
      (λ known.
        if_cases AllValid (not (is_lower_hex64 p.path_artifact_sha256)) _ _ (λ refused. tt)
          (λ hex.
            if_cases AllValid (not (known_state p.state)) _ _ (λ refused. tt)
              (λ state.
                if_cases AllValid (not (in_order 0 p.completed_points)) _ _ (λ refused. tt)
                  (λ order. record {
                    hex = ground (arith, hex);
                    known = ground (arith, state);
                    order = ground (arith, order);
                  }))))

after_fill-AllValid : (o : Option (ℕ × MissionProgress)) → AllValid (after_fill o)
after_fill-AllValid none = tt
after_fill-AllValid (some (schema, p)) = check_record-AllValid schema p

finish-AllValid : (d : Draft) (s : List ℕ) → AllValid (finish d s)
unfolding finish
finish-AllValid d s =
    if_cases AllValid (not (at_end (behind_brace s))) _ _ (λ more. tt)
      (λ done. after_fill-AllValid (filled d))

after_pairs-AllValid : (o : Outcome (Draft × List ℕ)) → AllValid (after_pairs o)
after_pairs-AllValid out_of_fuel = tt
after_pairs-AllValid (fails e) = tt
after_pairs-AllValid (gives (d, rest)) = finish-AllValid d rest

after_brace-AllValid : (o : Option (List ℕ)) → AllValid (after_brace o)
after_brace-AllValid none = tt
after_brace-AllValid (some s) = after_pairs-AllValid (read_pairs 9 empty true s)

parse_progress-AllValid : (bytes : List ℕ) → AllValid (parse_progress bytes)
unfolding parse_progress
parse_progress-AllValid bytes = after_brace-AllValid (eat 123 bytes)

same_text_eq : (s t : List ℕ) → same_text s t ≡ true → s ≡ t
same_text_eq [] [] h = refl
same_text_eq [] (d ∷ t) h = ground (arith, h)
same_text_eq (c ∷ s) [] h = ground (arith, h)
same_text_eq (c ∷ s) (d ∷ t) h =
    let same : c ≡ d = ground (arith, h) in
    ap (λ x. x ∷ s) same ∙ ap (λ l. d ∷ l) (same_text_eq s t (ground (arith, h)))

-- A record under the id that it holds.
abbrev pub Belongs : List ℕ → MissionProgress → Type 0
Belongs id p = (p.path_artifact_sha256 ≡ id) × IsValid p

abbrev LoadedValid : Loaded → Type 0
LoadedValid skipped = Unit
LoadedValid (warned w) = Unit
LoadedValid (loaded id p) = Belongs id p

keep_parsed-LoadedValid :
    (id : List ℕ) (o : Outcome MissionProgress) → AllValid o → LoadedValid (keep_parsed id o)
keep_parsed-LoadedValid id out_of_fuel h = tt
keep_parsed-LoadedValid id (fails e) h = tt
keep_parsed-LoadedValid id (gives p) h =
    if_cases LoadedValid (not (same_text p.path_artifact_sha256 id)) _ _ (λ other. tt)
      (λ own. (same_text_eq p.path_artifact_sha256 id (ground (arith, own)), h))

read_entry-LoadedValid : (id : List ℕ) (o : Option (List ℕ)) → LoadedValid (read_entry id o)
read_entry-LoadedValid id none = tt
read_entry-LoadedValid id (some bytes) =
    keep_parsed-LoadedValid id (parse_progress bytes) (parse_progress-AllValid bytes)

load_entry-LoadedValid : (e : Entry) → LoadedValid (load_entry e)
unfolding load_entry
load_entry-LoadedValid e =
    if_cases LoadedValid (not e.is_json) _ _ (λ other. tt)
      (λ json.
        if_cases LoadedValid (not (is_lower_hex64 e.stem) || not e.is_regular) _ _ (λ other. tt)
          (λ name.
            if_cases LoadedValid (too_large e.size) _ _ (λ large. tt)
              (λ fits. read_entry-LoadedValid e.stem e.content)))

abbrev AllBelong : Directory → Type 0
AllBelong dir = All (λ (r : List ℕ × MissionProgress). Belongs r.0 r.1) dir.records

take_entry-AllBelong :
    (l : Loaded) (dir : Directory) → LoadedValid l → AllBelong dir → AllBelong (take_entry l dir)
take_entry-AllBelong skipped dir h all = all
take_entry-AllBelong (warned w) dir h all = all
take_entry-AllBelong (loaded id p) dir h all = (h, all)

load_all-AllBelong :
    (entries : List Entry) (dir : Directory) → AllBelong dir → AllBelong (load_all entries dir)
unfolding load_all
load_all-AllBelong [] dir all = all
load_all-AllBelong (e ∷ entries) dir all =
    load_all-AllBelong entries (take_entry (load_entry e) dir)
      (take_entry-AllBelong (load_entry e) dir (load_entry-LoadedValid e) all)

-- Whatever files the directory has, each record that is loaded stands under the artifact id that
-- it holds, which is 64 lower-case hex digits, its state is a known one, and its points are 0 to
-- k-1.
pub load_progress_dir-Belongs :
    (entries : List Entry)
    → All (λ (r : List ℕ × MissionProgress). Belongs r.0 r.1) (load_progress_dir entries).records
load_progress_dir-Belongs entries = load_all-AllBelong entries _ tt
