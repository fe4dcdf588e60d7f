-- ===== src/Examples/Progress.antt =====
-- The record of a mission's progress at concrete inputs.
use dyx_3wd.Base.{ℕ, ◌≤◌, ◌≡◌, refl, true, none, some, List, [], ◌∷◌, arith, length, All}
use dyx_3wd.Mission.Progress.Reader.{codes}
use dyx_3wd.Mission.Progress.Record.{
  MissionProgress, serialize_progress, is_lower_hex64, known_state, plain_string, digits_of,
  join_points,
}
use dyx_3wd.Mission.Progress.Parse.{gives, in_order, parse_progress}
use dyx_3wd.Mission.Progress.Files.{
  Disk, interrupted, wrote, Answers, show_seen, write_all, write_progress, Entry, loaded,
  load_entry, load_progress_dir,
}
use dyx_3wd.Mission.Progress.RoundTrip.{IsRecord, parse_progress-serialize_progress}
use dyx_3wd.Mission.Progress.Atomic.{written, IsAtomic, write_progress-IsAtomic}
use dyx_3wd.Mission.Progress.Stored.{entry_of, load_entry-write_progress}
use dyx_3wd.Mission.Progress.Valid.{Belongs, load_progress_dir-Belongs}
use dyx_3wd.Mission.Progress.Total.{parse_progress-Ended}
use dyx_3wd.Mission.Progress.Points.{Ended}

abbrev progress : MissionProgress
progress = record {
  path_artifact_sha256 = codes "0123456789abcdef0123456789abcdef0123456789abcdef0123456789abcdef";
  mission_id = 7;
  run_index = 1;
  point_index = 12;
  completed_points = 0 ∷ 1 ∷ 2 ∷ [];
  state = codes "PAUSED";
  updated_utc = codes "2026-10-10T12:00:00Z";
}

progress-IsRecord : IsRecord progress
unfolding is_lower_hex64 in_order known_state plain_string
progress-IsRecord = record {
  hex = refl;
  mission = omega arith;
  run = omega arith;
  point = omega arith;
  small = (omega arith, (omega arith, (omega arith, tt)));
  order = refl;
  known = refl;
  plain_state = refl;
  plain_utc = refl;
}

parse_progress-serialize_progress_example :
    parse_progress (serialize_progress progress) ≡ gives progress
parse_progress-serialize_progress_example =
    parse_progress-serialize_progress progress progress-IsRecord

abbrev disk : Disk
disk = record { target = none; temp = none }

-- An interrupted write, a short one and one of the rest.
abbrev answers : Answers
answers = record {
  dir_made = true;
  opened = true;
  writes = interrupted ∷ wrote 10 ∷ wrote 1000 ∷ [];
  synced = true;
  closed = true;
  removed = true;
  renamed = true;
  dir_opened = true;
  dir_synced = true;
}

write_progress-IsAtomic_example :
    IsAtomic none (written progress) (write_progress answers disk progress)
write_progress-IsAtomic_example = write_progress-IsAtomic answers disk progress

progress_fits : length (serialize_progress progress) ≤ 4194304
unfolding serialize_progress digits_of join_points
progress_fits = omega arith

progress_written : (write_progress answers disk progress).result ≡ some true
unfolding write_progress serialize_progress is_lower_hex64 plain_string show_seen write_all
    digits_of join_points
progress_written = refl

load_entry-write_progress_example :
    load_entry (entry_of progress (write_progress answers disk progress).last.target)
    ≡ loaded progress.path_artifact_sha256 progress
load_entry-write_progress_example =
    load_entry-write_progress answers disk progress progress-IsRecord progress_fits progress_written

abbrev broken_text : List ℕ
broken_text = codes "{\"schema\":1,\"completed_points\":[0,1,"

parse_progress-Ended_example : Ended (parse_progress broken_text)
parse_progress-Ended_example = parse_progress-Ended broken_text

abbrev entries : List Entry
entries =
    entry_of progress (written progress)
    ∷ record {
      stem = progress.path_artifact_sha256;
      is_json = true;
      is_regular = true;
      size = some 10;
      content = some broken_text;
    }
    ∷ []

load_progress_dir-Belongs_example :
    All (λ (r : List ℕ × MissionProgress). Belongs r.0 r.1) (load_progress_dir entries).records
load_progress_dir-Belongs_example = load_progress_dir-Belongs entries
