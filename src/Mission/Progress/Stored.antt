-- ===== src/Mission/Progress/Stored.antt =====
-- A record that was written is loaded again, and what is loaded is a record.
use dyx_3wd.Base.{
  ℕ, ◌≤◌, ◌≡◌, refl, ap, ◌∙◌, true, Option, none, some, List, [], ◌∷◌, arith, ltb, if_cases, length,
}
use dyx_3wd.Mission.Progress.Reader.{same_text}
use dyx_3wd.Mission.Progress.Record.{MissionProgress, serialize_progress}
use dyx_3wd.Mission.Progress.RoundTrip.{IsRecord, parse_progress-serialize_progress}
use dyx_3wd.Mission.Progress.Files.{
  File, Disk, Answers, write_progress, Entry, loaded, load_entry, max_progress_bytes,
}
use dyx_3wd.Mission.Progress.Atomic.{written, write_progress-IsAtomic}

abbrev content_of : Option File → Option (List ℕ)
content_of none = none
content_of (some f) = some f.bytes

abbrev size_of : Option File → Option ℕ
size_of none = none
size_of (some f) = some (length f.bytes)

-- The entry of the directory that a record's file is.
abbrev pub entry_of : MissionProgress → Option File → Entry
entry_of p file = record {
  stem = p.path_artifact_sha256;
  is_json = true;
  is_regular = true;
  size = size_of file;
  content = content_of file;
}

same_text_refl : (s : List ℕ) → same_text s s ≡ true
same_text_refl [] = refl
same_text_refl (c ∷ s) = ground (arith, same_text_refl s)

load_written :
    (p : MissionProgress)
    → IsRecord p
    → length (serialize_progress p) ≤ max_progress_bytes
    → load_entry (entry_of p (written p)) ≡ loaded p.path_artifact_sha256 p
unfolding load_entry
load_written p h small = rw h.hex (
    if_cases (λ o. o ≡ loaded p.path_artifact_sha256 p)
      (ltb max_progress_bytes (length (serialize_progress p))) _ _
      (λ large. absurd (ground (arith, large, small)))
      (λ fits. rw (parse_progress-serialize_progress p h, same_text_refl p.path_artifact_sha256)))

-- When a write of a record that the writer holds reports success, whatever the system answered,
-- and its text is at most as long as the reader accepts, the file that is then in place loads as
-- that record under its id.
pub load_entry-write_progress :
    (a : Answers) (d : Disk) (p : MissionProgress)
    → IsRecord p
    → length (serialize_progress p) ≤ max_progress_bytes
    → (write_progress a d p).result ≡ some true
    → load_entry (entry_of p (write_progress a d p).last.target) ≡ loaded p.path_artifact_sha256 p
load_entry-write_progress a d p h small success =
    ap (λ file. load_entry (entry_of p file)) ((write_progress-IsAtomic a d p).success success)
    ∙ load_written p h small
