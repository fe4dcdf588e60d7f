-- ===== src/Mission/Progress/Files.antt =====
-- write_progress and load_progress_dir of mission_progress.cpp. What the operating system answers is
-- an argument. A file has its bytes, and whether they were synced: until then a crash may lose some.
use dyx_3wd.Base.{
  ℕ, Bool, true, false, not, ◌&&◌, ◌||◌, Option, none, some, List, [], ◌∷◌, ◌++◌, ltb,
  if◌then◌else◌, drop, take,
}
use dyx_3wd.Mission.Progress.Reader.{same_text}
use dyx_3wd.Mission.Progress.Record.{
  MissionProgress, is_lower_hex64, plain_string, serialize_progress,
}
use dyx_3wd.Mission.Progress.Parse.{Outcome, out_of_fuel, fails, gives, Error, parse_progress}

pub record File : Type 0 where
  pub bytes : List ℕ
  pub synced : Bool

-- The record's file and the temporary one beside it.
pub record Disk : Type 0 where
  pub target : Option File
  pub temp : Option File

-- An answer of write(2).
pub data Answer : Type 0 where
  interrupted failed : Answer
  wrote : ℕ → Answer

pub data Written : Type 0 where
  waiting broken whole : Written

-- How it ended, what the file holds, and what it held after each call.
pub record Writing : Type 0 where
  pub end : Written
  pub content : List ℕ
  pub seen : List (List ℕ)

abbrev pub stop : Written → List ℕ → Writing
stop end content = record { end = end; content = content; seen = [] }

abbrev pub see : List ℕ → Writing → Writing
see content w = record w { seen = content ∷ w.seen }

unfoldable pub write_all : List Answer → List ℕ → List ℕ → Writing
write_all answers content [] = stop whole content
write_all [] content (c ∷ rest) = stop waiting content
write_all (interrupted ∷ answers) content (c ∷ rest) = write_all answers content (c ∷ rest)
write_all (failed ∷ answers) content (c ∷ rest) = stop broken content
write_all (wrote n ∷ answers) content (c ∷ rest) =
    see (content ++ take n (c ∷ rest))
      (write_all answers (content ++ take n (c ∷ rest)) (drop n (c ∷ rest)))

-- What the calls answer, in their order.
pub record Answers : Type 0 where
  pub dir_made : Bool
  pub opened : Bool
  pub writes : List Answer
  pub synced : Bool
  pub closed : Bool
  pub removed : Bool
  pub renamed : Bool
  pub dir_opened : Bool
  pub dir_synced : Bool

-- The result is `none` while a write is awaited. The disk is listed after each call that changes it.
pub record Run : Type 0 where
  pub result : Option Bool
  pub disks : List Disk
  pub last : Disk

abbrev pub return : Option Bool → Disk → Run
return result d = record { result = result; disks = []; last = d }

abbrev pub then_at : Disk → Run → Run
then_at d r = record r { disks = d ∷ r.disks }

abbrev pub temp_at : Bool → Disk → List ℕ → Disk
temp_at synced d content = record d { temp = some (record { bytes = content; synced = synced }) }

-- fs::remove of the temporary file.
abbrev pub give_up : Answers → Disk → Run
give_up a d =
    let gone = record d { temp = none } in
    if a.removed then then_at gone (return (some false) gone) else return (some false) d

abbrev pub publish : Answers → Disk → Run
publish a d =
    let moved : Disk = record { target = d.temp; temp = none } in
    if a.renamed
    then then_at moved (return (some (a.dir_opened && a.dir_synced)) moved)
    else give_up a d

abbrev pub close_temp : Answers → Disk → Run
close_temp a d = if a.closed then publish a d else give_up a d

abbrev pub sync_temp : Answers → Disk → List ℕ → Run
sync_temp a d content =
    let synced = temp_at true d content in
    if a.synced then then_at synced (close_temp a synced) else give_up a (temp_at false d content)

abbrev pub after_write : Answers → Disk → List ℕ → Written → Run
after_write a d content waiting = return none (temp_at false d content)
after_write a d content broken = give_up a (temp_at false d content)
after_write a d content whole = sync_temp a d content

unfoldable pub show_seen : Disk → List (List ℕ) → Run → Run
show_seen d [] r = r
show_seen d (content ∷ seen) r = then_at (temp_at false d content) (show_seen d seen r)

abbrev pub write_temp : Answers → Disk → List ℕ → Run
write_temp a d bytes =
    let w = write_all a.writes [] bytes in
    then_at (temp_at false d []) (show_seen d w.seen (after_write a d w.content w.end))

unfoldable pub write_progress : Answers → Disk → MissionProgress → Run
write_progress a d p =
    if not (is_lower_hex64 p.path_artifact_sha256)
    then return (some false) d
    else if not (plain_string p.state) || not (plain_string p.updated_utc)
    then return (some false) d
    else if not a.dir_made
    then return (some false) d
    else if not a.opened
    then return (some false) d
    else write_temp a d (serialize_progress p)

abbrev pub max_progress_bytes : ℕ
max_progress_bytes = 4194304

-- An entry of the directory; a size or a content that cannot be read is `none`.
pub record Entry : Type 0 where
  pub stem : List ℕ
  pub is_json : Bool
  pub is_regular : Bool
  pub size : Option ℕ
  pub content : Option (List ℕ)

pub data Warning : Type 0 where
  not_a_name oversized read_failed other_artifact out_of_turns : Warning
  invalid : Error → Warning

pub data Loaded : Type 0 where
  skipped : Loaded
  warned : Warning → Loaded
  loaded : List ℕ → MissionProgress → Loaded

abbrev pub too_large : Option ℕ → Bool
too_large none = true
too_large (some n) = ltb max_progress_bytes n

abbrev pub keep_parsed : List ℕ → Outcome MissionProgress → Loaded
keep_parsed id out_of_fuel = warned out_of_turns
keep_parsed id (fails e) = warned (invalid e)
keep_parsed id (gives p) =
    if not (same_text p.path_artifact_sha256 id) then warned other_artifact else loaded id p

abbrev pub read_entry : List ℕ → Option (List ℕ) → Loaded
read_entry id none = warned read_failed
read_entry id (some bytes) = keep_parsed id (parse_progress bytes)

unfoldable pub load_entry : Entry → Loaded
load_entry e =
    if not e.is_json
    then skipped
    else if not (is_lower_hex64 e.stem) || not e.is_regular
    then warned not_a_name
    else if too_large e.size
    then warned oversized
    else read_entry e.stem e.content

-- The records by artifact, the latest first, and the warnings.
pub record Directory : Type 0 where
  pub records : List (List ℕ × MissionProgress)
  pub warnings : List Warning

abbrev pub take_entry : Loaded → Directory → Directory
take_entry skipped dir = dir
take_entry (warned w) dir = record dir { warnings = w ∷ dir.warnings }
take_entry (loaded id p) dir = record dir { records = (id, p) ∷ dir.records }

unfoldable pub load_all : List Entry → Directory → Directory
load_all [] dir = dir
load_all (e ∷ entries) dir = load_all entries (take_entry (load_entry e) dir)

abbrev pub load_progress_dir : List Entry → Directory
load_progress_dir entries = load_all entries (record { records = []; warnings = [] })
