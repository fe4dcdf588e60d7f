-- ===== src/Mission/Progress/Atomic.antt =====
-- At each moment of a write the record's file is the old one or the new one, whole and synced.
use dyx_3wd.Base.{
  ℕ, ◌≡◌, refl, sym, ap, ◌∙◌, ◌⊎◌, inl, inr, true, false, not, ◌||◌, Option, none, some, List, [],
  ◌∷◌, ◌++◌, arith, if_cases, drop, take, All, take-drop,
}
use dyx_3wd.Mission.Progress.Record.{
  MissionProgress, is_lower_hex64, plain_string, serialize_progress,
}
use dyx_3wd.Mission.Progress.Files.{
  File, Disk, Answer, interrupted, failed, wrote, Written, waiting, broken, whole, write_all,
  Answers, Run, give_up, publish, close_temp, sync_temp, after_write, show_seen, write_temp,
  write_progress, temp_at, then_at, return,
}

-- The file of a record.
abbrev pub written : MissionProgress → Option File
written p = some (record { bytes = serialize_progress p; synced = true })

-- The old file or the new one after each call and at the end, and the new one on success.
pub record IsAtomic (old new : Option File) (r : Run) : Type 0 where
  pub each : All (λ (d : Disk). (d.target ≡ old) ⊎ (d.target ≡ new)) r.disks
  pub at_last : (r.last.target ≡ old) ⊎ (r.last.target ≡ new)
  pub success : r.result ≡ some true → r.last.target ≡ new

append_nil : (xs : List ℕ) → xs ++ [] ≡ xs
append_nil [] = refl
append_nil (x ∷ xs) = ap (λ l. x ∷ l) (append_nil xs)

append_assoc : (xs ys zs : List ℕ) → (xs ++ ys) ++ zs ≡ xs ++ (ys ++ zs)
append_assoc [] ys zs = refl
append_assoc (x ∷ xs) ys zs = ap (λ l. x ∷ l) (append_assoc xs ys zs)

-- When the loop has written it all, the file holds it all.
write_all-content :
    (answers : List Answer) (content rest : List ℕ)
    → (write_all answers content rest).end ≡ whole
    → (write_all answers content rest).content ≡ content ++ rest
unfolding write_all
write_all-content answers content [] h = sym (append_nil content)
write_all-content [] content (c ∷ rest) h = ground (arith, h)
write_all-content (interrupted ∷ answers) content (c ∷ rest) h =
    write_all-content answers content (c ∷ rest) h
write_all-content (failed ∷ answers) content (c ∷ rest) h = ground (arith, h)
write_all-content (wrote n ∷ answers) content (c ∷ rest) h =
    write_all-content answers (content ++ take n (c ∷ rest)) (drop n (c ∷ rest)) h
    ∙ append_assoc content (take n (c ∷ rest)) (drop n (c ∷ rest))
    ∙ ap (λ l. content ++ l) (take-drop n (c ∷ rest))

module _ (old new : Option File) where
  failure : (d : Disk) → d.target ≡ old → IsAtomic old new (return (some false) d)
  failure d h = record { each = tt; at_last = inl h; success = λ e. ground (arith, e) }

  awaited : (d : Disk) → d.target ≡ old → IsAtomic old new (return none d)
  awaited d h = record { each = tt; at_last = inl h; success = λ e. ground (arith, e) }

  after :
      (d : Disk) (r : Run) → d.target ≡ old → IsAtomic old new r → IsAtomic old new (then_at d r)
  after d r h safe = record {
    each = (inl h, safe.each);
    at_last = safe.at_last;
    success = safe.success;
  }

module _ (old new : Option File) (a : Answers) where
  give_up-IsAtomic : (d : Disk) → d.target ≡ old → IsAtomic old new (give_up a d)
  give_up-IsAtomic d h =
      let gone = record d { temp = none } in
      if_cases (IsAtomic old new) a.removed _ _
        (λ done. after old new gone (return (some false) gone) h (failure old new gone h))
        (λ kept. failure old new d h)

  publish-IsAtomic : (d : Disk) → d.target ≡ old → d.temp ≡ new → IsAtomic old new (publish a d)
  publish-IsAtomic d h k =
      if_cases (IsAtomic old new) a.renamed _ _
        (λ moved. record { each = (inr k, tt); at_last = inr k; success = λ e. k })
        (λ stays. give_up-IsAtomic d h)

  close_temp-IsAtomic :
      (d : Disk) → d.target ≡ old → d.temp ≡ new → IsAtomic old new (close_temp a d)
  close_temp-IsAtomic d h k =
      if_cases (IsAtomic old new) a.closed _ _ (λ done. publish-IsAtomic d h k)
        (λ open_still. give_up-IsAtomic d h)

  sync_temp-IsAtomic :
      (d : Disk) (content : List ℕ)
      → d.target ≡ old
      → some (record { bytes = content; synced = true }) ≡ new
      → IsAtomic old new (sync_temp a d content)
  sync_temp-IsAtomic d content h k =
      let synced = temp_at true d content in
      if_cases (IsAtomic old new) a.synced _ _
        (λ done. after old new synced (close_temp a synced) h (close_temp-IsAtomic synced h k))
        (λ lost. give_up-IsAtomic (temp_at false d content) h)

  after_write-IsAtomic :
      (d : Disk) (content : List ℕ) (w : Written)
      → d.target ≡ old
      → (w ≡ whole → some (record { bytes = content; synced = true }) ≡ new)
      → IsAtomic old new (after_write a d content w)
  after_write-IsAtomic d content waiting h k = awaited old new (temp_at false d content) h
  after_write-IsAtomic d content broken h k = give_up-IsAtomic (temp_at false d content) h
  after_write-IsAtomic d content whole h k = sync_temp-IsAtomic d content h (k refl)

show_seen-IsAtomic :
    (old new : Option File) (d : Disk) (seen : List (List ℕ)) (r : Run)
    → d.target ≡ old
    → IsAtomic old new r
    → IsAtomic old new (show_seen d seen r)
unfolding show_seen
show_seen-IsAtomic old new d [] r h safe = safe
show_seen-IsAtomic old new d (content ∷ seen) r h safe =
    after old new (temp_at false d content) (show_seen d seen r) h
      (show_seen-IsAtomic old new d seen r h safe)

write_temp-IsAtomic :
    (a : Answers) (d : Disk) (p : MissionProgress)
    → IsAtomic d.target (written p) (write_temp a d (serialize_progress p))
write_temp-IsAtomic a d p =
    let bytes = serialize_progress p in
    let w = write_all a.writes [] bytes in
    let rest = after_write a d w.content w.end in
    after d.target (written p) (temp_at false d []) (show_seen d w.seen rest) refl (
      show_seen-IsAtomic d.target (written p) d w.seen rest refl (
        after_write-IsAtomic d.target (written p) a d w.content w.end refl (λ end.
          ap (λ l. some (record { bytes = l; synced = true }))
            (write_all-content a.writes [] bytes end))))

-- Whatever the system answers, after each call of a write and at its end the file of the record is
-- as it was or holds the whole new record, synced; and when the write reports success it holds the
-- new record.
pub write_progress-IsAtomic :
    (a : Answers) (d : Disk) (p : MissionProgress)
    → IsAtomic d.target (written p) (write_progress a d p)
unfolding write_progress
write_progress-IsAtomic a d p =
    let safe = failure d.target (written p) d refl in
    if_cases (IsAtomic d.target (written p)) (not (is_lower_hex64 p.path_artifact_sha256)) _ _
      (λ refused. safe)
      (λ id.
        if_cases (IsAtomic d.target (written p))
          (not (plain_string p.state) || not (plain_string p.updated_utc)) _ _ (λ refused. safe)
          (λ texts.
            if_cases (IsAtomic d.target (written p)) (not a.dir_made) _ _ (λ refused. safe)
              (λ dir.
                if_cases (IsAtomic d.target (written p)) (not a.opened) _ _ (λ refused. safe)
                  (λ file. write_temp-IsAtomic a d p))))
