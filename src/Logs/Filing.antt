-- ===== src/Logs/Filing.antt =====
-- logger.go: each line is filed under the day on which it was written.
-- The lines of a day, in the archive and in the current file.
use clip_sync_server.Base.{
  ◌&&◌, ◌+◌, ◌++◌, ◌==◌, Bool, List, Text, [], if◌then◌else◌, leb, ltb, true, ◌||◌, ℕ, ◌≡◌, ◌∷◌,
  arith, false, append-nil, append_assoc, Bool-cases, inl, inr, refl, ◌∙◌,
}
use clip_sync_server.Logs.{
  LogFiles, RotatingWriter, archive_file, write, open_today, cleanup_expired, new_rotating_writer,
}

abbrev pub lines_of : ℕ → LogFiles → List Text
lines_of d f = f.archives d ++ (if f.exists && d == f.modified then f.current else [])

-- The current file is there and is that of the current day.
abbrev pub IsFiled : RotatingWriter → Type 0
IsFiled w = (w.files.exists ≡ true) × (w.files.modified ≡ w.current_day)

-- The archive of the day is kept on the day `today`.
abbrev pub is_kept : ℕ → ℕ → RotatingWriter → Bool
is_kept today d w = leb w.max_age_days 0 || ltb today (d + w.max_age_days)

-- Whether archiving works the first time, the second time or never, a write to a writer whose
-- current file is that of the current day leaves it so.
pub write-IsFiled :
    (one two : Bool) (today : ℕ) (line : Text) (w : RotatingWriter)
    → IsFiled w
    → IsFiled (write one two today line w).0
unfolding write archive_file open_today cleanup_expired
write-IsFiled one two today line w (there, filed) = ground arith

-- A new writer that could open its file has a current file, and it is that of the current day.
pub new_rotating_writer-IsFiled :
    (works : Bool) (today n : ℕ) (f : LogFiles)
    → (new_rotating_writer works today n f).1 ≡ true
    → IsFiled (new_rotating_writer works today n f).0
unfolding new_rotating_writer archive_file open_today cleanup_expired
new_rotating_writer-IsFiled works today n f done = ground arith

add_line :
    (xs cs : List Text) (line : Text) (d m today : ℕ)
    → m ≡ today
    → xs ++ (if d == today then cs ++ line ∷ [] else [])
      ≡ (xs ++ (if d == m then cs else [])) ++ (if d == today then line ∷ [] else [])
add_line xs cs line d m today eq_m =
    let assoc = append_assoc xs cs (line ∷ []) in
    let unit = append-nil (xs ++ []) in let whole = append-nil (xs ++ cs) in ground arith

move_file :
    (xs cs : List Text) (line : Text) (d m today : ℕ)
    → (m == today) ≡ false
    → (if d == m then xs ++ cs else xs) ++ (if d == today then line ∷ [] else [])
      ≡ (xs ++ (if d == m then cs else [])) ++ (if d == today then line ∷ [] else [])
move_file xs cs line d m today other = let unit = append-nil xs in ground arith

abbrev filed_writer : ℕ → List Text → (ℕ → List Text) → Bool → ℕ → RotatingWriter
filed_writer day lines archives is_open n = record {
  files = record { exists = true; current = lines; modified = day; archives = archives };
  current_day = day;
  is_open = is_open;
  max_age_days = n;
}

next_day :
    (one two : Bool) (today : ℕ) (line : Text) (day : ℕ) (lines : List Text)
    → (old : ℕ → List Text) (was_open : Bool) (n : ℕ) → (today == day) ≡ false
    → (day == today) ≡ false
    → (write one two today line (filed_writer day lines old was_open n)).1 ≡ true
    → (d : ℕ) → is_kept today d (filed_writer day lines old was_open n) ≡ true
    → lines_of d (write one two today line (filed_writer day lines old was_open n)).0.files
      ≡ (if d == day then old d ++ lines else old d) ++ (if d == today then line ∷ [] else [])
unfolding write archive_file open_today cleanup_expired
next_day true two today line day lines old was_open n other away done d kept =
    elim (Bool-cases (leb n 0)) [
      | inl all ↦ rw (other, all) refl
      | inr some_days ↦
          let old_enough : leb (d + n) today ≡ false = ground arith in
          rw (other, some_days, old_enough) refl
    ]
next_day false true today line day lines old was_open n other away done d kept =
    elim (Bool-cases (leb n 0)) [
      | inl all ↦ rw (other, away, all) refl
      | inr some_days ↦
          let old_enough : leb (d + n) today ≡ false = ground arith in
          rw (other, away, some_days, old_enough) refl
    ]
next_day false false today line day lines old was_open n other away done d kept =
    let failed = rw (other, away) at done in ground arith

same_day :
    (one two : Bool) (today : ℕ) (line : Text) (w : RotatingWriter)
    → IsFiled w
    → (today == w.current_day) ≡ true
    → (write one two today line w).1 ≡ true
    → (d : ℕ)
    → lines_of d (write one two today line w).0.files
      ≡ lines_of d w.files ++ (if d == today then line ∷ [] else [])
unfolding write
same_day one two today line w (there, filed) now done d =
    let eq_day : w.files.modified ≡ today = ground arith in
    let was_open : w.is_open ≡ true = ground arith in
    rw (now, was_open, there)
      (add_line (w.files.archives d) w.files.current line d w.files.modified today eq_day)

IsFiled-filed_writer :
    (w : RotatingWriter)
    → IsFiled w
    → w ≡ filed_writer w.current_day w.files.current w.files.archives w.is_open w.max_age_days
IsFiled-filed_writer w (there, filed) =
    λ i. record w { files = record w.files { exists = there i; modified = filed i } }

-- For a writer whose current file is that of the current day, when a write succeeds, and whether
-- each of its two attempts at archiving works: the lines of every day whose archive is kept are
-- what they were, with the line added at the end of the day of the write.
pub write-lines_of :
    (one two : Bool) (today : ℕ) (line : Text) (w : RotatingWriter)
    → IsFiled w
    → (write one two today line w).1 ≡ true
    → (d : ℕ) → is_kept today d w ≡ true
    → lines_of d (write one two today line w).0.files
      ≡ lines_of d w.files ++ (if d == today then line ∷ [] else [])
write-lines_of one two today line w p done d kept = elim (Bool-cases (today == w.current_day)) [
  | inl now ↦ same_day one two today line w p now done d
  | inr other ↦
      let e = IsFiled-filed_writer w p in
      let away : (w.current_day == today) ≡ false = ground arith in
      rw (e) (
        next_day one two today line w.current_day w.files.current w.files.archives w.is_open
          w.max_age_days other away (rw (e) at done) d kept
        ∙ move_file (w.files.archives d) w.files.current line d w.current_day today away)
]
