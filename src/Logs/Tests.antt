-- ===== src/Logs/Tests.antt =====
-- logger.go: a writer that keeps two days of archives, from one day to the next.
use clip_sync_server.Base.{
  [], codes, refl, true, ◌∷◌, ◌≡◌, ◌++◌, ◌==◌, if◌then◌else◌, false, Option, Text, none, some, ℕ,
}
use clip_sync_server.Logs.{
  RotatingWriter, archive_file, cleanup_expired, new_rotating_writer, open_today, write,
}
use clip_sync_server.Logs.Filing.{lines_of, write-lines_of}
use clip_sync_server.Logs.Names.{day_from_archive_name, is_removed, log_at}
use clip_sync_server.Text.{has_prefix}
use clip_sync_server.Settings.{level_info, level_warn}

abbrev yesterdays : RotatingWriter
yesterdays = record {
  files = record {
    exists = true;
    current = codes "two" ∷ [];
    modified = 5;
    archives = λ d. if d == 5 then codes "one" ∷ [] else codes "old" ∷ [];
  };
  current_day = 5;
  is_open = true;
  max_age_days = 2;
}

archive_merged :
    (write true true 6 (codes "three") yesterdays).0.files.archives 5
    ≡ codes "one" ∷ codes "two" ∷ []
unfolding write archive_file open_today cleanup_expired
archive_merged = refl

archive_expired : (write true true 6 (codes "three") yesterdays).0.files.archives 4 ≡ []
unfolding write archive_file open_today cleanup_expired
archive_expired = refl

archive_failed : (write false false 6 (codes "three") yesterdays).1 ≡ false
unfolding write archive_file open_today cleanup_expired
archive_failed = refl

opened_anew : (new_rotating_writer true 6 2 yesterdays.files).0.files.current ≡ []
unfolding new_rotating_writer archive_file open_today cleanup_expired
opened_anew = refl

write-lines_of_example :
    lines_of 5 (write true true 6 (codes "three") yesterdays).0.files
    ≡ lines_of 5 yesterdays.files ++ (if 5 == 6 then codes "three" ∷ [] else [])
unfolding write archive_file open_today cleanup_expired
write-lines_of_example =
    write-lines_of true true 6 (codes "three") yesterdays (refl, refl) refl 5 refl

-- A date is one character.
abbrev date_of : ℕ → Text
date_of d = d ∷ []

abbrev read_date : Text → Option ℕ
read_date (d ∷ []) = some d
read_date _ = none

foreign_test : is_removed read_date (codes "message") 2 9 (codes "clipsync-3.log") ≡ false
unfolding is_removed day_from_archive_name has_prefix
foreign_test = refl

level_test : log_at level_warn level_info (codes "x") [] ≡ []
unfolding log_at
level_test = refl
