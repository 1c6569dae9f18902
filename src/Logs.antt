-- ===== src/Logs.antt =====
-- logger.go: `dailyRotatingWriter`, the log file of today and the archives of the days before. A
-- day
-- is its number; `archives` holds the lines of each archive, none for one that does not exist.
-- Renaming and copying a file either work as a whole or leave it; which of them work is an
-- argument.
pub mod Filing
pub mod Names
mod Tests
use clip_sync_server.Base.{
  ◌&&◌, ◌+◌, ◌++◌, ◌==◌, Bool, List, Text, [], if◌then◌else◌, false, leb, not, true, ℕ, ◌∷◌,
}
use clip_sync_server.Auth.Store.{first}
use clip_sync_server.Limit.{second}

pub record LogFiles : Type 0 where
  pub exists : Bool
  pub current : List Text
  pub modified : ℕ
  pub archives : ℕ → List Text

pub record RotatingWriter : Type 0 where
  pub files : LogFiles
  pub current_day : ℕ
  pub is_open : Bool
  pub max_age_days : ℕ

-- `archiveFile`: a rename, or a copy to the end of the archive that is there already.
unfoldable pub archive_file : Bool → ℕ → LogFiles → LogFiles × Bool
archive_file works day f =
    if works && f.exists
    then (
      record f {
        exists = false;
        current = [];
        archives = λ d. if d == day then f.archives d ++ f.current else f.archives d;
      },
      true,
    )
    else (f, false)

abbrev pub opened_today : ℕ → RotatingWriter → LogFiles → RotatingWriter
opened_today today w f = record w {
  files = record f { exists = true; modified = if f.exists then f.modified else today };
  current_day = today;
  is_open = true;
}

abbrev pub open_archived : ℕ → RotatingWriter → LogFiles × Bool → RotatingWriter × Bool
open_archived today w (f, done) =
    if done then (opened_today today w f, true) else (record w { files = f }, false)

-- `openToday`, and whether it succeeds.
unfoldable pub open_today : Bool → ℕ → RotatingWriter → RotatingWriter × Bool
open_today works today w =
    if w.files.exists && not (w.files.modified == today)
    then open_archived today w (archive_file works w.files.modified w.files)
    else (opened_today today w w.files, true)

-- `cleanupExpired`, after midnight of `today` and with the clock in UTC, in which the dates of the
-- archives are read: the archives that are as many days old as are kept go too.
unfoldable pub cleanup_expired : ℕ → RotatingWriter → RotatingWriter
cleanup_expired today w = if leb w.max_age_days 0 then w else record w {
  files = record w.files {
    archives = λ d. if leb (d + w.max_age_days) today then [] else w.files.archives d;
  };
}

abbrev pub appended : ℕ → Text → RotatingWriter → RotatingWriter
appended today line w = record w {
  files = record w.files { current = w.files.current ++ line ∷ []; modified = today };
}

abbrev pub write_opened : ℕ → Text → RotatingWriter × Bool → RotatingWriter × Bool
write_opened today line (w, done) =
    if done then (appended today line (cleanup_expired today w), true) else (w, false)

-- `Write`; a failure to archive is passed over at first. The flags are for the two archivings.
unfoldable pub write : (one two : Bool) → ℕ → Text → RotatingWriter → RotatingWriter × Bool
write one two today line w =
    if today == w.current_day
    then (if w.is_open then (appended today line w, true) else (w, false))
    else let closed = record w {
      is_open = false;
      files = (archive_file one w.current_day w.files).0;
    } in
      write_opened today line (open_today two today closed)

abbrev pub cleaned_if_open : ℕ → RotatingWriter × Bool → RotatingWriter × Bool
cleaned_if_open today (w, done) = if done then (cleanup_expired today w, true) else (w, false)

-- `newDailyRotatingWriter`, in directories that are there.
unfoldable pub new_rotating_writer : Bool → ℕ → ℕ → LogFiles → RotatingWriter × Bool
new_rotating_writer works today n f = cleaned_if_open today (
    open_today works today
      (record { files = f; current_day = 0; is_open = false; max_age_days = n }))
