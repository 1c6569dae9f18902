-- ===== src/Logs/Names.antt =====
-- logger.go: the names of the archives, and the threshold of the log. time.Parse on a date is a
-- parameter, and a date is the number of its day.
pub mod RoundTrip
use clip_sync_server.Base.{
  ◌&&◌, ◌+◌, ◌++◌, ◌-◌, Bool, List, Option, Text, [], codes, drop, if◌then◌else◌, false, is_empty,
  leb, length, ltb, none, not, same, some, take, ◌||◌, ℕ, ◌∷◌,
}
use clip_sync_server.Settings.{LogLevel, level_debug, level_error, level_info, level_warn}
use clip_sync_server.Text.{has_prefix}

-- strings.HasSuffix(s, suffix), the suffix first.
unfoldable pub has_suffix : Text → Text → Bool
has_suffix suffix [] = is_empty suffix
has_suffix suffix (c ∷ s) = same suffix (c ∷ s) || has_suffix suffix s

-- strings.TrimPrefix and strings.TrimSuffix.
unfoldable pub trim_prefix : Text → Text → Text
trim_prefix prefix s = if has_prefix prefix s then drop (length prefix) s else s

unfoldable pub trim_suffix : Text → Text → Text
trim_suffix suffix s = if has_suffix suffix s then take (length s - length suffix) s else s

abbrev pub log_suffix : Text
log_suffix = codes ".log"

-- The file name of `archivePathFor`, in the folder of the prefix.
unfoldable pub archive_name : Text → Text → Text
archive_name prefix day = prefix ++ (codes "-" ++ (day ++ log_suffix))

unfoldable pub current_name : Text → Text
current_name prefix = prefix ++ log_suffix

unfoldable pub day_from_archive_name : (Text → Option ℕ) → Text → Text → Option ℕ
day_from_archive_name parse_date prefix name =
    let want = prefix ++ codes "-" in
    if not (has_prefix want name) || not (has_suffix log_suffix name)
    then none
    else parse_date (trim_suffix log_suffix (trim_prefix want name))

abbrev pub before_cutoff : ℕ → ℕ → Option ℕ → Bool
before_cutoff n today none = false
before_cutoff n today (some day) = leb (day + n) today

-- Whether `cleanupExpired` removes a file of that name, with `n` days kept.
unfoldable pub is_removed : (Text → Option ℕ) → Text → ℕ → ℕ → Text → Bool
is_removed parse_date prefix n today name =
    not (leb n 0) && before_cutoff n today (day_from_archive_name parse_date prefix name)

abbrev pub level_number : LogLevel → ℕ
level_number level_debug = 0
level_number level_info = 1
level_number level_warn = 2
level_number level_error = 3

-- `logAt` with the threshold that was set.
unfoldable pub log_at : LogLevel → LogLevel → Text → List Text → List Text
log_at current level line written =
    if ltb (level_number level) (level_number current) then written else written ++ line ∷ []
