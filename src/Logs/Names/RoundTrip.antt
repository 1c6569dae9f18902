-- ===== src/Logs/Names/RoundTrip.antt =====
-- logger.go: the day of an archive is read off its name.
use clip_sync_server.Base.{
  ◌++◌, ◌-◌, Option, Text, [], ap, append_assoc, arith, codes, if◌then◌else◌, false, length,
  length-append, none, refl, same_refl, some, sym, true, ℕ, ◌∙◌, ◌∷◌, ◌≡◌, drop-append, take-append,
}
use clip_sync_server.Logs.{RotatingWriter, cleanup_expired}
use clip_sync_server.Logs.Names.{
  archive_name, day_from_archive_name, has_suffix, is_removed, log_suffix, trim_prefix, trim_suffix,
}
use clip_sync_server.Text.{has_prefix}
use clip_sync_server.Text.Split.{has_prefix-append}

has_suffix-append : (s suffix : Text) → has_suffix suffix (s ++ suffix) ≡ true
unfolding has_suffix
has_suffix-append [] [] = refl
has_suffix-append [] (c ∷ suffix) = rw (same_refl (c ∷ suffix)) refl
has_suffix-append (c ∷ s) suffix = ground (arith, has_suffix-append s suffix)

trim_suffix-append : (s suffix : Text) → trim_suffix suffix (s ++ suffix) ≡ s
unfolding trim_suffix
trim_suffix-append s suffix =
    let rest : length (s ++ suffix) - length suffix ≡ length s =
      omega (arith, length-append s suffix) in
    rw (has_suffix-append s suffix, rest) (take-append s suffix)

trim_prefix-append : (prefix s : Text) → trim_prefix prefix (prefix ++ s) ≡ s
unfolding trim_prefix
trim_prefix-append prefix s = rw (has_prefix-append prefix s) (drop-append prefix s)

pub day_from_archive_name-archive_name :
    (parse_date : Text → Option ℕ) (prefix day : Text)
    → day_from_archive_name parse_date prefix (archive_name prefix day) ≡ parse_date day
unfolding day_from_archive_name archive_name
day_from_archive_name-archive_name parse_date prefix day =
    let want = prefix ++ codes "-" in
    let whole : want ++ (day ++ log_suffix) ≡ archive_name prefix day =
      append_assoc prefix (codes "-") (day ++ log_suffix) in
    let joined : (want ++ day) ++ log_suffix ≡ archive_name prefix day =
      append_assoc want day log_suffix ∙ whole in
    let ends =
      ap (has_suffix log_suffix) (sym joined) ∙ has_suffix-append (want ++ day) log_suffix in
    let starts = ap (has_prefix want) (sym whole) ∙ has_prefix-append want (day ++ log_suffix) in
    let middle = ap (trim_prefix want) (sym whole) ∙ trim_prefix-append want (day ++ log_suffix) in
    rw (starts, ends, middle, trim_suffix-append day log_suffix) refl

-- If a date is read back as the day that it was written for: after a cleanup the archive of a day
-- has its lines, or none if the name of its file says that it is to be removed; and a name from
-- which no date can be read is never removed.
pub cleanup_expired-is_removed :
    (parse_date : Text → Option ℕ) (format_date : ℕ → Text) (prefix : Text) (today : ℕ)
    (w : RotatingWriter)
    → ((d : ℕ) → parse_date (format_date d) ≡ some d)
    → ((d : ℕ)
        → (cleanup_expired today w).files.archives d ≡ (
            if is_removed parse_date prefix w.max_age_days today
              (archive_name prefix (format_date d))
            then []
            else w.files.archives d))
      × ((name : Text)
          → day_from_archive_name parse_date prefix name ≡ none
          → is_removed parse_date prefix w.max_age_days today name ≡ false)
unfolding cleanup_expired is_removed
cleanup_expired-is_removed parse_date format_date prefix today w back = (
  λ d.
      rw (day_from_archive_name-archive_name parse_date prefix (format_date d), back d)
        (ground arith),
  λ name unread. rw unread (ground arith),
)
