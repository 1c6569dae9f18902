-- ===== src/Cleaning/Tests.antt =====
-- main.go: the cleaning at messages as phones send them.
use clip_sync_server.Base.{◌+◌, ◌++◌, Text, [], codes, false, length, refl, same, ◌∷◌, ◌≡◌}
use clip_sync_server.Cleaning.{
  blocks, candidate, clean, count_in, first_number, has_three_digits, leading_bracket, left_bracket,
  merge_count1, merge_count2, remove_all, right_bracket, sanitize_sms_payload, sender_of, skip_all,
  skip_blanks, skip_ellipsis, strip_numbers,
}
use clip_sync_server.Cleaning.Preview.{
  categorize, category_clipboard, category_notification, category_sms, content_type_of,
  ensure_preview, extract_payload_meta, preview_limit, truncate_preview,
}
use clip_sync_server.Text.{cut, has_prefix, is_digit, is_space, trim_left, trim_right, trim_space}
use clip_sync_server.Cleaning.Rounds.{starts_with_number, strip_numbers_terminates}

abbrev chinese : Text
chinese = 0x62db ∷ 0x884c ∷ []

-- A text in the brackets, and a number in the brackets.
abbrev signature : Text
signature = left_bracket ∷ chinese ++ right_bracket ∷ []

abbrev number_prefix : Text
number_prefix = left_bracket ∷ codes "+8610690000" ++ right_bracket ∷ []

abbrev message : Text
message = number_prefix ++ b' ' ∷ signature ++ codes "code 1234 [x2] "

cleaning : Unit {0}
unfolding clean strip_numbers leading_bracket skip_blanks has_three_digits is_digit cut remove_all
    merge_count1 merge_count2 count_in skip_all skip_ellipsis has_prefix trim_space trim_left
    trim_right is_space sanitize_sms_payload sender_of first_number blocks candidate same
    extract_payload_meta ensure_preview truncate_preview preview_limit categorize content_type_of
cleaning = tt

-- The number goes, the signature stays.
clean_test : clean message ≡ signature ++ codes "code 1234"
unfolding cleaning
clean_test = refl

sender_test : sender_of message [] ≡ codes "10690000"
unfolding cleaning
sender_test = refl

strip_numbers_terminates_example :
    (strip_numbers (5 + length message) message ≡ strip_numbers (length message) message)
    × (starts_with_number (strip_numbers (5 + length message) message) ≡ false)
strip_numbers_terminates_example = strip_numbers_terminates 5 message

category_test :
    (categorize (codes "notify_pc") (codes "sms_code") ≡ category_sms)
    × (categorize (codes "clipboard") [] ≡ category_clipboard)
    × (categorize (codes "notify_pc") (codes "call") ≡ category_notification)
unfolding cleaning
category_test = (refl, refl, refl)
