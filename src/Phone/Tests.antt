-- ===== src/Phone/Tests.antt =====
-- openapi_http.go, telephone numbers: tests, and the theorems at a Chinese mobile number.
use clip_sync_server.Base.{Text, codes, refl, same, true, ◌≡◌}
use clip_sync_server.Text.{
  has_prefix, is_digit, is_lower, is_space, is_upper, trim_left, trim_right, trim_space,
}
use clip_sync_server.Phone.{normal_rune, normal_runes, normalize_phone_query, phone_equal, strip_cn}

abbrev dashed : Text
dashed = codes "+86 138-0013-8000"

abbrev plain : Text
plain = codes "13800138000"

equal_test : phone_equal dashed plain ≡ true
unfolding phone_equal normalize_phone_query normal_runes normal_rune trim_space trim_left trim_right
    is_space is_digit is_lower is_upper strip_cn has_prefix same
equal_test = refl

reflexive_test : phone_equal plain plain ≡ true
unfolding phone_equal normalize_phone_query normal_runes normal_rune trim_space trim_left trim_right
    is_space is_digit is_lower is_upper strip_cn has_prefix same
reflexive_test = refl
