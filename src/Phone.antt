-- ===== src/Phone.antt =====
-- openapi_http.go: the comparison of telephone numbers by the query of short messages.
pub mod Laws
mod Tests
use clip_sync_server.Base.{
  ◌&&◌, ◌+◌, ◌++◌, ◌==◌, Bool, Text, [], byte_len, codes, drop, if◌then◌else◌, false, is_empty,
  same, true, ◌||◌, ℕ, ◌∷◌,
}
use clip_sync_server.Text.{has_prefix, is_digit, is_lower, is_upper, trim_space}

-- The switch of `normalizePhoneQuery`: the runes that one rune writes.
unfoldable pub normal_rune : ℕ → Text
normal_rune c =
    if is_digit c
    then c ∷ []
    else if is_lower c
    then c ∷ []
    else if is_upper c
    then (c + 32) ∷ []
    else []

unfoldable pub normal_runes : Text → Text
normal_runes [] = []
normal_runes (c ∷ s) = normal_rune c ++ normal_runes s

unfoldable pub normalize_phone_query : Text → Text
normalize_phone_query s = normal_runes (trim_space s)

-- `stripCN`; a normalized number is ASCII, so its bytes are its runes.
unfoldable pub strip_cn : Text → Text
strip_cn x = if has_prefix (codes "86") x && byte_len x == 13 then drop 2 x else x

unfoldable pub phone_equal : Text → Text → Bool
phone_equal actual query =
    let a = normalize_phone_query actual in
    let q = normalize_phone_query query in
    if is_empty a || is_empty q
    then false
    else if same a q
    then true
    else same (strip_cn a) (strip_cn q)
