-- ===== src/Sms/Keys/Listed.antt =====
-- openapi_http.go: the lists of keys, and the key that a request of the open query carries.
use clip_sync_server.Base.{
  ◌<◌, ◌==◌, All, All-map, All-of, All-select, Bool, List, Option, Result, Text, [], arith, codes,
  drop, if◌then◌else◌, err, is_empty, length, ltb, map, none, not, ok, select, some, true, ℕ, ◌≡◌,
}
use clip_sync_server.Sms.{ApiKey}
use clip_sync_server.Sms.Keys.{ApiKeyView, list_api_keys, to_api_key_view}
use clip_sync_server.Text.{has_prefix, trim_space}
use clip_sync_server.Text.Decimal.{parse_positive}
use clip_sync_server.Hub.Loop.{total}

abbrev listed : ℕ → Option (List ApiKey) → Result ℕ (List ApiKeyView × ℕ)
listed now none = err 500
listed now (some keys) = ok (map (to_api_key_view now) keys, length keys)

abbrev listed_for :
    (List ApiKey → List ApiKey) → Bool → ℕ → List ApiKey → Option ℕ → Result ℕ (List ApiKeyView × ℕ)
listed_for newest_first done now keys none = err 400
listed_for newest_first done now keys (some user) =
    listed now (list_api_keys newest_first done user keys)

-- `adminListAPIKeys`, with the ID in the path, and `adminListAllAPIKeys`: the rows and their
-- number.
unfoldable pub admin_list_api_keys :
    (List ApiKey → List ApiKey) → Bool → ℕ → Text → List ApiKey → Result ℕ (List ApiKeyView × ℕ)
admin_list_api_keys newest_first done now id keys =
    listed_for newest_first done now keys (parse_positive id)

unfoldable pub admin_list_all_api_keys :
    (List ApiKey → List ApiKey) → Bool → ℕ → List ApiKey → Result ℕ (List ApiKeyView × ℕ)
admin_list_all_api_keys newest_first done now keys =
    listed now (list_api_keys newest_first done 0 keys)

-- The two headers, empty if they are not there.
pub record KeyHeaders : Type 0 where
  pub x_api_key : Text
  pub authorization : Text

unfoldable pub extract_api_key : KeyHeaders → Text
extract_api_key h =
    let auth = trim_space h.authorization in
    if not (is_empty (trim_space h.x_api_key))
    then trim_space h.x_api_key
    else if has_prefix (codes "Bearer ") auth
    then trim_space (drop 7 auth)
    else []

-- All rows of the list of one user are that user's.
admin_list_api_keys-owned :
    (newest_first : List ApiKey → List ApiKey) (now u : ℕ) (id : Text) (keys : List ApiKey)
    (views : List ApiKeyView) (total : ℕ)
    → ((xs : List ApiKey)
        → All (λ k. k.user_id ≡ u) xs
        → All (λ k. k.user_id ≡ u) (newest_first xs))
    → parse_positive id ≡ some u
    → 0 < u
    → admin_list_api_keys newest_first true now id keys ≡ ok (views, total)
    → All (λ v. v.user_id ≡ u) views
unfolding admin_list_api_keys list_api_keys to_api_key_view
admin_list_api_keys-owned newest_first now u id keys views total kept is_user p h =
    let mine = select (λ k. k.user_id == u) keys in
    let positive : ltb 0 u ≡ true = ground arith in
    let answer = rw (is_user, positive) at h in
    let is_views : views ≡ map (to_api_key_view now) (newest_first mine) = ground arith in
    rw is_views (
      All-map (λ k. k.user_id ≡ u) (λ v. v.user_id ≡ u) (to_api_key_view now) (newest_first mine)
        (λ k e. e)
        (kept mine (
          All-select (λ k. k.user_id == u) (λ k. k.user_id ≡ u) keys
            (All-of (λ k. (k.user_id == u) ≡ true → k.user_id ≡ u) keys (λ k e. ground arith)))))
