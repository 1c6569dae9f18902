-- ===== src/Sms/Keys.antt =====
-- openapi_http.go, store_apikey.go: the administration of the keys of the open query. The random
-- hex
-- digits of a new key are an argument, and so is what `time.Parse` reads.
pub mod Lifetime
pub mod Listed
mod Tests
use clip_sync_server.Base.{
  ◌+◌, ◌++◌, ◌==◌, Bool, List, Option, Result, Text, [], any, codes, if◌then◌else◌, err, false,
  is_empty, length, ltb, none, not, ok, same, select, some, take, true, ◌||◌, ℕ, ◌∷◌,
}
use clip_sync_server.Sms.{ApiKey, is_expired, revoke_api_key}
use clip_sync_server.Auth.Store.{AuthError, MysqlStore, User, find_user_by_id, found}
use clip_sync_server.Text.Decimal.{parse_positive}
use clip_sync_server.Text.{trim_space}

abbrev pub api_key_prefix : Text
api_key_prefix = codes "cs_live_"

-- The key in clear, its hash, and what shows of it.
unfoldable pub generate_api_key : (Text → Text) → Text → Text × Text × Text
generate_api_key sha256 random =
    let plaintext = api_key_prefix ++ random in
    (plaintext, sha256 plaintext, take (length api_key_prefix + 6) plaintext ++ 0x2026 ∷ [])

-- `INSERT` under the unique key on `key_hash`; `id` is the row ID that MySQL gives.
unfoldable pub create_api_key : Bool → (now id : ℕ) → ApiKey → List ApiKey → Option (List ApiKey)
create_api_key done now id k keys =
    if not done || any (λ j. same j.key_hash k.key_hash) keys
    then none
    else some
        (keys ++ record k { id = id; disabled = false; last_used_at = none; created_at = now } ∷ [])

-- `ListAPIKeys`; a user of zero is no restriction. `newest_first` is the ORDER BY on the ID.
unfoldable pub list_api_keys :
    (List ApiKey → List ApiKey) → Bool → ℕ → List ApiKey → Option (List ApiKey)
list_api_keys newest_first done user keys =
    if done
    then some (newest_first (select (λ k. if ltb 0 user then k.user_id == user else true) keys))
    else none

-- The body of a creation.
pub record CreateKeyRequest : Type 0 where
  pub name : Text
  pub device_id : Text
  pub expires_at : Text

-- The time at which the key ends, `none` if the text is no time.
abbrev pub expiry : (Text → Option ℕ) → Text → Option (Option ℕ)
expiry parse_time s =
    if is_empty (trim_space s)
    then some none
    else elim (parse_time (trim_space s)) [ none ↦ none | some t ↦ some (some t) ]

abbrev pub new_key : ℕ → CreateKeyRequest → Text → Text → Option ℕ → ApiKey
new_key user r hash short until = record {
  id = 0;
  user_id = user;
  key_hash = hash;
  key_prefix = short;
  name = trim_space r.name;
  device_id = trim_space r.device_id;
  expires_at = until;
  disabled = false;
  last_used_at = none;
  created_at = 0;
}

abbrev pub stored_key : Text → List ApiKey → Option (List ApiKey) → List ApiKey × Result ℕ Text
stored_key plaintext keys none = (keys, err 400)
stored_key plaintext keys (some keys') = (keys', ok plaintext)

abbrev pub key_until :
    (Text → Text)
    → Bool
    → (now id user : ℕ) → Text
    → CreateKeyRequest
    → List ApiKey
    → Option (Option ℕ)
    → List ApiKey × Result ℕ Text
key_until sha256 done now id user random r keys none = (keys, err 400)
key_until sha256 done now id user random r keys (some until) =
    let (plaintext, hash, short) = generate_api_key sha256 random in
    stored_key plaintext keys (create_api_key done now id (new_key user r hash short until) keys)

abbrev pub key_for :
    (Text → Text)
    → (Text → Option ℕ)
    → Bool
    → (now id user : ℕ) → Option Text
    → CreateKeyRequest
    → List ApiKey
    → List ApiKey × Result ℕ Text
key_for sha256 parse_time done now id user none r keys = (keys, err 500)
key_for sha256 parse_time done now id user (some random) r keys =
    key_until sha256 done now id user random r keys (expiry parse_time r.expires_at)

abbrev pub owner_checked :
    (Text → Text)
    → (Text → Option ℕ)
    → Bool
    → (now id user : ℕ) → Option Text
    → Option CreateKeyRequest
    → List ApiKey
    → Result AuthError User
    → List ApiKey × Result ℕ Text
owner_checked sha256 parse_time done now id user random none keys found = (keys, err 400)
owner_checked sha256 parse_time done now id user random (some r) keys (err e) = (keys, err 404)
owner_checked sha256 parse_time done now id user random (some r) keys (ok u) =
    key_for sha256 parse_time done now id user random r keys

abbrev pub created_for :
    (Text → Text)
    → (Text → Option ℕ)
    → Bool
    → (now id : ℕ) → Option Text
    → Option CreateKeyRequest
    → MysqlStore
    → List ApiKey
    → Option ℕ
    → List ApiKey × Result ℕ Text
created_for sha256 parse_time done now id random r db keys none = (keys, err 400)
created_for sha256 parse_time done now id random r db keys (some user) =
    owner_checked sha256 parse_time done now id user random r keys (find_user_by_id user db)

-- `adminCreateAPIKey`: the key in clear, or the status code of an error. `random` is `none` if the
-- random source fails.
unfoldable pub admin_create_api_key :
    (Text → Text)
    → (Text → Option ℕ)
    → Bool
    → (now id : ℕ) → Option Text
    → Text
    → Option CreateKeyRequest
    → MysqlStore
    → List ApiKey
    → List ApiKey × Result ℕ Text
admin_create_api_key sha256 parse_time done now id random user r db keys =
    created_for sha256 parse_time done now id random r db keys (parse_positive user)

abbrev pub revoked : List ApiKey → Option (List ApiKey) → List ApiKey × ℕ
revoked keys none = (keys, 404)
revoked keys (some keys') = (keys', 200)

abbrev pub revoke_id : Bool → List ApiKey → Option ℕ → List ApiKey × ℕ
revoke_id done keys none = (keys, 400)
revoke_id done keys (some id) =
    if done then revoked keys (revoke_api_key id 0 keys) else (keys, 500)

-- `adminRevokeAPIKey`, with the status code.
unfoldable pub admin_revoke_api_key : Bool → Text → List ApiKey → List ApiKey × ℕ
admin_revoke_api_key done id keys = revoke_id done keys (parse_positive (trim_space id))

-- One row of a list: whether the key has expired, and no more of the key than its prefix.
pub record ApiKeyView : Type 0 where
  pub id : ℕ
  pub user_id : ℕ
  pub key_prefix : Text
  pub name : Text
  pub device_id : Text
  pub disabled : Bool
  pub expired : Bool

unfoldable pub to_api_key_view : ℕ → ApiKey → ApiKeyView
to_api_key_view now k = record {
  id = k.id;
  user_id = k.user_id;
  key_prefix = k.key_prefix;
  name = k.name;
  device_id = k.device_id;
  disabled = k.disabled;
  expired = is_expired now k.expires_at;
}
