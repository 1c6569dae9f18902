-- ===== src/Sms/Keys/Tests.antt =====
-- openapi_http.go: a key of one user, created and revoked.
use clip_sync_server.Base.{
  ◌++◌, List, Option, Result, Text, [], ap, codes, false, none, ok, refl, same, some, true, ℕ, ◌∷◌,
  ◌≡◌, ◌≢◌,
}
use clip_sync_server.Sms.{
  ApiKey, CachedSms, PublicApiConfig, SmsQuery, SmsState, answered, get_api_key_by_hash,
  open_api_query_sms, revoke_api_key,
}
use clip_sync_server.Sms.Keys.{
  CreateKeyRequest, admin_create_api_key, admin_revoke_api_key, create_api_key, generate_api_key,
  list_api_keys, to_api_key_view,
}
use clip_sync_server.Sms.Keys.Lifetime.{
  IsUsable, admin_create_api_key-IsUsable, revoked_key_refused,
}
use clip_sync_server.Auth.Store.{MysqlStore, User, find_user_by_id, first}
use clip_sync_server.Text.{is_digit, is_space, trim_left, trim_right, trim_space}
use clip_sync_server.Text.Decimal.{parse_digits, parse_int, parse_positive}

abbrev ann : User
ann = record {
  id = 7;
  username = codes "ann";
  nickname = [];
  password_hash = codes "pw";
  disabled = false;
  created_at = 0;
}

abbrev db : MysqlStore
db = record { users = ann ∷ []; sessions = []; fails = λ stmt. false }

abbrev request : CreateKeyRequest
request = record { name = codes " bot "; device_id = []; expires_at = [] }

abbrev unhashed : Text → Text
unhashed t = t

abbrev no_time : Text → Option ℕ
no_time s = none

abbrev created : List ApiKey × Result ℕ Text
created =
    admin_create_api_key unhashed no_time true 9 1 (some (codes "ab12cd34")) (codes "7")
      (some request) db []

abbrev plain_key : Text
plain_key = codes "cs_live_ab12cd34"

keys : Unit {0}
unfolding admin_create_api_key create_api_key generate_api_key parse_positive parse_int parse_digits
    is_digit find_user_by_id first trim_space trim_left trim_right is_space same
    admin_revoke_api_key revoke_api_key get_api_key_by_hash to_api_key_view list_api_keys
keys = tt

created_test : created.1 ≡ ok plain_key
unfolding keys
created_test = refl

with_result : (p : List ApiKey × Result ℕ Text) (r : Result ℕ Text) → p.1 ≡ r → p ≡ (p.0, r)
with_result (a, b) r h = ap (λ x. (a, x)) h

admin_create_api_key-IsUsable_example :
    (u : ℕ) × (parse_positive (codes "7") ≡ some u) × IsUsable unhashed u plain_key created.0
admin_create_api_key-IsUsable_example =
    admin_create_api_key-IsUsable unhashed no_time true 9 1 (some (codes "ab12cd34")) (codes "7")
      (some request) db [] created.0 plain_key (with_result created (ok plain_key) created_test)

abbrev the_key : ApiKey
the_key = record {
  id = 1;
  user_id = 7;
  key_hash = plain_key;
  key_prefix = codes "cs_live_ab12cd" ++ 0x2026 ∷ [];
  name = codes "bot";
  device_id = [];
  expires_at = none;
  disabled = false;
  last_used_at = none;
  created_at = 9;
}

one_key : created.0 ≡ the_key ∷ []
unfolding keys
one_key = refl

abbrev ask : SmsQuery
ask = record { ip = []; api_key = plain_key; asked = 1; receiver = []; phone = []; sender = [] }

abbrev state : SmsState
state = record { limiter = record { limit = 60; attempts = λ ip. [] }; keys = the_key ∷ [] }

abbrev public_api : PublicApiConfig
public_api = record { enabled = true; cache_ttl = 0; limit = 2; max_items = 20 }

abbrev nothing : ℕ → ℕ → ℕ → Option (List (Option CachedSms))
nothing user ttl limit = some []

is_one : parse_positive (trim_space (codes " 1")) ≡ some 1
unfolding keys
is_one = refl

revoked_test : admin_revoke_api_key true (codes " 1") (the_key ∷ []) ≡ ([], 200)
unfolding keys
revoked_test = refl

revoked_key_refused_example :
    open_api_query_sms true unhashed nothing public_api 20 ask (record state { keys = [] })
    ≢ (state, answered [] [])
revoked_key_refused_example =
    revoked_key_refused unhashed nothing public_api true 20 (codes " 1") ask the_key state state []
      [] [] refl ((λ e. refl), tt) is_one revoked_test
