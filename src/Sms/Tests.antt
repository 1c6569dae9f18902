-- ===== src/Sms/Tests.antt =====
-- openapi_http.go: tests, and the theorems at a query for the messages of one number.
use clip_sync_server.Sms.{
  ApiKey, CachedSms, PublicApiConfig, SmsAnswer, SmsQuery, SmsState, answered, collect, fetch_limit,
  get_api_key_by_hash, matches_sms, open_api_query_sms, or_default, query_limit, sms_filter,
}
use clip_sync_server.Sms.Query.{IsGranted, open_api_query_sms-IsGranted}
use clip_sync_server.Base.{
  List, Option, Text, [], codes, false, none, refl, same, some, true, ℕ, ◌∷◌, ◌≡◌,
}
use clip_sync_server.Limit.{allow}
use clip_sync_server.Text.{
  has_prefix, is_digit, is_lower, is_space, is_upper, trim_left, trim_right, trim_space,
}
use clip_sync_server.Phone.{normal_rune, normal_runes, normalize_phone_query, phone_equal, strip_cn}

abbrev code_sms : Text → Text → CachedSms
code_sms id to = record {
  id = id;
  from_device = codes "mobile-1";
  type = codes "notify_pc";
  ts = 4;
  received_at = 5;
  sender = codes "10690000";
  receiver = to;
  payload = [];
}

abbrev cached : List (Option CachedSms)
cached =
    some (code_sms (codes "a") (codes "13900139000"))
    ∷ none
    ∷ some (code_sms (codes "b") (codes "+8613800138000"))
    ∷ some (code_sms (codes "c") (codes "13800138000"))
    ∷ []

abbrev api_key : ApiKey
api_key = record {
  id = 1;
  user_id = 7;
  key_hash = codes "k";
  key_prefix = codes "cs_live_k";
  name = [];
  device_id = [];
  expires_at = none;
  disabled = false;
  last_used_at = none;
  created_at = 0;
}

abbrev for_user : ℕ → ℕ → ℕ → Option (List (Option CachedSms))
for_user user ttl limit = some cached

abbrev unhashed : Text → Text
unhashed t = t

abbrev public_api : PublicApiConfig
public_api = record { enabled = true; cache_ttl = 0; limit = 2; max_items = 20 }

abbrev ask : SmsQuery
ask = record {
  ip = codes "10.0.0.1";
  api_key = codes "k";
  asked = 1;
  receiver = codes "138 0013 8000";
  phone = [];
  sender = [];
}

abbrev before : SmsState
before = record { limiter = record { limit = 60; attempts = λ ip. [] }; keys = api_key ∷ [] }

abbrev response : SmsState × SmsAnswer
response = open_api_query_sms true unhashed for_user public_api 9 ask before

abbrev picked : List CachedSms
picked = code_sms (codes "b") (codes "+8613800138000") ∷ []

response_test : response ≡ (response.0, answered [] picked)
unfolding open_api_query_sms allow get_api_key_by_hash same sms_filter matches_sms collect
    query_limit or_default fetch_limit phone_equal normalize_phone_query normal_runes normal_rune
    trim_space trim_left trim_right is_space is_digit is_lower is_upper strip_cn has_prefix
response_test = refl

open_api_query_sms-IsGranted_example :
    (k : ApiKey) × (members : List (Option CachedSms)) × IsGranted true unhashed for_user public_api
      9 ask before.keys [] picked k members
open_api_query_sms-IsGranted_example =
    open_api_query_sms-IsGranted true unhashed for_user public_api 9 ask before response.0 [] picked
      response_test
