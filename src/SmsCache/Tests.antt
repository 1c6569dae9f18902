-- ===== src/SmsCache/Tests.antt =====
-- store_sms_cache.go: the theorems at one message of one user, with sorted sets in memory.
mod Ordered
mod Sequence
mod Sent
use clip_sync_server.SmsCache.Tests.Ordered.{Sets, sets}
use clip_sync_server.Base.{
  ◌*◌, ◌+◌, ◌<◌, ◌==◌, All, List, Option, Text, [], ap, arith, codes, false, length, none, refl,
  same, some, sym, true, ℕ, ◌∷◌, ◌≡◌, ◌≤◌,
}
use clip_sync_server.Sms.{
  ApiKey, CachedSms, PublicApiConfig, SmsQuery, SmsState, answered, fetch_limit,
  get_api_key_by_hash, matches_sms, open_api_query_sms, or_default, query_limit, sms_filter,
}
use clip_sync_server.SmsCache.Answer.{IsPermitted, cached_then_answered, is_cached}
use clip_sync_server.SmsCache.Window.{IsRecent, cache_sms_cipher_bounds}
use clip_sync_server.Inbound.{Message}
use clip_sync_server.Limit.{allow, minute}
use clip_sync_server.SmsCache.{
  cache_sms_cipher, cache_sms_cipher_for_user, drop_old, recent_sms, recent_sms_cipher, sms_of,
  window,
}
use clip_sync_server.Text.{
  has_prefix, is_digit, is_lower, is_space, is_upper, trim_left, trim_right, trim_space,
}
use clip_sync_server.Phone.{normal_rune, normal_runes, normalize_phone_query, phone_equal, strip_cn}

abbrev pub empty : Sets
empty u = ([], tt)

abbrev pub message : Message
message = record {
  id = codes "m1";
  type = codes "notify_pc";
  from = codes "mobile-1";
  to = [];
  ts = 4;
  payload = codes "13800138000";
}

-- The receiver stands alone in the payload.
abbrev pub meta : List ℕ → Text × Text
meta payload = ([], payload)

abbrev pub public_api : PublicApiConfig
public_api = record { enabled = true; cache_ttl = 0; limit = 2; max_items = 20 }

abbrev pub api_key : ApiKey
api_key = record {
  id = 1;
  user_id = 7;
  key_hash = codes "k";
  key_prefix = codes "cs_live_k";
  name = [];
  device_id = codes "mobile-1";
  expires_at = none;
  disabled = false;
  last_used_at = none;
  created_at = 0;
}

abbrev pub ask : SmsQuery
ask = record {
  ip = codes "10.0.0.1";
  api_key = codes "k";
  asked = 1;
  receiver = codes "138 0013 8000";
  phone = [];
  sender = [];
}

abbrev pub before : SmsState
before = record { limiter = record { limit = 60; attempts = λ ip. [] }; keys = api_key ∷ [] }

abbrev pub unhashed : Text → Text
unhashed t = t

abbrev pub the_sms : CachedSms
the_sms = record {
  id = codes "m1";
  from_device = codes "mobile-1";
  type = codes "notify_pc";
  ts = 4;
  received_at = 1000;
  sender = [];
  receiver = codes "13800138000";
  payload = codes "13800138000";
}

abbrev pub encode : CachedSms → Option Text
encode c = some (codes "json")

abbrev pub decode : Text → Option CachedSms
decode t = some the_sms

sms_cache : Unit {0}
unfolding cache_sms_cipher drop_old window recent_sms_cipher or_default sms_of trim_space trim_left
    trim_right is_space same allow get_api_key_by_hash matches_sms sms_filter phone_equal
    normalize_phone_query normal_runes normal_rune is_digit is_lower is_upper strip_cn has_prefix
    query_limit fetch_limit cache_sms_cipher_for_user
sms_cache = tt

-- Of three messages with room for two, the two newest are left, and the newest is read first.
abbrev written : ℕ → Text → Sets → Sets
written now body s = (cache_sms_cipher sets 7 now (some body) (10 * minute) 2 s).0

three_test :
    (recent_sms_cipher sets 7 1003
      (10 * minute)
      0
      (written 1002 (codes "c") (written 1001 (codes "b") (written 1000 (codes "a") empty)))).1
    ≡ some (codes "c" ∷ codes "b" ∷ [])
unfolding sms_cache
three_test = refl

caches_one : (cache_sms_cipher sets 7 1000 (some (codes "a")) (10 * minute) 2 empty).1 ≡ true
unfolding sms_cache
caches_one = refl

pub is_message : sms_of sets meta (codes "mobile-1") 1000 message ≡ the_sms
unfolding sms_cache
is_message = refl

pub permitted : IsPermitted unhashed public_api 1000500000000 ask before api_key
unfolding sms_cache
permitted = record { on = refl; passed = refl; given = refl; known = refl; live = refl }

pub window_open : 1000 < 1000 + window (or_default 0 (10 * minute))
unfolding sms_cache
window_open = omega arith

abbrev after : Sets
after =
    cache_sms_cipher_for_user sets encode meta public_api 7 (codes "mobile-1") 1000 message empty

pub cached_now :
    is_cached sets encode decode meta unhashed public_api 7 (codes "mobile-1") 1000 message empty
    ≡ true
unfolding sms_cache
cached_now = refl

pub asked_for :
    matches_sms (sms_filter api_key ask) (sms_of sets meta (codes "mobile-1") 1000 message) ≡ true
unfolding sms_cache
asked_for = refl
