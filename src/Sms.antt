-- ===== src/Sms.antt =====
-- openapi_http.go and store_apikey.go: the query of cached short messages with an API key. SHA-256
-- and the read of the cache (Redis and encoding/json) are parameters, and so is whether MySQL
-- answers the query for the key; a number that is not positive is zero here. Times are in the unit
-- of the clock.
pub mod Query
pub mod Keys
mod Tests
use clip_sync_server.Base.{
  ◌&&◌, ◌*◌, ◌++◌, ◌==◌, Bool, List, Option, Text, [], count_if, if◌then◌else◌, false, is_empty,
  leb, length, ltb, map, none, not, same, select, some, true, ◌||◌, ℕ, ◌∷◌,
}
use clip_sync_server.Limit.{LoginLimiter, allow, minute}
use clip_sync_server.Phone.{normalize_phone_query, phone_equal}

pub record ApiKey : Type 0 where
  pub id : ℕ
  pub user_id : ℕ
  pub key_hash : Text
  pub key_prefix : Text
  pub name : Text
  pub device_id : Text
  pub expires_at : Option ℕ
  pub disabled : Bool
  pub last_used_at : Option ℕ
  pub created_at : ℕ

pub record CachedSms : Type 0 where
  pub id : Text
  pub from_device : Text
  pub type : Text
  pub ts : ℕ
  pub received_at : ℕ
  pub sender : Text
  pub receiver : Text
  pub payload : List ℕ

-- `PublicAPIConfig`.
pub record PublicApiConfig : Type 0 where
  pub enabled : Bool
  pub cache_ttl : ℕ
  pub limit : ℕ
  pub max_items : ℕ

unfoldable pub get_api_key_by_hash : Text → List ApiKey → Option ApiKey
get_api_key_by_hash hash [] = none
get_api_key_by_hash hash (k ∷ keys) =
    if same k.key_hash hash then some k else get_api_key_by_hash hash keys

-- Errors of MySQL are passed over.
unfoldable pub touch_api_key_used : ℕ → ℕ → List ApiKey → List ApiKey
touch_api_key_used now id keys =
    map (λ k. if k.id == id then record k { last_used_at = some now } else k) keys

-- The rows that the DELETE names; a user of zero is no restriction.
abbrev pub is_revoked : ℕ → ℕ → ApiKey → Bool
is_revoked id user k = k.id == id && (if ltb 0 user then k.user_id == user else true)

-- `none` is `ErrAPIKeyNotFound`.
unfoldable pub revoke_api_key : ℕ → ℕ → List ApiKey → Option (List ApiKey)
revoke_api_key id user keys =
    if count_if (is_revoked id user) keys == 0
    then none
    else some (select (λ k. not (is_revoked id user k)) keys)

-- The numbers asked for, normalized, and the device that the key is bound to; an empty text is no
-- restriction.
pub record SmsFilter : Type 0 where
  pub device : Text
  pub receiver : Text
  pub sender : Text

unfoldable pub matches_sms : SmsFilter → CachedSms → Bool
matches_sms f c =
    (is_empty f.device || same c.from_device f.device)
    && (is_empty f.receiver || phone_equal c.receiver f.receiver)
    && (is_empty f.sender || phone_equal c.sender f.sender)

-- The loop over the cached members; `none` is one that is no JSON of a message.
unfoldable pub collect : SmsFilter → ℕ → List CachedSms → List (Option CachedSms) → List CachedSms
collect f limit items [] = items
collect f limit items (none ∷ members) = collect f limit items members
collect f limit items (some c ∷ members) = elim (matches_sms f c) [
  | false ↦ collect f limit items members
  | true ↦
      if leb limit (length (items ++ c ∷ []))
      then items ++ c ∷ []
      else collect f limit (items ++ c ∷ []) members
]

unfoldable pub or_default : ℕ → ℕ → ℕ
or_default n d = if leb n 0 then d else n

-- `?limit=` narrows the range and never widens it; `asked` is the number read, zero if there is
-- none.
unfoldable pub query_limit : PublicApiConfig → ℕ → ℕ
query_limit cfg asked =
    let limit = or_default cfg.limit 20 in if ltb 0 asked && ltb asked limit then asked else limit

unfoldable pub fetch_limit : PublicApiConfig → ℕ → ℕ
fetch_limit cfg limit = or_default (if ltb cfg.max_items limit then limit else cfg.max_items) 20

-- The parameters of the request.
pub record SmsQuery : Type 0 where
  pub ip : Text
  pub api_key : Text
  pub asked : ℕ
  pub receiver : Text
  pub phone : Text
  pub sender : Text

unfoldable pub sms_filter : ApiKey → SmsQuery → SmsFilter
sms_filter k q =
    let by_receiver = normalize_phone_query q.receiver in
    record {
      device = k.device_id;
      receiver = if is_empty by_receiver then normalize_phone_query q.phone else by_receiver;
      sender = normalize_phone_query q.sender;
    }

pub data SmsAnswer : Type 0 where
  not_enabled too_many_requests missing_key invalid_key expired_key read_failed : SmsAnswer
  answered : (device : Text) → (items : List CachedSms) → SmsAnswer

-- What the query changes: the limiter, and the last use of a key.
pub record SmsState : Type 0 where
  pub limiter : LoginLimiter
  pub keys : List ApiKey

abbrev pub is_expired : ℕ → Option ℕ → Bool
is_expired now none = false
is_expired now (some at) = ltb at now

module _ (db_up : Bool) (sha256 : Text → Text)
    (recent_sms : (user ttl limit : ℕ) → Option (List (Option CachedSms)))
    (cfg : PublicApiConfig) where
  abbrev pub read_cache :
      ℕ → SmsQuery → ApiKey → Option (List (Option CachedSms)) → SmsState → SmsState × SmsAnswer
  read_cache now q k none s = (s, read_failed)
  read_cache now q k (some members) s = (
    record s { keys = touch_api_key_used now k.id s.keys },
    answered k.device_id (collect (sms_filter k q) (query_limit cfg q.asked) [] members),
  )

  abbrev pub with_key : ℕ → SmsQuery → Text → Option ApiKey → SmsState → SmsState × SmsAnswer
  with_key now q hash none s = (s, invalid_key)
  with_key now q hash (some k) s =
      if k.disabled
      then (s, invalid_key)
      else if is_expired now k.expires_at
      then (s, expired_key)
      else if not (same k.key_hash hash)
      then (s, invalid_key)
      else read_cache now q k
          (recent_sms k.user_id (or_default cfg.cache_ttl (10 * minute))
            (fetch_limit cfg (query_limit cfg q.asked)))
          s

  abbrev pub admitted : ℕ → SmsQuery → SmsState → SmsState × SmsAnswer
  admitted now q s =
      if is_empty q.api_key
      then (s, missing_key)
      else with_key now q (sha256 q.api_key)
          (if db_up then get_api_key_by_hash (sha256 q.api_key) s.keys else none) s

  -- `openAPIQuerySMS` at the time `now`.
  unfoldable pub open_api_query_sms : ℕ → SmsQuery → SmsState → SmsState × SmsAnswer
  open_api_query_sms now q s =
      if not cfg.enabled
      then (s, not_enabled)
      else let (limiter, passed) = allow now q.ip s.limiter in
        if not passed
        then (record s { limiter = limiter }, too_many_requests)
        else admitted now q (record s { limiter = limiter })
