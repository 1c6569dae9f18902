-- ===== src/SmsCache/Answer.antt =====
-- main.go, store_sms_cache.go, openapi_http.go: from the frame of a phone to the answer of a query.
use clip_sync_server.Base.{
  ◌*◌, ◌+◌, ◌/◌, ◌<◌, All, Bool, List, Option, Text, [], arith, false, is_empty, refl, same, select,
  some, suc, take, true, zero, ◌||◌, ℕ, ◌∙◌, ◌∷◌, ◌≡◌, ap, map, subst,
}
use clip_sync_server.Sms.{
  ApiKey, CachedSms, PublicApiConfig, SmsFilter, SmsQuery, SmsState, answered, collect, fetch_limit,
  get_api_key_by_hash, is_expired, matches_sms, open_api_query_sms, or_default, query_limit,
  sms_filter,
}
use clip_sync_server.Inbound.{Message}
use clip_sync_server.SmsCache.{
  SortedSets, cache_sms_cipher, cache_sms_cipher_for_user, drop_old, recent_sms, sms_of, window,
  Entry,
}
use clip_sync_server.Limit.{allow, minute, second}
use clip_sync_server.SmsCache.Newest.{cached_first, recent_first}
use clip_sync_server.Sms.Query.{collect-select, present, query_limit-positive}
use clip_sync_server.Limit.Window.{recent}

found_hash :
    (hash : Text) (keys : List ApiKey) (k : ApiKey)
    → get_api_key_by_hash hash keys ≡ some k
    → same k.key_hash hash ≡ true
unfolding get_api_key_by_hash
found_hash hash [] k h = ground arith
found_hash hash (j ∷ keys) k h = ground (arith, found_hash hash keys k)

picked_first :
    (f : SmsFilter) (limit : ℕ) (c : CachedSms) (members : List (Option CachedSms))
    → 0 < limit
    → matches_sms f c ≡ true
    → (rest : List CachedSms) × (collect f limit [] (some c ∷ members) ≡ c ∷ rest)
picked_first f zero c members p m = ground arith
picked_first f (suc n) c members p m = (
  take n (select (matches_sms f) (present members)),
  collect-select f (suc n) (some c ∷ members) p ∙ rw m refl,
)

-- Why a query with the key `k` is let through.
pub record IsPermitted (sha256 : Text → Text) (cfg : PublicApiConfig) (clock : ℕ) (q : SmsQuery)
    (st : SmsState) (k : ApiKey) : Type 0 where
  pub on : cfg.enabled ≡ true
  pub passed : (allow clock q.ip st.limiter).1 ≡ true
  pub given : is_empty q.api_key ≡ false
  pub known : get_api_key_by_hash (sha256 q.api_key) st.keys ≡ some k
  pub live : (k.disabled || is_expired clock k.expires_at) ≡ false

-- Such a query answers from what the cache holds for the user of the key.
permitted_answer :
    (sha256 : Text → Text) (recent : (user ttl limit : ℕ) → Option (List (Option CachedSms)))
    (cfg : PublicApiConfig) (clock : ℕ) (q : SmsQuery) (st : SmsState) (k : ApiKey)
    (members : List (Option CachedSms))
    → IsPermitted sha256 cfg clock q st k
    → recent k.user_id
        (or_default cfg.cache_ttl (10 * minute))
        (fetch_limit cfg (query_limit cfg q.asked))
      ≡ some members
    → (open_api_query_sms true sha256 recent cfg clock q st).1
      ≡ answered k.device_id (collect (sms_filter k q) (query_limit cfg q.asked) [] members)
unfolding open_api_query_sms
permitted_answer sha256 recent cfg clock q st k members permitted h = ground (
  arith,
  permitted.on,
  permitted.passed,
  permitted.given,
  permitted.known,
  permitted.live,
  found_hash (sha256 q.api_key) st.keys k permitted.known,
  h,
)

module _ (Z : SortedSets) (encode : CachedSms → Option Text) (decode : Text → Option CachedSms)
    (meta : List ℕ → Text × Text) (sha256 : Text → Text) (cfg : PublicApiConfig) where
  open Z use {State, view, exec}

  abbrev kept_for : ℕ
  kept_for = or_default cfg.cache_ttl (10 * minute)

  -- What is written for a message, and whether Redis has done it.
  abbrev pub is_cached : ℕ → Text → ℕ → Message → State → Bool
  is_cached u from_device now msg s =
      (cache_sms_cipher Z u now (encode (sms_of Z meta from_device now msg)) kept_for
        (or_default cfg.max_items 20) s).1

  -- A message that a phone sends and the server caches, with older messages only before it, is, as
  -- it is read back, the first that a query answers with: of a key of the phone's user that is let
  -- through, within the
  -- time that messages are kept, if the message is one that the query asks for and Redis works.
  pub cached_then_answered :
      (u now clock : ℕ) (from_device body : Text) (msg : Message) (sms : CachedSms) (q : SmsQuery)
      (k : ApiKey) (s : State) (st : SmsState)
      → IsPermitted sha256 cfg clock q st k
      → k.user_id ≡ u
      → encode (sms_of Z meta from_device now msg) ≡ some body
      → decode body ≡ some sms
      → All (λ d. d.score < now) (view u s)
      → is_cached u from_device now msg s ≡ true
      → clock / second < now + window kept_for
      → let s' = cache_sms_cipher_for_user Z encode meta cfg u from_device now msg s in
        (exec s' (drop_old Z u (clock / second) kept_for s')).1 ≡ true
        → matches_sms (sms_filter k q) sms ≡ true
        → (rest : List CachedSms) × ((open_api_query_sms true sha256
              (recent_sms Z decode (clock / second) s')
              cfg
              clock
              q
              st).1
            ≡ answered k.device_id (sms ∷ rest))
  unfolding cache_sms_cipher_for_user recent_sms or_default
  cached_then_answered u now clock from_device body msg sms q k s st permitted owner is_body back
        older written soon done asked =
      let max_items = or_default cfg.max_items 20 in
      let limit = fetch_limit cfg (query_limit cfg q.asked) in
      let at = clock / second in
      let s' = cache_sms_cipher_for_user Z encode meta cfg u from_device now msg s in
      let t = (cache_sms_cipher Z u now (some body) kept_for max_items s).0 in
      let is_t : s' ≡ t =
        rw permitted.on (ap (λ x. (cache_sms_cipher Z u now x kept_for max_items s).0) is_body) in
      let (rest, is_first) =
        cached_first Z u now kept_for max_items body s (ground arith) (ground arith) older (
          subst (λ x. (cache_sms_cipher Z u now x kept_for max_items s).1 ≡ true) is_body
            written) in
      let e : Entry = record { score = now; member = body } in
      let (texts, are_read) =
        recent_first Z u at kept_for limit e rest t soon is_first
          (subst (λ x. (exec x (drop_old Z u at kept_for x)).1 ≡ true) is_t done) in
      let members : List (Option CachedSms) = some sms ∷ map decode texts in
      let read : recent_sms Z decode at s' k.user_id kept_for limit ≡ some members =
        ap (λ v. recent_sms Z decode at s' v kept_for limit) owner
        ∙ ap (λ x. recent_sms Z decode at x u kept_for limit) is_t
        ∙ rw (are_read, back) refl in
      let (later, is_front) =
        picked_first (sms_filter k q) (query_limit cfg q.asked) sms (map decode texts)
          (query_limit-positive cfg q.asked) asked in
      (
        later,
        permitted_answer sha256 (recent_sms Z decode at s') cfg clock q st k members permitted read
            ∙ ap (answered k.device_id) is_front,
      )
