-- ===== src/Sms/Query.antt =====
-- openapi_http.go: what a query answers, and to whom.
use clip_sync_server.Base.{
  ◌++◌, ◌-◌, ◌<◌, List, Option, Text, [], false, length, none, select, some, take, true, ◌||◌, ℕ,
  ◌∷◌, ◌≡◌, ◌*◌, ◌+◌, Bool, Option-cases, append-nil, append_assoc, arith, inl, inr, refl, suc,
  zero, ap, sym, ◌&&◌, if◌then◌else◌, is_empty, same,
}
use clip_sync_server.Sms.{
  ApiKey, CachedSms, PublicApiConfig, SmsFilter, SmsQuery, SmsState, collect, get_api_key_by_hash,
  is_expired, matches_sms, answered, fetch_limit, open_api_query_sms, or_default, query_limit,
  sms_filter,
}
use clip_sync_server.Limit.{minute}
use clip_sync_server.Phone.{normalize_phone_query, phone_equal}

-- The members that can be read.
abbrev pub present : List (Option CachedSms) → List CachedSms
present [] = []
present (none ∷ members) = present members
present (some c ∷ members) = c ∷ present members

length-snoc : (items : List CachedSms) (c : CachedSms) → length (items ++ c ∷ []) ≡ length items + 1
length-snoc [] c = refl
length-snoc (d ∷ items) c = omega (arith, length-snoc items c)

take-nil : (n : ℕ) → take {A = CachedSms} n [] ≡ []
take-nil zero = refl
take-nil (suc n) = refl

take-cons :
    (n : ℕ) (c : CachedSms) (cs : List CachedSms) → 0 < n → take n (c ∷ cs) ≡ c ∷ take (n - 1) cs
take-cons zero c cs h = ground arith
take-cons (suc n) c cs h =
    let less : suc n - 1 ≡ n = omega arith in ap (λ k. c ∷ take k cs) (sym less)

take-none : (n : ℕ) (cs : List CachedSms) → n ≡ 0 → take n cs ≡ []
take-none zero cs h = refl
take-none (suc n) cs h = ground arith

collect_from :
    (f : SmsFilter) (limit : ℕ) (items : List CachedSms) (members : List (Option CachedSms))
    → length items < limit
    → collect f limit items members
      ≡ items ++ take (limit - length items) (select (matches_sms f) (present members))
unfolding collect
collect_from f limit items [] h = rw (take-nil (limit - length items), append-nil)
collect_from f limit items (none ∷ members) h = collect_from f limit items members h
collect_from f limit items (some c ∷ members) h =
    let later = select (matches_sms f) (present members) in
    ground (
      arith,
      length-snoc items c,
      collect_from f limit items members,
      collect_from f limit (items ++ c ∷ []) members,
      take-cons (limit - length items) c later,
      append_assoc items (c ∷ []) (take (limit - length items - 1) later),
      take-none (limit - length items - 1) later,
    )

-- The loop gives the first messages that match, up to the limit, in the order of the cache: no
-- message that matches is left out for one that comes after it.
pub collect-select :
    (f : SmsFilter) (limit : ℕ) (members : List (Option CachedSms))
    → 0 < limit
    → collect f limit [] members ≡ take limit (select (matches_sms f) (present members))
collect-select f limit members p =
    let whole : limit - 0 ≡ limit = omega arith in rw whole at (collect_from f limit [] members p)

-- A number asked for, normalized; an empty one is no restriction.
abbrev is_number : Text → Text → Bool
is_number wanted phone = is_empty wanted || phone_equal phone wanted

-- Whether a key may see a message, and the query asks for it: it came from the device that the key
-- is bound to, if any; its receiver is the number in `receiver`, or where that is empty the one in
-- `phone`; and its sender is the one in `sender`.
abbrev pub is_wanted : ApiKey → SmsQuery → CachedSms → Bool
is_wanted k q c =
    (is_empty k.device_id || same c.from_device k.device_id)
    && is_number
        (if is_empty (normalize_phone_query q.receiver)
          then normalize_phone_query q.phone
          else normalize_phone_query q.receiver)
        c.receiver
    && is_number (normalize_phone_query q.sender) c.sender

matches_sms-is_wanted :
    (k : ApiKey) (q : SmsQuery) (c : CachedSms) → matches_sms (sms_filter k q) c ≡ is_wanted k q c
unfolding matches_sms sms_filter
matches_sms-is_wanted k q c = refl

select-is_wanted :
    (k : ApiKey) (q : SmsQuery) (cs : List CachedSms)
    → select (matches_sms (sms_filter k q)) cs ≡ select (is_wanted k q) cs
select-is_wanted k q [] = refl
select-is_wanted k q (c ∷ cs) = ground (arith, matches_sms-is_wanted k q c, select-is_wanted k q cs)

-- Why a query was answered: the interface is on, and the key given is that of the row `k`, which is
-- neither disabled nor expired; the messages are those of its user.
pub record IsGranted (db_up : Bool) (sha256 : Text → Text)
    (recent_sms : (user ttl limit : ℕ) → Option (List (Option CachedSms))) (cfg : PublicApiConfig)
    (now : ℕ) (q : SmsQuery) (keys : List ApiKey) (device : Text) (items : List CachedSms)
    (k : ApiKey) (members : List (Option CachedSms)) : Type 0 where
  pub on : cfg.enabled ≡ true
  pub db_answers : db_up ≡ true
  pub known : get_api_key_by_hash (sha256 q.api_key) keys ≡ some k
  pub live : (k.disabled || is_expired now k.expires_at) ≡ false
  pub bound : device ≡ k.device_id
  pub of_user :
      recent_sms k.user_id
        (or_default cfg.cache_ttl (10 * minute))
        (fetch_limit cfg (query_limit cfg q.asked))
      ≡ some members
  pub exact : items ≡ take (query_limit cfg q.asked) (select (is_wanted k q) (present members))

pub query_limit-positive : (cfg : PublicApiConfig) (asked : ℕ) → 0 < query_limit cfg asked
unfolding query_limit or_default
query_limit-positive cfg asked = ground arith

module _ (db_up : Bool) (sha256 : Text → Text)
    (recent_sms : (user ttl limit : ℕ) → Option (List (Option CachedSms)))
    (cfg : PublicApiConfig) where
  -- Messages are given out only with the interface on and for the key of a row that is neither
  -- disabled nor expired, with MySQL up; and then the answer is exactly the first messages of that
  -- row's user, up to the limit, that came from the row's device, if it names one, and have the
  -- numbers asked for.
  pub open_api_query_sms-IsGranted :
      (now : ℕ) (q : SmsQuery) (s s' : SmsState) (device : Text) (items : List CachedSms)
      → open_api_query_sms db_up sha256 recent_sms cfg now q s ≡ (s', answered device items)
      → (k : ApiKey) × (members : List (Option CachedSms)) × IsGranted db_up sha256 recent_sms cfg
          now q s.keys device items k members
  unfolding open_api_query_sms
  open_api_query_sms-IsGranted now q s s' device items h =
      elim (Option-cases (get_api_key_by_hash (sha256 q.api_key) s.keys)) [
        | inl unknown ↦ ground arith
        | inr (k, is_k) ↦
            elim (Option-cases (
              recent_sms k.user_id (or_default cfg.cache_ttl (10 * minute))
                (fetch_limit cfg (query_limit cfg q.asked)))) [
                  | inl broken ↦ ground arith
                  | inr (members, is_raw) ↦
                      let picked =
                        collect-select (sms_filter k q) (query_limit cfg q.asked) members
                          (query_limit-positive cfg q.asked) in
                      (
                        k,
                        members,
                        record {
                          on = ground arith;
                          db_answers = ground arith;
                          known = is_k;
                          live = ground arith;
                          bound = ground arith;
                          of_user = is_raw;
                          exact = ground (arith, picked, select-is_wanted k q (present members));
                        },
                      )
                ]
      ]
