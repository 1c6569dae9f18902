-- ===== src/Sms/Keys/Lifetime.antt =====
-- openapi_http.go, store_apikey.go: from the creation of a key to its revocation.
use clip_sync_server.Base.{
  ◌++◌, ◌==◌, Bool, Bool-cases, List, Option, Text, [], any, arith, false, inl, inr, none, not, ok,
  refl, same, some, true, ◌||◌, ℕ, ◌∷◌, ◌≡◌, ◌+◌, All, Option-cases, Result, ap, count_if, err,
  length, same_refl, select, subst, sym, take, ◌≢◌,
}
use clip_sync_server.Sms.{
  ApiKey, get_api_key_by_hash, revoke_api_key, CachedSms, PublicApiConfig, SmsQuery, SmsState,
  answered, is_revoked, open_api_query_sms,
}
use clip_sync_server.Sms.Keys.{
  CreateKeyRequest, api_key_prefix, create_api_key, generate_api_key, key_until,
  admin_create_api_key, admin_revoke_api_key, expiry, new_key, owner_checked, revoke_id,
}
use clip_sync_server.Auth.Store.{AuthError, MysqlStore, User, find_user_by_id, found}
use clip_sync_server.Sms.Query.{open_api_query_sms-IsGranted}
use clip_sync_server.Text.Decimal.{parse_positive}
use clip_sync_server.Limit.Window.{recent}
use clip_sync_server.Text.{trim_space}

get_append :
    (hash : Text) (keys : List ApiKey) (k : ApiKey)
    → any (λ j. same j.key_hash hash) keys ≡ false
    → same k.key_hash hash ≡ true
    → get_api_key_by_hash hash (keys ++ k ∷ []) ≡ some k
unfolding get_api_key_by_hash
get_append hash [] k h e = rw e refl
get_append hash (j ∷ keys) k h e = ground (arith, get_append hash keys k)

-- A key that can be used: it is found by the hash of its text, belongs to the user, and is not
-- disabled.
pub record IsUsable (sha256 : Text → Text) (user : ℕ) (plaintext : Text) (keys : List ApiKey)
    : Type 0 where
  pub row : ApiKey
  pub known : get_api_key_by_hash (sha256 plaintext) keys ≡ some row
  pub owned : row.user_id ≡ user
  pub enabled : row.disabled ≡ false

created-IsUsable :
    (sha256 : Text → Text) (done : Bool) (now id user : ℕ) (random plaintext : Text)
    (r : CreateKeyRequest) (keys keys' : List ApiKey) (until : Option (Option ℕ))
    → key_until sha256 done now id user random r keys until ≡ (keys', ok plaintext)
    → IsUsable sha256 user plaintext keys'
unfolding generate_api_key create_api_key
created-IsUsable sha256 done now id user random plaintext r keys keys' none h = ground arith
created-IsUsable sha256 done now id user random plaintext r keys keys' (some until) h =
    let hash = sha256 (api_key_prefix ++ random) in
    elim (Bool-cases (not done || any (λ j. same j.key_hash hash) keys)) [
      | inl failed ↦ ground arith
      | inr stored ↦
          let e = rw stored at h in
          let until_then =
            new_key user r hash
              (take (length api_key_prefix + 6) (api_key_prefix ++ random) ++ 0x2026 ∷ []) until in
          let added : ApiKey = record until_then { id = id; created_at = now } in
          let is_keys : keys' ≡ keys ++ added ∷ [] = sym (ap (λ p. p.0) e) in
          let is_text : plaintext ≡ api_key_prefix ++ random = ground (arith, ap (λ p. p.1) e) in
          let fresh : any (λ j. same j.key_hash hash) keys ≡ false = ground arith in
          record {
            row = added;
            known = rw (is_keys, is_text) (get_append hash keys added fresh (same_refl hash));
            owned = refl;
            enabled = refl;
          }
    ]

-- The user that a creation names, and the key it makes.
owner-IsUsable :
    (sha256 : Text → Text) (parse_time : Text → Option ℕ) (done : Bool) (now id user : ℕ)
    (random : Option Text) (r : Option CreateKeyRequest) (plaintext : Text)
    (keys keys' : List ApiKey) (found : Result AuthError User)
    → owner_checked sha256 parse_time done now id user random r keys found ≡ (keys', ok plaintext)
    → IsUsable sha256 user plaintext keys'
owner-IsUsable sha256 parse_time done now id user random none plaintext keys keys' found h =
    ground arith
owner-IsUsable sha256 parse_time done now id user random (some r) plaintext keys keys' (err e) h =
    ground arith
owner-IsUsable sha256 parse_time done now id user none (some r) plaintext keys keys' (ok u) h =
    ground arith
owner-IsUsable sha256 parse_time done now id user (some random) (some r) plaintext keys keys' (ok u)
      h =
    created-IsUsable sha256 done now id user random plaintext r keys keys'
      (expiry parse_time r.expires_at) h

-- A key that the administrator has created is known at once: the query finds it by the hash of the
-- text that was handed out, as a key of the user that was named, and not disabled.
pub admin_create_api_key-IsUsable :
    (sha256 : Text → Text) (parse_time : Text → Option ℕ) (done : Bool) (now id : ℕ)
    (random : Option Text) (user : Text) (r : Option CreateKeyRequest) (db : MysqlStore)
    (keys keys' : List ApiKey) (plaintext : Text)
    → admin_create_api_key sha256 parse_time done now id random user r db keys
      ≡ (keys', ok plaintext)
    → (u : ℕ) × (parse_positive user ≡ some u) × IsUsable sha256 u plaintext keys'
unfolding admin_create_api_key
admin_create_api_key-IsUsable sha256 parse_time done now id random user r db keys keys' plaintext
      h =
    elim (Option-cases (parse_positive user)) [
      | inl bad ↦ ground arith
      | inr (u, is_user) ↦ (
        u,
        is_user,
        owner-IsUsable sha256 parse_time done now id u random r plaintext keys keys'
            (find_user_by_id u db) (rw is_user at h),
      )
    ]

-- No two rows have one hash: the row `k` is the only one with its.
abbrev pub IsOnly : ApiKey → List ApiKey → Type 0
IsOnly k keys = All (λ j. same j.key_hash k.key_hash ≡ true → j.id ≡ k.id) keys

gone :
    (k : ApiKey) (keys : List ApiKey)
    → IsOnly k keys
    → get_api_key_by_hash k.key_hash (select (λ j. not (is_revoked k.id 0 j)) keys) ≡ none
unfolding get_api_key_by_hash
gone k [] h = refl
gone k (j ∷ keys) (h, hs) = ground (arith, gone k keys hs)

revoked_gone :
    (k : ApiKey) (keys keys' : List ApiKey)
    → IsOnly k keys
    → revoke_id true keys (some k.id) ≡ (keys', 200)
    → get_api_key_by_hash k.key_hash keys' ≡ none
unfolding revoke_api_key
revoked_gone k keys keys' only h = elim (Bool-cases (count_if (is_revoked k.id 0) keys == 0)) [
  | inl missing ↦
      let status : ◌≡◌ {A = ℕ} 404 200 = ap (λ p. p.1) (rw missing at h) in absurd (omega arith)
  | inr there ↦ rw (sym (ap (λ p. p.0) (rw there at h))) (gone k keys only)
]

-- Once a key has been revoked, no query with it is answered with messages.
pub revoked_key_refused :
    (sha256 : Text → Text) (recent : (user ttl limit : ℕ) → Option (List (Option CachedSms)))
    (cfg : PublicApiConfig) (db_up : Bool) (now : ℕ) (id : Text) (q : SmsQuery) (k : ApiKey)
    (st st' : SmsState) (keys' : List ApiKey) (device : Text) (items : List CachedSms)
    → k.key_hash ≡ sha256 q.api_key
    → IsOnly k st.keys
    → parse_positive (trim_space id) ≡ some k.id
    → admin_revoke_api_key true id st.keys ≡ (keys', 200)
    → open_api_query_sms db_up sha256 recent cfg now q (record st { keys = keys' })
      ≢ (st', answered device items)
unfolding admin_revoke_api_key
revoked_key_refused sha256 recent cfg db_up now id q k st st' keys' device items of_key only is_id
      done answer =
    let (found, members, grounds) =
      open_api_query_sms-IsGranted db_up sha256 recent cfg now q (record st { keys = keys' }) st'
        device items answer in
    let missing : get_api_key_by_hash (sha256 q.api_key) keys' ≡ none =
      subst (λ h. get_api_key_by_hash h keys' ≡ none) of_key
        (revoked_gone k st.keys keys' only (rw is_id at done)) in
    ground (arith, missing, grounds.known)
