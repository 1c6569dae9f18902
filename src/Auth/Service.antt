-- ===== src/Auth/Service.antt =====
-- auth_service.go: `AuthService`, over the tables, the cache and the parameters for cryptography.
use clip_sync_server.Base.{
  ◌*◌, ◌+◌, ◌-◌, ◌>>=◌, Bool, List, Option, Result, Text, [], codes, if◌then◌else◌, err, false,
  is_empty, ltb, none, not, ok, same, some, true, ℕ,
}
use clip_sync_server.Auth.Store.{
  AuthError, MysqlStore, Session, User, crypto_failed, delete_session, find_user_by_name,
  find_user_by_token_hash, get_session, invalid_credentials, redis_failed, upsert_session,
  user_disabled, user_not_found,
}
use clip_sync_server.Auth.Redis.{Redis}
use clip_sync_server.Auth.Cache.{
  cache_token, drop_plain_token, drop_token, load_plain_token, lookup_token, online_count,
  store_plain_token,
}
use clip_sync_server.Text.{trim_space}

pub record AuthConfig : Type 0 where
  pub token_ttl_hours : ℕ
  pub allow_register : Bool
  pub min_password_len : ℕ

-- `TokenHash` and `VerifyPassword` as functions; `hash_password` is `HashPassword` at the salt that
-- was drawn, `none` if it fails.
pub record Crypto : Type 0 where
  pub token_hash : Text → Text
  pub verify_password : Text → Text → Bool
  pub hash_password : Text → Option Text

pub record LoginResult : Type 0 where
  pub token : Text
  pub user_id : ℕ
  pub username : Text
  pub expires_at : ℕ
  pub reused : Bool
  pub online_devices : ℕ

abbrev pub reason_password_reset : Text
reason_password_reset = codes "password_reset"

-- An unknown user looks like a wrong password.
abbrev pub hide_missing : AuthError → AuthError
hide_missing user_not_found = invalid_credentials
hide_missing e = e

module _ (R : Redis) (key : Text → Text) (crypto : Crypto) (cfg : AuthConfig) where
  open R use {State}
  open crypto use {token_hash, verify_password, hash_password}

  -- `published` are the kick commands sent to the channel of the administration.
  pub record AuthState : Type 0 where
    pub db : MysqlStore
    pub cache : State
    pub published : List (ℕ × Text)

  -- The TTL in seconds.
  abbrev pub ttl_seconds : ℕ
  ttl_seconds = cfg.token_ttl_hours * 3600

  abbrev pub new_session : ℕ → ℕ → Text → Session
  new_session now u token = record {
    user_id = u;
    token_hash = token_hash token;
    created_at = now;
    expires_at = now + ttl_seconds;
  }

  abbrev keep_plain : ℕ → Text → State × Bool → AuthState → AuthState × Result AuthError Text
  keep_plain u token c st =
      if not c.1
      then (record st { cache = c.0 }, err redis_failed)
      else let kept = store_plain_token R u token ttl_seconds c.0 in
        if not kept.1
        then (record st { cache = kept.0 }, err redis_failed)
        else (record st { cache = kept.0 }, ok token)

  abbrev cache_issued :
      ℕ → Text → AuthState → Result AuthError MysqlStore → AuthState × Result AuthError Text
  cache_issued u token st (err e) = (st, err e)
  cache_issued u token st (ok db) =
      keep_plain u token (cache_token R (token_hash token) u ttl_seconds st.cache)
        (record st { db = db })

  -- The end of `Login` and of `ChangePassword`: a session for the fresh token, `none` where the
  -- random source fails.
  unfoldable pub issue_session : ℕ → ℕ → Option Text → AuthState → AuthState × Result AuthError Text
  issue_session now u none st = (st, err crypto_failed)
  issue_session now u (some token) st =
      cache_issued u token st (upsert_session (new_session now u token) st.db)

  abbrev pub logged_in :
      ℕ → User → ℕ → AuthState × Result AuthError Text → AuthState × Result AuthError LoginResult
  logged_in now user online (st, err e) = (st, err e)
  logged_in now user online (st, ok token) = (
    st,
    ok (record {
      token = token;
      user_id = user.id;
      username = user.username;
      expires_at = now + ttl_seconds;
      reused = false;
      online_devices = online;
    }),
  )

  abbrev pub matching : Session → Option Text → Option (Text × Session)
  matching sess none = none
  matching sess (some plain) =
      if same (token_hash plain) sess.token_hash then some (plain, sess) else none

  abbrev pub with_plain : ℕ → State → Option Session → Result AuthError (Option (Text × Session))
  with_plain u cache none = ok none
  with_plain u cache (some sess) = load_plain_token R u cache >>= λ plain. ok (matching sess plain)

  -- The live session of a user with its token in clear, if both are there and agree.
  unfoldable pub reusable : ℕ → ℕ → AuthState → Result AuthError (Option (Text × Session))
  reusable now u st = get_session now u st.db >>= with_plain u st.cache

  abbrev pub login_reuse :
      ℕ
      → User
      → ℕ
      → Option Text
      → AuthState
      → Result AuthError (Option (Text × Session))
      → AuthState × Result AuthError LoginResult
  login_reuse now user online fresh st (err e) = (st, err e)
  login_reuse now user online fresh st (ok none) =
      logged_in now user online (issue_session now user.id fresh st)
  login_reuse now user online fresh st (ok (some (plain, sess))) = (
    st,
    ok (record {
      token = plain;
      user_id = user.id;
      username = user.username;
      expires_at = sess.expires_at;
      reused = true;
      online_devices = online;
    }),
  )

  abbrev pub login_online :
      ℕ
      → User
      → Option Text
      → AuthState
      → Result AuthError ℕ
      → AuthState × Result AuthError LoginResult
  login_online now user fresh st (err e) = (st, err e)
  login_online now user fresh st (ok online) =
      if ltb 0 online
      then login_reuse now user online fresh st (reusable now user.id st)
      else logged_in now user online (issue_session now user.id fresh st)

  abbrev pub login_user :
      ℕ
      → Text
      → Option Text
      → AuthState
      → Result AuthError User
      → AuthState × Result AuthError LoginResult
  login_user now password fresh st (err e) = (st, err (hide_missing e))
  login_user now password fresh st (ok user) =
      if user.disabled
      then (st, err user_disabled)
      else if not (verify_password user.password_hash password)
      then (st, err invalid_credentials)
      else login_online now user fresh st (online_count R user.id st.cache)

  -- `Login` at the time `now`, with the random token that it would draw.
  unfoldable pub login :
      ℕ → Text → Text → Option Text → AuthState → AuthState × Result AuthError LoginResult
  login now username password fresh st =
      login_user now password fresh st (find_user_by_name key (trim_space username) st.db)

  -- The cache is filled for the rest of the session.
  abbrev pub refill : ℕ → Text → ℕ → AuthState → Result AuthError (Option Session) → AuthState
  refill now hash u st (ok (some sess)) = record st {
    cache = (cache_token R hash u (sess.expires_at - now) st.cache).0;
  }
  refill now hash u st _ = st

  abbrev pub from_database :
      ℕ → Text → AuthState → Result AuthError User → AuthState × Result AuthError (ℕ × Text)
  from_database now hash st (err e) = (st, err (hide_missing e))
  from_database now hash st (ok user) =
      if user.disabled
      then (st, err user_disabled)
      else (refill now hash user.id st (get_session now user.id st.db), ok (user.id, user.username))

  abbrev pub from_cache :
      ℕ → Text → AuthState → Result AuthError (Option ℕ) → AuthState × Result AuthError (ℕ × Text)
  from_cache now hash st (ok (some u)) = (st, ok (u, []))
  from_cache now hash st _ = from_database now hash st (find_user_by_token_hash now hash st.db)

  -- `AuthenticateToken`: the user and, from the database only, the name.
  unfoldable pub authenticate_token : ℕ → Text → AuthState → AuthState × Result AuthError (ℕ × Text)
  authenticate_token now token st =
      if is_empty token
      then (st, err invalid_credentials)
      else from_cache now (token_hash token) st (lookup_token R (token_hash token) st.cache)

  abbrev pub owner_by_hash : ℕ → Text → AuthState → Result AuthError (Option ℕ) → Result AuthError ℕ
  owner_by_hash now hash st (ok (some u)) = ok u
  owner_by_hash now hash st _ = find_user_by_token_hash now hash st.db >>= λ user. ok user.id

  abbrev drop_both : Text → ℕ → AuthState → AuthState × Result AuthError (Unit {0})
  drop_both hash u st =
      let dropped_token = drop_token R hash u st.cache in
      if not dropped_token.1
      then (record st { cache = dropped_token.0 }, err redis_failed)
      else let dropped_plain = drop_plain_token R u dropped_token.0 in
        (record st { cache = dropped_plain.0 }, if dropped_plain.1 then ok tt else err redis_failed)

  abbrev end_session :
      Text → ℕ → AuthState → Result AuthError MysqlStore → AuthState × Result AuthError (Unit {0})
  end_session hash u st (err e) = (st, err e)
  end_session hash u st (ok db) = drop_both hash u (record st { db = db })

  abbrev pub logout_owner :
      Text → AuthState → Result AuthError ℕ → AuthState × Result AuthError (Unit {0})
  logout_owner hash st (err e) = (st, err e)
  logout_owner hash st (ok u) = end_session hash u st (delete_session u st.db)

  unfoldable pub logout : ℕ → Text → AuthState → AuthState × Result AuthError (Unit {0})
  logout now token st =
      let hash = token_hash token in
      logout_owner hash st (owner_by_hash now hash st (lookup_token R hash st.cache))
