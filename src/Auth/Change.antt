-- ===== src/Auth/Change.antt =====
-- auth_service.go: `InvalidateSessions` and `ChangePassword`.
use clip_sync_server.Base.{
  ◌++◌, Option, Result, Text, [], byte_len, if◌then◌else◌, err, ltb, none, not, ok, some, ℕ, ◌∷◌,
}
use clip_sync_server.Auth.Service.{
  AuthConfig, AuthState, Crypto, authenticate_token, issue_session, reason_password_reset,
}
use clip_sync_server.Auth.Store.{
  AuthError, MysqlStore, User, crypto_failed, delete_session, find_user_by_id, invalid_credentials,
  update_password, weak_password,
}
use clip_sync_server.Auth.Redis.{Redis}
use clip_sync_server.Auth.Cache.{current_hash, drop_plain_token, drop_token}

module _ (R : Redis) (key : Text → Text) (crypto : Crypto) (cfg : AuthConfig) where
  open R use {State}
  open crypto use {token_hash, verify_password, hash_password}

  abbrev St : Type 0
  St = AuthState R key crypto cfg

  abbrev kept_db : MysqlStore → Result AuthError MysqlStore → MysqlStore
  kept_db old (ok new) = new
  kept_db old (err e) = old

  abbrev drop_current : ℕ → State → Result AuthError (Option Text) → State
  drop_current u cache (ok (some (c ∷ hash))) = (drop_token R (c ∷ hash) u cache).0
  drop_current u cache _ = cache

  -- `InvalidateSessions`: every step is tried, and no failure stops it.
  unfoldable pub invalidate_sessions : ℕ → St → St
  invalidate_sessions u st = record st {
    cache = (drop_plain_token R u (drop_current u st.cache (current_hash R u st.cache))).0;
    db = kept_db st.db (delete_session u st.db);
  }

  -- The revocation in `ChangePassword`: the old session, its cached token, the token in clear, and
  -- the command that kicks the user's connections.
  unfoldable pub revoke : ℕ → Text → St → St
  revoke u token st = record st {
    db = kept_db st.db (delete_session u st.db);
    cache = (drop_plain_token R u (drop_token R (token_hash token) u st.cache).0).0;
    published = st.published ++ (u, reason_password_reset) ∷ [];
  }

  abbrev pub change_stored :
      ℕ → ℕ → Text → Option Text → St → Result AuthError MysqlStore → St × Result AuthError Text
  change_stored now u token fresh st (err e) = (st, err e)
  change_stored now u token fresh st (ok db) =
      issue_session R key crypto cfg now u fresh (revoke u token (record st { db = db }))

  abbrev pub change_hashed :
      ℕ → ℕ → Text → Option Text → St → Option Text → St × Result AuthError Text
  change_hashed now u token fresh st none = (st, err crypto_failed)
  change_hashed now u token fresh st (some hash) =
      change_stored now u token fresh st (update_password u hash st.db)

  abbrev pub change_user :
      ℕ
      → ℕ
      → Text
      → Text
      → Text
      → Option Text
      → St
      → Result AuthError User
      → St × Result AuthError Text
  change_user now u token old_pw new_pw fresh st (err e) = (st, err e)
  change_user now u token old_pw new_pw fresh st (ok user) =
      if not (verify_password user.password_hash old_pw)
      then (st, err invalid_credentials)
      else change_hashed now u token fresh st (hash_password new_pw)

  abbrev pub change_authenticated :
      ℕ
      → Text
      → Text
      → Text
      → Option Text
      → St × Result AuthError (ℕ × Text)
      → St × Result AuthError Text
  change_authenticated now token old_pw new_pw fresh (st, err e) = (st, err invalid_credentials)
  change_authenticated now token old_pw new_pw fresh (st, ok (u, name)) =
      change_user now u token old_pw new_pw fresh st (find_user_by_id u st.db)

  unfoldable pub change_password :
      ℕ → Text → Text → Text → Option Text → St → St × Result AuthError Text
  change_password now token old_pw new_pw fresh st =
      if ltb (byte_len new_pw) cfg.min_password_len
      then (st, err weak_password)
      else change_authenticated now token old_pw new_pw fresh
          (authenticate_token R key crypto cfg now token st)
