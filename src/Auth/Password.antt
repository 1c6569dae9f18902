-- ===== src/Auth/Password.antt =====
-- auth_service.go: `ChangePassword`, and the command that it publishes before it issues the new
-- token. The subscriber of that command runs `InvalidateSessions` (main.go).
use clip_sync_server.Base.{
  ◌<◌, Option, Result, Result-cases, Text, [], arith, err, false, inl, inr, is_empty, none, ok,
  some, true, ℕ, ◌≡◌,
}
use clip_sync_server.Auth.Revocation.{AreOf, invalidate_sessions_ends}
use clip_sync_server.Auth.Service.{AuthConfig, AuthState, Crypto, authenticate_token}
use clip_sync_server.Auth.Store.{
  AuthError, User, delete_session_stmt, find_by_token_stmt, find_user_by_id, invalid_credentials,
  update_password,
}
use clip_sync_server.Auth.Tokens.{IsIssued, cached_authenticates, issue_session-IsIssued}
use clip_sync_server.Auth.Redis.{Redis}
use clip_sync_server.Auth.Cache.{drop_token}
use clip_sync_server.Auth.Change.{change_hashed, change_password, change_user, invalidate_sessions}

module _ (R : Redis) (key : Text → Text) (crypto : Crypto) (cfg : AuthConfig) where
  open crypto use {token_hash}

  abbrev Auth : Type 0
  Auth = AuthState R key crypto cfg

  change_hashed-IsIssued :
      (now u : ℕ) (token fresh given : Text) (st st' : Auth) (x : Option Text)
      → 0 < cfg.token_ttl_hours
      → change_hashed R key crypto cfg now u token (some fresh) st x ≡ (st', ok given)
      → (mid : Auth) × IsIssued R key crypto cfg now u fresh given mid st'
  change_hashed-IsIssued now u token fresh given st st' none p h = ground arith
  change_hashed-IsIssued now u token fresh given st st' (some hash) p h =
      elim (Result-cases (update_password u hash st.db)) [
        | inl (e, f) ↦ let h' = rw (f) at h in ground arith
        | inr (db, g) ↦
            let h' = rw (g) at h in
            (_, issue_session-IsIssued R key crypto cfg now u fresh given _ st' p h')
      ]

  change_user-IsIssued :
      (now u : ℕ) (token old_pw new_pw fresh given : Text) (st st' : Auth)
      (x : Result AuthError User)
      → 0 < cfg.token_ttl_hours
      → change_user R key crypto cfg now u token old_pw new_pw (some fresh) st x ≡ (st', ok given)
      → (mid : Auth) × IsIssued R key crypto cfg now u fresh given mid st'
  change_user-IsIssued now u token old_pw new_pw fresh given st st' (err e) p h = ground arith
  change_user-IsIssued now u token old_pw new_pw fresh given st st' (ok user) p h =
      let hashed = crypto.hash_password new_pw in
      let reached : change_hashed R key crypto cfg now u token (some fresh) st hashed
          ≡ (st', ok given) =
        ground arith in
      change_hashed-IsIssued now u token fresh given st st' hashed p reached

  -- A change of password that succeeds has issued the token that it gives.
  change_password-IsIssued :
      (now u : ℕ) (token name old_pw new_pw fresh given : Text) (st auth st' : Auth)
      → 0 < cfg.token_ttl_hours
      → authenticate_token R key crypto cfg now token st ≡ (auth, ok (u, name))
      → change_password R key crypto cfg now token old_pw new_pw (some fresh) st ≡ (st', ok given)
      → (mid : Auth) × IsIssued R key crypto cfg now u fresh given mid st'
  unfolding change_password
  change_password-IsIssued now u token name old_pw new_pw fresh given st auth st' p known h =
      let stored = find_user_by_id u auth.db in
      let reached : change_user R key crypto cfg now u token old_pw new_pw (some fresh) auth stored
          ≡ (st', ok given) =
        ground arith in
      change_user-IsIssued now u token old_pw new_pw fresh given auth st' stored p reached

  -- The token that a change of password gives is accepted as the user's, in the state that the
  -- change leaves, if tokens have a positive lifetime and the token is not empty.
  pub change_password-authenticate :
      (now later u : ℕ) (token name old_pw new_pw fresh given : Text) (st auth st' : Auth)
      → 0 < cfg.token_ttl_hours
      → authenticate_token R key crypto cfg now token st ≡ (auth, ok (u, name))
      → change_password R key crypto cfg now token old_pw new_pw (some fresh) st ≡ (st', ok given)
      → is_empty fresh ≡ false
      → authenticate_token R key crypto cfg later given st' ≡ (st', ok (u, []))
  change_password-authenticate now later u token name old_pw new_pw fresh given st auth st' p known
        h e =
      let (mid, issued) =
        change_password-IsIssued now u token name old_pw new_pw fresh given st auth st' p known h in
      rw (issued.same_token)
        (cached_authenticates R key crypto cfg later u fresh st' e issued.cached)

  -- `InvalidateSessions` in the state that a change of password leaves ends the new token too, if
  -- Redis and MySQL carry it out, its hash is not empty, and the sessions with that hash are the
  -- user's.
  pub invalidated_refused :
      (now later u : ℕ) (token name old_pw new_pw fresh given : Text) (st auth st' : Auth)
      → 0 < cfg.token_ttl_hours
      → authenticate_token R key crypto cfg now token st ≡ (auth, ok (u, name))
      → change_password R key crypto cfg now token old_pw new_pw (some fresh) st ≡ (st', ok given)
      → is_empty (token_hash fresh) ≡ false
      → AreOf u (token_hash fresh) st'.db.sessions
      → st'.db.fails find_by_token_stmt ≡ false
      → st'.db.fails delete_session_stmt ≡ false
      → (drop_token R (token_hash fresh) u st'.cache).1 ≡ true
      → let kicked = invalidate_sessions R key crypto cfg u st' in
        authenticate_token R key crypto cfg later given kicked ≡ (kicked, err invalid_credentials)
  invalidated_refused now later u token name old_pw new_pw fresh given st auth st' p known h e a f g
        d =
      let (mid, issued) =
        change_password-IsIssued now u token name old_pw new_pw fresh given st auth st' p known h in
      rw (issued.same_token)
        (invalidate_sessions_ends R key crypto cfg later u fresh st' issued.current e a f g d)
