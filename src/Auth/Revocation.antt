-- ===== src/Auth/Revocation.antt =====
-- auth_service.go: what `Logout`, `InvalidateSessions` and `ChangePassword` end, and what they do
-- not.
use clip_sync_server.Base.{
  All, List, Text, [], arith, err, false, is_empty, none, ok, refl, same, some, true, ℕ, ◌∷◌, ◌≡◌,
}
use clip_sync_server.Auth.Service.{AuthConfig, AuthState, Crypto, authenticate_token, logout}
use clip_sync_server.Auth.Store.{
  MysqlStore, Session, delete_session, delete_session_stmt, find_by_token_stmt,
  find_user_by_token_hash, first, invalid_credentials, is_live, user_not_found, without_session,
}
use clip_sync_server.Auth.Redis.{Redis}
use clip_sync_server.Auth.Tokens.{cached_authenticates}
use clip_sync_server.Auth.Cache.{current_hash, drop_token, lookup_token}
use clip_sync_server.Auth.CacheLaws.{
  lookup_token-drop_plain_token, lookup_token-drop_token, lookup_token-drop_token_other,
}
use clip_sync_server.Auth.Change.{invalidate_sessions}

-- The sessions of a token are all of one user.
abbrev pub AreOf : ℕ → Text → List Session → Type 0
AreOf u hash = All (λ s. same s.token_hash hash ≡ true → s.user_id ≡ u)

no_session_left :
    (now u : ℕ) (hash : Text) (rows : List Session)
    → AreOf u hash rows
    → first (is_live now hash) (without_session u rows) ≡ none
unfolding first
no_session_left now u hash [] h = refl
no_session_left now u hash (s ∷ rows) (h, hs) = ground (arith, no_session_left now u hash rows hs)

module _ (R : Redis) (key : Text → Text) (crypto : Crypto) (cfg : AuthConfig) where
  open crypto use {token_hash}

  abbrev Auth : Type 0
  Auth = AuthState R key crypto cfg

  -- A token that is neither cached nor of a live session is refused.
  unknown_refused :
      (now : ℕ) (token : Text) (st : Auth)
      → lookup_token R (token_hash token) st.cache ≡ ok none
      → find_user_by_token_hash now (token_hash token) st.db ≡ err user_not_found
      → authenticate_token R key crypto cfg now token st ≡ (st, err invalid_credentials)
  unfolding authenticate_token
  unknown_refused now token st miss gone = ground arith

  without_session-missing :
      (now u : ℕ) (hash : Text) (db : MysqlStore)
      → AreOf u hash db.sessions
      → db.fails find_by_token_stmt ≡ false
      → find_user_by_token_hash now hash (record db { sessions = without_session u db.sessions })
        ≡ err user_not_found
  unfolding find_user_by_token_hash
  without_session-missing now u hash db a f =
      ground (arith, no_session_left now u hash db.sessions a)

  -- A logout of a cached token that succeeds ends the token: in the state that it leaves the token
  -- is refused, if MySQL answers and the sessions with the token's hash are the owner's.
  pub logout_ends :
      (now later u : ℕ) (token : Text) (st st' : Auth)
      → lookup_token R (token_hash token) st.cache ≡ ok (some u)
      → AreOf u (token_hash token) st.db.sessions
      → st.db.fails find_by_token_stmt ≡ false
      → logout R key crypto cfg now token st ≡ (st', ok tt)
      → authenticate_token R key crypto cfg later token st' ≡ (st', err invalid_credentials)
  unfolding logout delete_session
  logout_ends now later u token st st' owned a f h =
      let hash = token_hash token in
      unknown_refused later token st'
        (ground (
          arith,
          lookup_token-drop_token R hash u st.cache,
          lookup_token-drop_plain_token R hash u (drop_token R hash u st.cache).0,
        ))
        (ground (arith, without_session-missing later u hash st.db a f))

  -- `InvalidateSessions` ends the user's current token, if Redis and MySQL carry it out, the hash
  -- is not empty, and the sessions with that hash are the user's.
  pub invalidate_sessions_ends :
      (later u : ℕ) (token : Text) (st : Auth)
      → current_hash R u st.cache ≡ ok (some (token_hash token))
      → is_empty (token_hash token) ≡ false
      → AreOf u (token_hash token) st.db.sessions
      → st.db.fails find_by_token_stmt ≡ false
      → st.db.fails delete_session_stmt ≡ false
      → (drop_token R (token_hash token) u st.cache).1 ≡ true
      → let st' = invalidate_sessions R key crypto cfg u st in
        authenticate_token R key crypto cfg later token st' ≡ (st', err invalid_credentials)
  unfolding invalidate_sessions delete_session
  invalidate_sessions_ends later u token st current e a f g d =
      let hash = token_hash token in
      unknown_refused later token (invalidate_sessions R key crypto cfg u st)
        (ground (
          arith,
          lookup_token-drop_token R hash u st.cache,
          lookup_token-drop_plain_token R hash u (drop_token R hash u st.cache).0,
        ))
        (ground (arith, without_session-missing later u hash st.db a f))

  -- `InvalidateSessions` spares every cached token whose hash is not the user's current one: it is
  -- accepted as before.
  pub invalidate_sessions_spares :
      (later u v : ℕ) (old current : Text) (st : Auth)
      → current_hash R u st.cache ≡ ok (some current)
      → same (token_hash old) current ≡ false
      → is_empty old ≡ false
      → lookup_token R (token_hash old) st.cache ≡ ok (some v)
      → let st' = invalidate_sessions R key crypto cfg u st in
        authenticate_token R key crypto cfg later old st' ≡ (st', ok (v, []))
  unfolding invalidate_sessions
  invalidate_sessions_spares later u v old current st c n e k =
      let hash = token_hash old in
      cached_authenticates R key crypto cfg later v old (invalidate_sessions R key crypto cfg u st)
        e
        (ground (
          arith,
          lookup_token-drop_token_other R hash current u st.cache n,
          lookup_token-drop_plain_token R hash u st.cache,
          lookup_token-drop_plain_token R hash u (drop_token R current u st.cache).0,
        ))
