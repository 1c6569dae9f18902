-- ===== src/Handshake/Admission/After.antt =====
-- main.go: the handshake after a logout and after a ban.
use clip_sync_server.Auth.Revocation.{AreOf, logout_ends}
use clip_sync_server.Auth.Service.{AuthConfig, AuthState, Crypto, authenticate_token, logout}
use clip_sync_server.Auth.Store.{AuthError, find_by_token_stmt, invalid_credentials}
use clip_sync_server.Device.{Device}
use clip_sync_server.Handshake.Admission.{Entrance, WsOutcomes, WsRequest, admit, token_invalid}
use clip_sync_server.Base.{List, Text, err, false, is_empty, ok, refl, some, ℕ, ◌≡◌}
use clip_sync_server.Auth.Redis.{Redis}
use clip_sync_server.Auth.Cache.{lookup_token}

shown_token :
    (R : Redis) (key : Text → Text) (crypto : Crypto) (cfg : AuthConfig) (ids : Text → Text)
    (queue : ℕ) (o : WsOutcomes) (now id : ℕ) (q : WsRequest)
    (s : Entrance R key crypto cfg ids queue) (e : AuthError)
    → is_empty q.device ≡ false
    → is_empty q.token ≡ false
    → authenticate_token R key crypto cfg now q.token s.auth ≡ (s.auth, err e)
    → admit R key crypto cfg ids queue o now id q s ≡ (s, err token_invalid)
unfolding admit
shown_token R key crypto cfg ids queue o now id q s e d t h = rw (d, t, h) refl

module _ (R : Redis) (key : Text → Text) (crypto : Crypto) (cfg : AuthConfig) (ids : Text → Text)
    (queue : ℕ) where
  -- After a logout of a cached token that succeeds, no handshake with that token is let in, and
  -- none
  -- changes anything, if MySQL answers and the sessions with the token's hash are the owner's.
  pub logged_out_refused :
      (o : WsOutcomes) (now later id u : ℕ) (q : WsRequest) (st st' : AuthState R key crypto cfg)
      (rows : List Device)
      → is_empty q.device ≡ false
      → is_empty q.token ≡ false
      → lookup_token R (crypto.token_hash q.token) st.cache ≡ ok (some u)
      → AreOf u (crypto.token_hash q.token) st.db.sessions
      → st.db.fails find_by_token_stmt ≡ false
      → logout R key crypto cfg now q.token st ≡ (st', ok tt)
      → let s : Entrance R key crypto cfg ids queue = record { auth = st'; rows = rows } in
        admit R key crypto cfg ids queue o later id q s ≡ (s, err token_invalid)
  logged_out_refused o now later id u q st st' rows d t owned a f h =
      shown_token R key crypto cfg ids queue o later id q (record { auth = st'; rows = rows })
        invalid_credentials d t
        (logout_ends R key crypto cfg now later u q.token st st' owned a f h)
