-- ===== src/Http/Sessions.antt =====
-- auth_http.go: the handlers one after another.
use clip_sync_server.Base.{
  ◌++◌, ◌/◌, ◌<◌, Bool-cases, Option, Text, [], err, false, inl, inr, is_empty, ok, refl, some, ℕ,
  ◌≡◌, Result, ap, arith, none,
}
use clip_sync_server.Auth.Revocation.{AreOf, logout_ends}
use clip_sync_server.Auth.Service.{
  AuthConfig, Crypto, LoginResult, authenticate_token, login, logout, AuthState,
}
use clip_sync_server.Auth.Store.{AuthError, find_by_token_stmt, db_failed, invalid_credentials}
use clip_sync_server.Http.{
  HttpRequest, WebState, bearer, bearer_token, login_handler, logout_handler, or_nothing,
  session_handler, decode_credentials, login_status, login_with, with_auth, allow,
}
use clip_sync_server.Auth.Redis.{Redis}
use clip_sync_server.Text.{has_prefix, trim_space}
use clip_sync_server.Auth.Tokens.{login-authenticate, login-IsIssued}
use clip_sync_server.Auth.Cache.{lookup_token, online_devices_of}
use clip_sync_server.Limit.{second, allow}

pub bearer_read :
    (r : HttpRequest) (token : Text)
    → r.authorization ≡ bearer ++ token
    → trim_space token ≡ token
    → bearer_token r ≡ token
unfolding bearer_token has_prefix
bearer_read r token h t = rw (h, t) refl

module _ (R : Redis) (key : Text → Text) (crypto : Crypto) (cfg : AuthConfig) where
  abbrev Web : Type 0
  Web = WebState R key crypto cfg

  session_known :
      (now u : ℕ) (r : HttpRequest) (token username : Text) (s : Web)
      → bearer_token r ≡ token
      → is_empty token ≡ false
      → authenticate_token R key crypto cfg now token s.auth ≡ (s.auth, ok (u, username))
      → session_handler R key crypto cfg now r s ≡ (
        s,
        ok (record {
          user_id = u;
          username = username;
          online_devices = or_nothing (online_devices_of R u s.auth.cache);
        }),
      )
  unfolding session_handler
  session_known now u r token username s b e h = rw (b, e, h) refl

  session_unknown :
      (now : ℕ) (r : HttpRequest) (token : Text) (s : Web) (e : AuthError)
      → bearer_token r ≡ token
      → authenticate_token R key crypto cfg now token s.auth ≡ (s.auth, err e)
      → session_handler R key crypto cfg now r s ≡ (s, err 401)
  unfolding session_handler
  session_unknown now r token s e b h = elim (Bool-cases (is_empty token)) [
    | inl y ↦ rw (b, y) refl
    | inr n ↦ rw (b, n, h) refl
  ]

  abbrev as_service {ℓ} : {A : Type ℓ} → Result ℕ A → Result AuthError A
  as_service (err n) = err db_failed
  as_service (ok a) = ok a

  -- An answer 200 is a success of the service.
  with_auth_ok {ℓ} :
      {A : Type ℓ} (status : AuthError → ℕ) (s s' : Web)
      (x : AuthState R key crypto cfg × Result AuthError A) (a : A)
      → with_auth R key crypto cfg status s x ≡ (s', ok a)
      → x ≡ (s'.auth, ok a)
  with_auth_ok status s s' (auth, err e) a h =
      let wrong : ◌≡◌ (err (status e)) (ok a) = ap (λ p. p.1) h in ground (arith, wrong)
  with_auth_ok status s s' (auth, ok b) a h = ap (λ p. (p.0.auth, as_service p.1)) h

  login_with_ok :
      (now : ℕ) (fresh : Option Text) (s s' : Web) (res : LoginResult) (c : Option (Text × Text))
      → login_with R key crypto cfg now fresh s c ≡ (s', ok res)
      → (username : Text) × (password : Text) × (login R key crypto cfg now username password fresh
            s.auth
          ≡ (s'.auth, ok res))
  login_with_ok now fresh s s' res none h =
      let wrong : ◌≡◌ {A = Result ℕ LoginResult} (err 400) (ok res) = ap (λ p. p.1) h in
      ground (arith, wrong)
  login_with_ok now fresh s s' res (some (username, password)) h = (
    username,
    password,
    with_auth_ok login_status s s' (login R key crypto cfg now username password fresh s.auth) res
        h,
  )

  -- The state and the result of the service behind an answer 200 of `loginHandler`.
  login_handler_ok :
      (clock : ℕ) (r : HttpRequest) (body : Option (Text × Text)) (fresh : Option Text) (s s' : Web)
      (res : LoginResult)
      → login_handler R key crypto cfg clock r body fresh s ≡ (s', ok res)
      → (username : Text) × (password : Text) × (login R key crypto cfg
            (clock / second)
            username
            password
            fresh
            s.auth
          ≡ (s'.auth, ok res))
  unfolding login_handler
  login_handler_ok clock r body fresh s s' res h =
      let (limiter, passed) = allow clock r.ip s.limiter in
      let t : Web = record s { limiter = limiter } in
      elim (Bool-cases r.is_post) [
        | inr get ↦
            let wrong : ◌≡◌ {A = Result ℕ LoginResult} (err 405) (ok res) =
              ap (λ p. p.1) (rw get at h) in
            ground (arith, wrong)
        | inl post ↦ elim (Bool-cases passed) [
          | inr limited ↦
              let wrong : ◌≡◌ {A = Result ℕ LoginResult} (err 429) (ok res) =
                ap (λ p. p.1) (rw (post, limited) at h) in
              ground (arith, wrong)
          | inl free ↦
              login_with_ok (clock / second) fresh t s' res (decode_credentials body)
                (rw (post, free) at h)
        ]
      ]

  -- A login over HTTP that is answered with a fresh token lets its client in: shown in the header,
  -- the token is answered with its user and the devices online, if tokens have a positive lifetime
  -- and the token is not empty and has no space around it.
  pub login_then_session :
      (clock later : ℕ) (r next : HttpRequest) (body : Option (Text × Text)) (token : Text)
      (s s' : Web) (res : LoginResult)
      → 0 < cfg.token_ttl_hours
      → is_empty token ≡ false
      → login_handler R key crypto cfg clock r body (some token) s ≡ (s', ok res)
      → res.reused ≡ false
      → next.authorization ≡ bearer ++ res.token
      → trim_space token ≡ token
      → session_handler R key crypto cfg later next s' ≡ (
        s',
        ok (record {
          user_id = res.user_id;
          username = [];
          online_devices = or_nothing (online_devices_of R res.user_id s'.auth.cache);
        }),
      )
  login_then_session clock later r next body token s s' res p e h n a t =
      let (username, password, logged) = login_handler_ok clock r body (some token) s s' res h in
      let now = clock / second in
      let issued =
        login-IsIssued R key crypto cfg now username password token s.auth s'.auth res p logged n in
      session_known later res.user_id next res.token [] s'
        (bearer_read next res.token a (rw issued.same_token t)) (rw issued.same_token e)
        (login-authenticate R key crypto cfg now later username password token s.auth s'.auth res p
          e logged n)

  -- A logout over HTTP of a cached token that is answered with 200 ends it: the next question for
  -- the session is answered with 401 and changes nothing, if MySQL answers and the sessions with
  -- the token's hash are the owner's.
  pub logout_then_session :
      (now later u : ℕ) (r : HttpRequest) (s s' : Web)
      → lookup_token R (crypto.token_hash (bearer_token r)) s.auth.cache ≡ ok (some u)
      → AreOf u (crypto.token_hash (bearer_token r)) s.auth.db.sessions
      → s.auth.db.fails find_by_token_stmt ≡ false
      → logout_handler R key crypto cfg now r s ≡ (s', ok tt)
      → session_handler R key crypto cfg later r s' ≡ (s', err 401)
  unfolding logout_handler bearer_token
  logout_then_session now later u r s s' owned a f h =
      let token = bearer_token r in
      elim (Bool-cases r.is_post) [
        | inr get ↦
            let wrong : ◌≡◌ {A = Result ℕ (Unit {0})} (err 405) (ok tt) =
              ap (λ p. p.1) (rw get at h) in
            ground (arith, wrong)
        | inl post ↦ elim (Bool-cases (is_empty token)) [
          | inl none_given ↦
              let wrong : ◌≡◌ {A = Result ℕ (Unit {0})} (err 401) (ok tt) =
                ap (λ p. p.1) (rw (post, none_given) at h) in
              ground (arith, wrong)
          | inr given ↦
              let ended =
                with_auth_ok (λ e. 401) s s' (logout R key crypto cfg now token s.auth) tt
                  (rw (post, given) at h) in
              session_unknown later r token s' invalid_credentials refl
                (logout_ends R key crypto cfg now later u token s.auth s'.auth owned a f ended)
        ]
      ]
