-- ===== src/Http.antt =====
-- auth_http.go: what the handlers read of a request, and the handlers of registration, login,
-- session, logout and password. An answer is the status code of an error, or what a 200 carries.
-- encoding/json is a parameter: a body comes decoded, `none` if it is no JSON.
pub mod Sessions
pub mod Refusals
mod Tests
use clip_sync_server.Base.{
  ◌/◌, Bool, List, Option, Result, Text, [], codes, drop, if◌then◌else◌, err, is_empty, length,
  none, not, ok, some, ◌||◌, ℕ,
}
use clip_sync_server.Auth.Service.{
  AuthConfig, AuthState, Crypto, LoginResult, authenticate_token, login, logout,
}
use clip_sync_server.Auth.Store.{
  AuthError, MysqlStore, User, bad_username, invalid_credentials, register_closed, user_disabled,
  user_exists, weak_password,
}
use clip_sync_server.Limit.{LoginLimiter, allow, second}
use clip_sync_server.Auth.Redis.{Redis}
use clip_sync_server.Auth.Change.{change_password}
use clip_sync_server.Text.{has_prefix, trim_space}
use clip_sync_server.Auth.Cache.{online_devices_of}
use clip_sync_server.Auth.Accounts.{register_user}

-- `authorization` is the header, empty if there is none, `query_token` the parameter `token`.
pub record HttpRequest : Type 0 where
  pub is_post : Bool
  pub ip : Text
  pub authorization : Text
  pub query_token : Text

abbrev pub bearer : Text
bearer = codes "Bearer "

unfoldable pub bearer_token : HttpRequest → Text
bearer_token r =
    if has_prefix bearer r.authorization
    then trim_space (drop (length bearer) r.authorization)
    else r.query_token

-- A user name and a password.
unfoldable pub decode_credentials : Option (Text × Text) → Option (Text × Text)
decode_credentials none = none
decode_credentials (some (username, password)) =
    let name = trim_space username in
    if is_empty name || is_empty password then none else some (name, password)

-- The status codes of the errors of `Login`, `Register` and `ChangePassword`.
unfoldable pub login_status : AuthError → ℕ
login_status invalid_credentials = 401
login_status user_disabled = 403
login_status _ = 500

unfoldable pub register_status : AuthError → ℕ
register_status register_closed = 403
register_status user_exists = 409
register_status weak_password = 400
register_status bad_username = 400
register_status _ = 500

unfoldable pub change_status : AuthError → ℕ
change_status invalid_credentials = 401
change_status weak_password = 400
change_status _ = 500

-- What `sessionHandler` answers: the user, the name, empty if it is not known, and the devices.
pub record SessionAnswer : Type 0 where
  pub user_id : ℕ
  pub username : Text
  pub online_devices : List (Text × Text)

abbrev pub or_nothing : Result AuthError (List (Text × Text)) → List (Text × Text)
or_nothing (err e) = []
or_nothing (ok devices) = devices

module _ (R : Redis) (key : Text → Text) (crypto : Crypto) (cfg : AuthConfig) where
  abbrev St : Type 0
  St = AuthState R key crypto cfg

  pub record WebState : Type 0 where
    pub auth : St
    pub limiter : LoginLimiter

  abbrev pub with_auth {ℓ} :
      {A : Type ℓ} → (AuthError → ℕ) → WebState → St × Result AuthError A → WebState × Result ℕ A
  with_auth status s (auth, err e) = (record s { auth = auth }, err (status e))
  with_auth status s (auth, ok a) = (record s { auth = auth }, ok a)

  abbrev pub login_with :
      ℕ → Option Text → WebState → Option (Text × Text) → WebState × Result ℕ LoginResult
  login_with now fresh s none = (s, err 400)
  login_with now fresh s (some (username, password)) =
      with_auth login_status s (login R key crypto cfg now username password fresh s.auth)

  -- `loginHandler`, at a time in nanoseconds.
  unfoldable pub login_handler :
      ℕ
      → HttpRequest
      → Option (Text × Text)
      → Option Text
      → WebState
      → WebState × Result ℕ LoginResult
  login_handler clock r body fresh s =
      if not r.is_post
      then (s, err 405)
      else let (limiter, passed) = allow clock r.ip s.limiter in
        let s' = record s { limiter = limiter } in
        if not passed
        then (s', err 429)
        else login_with (clock / second) fresh s' (decode_credentials body)

  abbrev registered :
      WebState → Result AuthError (User × MysqlStore) → WebState × Result ℕ (ℕ × Text)
  registered s (err e) = (s, err (register_status e))
  registered s (ok (user, db)) =
      (record s { auth = record s.auth { db = db } }, ok (user.id, user.username))

  abbrev register_with :
      (now id : ℕ) → WebState → Option (Text × Text) → WebState × Result ℕ (ℕ × Text)
  register_with now id s none = (s, err 400)
  register_with now id s (some (username, password)) =
      registered s (register_user key crypto cfg now id username password s.auth.db)

  -- `registerHandler`, with the row ID that MySQL would give.
  unfoldable pub register_handler :
      (now id : ℕ) → HttpRequest → Option (Text × Text) → WebState → WebState × Result ℕ (ℕ × Text)
  register_handler now id r body s =
      if not r.is_post then (s, err 405) else register_with now id s (decode_credentials body)

  abbrev pub session_of :
      WebState → St × Result AuthError (ℕ × Text) → WebState × Result ℕ SessionAnswer
  session_of s (auth, err e) = (record s { auth = auth }, err 401)
  session_of s (auth, ok (u, username)) = (
    record s { auth = auth },
    ok (record {
      user_id = u;
      username = username;
      online_devices = or_nothing (online_devices_of R u auth.cache);
    }),
  )

  unfoldable pub session_handler : ℕ → HttpRequest → WebState → WebState × Result ℕ SessionAnswer
  session_handler now r s =
      let token = bearer_token r in
      if is_empty token
      then (s, err 401)
      else session_of s (authenticate_token R key crypto cfg now token s.auth)

  unfoldable pub logout_handler : ℕ → HttpRequest → WebState → WebState × Result ℕ (Unit {0})
  logout_handler now r s =
      let token = bearer_token r in
      if not r.is_post
      then (s, err 405)
      else if is_empty token
      then (s, err 401)
      else with_auth (λ e. 401) s (logout R key crypto cfg now token s.auth)

  abbrev change_with :
      ℕ → Text → Option Text → WebState → Option (Text × Text) → WebState × Result ℕ Text
  change_with now token fresh s none = (s, err 400)
  change_with now token fresh s (some (old_pw, new_pw)) =
      if is_empty old_pw || is_empty new_pw
      then (s, err 400)
      else with_auth change_status s
          (change_password R key crypto cfg now token old_pw new_pw fresh s.auth)

  -- `changePasswordHandler`; the body holds the old and the new password.
  unfoldable pub change_password_handler :
      ℕ → HttpRequest → Option (Text × Text) → Option Text → WebState → WebState × Result ℕ Text
  change_password_handler now r body fresh s =
      let token = bearer_token r in
      if not r.is_post
      then (s, err 405)
      else if is_empty token
      then (s, err 401)
      else change_with now token fresh s body
