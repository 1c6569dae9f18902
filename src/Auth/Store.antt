-- ===== src/Auth/Store.antt =====
-- store_mysql.go: the tables `users` and `sessions`. What a statement does to the rows is read off
-- its SQL text. `fails` says which kinds of statements the driver answers with an error.
use clip_sync_server.Base.{
  ◌&&◌, ◌++◌, ◌==◌, Bool, List, Option, Result, Text, [], any, count_if, if◌then◌else◌, err, false,
  leb, ltb, map, none, not, ok, same, select, some, ℕ, ◌∷◌,
}

pub record User : Type 0 where
  pub id : ℕ
  pub username : Text
  pub nickname : Text
  pub password_hash : Text
  pub disabled : Bool
  pub created_at : ℕ

pub record Session : Type 0 where
  pub user_id : ℕ
  pub token_hash : Text
  pub created_at : ℕ
  pub expires_at : ℕ

pub data Stmt : Type 0 where
  create_user_stmt find_by_name_stmt find_by_id_stmt find_by_token_stmt : Stmt
  get_session_stmt upsert_session_stmt delete_session_stmt update_password_stmt : Stmt

pub record MysqlStore : Type 0 where
  pub users : List User
  pub sessions : List Session
  pub fails : Stmt → Bool

-- The errors of the stores and of the service.
pub data AuthError : Type 0 where
  invalid_credentials user_disabled weak_password bad_username long_nickname : AuthError
  register_closed user_exists user_not_found db_failed redis_failed crypto_failed : AuthError

abbrev pub found {ℓ} : {A : Type ℓ} → Option A → Result AuthError A
found none = err user_not_found
found (some a) = ok a

abbrev pub or_down {ℓ} : {A : Type ℓ} → Bool → Result AuthError A → Result AuthError A
or_down down r = if down then err db_failed else r

unfoldable pub first {ℓ} : {A : Type ℓ} → (A → Bool) → List A → Option A
first p [] = none
first p (x ∷ xs) = if p x then some x else first p xs

-- `key` is the collation of the column `username`.
unfoldable pub find_user_by_name : (Text → Text) → Text → MysqlStore → Result AuthError User
find_user_by_name key name db =
    or_down (db.fails find_by_name_stmt)
      (found (first (λ u. same (key u.username) (key name)) db.users))

unfoldable pub find_user_by_id : ℕ → MysqlStore → Result AuthError User
find_user_by_id id db =
    or_down (db.fails find_by_id_stmt) (found (first (λ u. u.id == id) db.users))

abbrev pub unless_expired : ℕ → Option Session → Option Session
unless_expired now none = none
unless_expired now (some s) = if ltb now s.expires_at then some s else none

-- An expired session counts as none.
unfoldable pub get_session : ℕ → ℕ → MysqlStore → Result AuthError (Option Session)
get_session now u db =
    or_down (db.fails get_session_stmt)
      (ok (unless_expired now (first (λ s. s.user_id == u) db.sessions)))

-- `INSERT … ON DUPLICATE KEY UPDATE` on the rows of `sessions`.
unfoldable pub put_session : Session → List Session → List Session
put_session s [] = s ∷ []
put_session s (r ∷ rows) = if r.user_id == s.user_id then s ∷ rows else r ∷ put_session s rows

unfoldable pub upsert_session : Session → MysqlStore → Result AuthError MysqlStore
upsert_session s db =
    or_down (db.fails upsert_session_stmt) (ok (record db { sessions = put_session s db.sessions }))

-- The join of a session with its user.
abbrev owner_of : List User → Option Session → Option User
owner_of users none = none
owner_of users (some s) = first (λ u. u.id == s.user_id) users

abbrev pub is_live : ℕ → Text → Session → Bool
is_live now hash s = same s.token_hash hash && ltb now s.expires_at

unfoldable pub find_user_by_token_hash : ℕ → Text → MysqlStore → Result AuthError User
find_user_by_token_hash now hash db =
    or_down (db.fails find_by_token_stmt)
      (found (owner_of db.users (first (is_live now hash) db.sessions)))

abbrev set_hash : ℕ → Text → User → User
set_hash id hash u = if u.id == id then record u { password_hash = hash } else u

-- MySQL counts the rows that the UPDATE changes.
abbrev gets_hash : ℕ → Text → User → Bool
gets_hash id hash u = u.id == id && not (same u.password_hash hash)

unfoldable pub update_password : ℕ → Text → MysqlStore → Result AuthError MysqlStore
update_password id hash db = or_down (db.fails update_password_stmt) (
    if count_if (gets_hash id hash) db.users == 0
    then err user_not_found
    else ok (record db { users = map (set_hash id hash) db.users }))

abbrev pub without_session : ℕ → List Session → List Session
without_session u = select (λ s. not (s.user_id == u))

unfoldable pub delete_session : ℕ → MysqlStore → Result AuthError MysqlStore
delete_session u db =
    or_down (db.fails delete_session_stmt)
      (ok (record db { sessions = without_session u db.sessions }))

-- `DELETE FROM sessions WHERE expires_at <= NOW()`, with the number of rows deleted.
unfoldable pub purge_expired_sessions : ℕ → MysqlStore → MysqlStore × ℕ
purge_expired_sessions now db = (
  record db { sessions = select (λ s. ltb now s.expires_at) db.sessions },
  count_if (λ s. leb s.expires_at now) db.sessions,
)

-- `id` is the AUTO_INCREMENT value; a taken name is error 1062.
unfoldable pub create_user :
    (Text → Text) → ℕ → ℕ → Text → Text → Text → MysqlStore → Result AuthError (User × MysqlStore)
create_user key now id name nick hash db = or_down (db.fails create_user_stmt) (
    if any (λ u. same (key u.username) (key name)) db.users
    then err user_exists
    else ok (row, record db { users = db.users ++ row ∷ [] }))
  where
    row : User
    row = record {
      id = id;
      username = name;
      nickname = nick;
      password_hash = hash;
      disabled = false;
      created_at = now;
    }
