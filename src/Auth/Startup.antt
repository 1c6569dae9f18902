-- ===== src/Auth/Startup.antt =====
-- auth_service.go: `bootstrapUser` and `purgeSessionsLoop`, which main calls when the server
-- starts.
pub mod Purge
pub mod Bootstrap
mod Tests
use clip_sync_server.Auth.Store.{
  AuthError, MysqlStore, User, create_user, find_user_by_name, purge_expired_sessions,
  user_not_found,
}
use clip_sync_server.Base.{
  Bool, List, Option, Result, Text, [], if◌then◌else◌, err, is_empty, none, ok, some, ◌||◌, ℕ, ◌∷◌,
}
use clip_sync_server.Auth.Service.{Crypto}
use clip_sync_server.Scrypt.{hash_password}
use clip_sync_server.Auth.Accounts.{validate_username}

-- One `purge`; `works` says whether MySQL carries the statement out.
abbrev pub purge : ℕ → Bool → MysqlStore → MysqlStore
purge now works db = if works then (purge_expired_sessions now db).0 else db

-- `purgeSessionsLoop` at the times of its ticks, the first at once.
unfoldable pub purge_sessions_loop : List (ℕ × Bool) → MysqlStore → MysqlStore
purge_sessions_loop [] db = db
purge_sessions_loop ((now, works) ∷ ticks) db = purge_sessions_loop ticks (purge now works db)

module _ (key : Text → Text) (crypto : Crypto) where
  abbrev created : MysqlStore → Result AuthError (User × MysqlStore) → MysqlStore
  created db (err e) = db
  created db (ok (user, db')) = db'

  abbrev create_hashed : ℕ → ℕ → Text → MysqlStore → Option Text → MysqlStore
  create_hashed now id name db none = db
  create_hashed now id name db (some hash) = created db (create_user key now id name [] hash db)

  abbrev create_valid : ℕ → ℕ → Text → Text → MysqlStore → Result AuthError (Unit {0}) → MysqlStore
  create_valid now id name password db (err e) = db
  create_valid now id name password db (ok valid) =
      create_hashed now id name db (crypto.hash_password password)

  -- Only the error that there is no such user lets the account be created.
  abbrev pub create_missing : ℕ → ℕ → Text → Text → MysqlStore → Result AuthError User → MysqlStore
  create_missing now id name password db (err user_not_found) =
      create_valid now id name password db (validate_username name)
  create_missing now id name password db _ = db

  -- `bootstrapUser` with the name and the password of the configuration, and the row ID that MySQL
  -- would give.
  unfoldable pub bootstrap_user : ℕ → ℕ → Text → Text → MysqlStore → MysqlStore
  bootstrap_user now id name password db =
      if is_empty name || is_empty password
      then db
      else create_missing now id name password db (find_user_by_name key name db)
