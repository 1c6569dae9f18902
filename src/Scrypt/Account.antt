-- ===== src/Scrypt/Account.antt =====
-- auth_crypto.go, auth_service.go: an account whose password is stored as a scrypt hash.
-- The functions of auth_crypto.go, at the salt that was drawn.
use clip_sync_server.Auth.Service.{AuthConfig, Crypto}
use clip_sync_server.Auth.Store.{MysqlStore, User, find_by_name_stmt, find_user_by_name}
use clip_sync_server.Scrypt.{Primitives, hash_password, verify_password}
use clip_sync_server.Base.{Text, false, ok, refl, true, ℕ, ◌≡◌}
use clip_sync_server.Auth.Accounts.{register_account, register_account_usable}
use clip_sync_server.Text.{trim_space}
use clip_sync_server.Scrypt.RoundTrip.{verify_password-hash_password}

abbrev pub scrypt_crypto : Primitives → (Text → Text) → Text → Crypto
scrypt_crypto P token_hash salt = record {
  token_hash = token_hash;
  verify_password = verify_password P;
  hash_password = hash_password P salt;
}

-- A created account can be logged in to with its password: it is found under its name, is not
-- banned, and `VerifyPassword` accepts the password for the hash that `HashPassword` has made, if
-- MySQL answers.
pub scrypt_account_usable :
    (P : Primitives) (key token_hash : Text → Text) (cfg : AuthConfig) (now id : ℕ)
    (salt username nickname password : Text) (db db' : MysqlStore) (user : User)
    → db.fails find_by_name_stmt ≡ false
    → register_account key
        (scrypt_crypto P token_hash salt)
        cfg
        now
        id
        username
        nickname
        password
        db
      ≡ ok (user, db')
    → (find_user_by_name key (trim_space username) db' ≡ ok user)
      × (user.disabled ≡ false)
      × (verify_password P user.password_hash password ≡ true)
scrypt_account_usable P key token_hash cfg now id salt username nickname password db db' user f h =
    register_account_usable key (scrypt_crypto P token_hash salt) cfg now id username nickname
      password db db' user f
      (λ pw hash made. (verify_password-hash_password P salt pw pw hash made).1 refl) h
