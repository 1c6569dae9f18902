-- ===== src/Auth/Accounts.antt =====
-- auth_service.go: `Register`, `AdminCreateUser` and the `register` that both call.
use clip_sync_server.Base.{
  ◌++◌, ◌>>=◌, Bool, List, Option, Result, Text, [], any, arith, byte_len, if◌then◌else◌, err,
  false, length, ltb, none, not, ok, same, some, true, ℕ, ◌∷◌, ◌≡◌, ◌≤◌, Option-cases, inl, inr,
  same_refl, ◌==◌, ◌||◌,
}
use clip_sync_server.Auth.Service.{Crypto, AuthConfig}
use clip_sync_server.Auth.Store.{
  AuthError, MysqlStore, User, create_user, crypto_failed, find_by_name_stmt, find_user_by_name,
  first, long_nickname, register_closed, weak_password, bad_username,
}
use clip_sync_server.Text.{trim_space, is_digit, is_lower, is_upper}

-- The test of one rune in `ValidateUsername`.
unfoldable pub is_name_rune : ℕ → Bool
is_name_rune c = is_lower c || is_upper c || is_digit c || c == b'_' || c == b'-'

-- The loop of `ValidateUsername`.
unfoldable pub all_name_runes : Text → Bool
all_name_runes [] = true
all_name_runes (c ∷ s) =
    let rest = all_name_runes s in
    if ltb 0x7f c then false else if not (is_name_rune c) then false else rest

unfoldable pub validate_username : Text → Result AuthError (Unit {0})
validate_username name =
    if ltb (byte_len name) 3 || ltb 32 (byte_len name)
    then err bad_username
    else if all_name_runes name
    then ok tt
    else err bad_username

module _ (key : Text → Text) where
  pub first-append :
      (p : User → Bool) (xs : List User) (x : User)
      → any p xs ≡ false
      → p x ≡ true
      → first p (xs ++ x ∷ []) ≡ some x
  unfolding first
  first-append p [] x h k = rw k
  first-append p (y ∷ ys) x h k = ground (arith, first-append p ys x)

  pub create_user_found :
      (now id : ℕ) (name nick hash : Text) (db db' : MysqlStore) (user : User)
      → create_user key now id name nick hash db ≡ ok (user, db')
      → (first (λ u. same (key u.username) (key name)) db'.users ≡ some user)
        × (user.password_hash ≡ hash)
        × (user.disabled ≡ false)
        × (db'.fails ≡ db.fails)
  unfolding create_user
  create_user_found now id name nick hash db db' user h =
      let row : User = record {
        id = id;
        username = name;
        nickname = nick;
        password_hash = hash;
        disabled = false;
        created_at = now;
      } in
      ground (
        arith,
        same_refl (key name),
        first-append (λ u. same (key u.username) (key name)) db.users row,
      )

module _ (key : Text → Text) (crypto : Crypto) (cfg : AuthConfig) where
  open crypto use {hash_password, verify_password}

  abbrev hashed :
      (now id : ℕ)
      → (name nick : Text) → MysqlStore
      → Option Text
      → Result AuthError (User × MysqlStore)
  hashed now id name nick db none = err crypto_failed
  hashed now id name nick db (some hash) = create_user key now id name nick hash db

  -- `register`, with the row ID that MySQL would give.
  unfoldable pub register_account :
      (now id : ℕ)
      → (username nickname password : Text) → MysqlStore
      → Result AuthError (User × MysqlStore)
  register_account now id username nickname password db =
      if ltb 32 (length (trim_space nickname))
      then err long_nickname
      else validate_username (trim_space username) >>= λ _.
          if ltb (byte_len password) cfg.min_password_len
          then err weak_password
          else hashed now id (trim_space username) (trim_space nickname) db (hash_password password)

  unfoldable pub register_user :
      (now id : ℕ) → (username password : Text) → MysqlStore → Result AuthError (User × MysqlStore)
  register_user now id username password db =
      if not cfg.allow_register
      then err register_closed
      else register_account now id username [] password db

  -- An account that was created can be logged in to with its password: the user is found under the
  -- name given, is not banned, and the password fits, if MySQL answers and what `HashPassword`
  -- gives is accepted by `VerifyPassword`.
  pub register_account_usable :
      (now id : ℕ) (username nickname password : Text) (db db' : MysqlStore) (user : User)
      → db.fails find_by_name_stmt ≡ false
      → ((pw hash : Text) → hash_password pw ≡ some hash → verify_password hash pw ≡ true)
      → register_account now id username nickname password db ≡ ok (user, db')
      → (find_user_by_name key (trim_space username) db' ≡ ok user)
        × (user.disabled ≡ false)
        × (verify_password user.password_hash password ≡ true)
  unfolding register_account find_user_by_name
  register_account_usable now id username nickname password db db' user f sound h =
      elim (Option-cases (hash_password password)) [
        | inl failed ↦ ground arith
        | inr (hash, made) ↦
            let there =
              create_user_found key now id (trim_space username) (trim_space nickname) hash db db'
                user in
            ground (arith, there, sound password hash made)
      ]

  -- Without the switch nobody registers; with it, an account that is created has a name of 3 to 32
  -- bytes that was not taken, and a password of at least the length that is set.
  pub register_user_checked :
      (now id : ℕ) (username password : Text) (db db' : MysqlStore) (user : User)
      → register_user now id username password db ≡ ok (user, db')
      → (cfg.allow_register ≡ true)
        × (3 ≤ byte_len (trim_space username))
        × (byte_len (trim_space username) ≤ 32)
        × (cfg.min_password_len ≤ byte_len password)
        × (any (λ u. same (key u.username) (key (trim_space username))) db.users ≡ false)
  unfolding register_user register_account validate_username create_user
  register_user_checked now id username password db db' user h = ground arith
