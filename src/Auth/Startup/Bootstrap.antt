-- ===== src/Auth/Startup/Bootstrap.antt =====
-- auth_service.go: the account of the configuration after the start.
use clip_sync_server.Base.{
  ◌++◌, List, Text, [], arith, err, false, is_empty, ok, refl, same, some, ℕ, ◌∷◌, ◌≡◌, Bool, any,
  none, same_refl, true, Bool-cases, inl, inr, ◌||◌, ◌↔◌,
}
use clip_sync_server.Auth.Service.{Crypto}
use clip_sync_server.Auth.Store.{
  MysqlStore, User, create_user, find_user_by_name, first, user_not_found, Stmt, create_user_stmt,
  find_by_name_stmt,
}
use clip_sync_server.Auth.Startup.{bootstrap_user}
use clip_sync_server.Scrypt.{
  Primitives, hash_password, verify_password, scrypt_n, scrypt_r, scrypt_p, scrypt_key_len,
}
use clip_sync_server.Scrypt.RoundTrip.{verify_password-hash_password}
use clip_sync_server.Scrypt.Account.{scrypt_crypto}
use clip_sync_server.Auth.Accounts.{validate_username, first-append}

found_after :
    (key : Text → Text) (other name : Text) (users : List User) (row : User)
    → same (key name) (key other) ≡ false
    → row.username ≡ name
    → first (λ u. same (key u.username) (key other)) (users ++ row ∷ [])
      ≡ first (λ u. same (key u.username) (key other)) users
unfolding first
found_after key other name [] row h e = rw (e, h) refl
found_after key other name (u ∷ users) row h e =
    ground (arith, found_after key other name users row h e)

module _ (key : Text → Text) (crypto : Crypto) where
  -- Where everything goes well the account is created.
  bootstrap_created :
      (now id : ℕ) (name password hash : Text) (db : MysqlStore)
      → is_empty name ≡ false
      → is_empty password ≡ false
      → find_user_by_name key name db ≡ err user_not_found
      → validate_username name ≡ ok tt
      → crypto.hash_password password ≡ some hash
      → (p : User × MysqlStore) → create_user key now id name [] hash db ≡ ok p
      → bootstrap_user key crypto now id name password db ≡ p.1
  unfolding bootstrap_user
  bootstrap_created now id name password hash db n w f v h p c = rw (n, w, f, v, h, c) refl

  first-none : (p : User → Bool) (users : List User) → any p users ≡ false → first p users ≡ none
  unfolding first
  first-none p [] h = refl
  first-none p (u ∷ users) h =
      let others : any p users ≡ false = ground arith in ground (arith, first-none p users others)

  -- The account that `bootstrapUser` creates.
  abbrev pub bootstrap_row : ℕ → ℕ → Text → Text → User
  bootstrap_row now id name hash = record {
    id = id;
    username = name;
    nickname = [];
    password_hash = hash;
    disabled = false;
    created_at = now;
  }

  -- Where the name is taken nothing happens.
  bootstrap_user_found :
      (now id : ℕ) (name password : Text) (db : MysqlStore) (user : User)
      → find_user_by_name key name db ≡ ok user
      → bootstrap_user key crypto now id name password db ≡ db
  unfolding bootstrap_user
  bootstrap_user_found now id name password db user h =
      elim (Bool-cases (is_empty name || is_empty password)) [
        | inl blank ↦ rw blank refl
        | inr given ↦ rw (given, h) refl
      ]

  bootstrap_user-append :
      (now id : ℕ) (name password hash : Text) (db : MysqlStore)
      → is_empty name ≡ false
      → is_empty password ≡ false
      → any (λ u. same (key u.username) (key name)) db.users ≡ false
      → ((stmt : Stmt) → db.fails stmt ≡ false)
      → validate_username name ≡ ok tt
      → crypto.hash_password password ≡ some hash
      → bootstrap_user key crypto now id name password db
        ≡ record db { users = db.users ++ bootstrap_row now id name hash ∷ [] }
  unfolding find_user_by_name create_user
  bootstrap_user-append now id name password hash db n w t f v h =
      bootstrap_created now id name password hash db n w
        (rw (f find_by_name_stmt, first-none (λ u. same (key u.username) (key name)) db.users t)
          refl)
        v h
        (
          bootstrap_row now id name hash,
          record db { users = db.users ++ bootstrap_row now id name hash ∷ [] },
        )
        (rw (f create_user_stmt, t) refl)

-- The account is stored with the hash of the password.
bootstrap_user_stored :
    (key : Text → Text) (crypto : Crypto) (now id : ℕ) (name password hash : Text) (db : MysqlStore)
    → is_empty name ≡ false
    → is_empty password ≡ false
    → any (λ u. same (key u.username) (key name)) db.users ≡ false
    → ((stmt : Stmt) → db.fails stmt ≡ false)
    → validate_username name ≡ ok tt
    → crypto.hash_password password ≡ some hash
    → let db' = bootstrap_user key crypto now id name password db in
      ((user : User) × (find_user_by_name key name db' ≡ ok user)
        × (user.disabled ≡ false)
        × (user.password_hash ≡ hash))
      × ((other : Text)
          → same (key name) (key other) ≡ false
          → find_user_by_name key other db' ≡ find_user_by_name key other db)
      × ((later : Crypto) (now' id' : ℕ) (password' : Text)
          → bootstrap_user key later now' id' name password' db' ≡ db')
unfolding find_user_by_name
bootstrap_user_stored key crypto now id name password hash db n w t f v h =
    let row = bootstrap_row key crypto now id name hash in
    let added : MysqlStore = record db { users = db.users ++ row ∷ [] } in
    let there : find_user_by_name key name added ≡ ok row =
      rw
        (
          f find_by_name_stmt,
          first-append key (λ u. same (key u.username) (key name)) db.users row t
              (same_refl (key name)),
        )
        refl in
    rw (bootstrap_user-append key crypto now id name password hash db n w t f v h) (
      (row, there, refl, refl),
      λ other o. rw (found_after key other name db.users row o refl) refl,
      λ later now' id' password'.
          bootstrap_user_found key later now' id' name password' added row there,
    )

-- With a name and a password in the configuration, a valid name that is free, a database that
-- answers and passwords stored as in auth_crypto.go, where scrypt makes a key of this password:
-- after the start the account is found under its name, it is not banned, and `VerifyPassword`
-- accepts for it the passwords of which scrypt makes the same key, so the configured one; every
-- account of another name is found as before; and a later start, with whatever password and salt,
-- changes nothing.
pub bootstrap_user_usable :
    (P : Primitives) (key token_hash : Text → Text) (now id : ℕ) (salt name password hash : Text)
    (db : MysqlStore)
    → is_empty name ≡ false
    → is_empty password ≡ false
    → any (λ u. same (key u.username) (key name)) db.users ≡ false
    → ((stmt : Stmt) → db.fails stmt ≡ false)
    → validate_username name ≡ ok tt
    → hash_password P salt password ≡ some hash
    → let db' = bootstrap_user key (scrypt_crypto P token_hash salt) now id name password db in
      ((user : User) × (find_user_by_name key name db' ≡ ok user)
        × (user.disabled ≡ false)
        × (verify_password P user.password_hash password ≡ true)
        × ((other : Text)
            → (verify_password P user.password_hash other ≡ true) ↔ (
                P.derive other salt scrypt_n scrypt_r scrypt_p scrypt_key_len
                ≡ P.derive password salt scrypt_n scrypt_r scrypt_p scrypt_key_len)))
      × ((other : Text)
          → same (key name) (key other) ≡ false
          → find_user_by_name key other db' ≡ find_user_by_name key other db)
      × ((later : Crypto) (now' id' : ℕ) (password' : Text)
          → bootstrap_user key later now' id' name password' db' ≡ db')
bootstrap_user_usable P key token_hash now id salt name password hash db n w t f v h =
    let ((user, there, free, stored), others, later) =
      bootstrap_user_stored key (scrypt_crypto P token_hash salt) now id name password hash db n w t
        f v h in
    let accepts : (other : Text)
        → (verify_password P user.password_hash other ≡ true) ↔ (
            P.derive other salt scrypt_n scrypt_r scrypt_p scrypt_key_len
            ≡ P.derive password salt scrypt_n scrypt_r scrypt_p scrypt_key_len) =
      λ other. rw stored (verify_password-hash_password P salt password other hash h) in
    ((user, there, free, (accepts password).1 refl, accepts), others, later)
