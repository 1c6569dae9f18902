-- ===== src/Scrypt/Tests.antt =====
-- auth_crypto.go: the theorems with a key that is the password, filled up.
use clip_sync_server.Base.{
  ◌+◌, ◌-◌, Bool, Option, Text, [], ap, arith, codes, false, length, map, ok, refl, same, some,
  some_eq, suc, true, zero, ℕ, ◌↔◌, ◌∷◌, ◌≡◌,
}
use clip_sync_server.Auth.Store.{MysqlStore, User, create_user, find_user_by_name}
use clip_sync_server.Scrypt.{Primitives, format_hash, hash_password, verify_password}
use clip_sync_server.Auth.Accounts.{
  all_name_runes, is_name_rune, register_account, validate_username,
}
use clip_sync_server.Auth.Memory.{config, exact}
use clip_sync_server.Text.{
  is_digit, is_lower, is_space, is_upper, split_on, trim_left, trim_right, trim_space,
}
use clip_sync_server.Text.Split.{is_free}
use clip_sync_server.Text.Decimal.{parse_digits, parse_int}
use clip_sync_server.Scrypt.Account.{scrypt_crypto, scrypt_account_usable}
use clip_sync_server.Scrypt.RoundTrip.{verify_password-hash_password}
use clip_sync_server.Auth.Service.{Crypto}
use clip_sync_server.Auth.Startup.{bootstrap_user}
use clip_sync_server.Auth.Startup.Bootstrap.{bootstrap_user_usable}

abbrev fill : ℕ → Text → Text
fill zero s = []
fill (suc n) [] = 0 ∷ fill n []
fill (suc n) (c ∷ s) = c ∷ fill n s

pub length-fill : (n : ℕ) (s : Text) → length (fill n s) ≡ n
length-fill zero s = refl
length-fill (suc n) [] = ground (arith, length-fill n [])
length-fill (suc n) (c ∷ s) = ground (arith, length-fill n s)

abbrev raised : Text → Text
raised s = map (λ c. c + 37) s

abbrev lowered : Text → Text
lowered s = map (λ c. c - 37) s

lowered-raised : (s : Text) → lowered (raised s) ≡ s
lowered-raised [] = refl
lowered-raised (c ∷ s) =
    let here : c + 37 - 37 ≡ c = omega arith in rw (here, lowered-raised s) refl

raised_free : (s : Text) → is_free b'$' (raised s) ≡ true
raised_free [] = refl
raised_free (c ∷ s) = ground (arith, raised_free s)

filled_length :
    (password salt : Text) (n r p : Bool × ℕ) (len : ℕ) (dk : Text)
    → some (fill len password) ≡ some dk
    → length dk ≡ len
filled_length password salt n r p len dk h =
    ground (arith, length-fill len password, some_eq (fill len password) dk h)

abbrev filling : Primitives
filling = record {
  derive = λ password salt n r p len. some (fill len password);
  encode = raised;
  decode = λ s. some (lowered s);
  derive-length = filled_length;
  decode-encode = λ s. ap some (lowered-raised s);
  encode_free = raised_free;
}

abbrev pw : Text
pw = codes "secret"

abbrev stored : Text
stored = format_hash filling (codes "salt") (fill 32 pw)

accounts : Unit {0}
unfolding hash_password verify_password format_hash split_on same parse_int parse_digits is_digit
    register_account create_user trim_space trim_left trim_right is_space validate_username
    all_name_runes is_name_rune is_lower is_upper
accounts = tt

hashed : hash_password filling (codes "salt") pw ≡ some stored
unfolding accounts
hashed = refl

other_refused : verify_password filling stored (codes "other") ≡ false
unfolding accounts
other_refused = refl

stored_accepts : verify_password filling stored pw ≡ true
unfolding accounts
stored_accepts = refl

verify_password-hash_password_example :
    (verify_password filling stored (codes "other") ≡ true)
    ↔ (◌≡◌ {A = Option Text} (some (fill 32 (codes "other"))) (some (fill 32 pw)))
verify_password-hash_password_example =
    verify_password-hash_password filling (codes "salt") pw (codes "other") stored hashed

abbrev empty_db : MysqlStore
empty_db = record { users = []; sessions = []; fails = λ stmt. false }

abbrev bob : User
bob = record {
  id = 8;
  username = codes "bob";
  nickname = [];
  password_hash = stored;
  disabled = false;
  created_at = 5;
}

abbrev with_bob : MysqlStore
with_bob = record empty_db { users = bob ∷ [] }

created :
    register_account exact
      (scrypt_crypto filling exact (codes "salt"))
      config
      5
      8
      (codes "bob")
      []
      pw
      empty_db
    ≡ ok (bob, with_bob)
unfolding accounts
created = refl

valid_bob : validate_username (codes "bob") ≡ ok tt
unfolding accounts
valid_bob = refl

bootstrap_user_usable_example :
    let db' =
      bootstrap_user exact
        (scrypt_crypto filling exact (codes "salt"))
        5
        8
        (codes "bob")
        pw
        empty_db in
    ((user : User) × (find_user_by_name exact (codes "bob") db' ≡ ok user)
      × (user.disabled ≡ false)
      × (verify_password filling user.password_hash pw ≡ true)
      × ((other : Text)
          → (verify_password filling user.password_hash other ≡ true)
            ↔ (◌≡◌ {A = Option Text} (some (fill 32 other)) (some (fill 32 pw)))))
    × ((other : Text)
        → same (exact (codes "bob")) (exact other) ≡ false
        → find_user_by_name exact other db' ≡ find_user_by_name exact other empty_db)
    × ((later : Crypto) (now' id' : ℕ) (password' : Text)
        → bootstrap_user exact later now' id' (codes "bob") password' db' ≡ db')
bootstrap_user_usable_example =
    bootstrap_user_usable filling exact exact 5 8 (codes "salt") (codes "bob") pw stored empty_db
      refl refl refl (λ stmt. refl) valid_bob hashed

scrypt_account_usable_example :
    (find_user_by_name exact (trim_space (codes "bob")) with_bob ≡ ok bob)
    × (bob.disabled ≡ false)
    × (verify_password filling bob.password_hash pw ≡ true)
scrypt_account_usable_example =
    scrypt_account_usable filling exact exact config 5 8 (codes "salt") (codes "bob") [] pw empty_db
      with_bob bob refl created
