-- ===== src/Auth/Tests/Joining.antt =====
-- auth_service.go: the theorems on new accounts, at one user who joins another.
use clip_sync_server.Auth.Store.{MysqlStore, User, create_user}
use clip_sync_server.Base.{Text, [], arith, codes, ok, refl, same, same_iff, some, true, ◌∷◌, ◌≡◌}
use clip_sync_server.Auth.Accounts.{
  all_name_runes, is_name_rune, register_account, register_user, validate_username,
}
use clip_sync_server.Auth.Tests.{config, exact, plain_crypto, pw, idle, ann}
use clip_sync_server.Text.{
  is_digit, is_lower, is_space, is_upper, trim_left, trim_right, trim_space,
}

abbrev bob_name : Text
bob_name = codes "bob"

abbrev bob : User
bob = record ann { id = 8; username = bob_name; password_hash = pw; created_at = 5 }

abbrev with_bob : MysqlStore
with_bob = record idle.db { users = ann ∷ bob ∷ [] }

accounts : Unit {0}
unfolding register_user register_account validate_username all_name_runes is_name_rune is_lower
    is_upper is_digit create_user trim_space trim_left trim_right is_space same
accounts = tt

bob_created :
    register_account exact plain_crypto config 5 8 bob_name [] pw idle.db ≡ ok (bob, with_bob)
unfolding accounts
bob_created = refl

bob_registered :
    register_user exact plain_crypto config 5 8 bob_name pw idle.db ≡ ok (bob, with_bob)
unfolding accounts
bob_registered = refl

hash_fits : (p hash : Text) → some p ≡ some hash → same hash p ≡ true
hash_fits p hash h = ground (arith, same_iff hash p)
