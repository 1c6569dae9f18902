-- ===== src/Auth/Tests.antt =====
-- auth_service.go: tests, and the theorems at one user, with a cache in memory that never fails.
mod Ending
mod Joining
use clip_sync_server.Base.{
  ◌==◌, ==_refl, List, Option, Result, Text, [], codes, if◌then◌else◌, false, length, none, not, ok,
  refl, same, same_refl, select, some, true, ℕ, ◌∷◌, ◌≡◌, arith, err, any, byte_len, same_iff, ◌≤◌,
  ◌&&◌,
}
use clip_sync_server.Auth.Service.{
  AuthConfig, AuthState, Crypto, LoginResult, login, authenticate_token, issue_session, logout,
  new_session, reusable,
}
use clip_sync_server.Auth.Store.{
  AuthError, User, Session, delete_session, delete_session_stmt, find_by_token_stmt,
  find_user_by_id, find_user_by_name, find_user_by_token_hash, first, get_session,
  invalid_credentials, put_session, update_password, upsert_session, MysqlStore, create_user,
}
use clip_sync_server.Auth.Redis.{
  Key, Redis, Value, plain_token_key, same_key, token_key, user_token_key,
}
use clip_sync_server.Auth.Revocation.{
  AreOf, invalidate_sessions_ends, invalidate_sessions_spares, logout_ends,
}
use clip_sync_server.Auth.Cache.{
  cache_token, current_hash, drop_plain_token, drop_token, load_plain_token, lookup_token,
  mark_online, online_count, store_plain_token,
}
use clip_sync_server.Auth.Password.{change_password-authenticate}
use clip_sync_server.Text.{
  is_space, trim_left, trim_right, trim_space, is_digit, is_lower, is_upper,
}
use clip_sync_server.Auth.Tokens.{login-authenticate, login_reuses, login_spares_old_token}
use clip_sync_server.Auth.Accounts.{
  register_account, register_account_usable, register_user, register_user_checked, all_name_runes,
  is_name_rune, validate_username,
}
use clip_sync_server.Auth.Change.{change_password, invalidate_sessions, revoke}
use clip_sync_server.Hub.Members.{expire}
use clip_sync_server.Auth.Memory.{config, exact, memory, plain_crypto}

abbrev pub ann_name : Text
ann_name = codes "ann"

abbrev pub pw : Text
pw = codes "pw"

abbrev pub old_token : Text
old_token = codes "t1"

abbrev pub new_token : Text
new_token = codes "t2"

abbrev pub ann : User
ann = record {
  id = 7;
  username = ann_name;
  nickname = [];
  password_hash = pw;
  disabled = false;
  created_at = 0;
}

abbrev pub St : Type 0
St = AuthState memory exact plain_crypto config

-- Nobody is logged in.
abbrev pub idle : St
idle = record {
  db = record { users = ann ∷ []; sessions = []; fails = λ stmt. false };
  cache = ((λ k. none), λ u. []);
  published = [];
}

abbrev pub first_login : St × Result AuthError LoginResult
first_login = login memory exact plain_crypto config 0 ann_name pw (some old_token) idle

abbrev pub second_login : St × Result AuthError LoginResult
second_login = login memory exact plain_crypto config 9 ann_name pw (some new_token) first_login.0

abbrev pub answer : Text → ℕ → LoginResult
answer token until = record {
  token = token;
  user_id = 7;
  username = ann_name;
  expires_at = until;
  reused = false;
  online_devices = 0;
}

pub service : Unit {0}
unfolding login find_user_by_name first same trim_space trim_right trim_left is_space online_count
    issue_session upsert_session put_session cache_token store_plain_token authenticate_token
    lookup_token current_hash logout delete_session drop_token drop_plain_token
    find_user_by_token_hash change_password update_password find_user_by_id reusable get_session
    load_plain_token revoke mark_online
service = tt

first_login_test : first_login.1 ≡ ok (answer old_token 3600)
unfolding service
first_login_test = refl

second_login_test : second_login.1 ≡ ok (answer new_token 3609)
unfolding service
second_login_test = refl

pub old_token_cached : lookup_token memory old_token first_login.0.cache ≡ ok (some 7)
unfolding service
old_token_cached = refl

pub old_token_current : current_hash memory 7 first_login.0.cache ≡ ok (some old_token)
unfolding service
old_token_current = refl

pub new_token_current : current_hash memory 7 second_login.0.cache ≡ ok (some new_token)
unfolding service
new_token_current = refl

pub tokens_differ : same old_token new_token ≡ false
unfolding same
tokens_differ = refl

pub pair_eq : {A B : Type 0} (p : A × B) (b : B) → p.1 ≡ b → p ≡ (p.0, b)
pair_eq (a, c) b h = rw h

login_spares_old_token_example :
    authenticate_token memory exact plain_crypto config 10 old_token second_login.0
    ≡ (second_login.0, ok (7, []))
login_spares_old_token_example =
    login_spares_old_token memory exact plain_crypto config 9 10 7 ann_name pw new_token old_token
      first_login.0 second_login.0 (answer new_token 3609) (omega arith)
      (pair_eq second_login _ second_login_test) refl refl tokens_differ old_token_cached

-- The phone is online, with the first token.
abbrev pub online_st : St
online_st = record first_login.0 {
  cache = (mark_online memory 7 (codes "phone") (codes "mobile") 60 first_login.0.cache).0;
}

abbrev pub sess : Session
sess = new_session memory exact plain_crypto config 0 7 old_token

ann_found : find_user_by_name exact (trim_space ann_name) online_st.db ≡ ok ann
unfolding service
ann_found = refl

one_online : online_count memory 7 online_st.cache ≡ ok 1
unfolding service
one_online = refl

token_kept : reusable memory exact plain_crypto config 5 7 online_st ≡ ok (some (old_token, sess))
unfolding service
token_kept = refl

right_password : same pw pw ≡ true
unfolding same
right_password = refl
