-- ===== src/Http/Tests.antt =====
-- auth_http.go: a user who signs in, asks for the session, and signs out.
use clip_sync_server.Auth.Revocation.{AreOf}
use clip_sync_server.Http.{
  HttpRequest, WebState, bearer_token, change_password_handler, change_status, decode_credentials,
  login_handler, login_status, logout_handler, or_nothing, register_handler, register_status,
  session_handler,
}
use clip_sync_server.Auth.Service.{LoginResult, authenticate_token, issue_session, login, logout}
use clip_sync_server.Base.{
  Result, Text, [], ap, arith, codes, err, false, none, ok, refl, same, some, true, ℕ, ◌∷◌, ◌≡◌,
  ◌≢◌,
}
use clip_sync_server.Auth.Store.{
  User, delete_session, find_by_token_stmt, find_user_by_name, first, put_session, upsert_session,
}
use clip_sync_server.Limit.{allow}
use clip_sync_server.Auth.Cache.{
  cache_token, drop_plain_token, drop_token, lookup_token, online_count, online_devices_of,
  store_plain_token,
}
use clip_sync_server.Auth.Memory.{config, exact, memory, plain_crypto}
use clip_sync_server.Text.{has_prefix, is_space, trim_left, trim_right, trim_space}
use clip_sync_server.Http.Refusals.{login_handler_refused}
use clip_sync_server.Http.Sessions.{login_then_session}

abbrev ann : User
ann = record {
  id = 7;
  username = codes "ann";
  nickname = [];
  password_hash = codes "pw";
  disabled = false;
  created_at = 0;
}

abbrev token : Text
token = codes "t1"

abbrev post : HttpRequest
post = record {
  is_post = true;
  ip = codes "10.0.0.1";
  authorization = codes "Bearer t1";
  query_token = [];
}

abbrev web : WebState memory exact plain_crypto config
web = record {
  auth = record {
    db = record { users = ann ∷ []; sessions = []; fails = λ stmt. false };
    cache = ((λ k. none), λ u. []);
    published = [];
  };
  limiter = record { limit = 5; attempts = λ ip. [] };
}

abbrev Outcome {ℓ} : Type ℓ → Type ℓ
Outcome A = WebState memory exact plain_crypto config × Result ℕ A

abbrev signed_in : Outcome LoginResult
signed_in =
    login_handler memory exact plain_crypto config 5000000000 post
      (some (codes " ann ", codes "pw")) (some token) web

handlers : Unit {0}
unfolding login_handler allow decode_credentials login find_user_by_name first same trim_space
    trim_right trim_left is_space online_count issue_session upsert_session put_session cache_token
    store_plain_token authenticate_token lookup_token bearer_token has_prefix session_handler
    logout_handler logout delete_session drop_token drop_plain_token login_status online_devices_of
    register_handler register_status change_password_handler change_status
handlers = tt

abbrev welcome : LoginResult
welcome = record {
  token = token;
  user_id = 7;
  username = codes "ann";
  expires_at = 3605;
  reused = false;
  online_devices = 0;
}

signed_in_test : signed_in.1 ≡ ok welcome
unfolding handlers
signed_in_test = refl

with_result {ℓ} : {A : Type ℓ} (p : Outcome A) (r : Result ℕ A) → p.1 ≡ r → p ≡ (p.0, r)
with_result (a, b) r h = ap (λ x. (a, x)) h

no_space : trim_space token ≡ token
unfolding handlers
no_space = refl

login_then_session_example : session_handler memory exact plain_crypto config 9 post signed_in.0 ≡ (
  signed_in.0,
  ok (record {
    user_id = 7;
    username = [];
    online_devices = or_nothing (online_devices_of memory 7 signed_in.0.auth.cache);
  }),
)
login_then_session_example =
    login_then_session memory exact plain_crypto config 5000000000 9 post post
      (some (codes " ann ", codes "pw")) token web signed_in.0 welcome (omega arith) refl
      (with_result signed_in (ok welcome) signed_in_test) refl refl no_space

abbrev signed_out : Outcome (Unit {0})
signed_out = logout_handler memory exact plain_crypto config 9 post signed_in.0

signed_out_test : signed_out.1 ≡ ok tt
unfolding handlers
signed_out_test = refl

token_cached : lookup_token memory (exact (bearer_token post)) signed_in.0.auth.cache ≡ ok (some 7)
unfolding handlers
token_cached = refl

of_ann : AreOf 7 (exact (bearer_token post)) signed_in.0.auth.db.sessions
unfolding handlers
of_ann = ((λ e. refl), tt)

find_works : signed_in.0.auth.db.fails find_by_token_stmt ≡ false
unfolding handlers
find_works = refl

abbrev mistyped : Outcome LoginResult
mistyped =
    login_handler memory exact plain_crypto config 5000000000 post (some (codes "ann", codes "wp"))
      (some token) web

mistyped_test : mistyped.1 ≡ err 401
unfolding handlers
mistyped_test = refl

no_fault : ◌≢◌ {A = ℕ} 401 500
no_fault h = ground (arith, h)

login_handler_refused_example : mistyped.0.auth ≡ web.auth
login_handler_refused_example =
    login_handler_refused memory exact plain_crypto config 5000000000 401 post
      (some (codes "ann", codes "wp")) (some token) web mistyped.0
      (with_result mistyped (err 401) mistyped_test) no_fault
