-- ===== src/Auth/Startup/Tests.antt =====
-- auth_service.go: a start with the account `admin` in the configuration, and an hour of purges.
use clip_sync_server.Auth.Service.{AuthState, authenticate_token}
use clip_sync_server.Auth.Store.{MysqlStore, find_user_by_name, first, purge_expired_sessions}
use clip_sync_server.Base.{[], arith, codes, false, none, refl, true, ◌∷◌, ◌≡◌}
use clip_sync_server.Auth.Startup.Purge.{after_ticks, authenticate_token-purge_sessions_loop}
use clip_sync_server.Auth.Accounts.{all_name_runes, is_name_rune, validate_username}
use clip_sync_server.Auth.Startup.Bootstrap.{bootstrap_row}
use clip_sync_server.Auth.Startup.{bootstrap_user, purge_sessions_loop}
use clip_sync_server.Auth.Memory.{config, exact, memory, plain_crypto}
use clip_sync_server.Text.{is_digit, is_lower, is_upper}

abbrev no_users : MysqlStore
no_users = record { users = []; sessions = []; fails = λ stmt. false }

bad_name_test :
    bootstrap_user exact plain_crypto 5 1 (codes "a b") (codes "secret") no_users ≡ no_users
unfolding bootstrap_user find_user_by_name first validate_username all_name_runes is_name_rune
    is_lower is_upper is_digit
bad_name_test = refl

abbrev two_sessions : AuthState memory exact plain_crypto config
two_sessions = record {
  db = record {
    users = bootstrap_row exact plain_crypto 5 1 (codes "admin") (codes "secret") ∷ [];
    sessions =
        record { user_id = 2; token_hash = codes "old"; created_at = 0; expires_at = 10 }
        ∷ record { user_id = 1; token_hash = codes "new"; created_at = 0; expires_at = 90 }
        ∷ [];
    fails = λ stmt. false;
  };
  cache = ((λ k. none), λ u. []);
  published = [];
}

purged_test :
    (purge_sessions_loop ((5, true) ∷ (20, true) ∷ []) two_sessions.db).sessions
    ≡ record { user_id = 1; token_hash = codes "new"; created_at = 0; expires_at = 90 } ∷ []
unfolding purge_sessions_loop purge_expired_sessions
purged_test = refl

authenticate_token-purge_sessions_loop_example :
    authenticate_token memory exact plain_crypto config 30
      (codes "new")
      (after_ticks memory exact plain_crypto config ((5, true) ∷ (20, true) ∷ []) two_sessions)
    ≡ let r = authenticate_token memory exact plain_crypto config 30 (codes "new") two_sessions in
      (after_ticks memory exact plain_crypto config ((5, true) ∷ (20, true) ∷ []) r.0, r.1)
authenticate_token-purge_sessions_loop_example =
    authenticate_token-purge_sessions_loop memory exact plain_crypto config
      ((5, true) ∷ (20, true) ∷ []) 30 (codes "new") two_sessions (omega arith)
      ((refl, tt), (tt, tt))
