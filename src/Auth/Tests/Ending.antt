-- ===== src/Auth/Tests/Ending.antt =====
-- auth_service.go: the theorems on what ends a token, at one user.
use clip_sync_server.Auth.Revocation.{AreOf}
use clip_sync_server.Auth.Store.{AuthError, delete_session_stmt, find_by_token_stmt}
use clip_sync_server.Base.{Result, Text, codes, false, ok, refl, some, true, ◌≡◌}
use clip_sync_server.Auth.Tests.{
  St, config, exact, first_login, memory, new_token, old_token, plain_crypto, pw, second_login,
  service,
}
use clip_sync_server.Auth.Change.{change_password, invalidate_sessions}
use clip_sync_server.Auth.Cache.{drop_token, lookup_token}
use clip_sync_server.Admin.{Outcomes}
use clip_sync_server.Auth.Service.{logout}

abbrev out : St × Result AuthError (Unit {0})
out = logout memory exact plain_crypto config 5 old_token first_login.0

out_test : out.1 ≡ ok tt
unfolding service
out_test = refl

of_ann : AreOf 7 old_token first_login.0.db.sessions
unfolding service
of_ann = ((λ e. refl), tt)

first_find_works : first_login.0.db.fails find_by_token_stmt ≡ false
unfolding service
first_find_works = refl

first_delete_works : first_login.0.db.fails delete_session_stmt ≡ false
unfolding service
first_delete_works = refl

first_drop_works : (drop_token memory old_token 7 first_login.0.cache).1 ≡ true
unfolding service
first_drop_works = refl

abbrev ended : St
ended = invalidate_sessions memory exact plain_crypto config 7 first_login.0

abbrev ended_later : St
ended_later = invalidate_sessions memory exact plain_crypto config 7 second_login.0

old_token_still : lookup_token memory old_token second_login.0.cache ≡ ok (some 7)
unfolding service
old_token_still = refl

abbrev changed : St × Result AuthError Text
changed =
    change_password memory exact plain_crypto config 5 old_token pw (codes "new") (some new_token)
      first_login.0

-- Nothing goes wrong in MySQL.
abbrev all_works : Outcomes
all_works = record { updated = true; checked = true; queried = true; deleted = true }
