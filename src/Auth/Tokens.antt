-- ===== src/Auth/Tokens.antt =====
-- The life of a token: what logging in, logging out and revoking do to it.
use clip_sync_server.Base.{
  ◌<◌, Text, false, ok, same, some, ℕ, ◌≡◌, ◌*◌, arith, Option, [], if◌then◌else◌, err, is_empty,
  lt→ltb, not, true, ◌||◌, ◌∙◌, ◌+◌, Bool-cases, Result, inl, inr, ltb, none, refl,
}
use clip_sync_server.Auth.Service.{
  AuthConfig, AuthState, Crypto, issue_session, new_session, LoginResult, authenticate_token, login,
  reusable, logged_in, login_online, login_reuse, login_user,
}
use clip_sync_server.Auth.Redis.{Redis}
use clip_sync_server.Auth.Cache.{current_hash, lookup_token, cache_token, online_count}
use clip_sync_server.Auth.Store.{
  upsert_session, Session, User, find_user_by_name, found, invalid_credentials, user_disabled,
  AuthError,
}
use clip_sync_server.Auth.CacheLaws.{
  current_hash-cache_token, lookup_token-cache_token, lookup_token-cache_token_other,
  store_plain_token_keeps,
}
use clip_sync_server.Text.{trim_space}

module _ (R : Redis) (key : Text → Text) (crypto : Crypto) (cfg : AuthConfig) where
  open crypto use {token_hash}

  abbrev Auth : Type 0
  Auth = AuthState R key crypto cfg

  -- What is known after a session has been issued: the token is cached and is the current one of
  -- the user, the row is written, and other tokens are as they were.
  pub record IsIssued (now u : ℕ) (token given : Text) (st st' : Auth) : Type 0 where
    pub same_token : given ≡ token
    pub cached : lookup_token R (token_hash token) st'.cache ≡ ok (some u)
    pub current : current_hash R u st'.cache ≡ ok (some (token_hash token))
    pub stored : upsert_session (new_session R key crypto cfg now u token) st.db ≡ ok st'.db
    pub others :
        (other : Text)
        → same other (token_hash token) ≡ false
        → lookup_token R other st'.cache ≡ lookup_token R other st.cache

  pub issue_session-IsIssued :
      (now u : ℕ) (token given : Text) (st st' : Auth)
      → 0 < cfg.token_ttl_hours
      → issue_session R key crypto cfg now u (some token) st ≡ (st', ok given)
      → IsIssued now u token given st st'
  unfolding issue_session
  issue_session-IsIssued now u token given st st' p h =
      let hash = token_hash token in
      let ttl = cfg.token_ttl_hours * 3600 in
      let kept =
        store_plain_token_keeps R hash token u u ttl (cache_token R hash u ttl st.cache).0 in
      record {
        same_token = ground arith;
        cached = ground (arith, lookup_token-cache_token R hash u ttl st.cache, kept);
        current = ground (arith, current_hash-cache_token R hash u ttl st.cache, kept);
        stored = ground arith;
        others = λ other n. ground (
          arith,
          lookup_token-cache_token_other R other hash u ttl st.cache n,
          store_plain_token_keeps R other token u u ttl (cache_token R hash u ttl st.cache).0,
        );
      }

  -- A cached token authenticates its user, whatever the database says.
  pub cached_authenticates :
      (now u : ℕ) (token : Text) (st : Auth)
      → is_empty token ≡ false
      → lookup_token R (token_hash token) st.cache ≡ ok (some u)
      → authenticate_token R key crypto cfg now token st ≡ (st, ok (u, []))
  unfolding authenticate_token
  cached_authenticates now u token st e h = rw (e, h)

  -- The kept results of a login, one stage after the other.
  logged_in-IsIssued :
      (now online : ℕ) (user : User) (token : Text) (st st' : Auth) (r : LoginResult)
      (x : Auth × Result AuthError Text)
      → 0 < cfg.token_ttl_hours
      → issue_session R key crypto cfg now user.id (some token) st ≡ x
      → logged_in R key crypto cfg now user online x ≡ (st', ok r)
      → IsIssued now r.user_id token r.token st st'
  logged_in-IsIssued now online user token st st' r (s, err e) p issued h = ground arith
  logged_in-IsIssued now online user token st st' r (s, ok given) p issued h =
      let at_end : s ≡ st' = ground arith in
      let is_r : r ≡ record {
        token = given;
        user_id = user.id;
        username = user.username;
        expires_at = now + cfg.token_ttl_hours * 3600;
        reused = false;
        online_devices = online;
      } =
        ground arith in
      rw (is_r, ← at_end) (issue_session-IsIssued now user.id token given st s p issued)

  login_reuse-IsIssued :
      (now online : ℕ) (user : User) (token : Text) (st st' : Auth) (r : LoginResult)
      (x : Result AuthError (Option (Text × Session)))
      → 0 < cfg.token_ttl_hours
      → login_reuse R key crypto cfg now user online (some token) st x ≡ (st', ok r)
      → r.reused ≡ false
      → IsIssued now r.user_id token r.token st st'
  login_reuse-IsIssued now online user token st st' r (err e) p h n = ground arith
  login_reuse-IsIssued now online user token st st' r (ok none) p h n =
      logged_in-IsIssued now online user token st st' r _ p refl h
  login_reuse-IsIssued now online user token st st' r (ok (some (plain, sess))) p h n = ground arith

  login_online-IsIssued :
      (now : ℕ) (user : User) (token : Text) (st st' : Auth) (r : LoginResult)
      (x : Result AuthError ℕ)
      → 0 < cfg.token_ttl_hours
      → login_online R key crypto cfg now user (some token) st x ≡ (st', ok r)
      → r.reused ≡ false
      → IsIssued now r.user_id token r.token st st'
  login_online-IsIssued now user token st st' r (err e) p h n = ground arith
  login_online-IsIssued now user token st st' r (ok online) p h n =
      elim (Bool-cases (ltb 0 online)) [
        | inl t ↦
            let h' = rw (t) at h in login_reuse-IsIssued now online user token st st' r _ p h' n
        | inr f ↦
            let h' = rw (f) at h in logged_in-IsIssued now online user token st st' r _ p refl h'
      ]

  login_user-IsIssued :
      (now : ℕ) (password token : Text) (st st' : Auth) (r : LoginResult)
      (x : Result AuthError User)
      → 0 < cfg.token_ttl_hours
      → login_user R key crypto cfg now password (some token) st x ≡ (st', ok r)
      → r.reused ≡ false
      → IsIssued now r.user_id token r.token st st'
  login_user-IsIssued now password token st st' r (err e) p h n = ground arith
  login_user-IsIssued now password token st st' r (ok user) p h n =
      let counted = online_count R user.id st.cache in
      let reached : login_online R key crypto cfg now user (some token) st counted ≡ (st', ok r) =
        ground arith in
      login_online-IsIssued now user token st st' r counted p reached n

  -- A login that is not a reuse has issued the token that it gives.
  pub login-IsIssued :
      (now : ℕ) (username password token : Text) (st st' : Auth) (r : LoginResult)
      → 0 < cfg.token_ttl_hours
      → login R key crypto cfg now username password (some token) st ≡ (st', ok r)
      → r.reused ≡ false
      → IsIssued now r.user_id token r.token st st'
  unfolding login
  login-IsIssued now username password token st st' r p h n =
      login_user-IsIssued now password token st st' r _ p h n

  -- A login that is not a reuse gives a token that is accepted as its user's in the state that the
  -- login leaves, if tokens have a positive lifetime and the token is not empty.
  pub login-authenticate :
      (now later : ℕ) (username password token : Text) (st st' : Auth) (r : LoginResult)
      → 0 < cfg.token_ttl_hours
      → is_empty token ≡ false
      → login R key crypto cfg now username password (some token) st ≡ (st', ok r)
      → r.reused ≡ false
      → authenticate_token R key crypto cfg later r.token st' ≡ (st', ok (r.user_id, []))
  login-authenticate now later username password token st st' r p e h n =
      let issued = login-IsIssued now username password token st st' r p h n in
      rw (issued.same_token) (cached_authenticates later r.user_id token st' e issued.cached)

  -- A login of a user who is not banned, with the right password, devices online, a live session
  -- and its token in clear hands out that very token and changes nothing.
  pub login_reuses :
      (now online : ℕ) (username password plain : Text) (fresh : Option Text) (st : Auth)
      (user : User) (sess : Session)
      → find_user_by_name key (trim_space username) st.db ≡ ok user
      → user.disabled ≡ false
      → crypto.verify_password user.password_hash password ≡ true
      → online_count R user.id st.cache ≡ ok online
      → 0 < online
      → reusable R key crypto cfg now user.id st ≡ ok (some (plain, sess))
      → login R key crypto cfg now username password fresh st ≡ (
        st,
        ok (record {
          token = plain;
          user_id = user.id;
          username = user.username;
          expires_at = sess.expires_at;
          reused = true;
          online_devices = online;
        }),
      )
  unfolding login
  login_reuses now online username password plain fresh st user sess found live right counted on
        kept =
      rw (found, live, right, counted, lt→ltb 0 online on, kept)

  -- Nobody logs in to a banned account or with a wrong password: the answer is an error and
  -- nothing changes.
  login_refused :
      (now : ℕ) (username password : Text) (fresh : Option Text) (st : Auth) (user : User)
      → find_user_by_name key (trim_space username) st.db ≡ ok user
      → (user.disabled || not (crypto.verify_password user.password_hash password)) ≡ true
      → login R key crypto cfg now username password fresh st
        ≡ (st, err (if user.disabled then user_disabled else invalid_credentials))
  unfolding login
  login_refused now username password fresh st user found bad = ground arith

  -- A login that is not a reuse does not retire the tokens that were issued before it: in the state
  -- that it leaves, an older token that was cached is accepted as before, though its hash differs
  -- from the new token's.
  pub login_spares_old_token :
      (now later u : ℕ) (username password token old : Text) (st st' : Auth) (r : LoginResult)
      → 0 < cfg.token_ttl_hours
      → login R key crypto cfg now username password (some token) st ≡ (st', ok r)
      → r.reused ≡ false
      → is_empty old ≡ false
      → same (token_hash old) (token_hash token) ≡ false
      → lookup_token R (token_hash old) st.cache ≡ ok (some u)
      → authenticate_token R key crypto cfg later old st' ≡ (st', ok (u, []))
  login_spares_old_token now later u username password token old st st' r p h n e d k =
      let issued = login-IsIssued now username password token st st' r p h n in
      cached_authenticates later u old st' e (issued.others (token_hash old) d ∙ k)
