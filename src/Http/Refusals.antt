-- ===== src/Http/Refusals.antt =====
-- auth_http.go: what a login that is refused leaves behind.
use clip_sync_server.Base.{
  ◌*◌, ◌/◌, ◌>>=◌, Bool-cases, Option, Result, Result-cases, Text, ap, arith, err, inl, inr, ltb,
  none, ok, refl, some, sym, ℕ, ◌∙◌, ◌≡◌, ◌≢◌,
}
use clip_sync_server.Auth.Service.{
  AuthConfig, AuthState, Crypto, issue_session, logged_in, login, login_online, login_reuse,
  login_user, reusable, with_plain,
}
use clip_sync_server.Auth.Store.{
  AuthError, MysqlStore, Session, User, find_user_by_name, get_session, get_session_stmt,
  upsert_session, upsert_session_stmt,
}
use clip_sync_server.Http.{
  HttpRequest, WebState, decode_credentials, login_handler, login_status, login_with, with_auth,
}
use clip_sync_server.Auth.Redis.{Redis, number, plain_token_key, text}
use clip_sync_server.Limit.{allow, second}
use clip_sync_server.Auth.Cache.{
  cache_token, load_plain_token, online_count, store_plain_token, as_text,
}
use clip_sync_server.Text.{trim_space}

module _ (R : Redis) (key : Text → Text) (crypto : Crypto) (cfg : AuthConfig) where
  abbrev Web : Type 0
  Web = WebState R key crypto cfg

  abbrev Auth : Type 0
  Auth = AuthState R key crypto cfg

  -- An error that is no fault of the server leaves the state as it was.
  abbrev Harmless {ℓ} : {A : Type ℓ} → Auth → Auth × Result AuthError A → Type 0
  Harmless st (t, err e) = login_status e ≢ 500 → t ≡ st
  Harmless st (t, ok a) = Unit

  -- Every error is a fault of the server.
  abbrev Faults {ℓ} : {A : Type ℓ} → Result AuthError A → Type 0
  Faults (err e) = login_status e ≡ 500
  Faults (ok a) = Unit

  issue_session-Harmless :
      (now u : ℕ) (token : Option Text) (st : Auth)
      → Harmless st (issue_session R key crypto cfg now u token st)
  unfolding issue_session upsert_session login_status
  issue_session-Harmless now u none st = λ c. absurd (c refl)
  issue_session-Harmless now u (some token) st =
      let ttl = cfg.token_ttl_hours * 3600 in
      let cached = cache_token R (crypto.token_hash token) u ttl st.cache in
      elim (Bool-cases (st.db.fails upsert_session_stmt)) [
        | inl down ↦ rw down (λ c. absurd (c refl))
        | inr up ↦ elim (Bool-cases cached.1) [
          | inr bad ↦ rw (up, bad) (λ c. absurd (c refl))
          | inl good ↦ elim (Bool-cases (store_plain_token R u token ttl cached.0).1) [
            | inr unkept ↦ rw (up, good, unkept) (λ c. absurd (c refl))
            | inl kept ↦ rw (up, good, kept) tt
          ]
        ]
      ]

  logged_in-Harmless :
      (now online : ℕ) (user : User) (st : Auth) (x : Auth × Result AuthError Text)
      → Harmless st x
      → Harmless st (logged_in R key crypto cfg now user online x)
  logged_in-Harmless now online user st (t, err e) h = h
  logged_in-Harmless now online user st (t, ok token) h = tt

  online_count-Faults : (u : ℕ) (c : R.State) → Faults (online_count R u c)
  unfolding online_count login_status
  online_count-Faults u c = elim (Result-cases (R.hlen u c)) [
    | inl (e, down) ↦ rw down refl
    | inr (n, up) ↦ rw up tt
  ]

  load_plain_token-Faults : (u : ℕ) (c : R.State) → Faults (load_plain_token R u c)
  unfolding load_plain_token login_status
  load_plain_token-Faults u c = elim (R.get (plain_token_key u) c) as (λ r. Faults (as_text R r)) [
    | err e ↦ refl
    | ok none ↦ tt
    | ok (some (text t)) ↦ tt
    | ok (some (number n)) ↦ refl
  ]

  then-Faults {ℓ κ} :
      {A : Type ℓ} {B : Type κ} (r : Result AuthError A) (f : A → Result AuthError B)
      → Faults r
      → ((a : A) → Faults (f a))
      → Faults (r >>= f)
  then-Faults (err e) f h k = h
  then-Faults (ok a) f h k = k a

  with_plain-Faults :
      (u : ℕ) (c : R.State) (sess : Option Session) → Faults (with_plain R key crypto cfg u c sess)
  with_plain-Faults u c none = tt
  with_plain-Faults u c (some sess) =
      then-Faults (load_plain_token R u c) _ (load_plain_token-Faults u c) (λ plain. tt)

  get_session-Faults : (now u : ℕ) (db : MysqlStore) → Faults (get_session now u db)
  unfolding get_session login_status
  get_session-Faults now u db = elim (Bool-cases (db.fails get_session_stmt)) [
    | inl down ↦ rw down refl
    | inr up ↦ rw up tt
  ]

  reusable-Faults : (now u : ℕ) (st : Auth) → Faults (reusable R key crypto cfg now u st)
  unfolding reusable
  reusable-Faults now u st =
      then-Faults (get_session now u st.db) _ (get_session-Faults now u st.db)
        (with_plain-Faults u st.cache)

  login_reuse-Harmless :
      (now online : ℕ) (user : User) (fresh : Option Text) (st : Auth)
      (r : Result AuthError (Option (Text × Session)))
      → Faults r
      → Harmless st (login_reuse R key crypto cfg now user online fresh st r)
  login_reuse-Harmless now online user fresh st (err e) h = λ c. absurd (c h)
  login_reuse-Harmless now online user fresh st (ok none) h =
      logged_in-Harmless now online user st (issue_session R key crypto cfg now user.id fresh st)
        (issue_session-Harmless now user.id fresh st)
  login_reuse-Harmless now online user fresh st (ok (some (plain, sess))) h = tt

  login_online-Harmless :
      (now : ℕ) (user : User) (fresh : Option Text) (st : Auth) (r : Result AuthError ℕ)
      → Faults r
      → Harmless st (login_online R key crypto cfg now user fresh st r)
  login_online-Harmless now user fresh st (err e) h = λ c. absurd (c h)
  login_online-Harmless now user fresh st (ok online) h = elim (Bool-cases (ltb 0 online)) [
    | inl y ↦ rw y (
        login_reuse-Harmless now online user fresh st (reusable R key crypto cfg now user.id st)
          (reusable-Faults now user.id st))
    | inr n ↦ rw n (
        logged_in-Harmless now online user st (issue_session R key crypto cfg now user.id fresh st)
          (issue_session-Harmless now user.id fresh st))
  ]

  login_user-Harmless :
      (now : ℕ) (password : Text) (fresh : Option Text) (st : Auth) (r : Result AuthError User)
      → Harmless st (login_user R key crypto cfg now password fresh st r)
  login_user-Harmless now password fresh st (err e) = λ c. refl
  login_user-Harmless now password fresh st (ok user) = elim (Bool-cases user.disabled) [
    | inl y ↦ rw y (λ c. refl)
    | inr n ↦ elim (Bool-cases (crypto.verify_password user.password_hash password)) [
      | inr wrong ↦ rw (n, wrong) (λ c. refl)
      | inl right ↦
          rw (n, right)
            (login_online-Harmless now user fresh st (online_count R user.id st.cache)
              (online_count-Faults user.id st.cache))
    ]
  ]

  with_auth-Harmless {ℓ} :
      {A : Type ℓ} (s s' : Web) (x : Auth × Result AuthError A) (n : ℕ)
      → Harmless s.auth x
      → with_auth R key crypto cfg login_status s x ≡ (s', err n)
      → n ≢ 500
      → s' ≡ s
  with_auth-Harmless s s' (t, err e) n h same_answer client =
      let status : login_status e ≡ n = ground (arith, ap (λ p. p.1) same_answer) in
      let kept : t ≡ s.auth = h (λ fault. client (sym status ∙ fault)) in
      sym (ap (λ p. p.0) same_answer) ∙ ap (λ a. record s { auth = a }) kept
  with_auth-Harmless s s' (t, ok a) n h same_answer client =
      let wrong : ◌≡◌ (ok a) (err n) = ap (λ p. p.1) same_answer in ground (arith, wrong)

  login_with-Harmless :
      (now n : ℕ) (fresh : Option Text) (s s' : Web) (c : Option (Text × Text))
      → login_with R key crypto cfg now fresh s c ≡ (s', err n)
      → n ≢ 500
      → s' ≡ s
  unfolding login
  login_with-Harmless now n fresh s s' none h client = sym (ap (λ p. p.0) h)
  login_with-Harmless now n fresh s s' (some (username, password)) h client =
      with_auth-Harmless s s' (login R key crypto cfg now username password fresh s.auth) n
        (login_user-Harmless now password fresh s.auth
          (find_user_by_name key (trim_space username) s.auth.db))
        h client

  -- A login over HTTP that is refused, with any status but 500, changes no account, no session and
  -- no token: only the limiter may have counted it.
  pub login_handler_refused :
      (clock n : ℕ) (r : HttpRequest) (body : Option (Text × Text)) (fresh : Option Text)
      (s s' : Web)
      → login_handler R key crypto cfg clock r body fresh s ≡ (s', err n)
      → n ≢ 500
      → s'.auth ≡ s.auth
  unfolding login_handler
  login_handler_refused clock n r body fresh s s' h client =
      let (limiter, passed) = allow clock r.ip s.limiter in
      let t : Web = record s { limiter = limiter } in
      elim (Bool-cases r.is_post) [
        | inr get ↦ sym (ap (λ p. p.0.auth) (rw get at h))
        | inl post ↦ elim (Bool-cases passed) [
          | inr limited ↦ sym (ap (λ p. p.0.auth) (rw (post, limited) at h))
          | inl free ↦
              ap (λ v. v.auth)
                (login_with-Harmless (clock / second) n fresh t s' (decode_credentials body)
                  (rw (post, free) at h) client)
        ]
      ]
