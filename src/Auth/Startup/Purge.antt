-- ===== src/Auth/Startup/Purge.antt =====
-- auth_service.go, store_mysql.go: the purge of expired sessions is not seen by authentication.
-- A row for each user at most: `user_id` is the primary key of `sessions`.
use clip_sync_server.Base.{
  ◌==◌, All, All-mono, All-select, Bool, Bool-cases, List, [], arith, false, inl, inr, ltb, none,
  refl, select, true, ℕ, ◌∷◌, ◌≡◌, ◌≤◌, Text, subst, Option, Result, err, is_empty, ok, some, ◌∙◌,
}
use clip_sync_server.Auth.Store.{
  Session, first, unless_expired, MysqlStore, find_user_by_token_hash, get_session, is_live,
  purge_expired_sessions, AuthError, User,
}
use clip_sync_server.Auth.Service.{
  AuthConfig, AuthState, Crypto, authenticate_token, from_cache, from_database, refill,
}
use clip_sync_server.Auth.Redis.{Redis}
use clip_sync_server.Auth.Cache.{lookup_token}
use clip_sync_server.Auth.Startup.{purge_sessions_loop}

abbrev pub IsKeyed : List Session → Type 0
IsKeyed [] = Unit
IsKeyed (r ∷ rows) = All (λ q. (q.user_id == r.user_id) ≡ false) rows × IsKeyed rows

first-select {ℓ} :
    {A : Type ℓ} (p q : A → Bool) (xs : List A)
    → ((x : A) → p x ≡ true → q x ≡ true)
    → first p (select q xs) ≡ first p xs
unfolding first
first-select p q [] h = refl
first-select p q (x ∷ xs) h = ground (arith, first-select p q xs h, h x)

absent :
    (u : ℕ) (rows : List Session) (q : Session → Bool)
    → All (λ r. (r.user_id == u) ≡ false) rows
    → first (λ r. r.user_id == u) (select q rows) ≡ none
unfolding first
absent u [] q h = refl
absent u (r ∷ rows) q (h, hs) = ground (arith, absent u rows q hs)

get_session-purge_rows :
    (now later u : ℕ) (rows : List Session)
    → now ≤ later
    → IsKeyed rows
    → unless_expired later (first (λ r. r.user_id == u) (select (λ r. ltb now r.expires_at) rows))
      ≡ unless_expired later (first (λ r. r.user_id == u) rows)
unfolding first
get_session-purge_rows now later u [] h k = refl
get_session-purge_rows now later u (r ∷ rows) h (k, ks) = elim (Bool-cases (r.user_id == u)) [
  | inl mine ↦
      let owner : r.user_id ≡ u = ground arith in
      let others =
        absent u rows (λ x. ltb now x.expires_at)
          (subst (λ v. All (λ q. (q.user_id == v) ≡ false) rows) owner k) in
      ground (arith, others)
  | inr other ↦ ground (arith, get_session-purge_rows now later u rows h ks)
]

IsKeyed-select : (q : Session → Bool) (rows : List Session) → IsKeyed rows → IsKeyed (select q rows)
IsKeyed-select q [] k = tt
IsKeyed-select q (r ∷ rows) (k, ks) = elim (Bool-cases (q r)) [
  | inl kept ↦
      rw kept (All-select q _ rows (All-mono _ _ rows (λ x e _. e) k), IsKeyed-select q rows ks)
  | inr gone ↦ rw gone (IsKeyed-select q rows ks)
]

-- The table without the rows that have expired by then.
abbrev pub purged : ℕ → MysqlStore → MysqlStore
purged now db = (purge_expired_sessions now db).0

get_session-purged :
    (now later u : ℕ) (db : MysqlStore)
    → now ≤ later
    → IsKeyed db.sessions
    → get_session later u (purged now db) ≡ get_session later u db
unfolding get_session purge_expired_sessions
get_session-purged now later u db h k = rw (get_session-purge_rows now later u db.sessions h k) refl

find_user_by_token_hash-purged :
    (now later : ℕ) (hash : Text) (db : MysqlStore)
    → now ≤ later
    → find_user_by_token_hash later hash (purged now db) ≡ find_user_by_token_hash later hash db
unfolding find_user_by_token_hash purge_expired_sessions
find_user_by_token_hash-purged now later hash db h =
    rw
      (first-select (is_live later hash) (λ r. ltb now r.expires_at) db.sessions
        (λ r live. ground arith))
      refl

module _ (R : Redis) (key : Text → Text) (crypto : Crypto) (cfg : AuthConfig) where
  abbrev pub with_purged : ℕ → AuthState R key crypto cfg → AuthState R key crypto cfg
  with_purged now st = record st { db = purged now st.db }

  module _ (now later : ℕ) (hash : Text) (st : AuthState R key crypto cfg) where
    refill-purged :
        (u : ℕ) (x : Result AuthError (Option Session))
        → refill R key crypto cfg later hash u (with_purged now st) x
          ≡ with_purged now (refill R key crypto cfg later hash u st x)
    refill-purged u (err e) = refl
    refill-purged u (ok none) = refl
    refill-purged u (ok (some sess)) = refl

    from_database-purged :
        (x : Result AuthError User)
        → now ≤ later
        → IsKeyed st.db.sessions
        → from_database R key crypto cfg later hash (with_purged now st) x
          ≡ let r = from_database R key crypto cfg later hash st x in (with_purged now r.0, r.1)
    from_database-purged (err e) h k = refl
    from_database-purged (ok user) h k = elim (Bool-cases user.disabled) [
      | inl banned ↦ rw banned refl
      | inr free ↦
          rw
            (
              free,
              get_session-purged now later user.id st.db h k,
              refill-purged user.id (get_session later user.id st.db),
            )
            refl
    ]

    from_cache-purged :
        (x : Result AuthError (Option ℕ))
        → now ≤ later
        → IsKeyed st.db.sessions
        → from_cache R key crypto cfg later hash (with_purged now st) x
          ≡ let r = from_cache R key crypto cfg later hash st x in (with_purged now r.0, r.1)
    from_cache-purged (ok (some u)) h k = refl
    from_cache-purged (ok none) h k =
        rw (find_user_by_token_hash-purged now later hash st.db h)
          (from_database-purged (find_user_by_token_hash later hash st.db) h k)
    from_cache-purged (err e) h k =
        rw (find_user_by_token_hash-purged now later hash st.db h)
          (from_database-purged (find_user_by_token_hash later hash st.db) h k)

  authenticate_token-purged :
      (now later : ℕ) (token : Text) (st : AuthState R key crypto cfg)
      → now ≤ later
      → IsKeyed st.db.sessions
      → authenticate_token R key crypto cfg later token (with_purged now st)
        ≡ let r = authenticate_token R key crypto cfg later token st in (with_purged now r.0, r.1)
  unfolding authenticate_token
  authenticate_token-purged now later token st h k = elim (Bool-cases (is_empty token)) [
    | inl none_given ↦ rw none_given refl
    | inr given ↦
        let hash = crypto.token_hash token in
        rw given (from_cache-purged now later hash st (lookup_token R hash st.cache) h k)
  ]

  abbrev pub after_ticks : List (ℕ × Bool) → AuthState R key crypto cfg → AuthState R key crypto cfg
  after_ticks ticks st = record st { db = purge_sessions_loop ticks st.db }

  -- With one session row for each user: however often the expired sessions have been purged by
  -- then, and whether each purge worked, a token is authenticated exactly as if nothing had been
  -- purged, and what authentication does to the state is the same up to the purges.
  pub authenticate_token-purge_sessions_loop :
      (ticks : List (ℕ × Bool)) (later : ℕ) (token : Text) (st : AuthState R key crypto cfg)
      → All (λ t. t.0 ≤ later) ticks
      → IsKeyed st.db.sessions
      → authenticate_token R key crypto cfg later token (after_ticks ticks st)
        ≡ let r = authenticate_token R key crypto cfg later token st in (after_ticks ticks r.0, r.1)
  unfolding purge_sessions_loop
  authenticate_token-purge_sessions_loop [] later token st h k = refl
  authenticate_token-purge_sessions_loop ((now, false) ∷ ticks) later token st (h, hs) k =
      authenticate_token-purge_sessions_loop ticks later token st hs k
  authenticate_token-purge_sessions_loop ((now, true) ∷ ticks) later token st (h, hs) k =
      authenticate_token-purge_sessions_loop ticks later token (with_purged now st) hs (
        unfold purge_expired_sessions in
        IsKeyed-select (λ r. ltb now r.expires_at) st.db.sessions k)
      ∙ rw (authenticate_token-purged now later token st h k) refl
