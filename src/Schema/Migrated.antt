-- ===== src/Schema/Migrated.antt =====
-- store_mysql.go, store_device.go, store_apikey.go: the migrations as a whole.
use clip_sync_server.Base.{
  ◌==◌, All, All-mono, Bool, List, Text, ap, arith, codes, false, none, subst, sym, true, ℕ, ◌∙◌,
  ◌≡◌, refl, Option,
}
use clip_sync_server.Schema.Repeats.{
  IsCareful, Passes, chain-done, run-All, run-kept, chain-none, chain-same, run-again,
}
use clip_sync_server.Schema.{
  MigrateError, Schema, Statement, api_key_statements, api_keys_failed, chain, device_statements,
  devices_failed, duplicate_column, is_duplicate, migrate, run_statements, schema_failed,
  user_statements,
}
use clip_sync_server.Text.{contains, to_lower}
use clip_sync_server.Schema.Statements.{is_applied}

-- What the server's MySQL says of an error: only the text of a column that is there has the words
-- that `migrateDevices` looks for.
abbrev pub IsPlainEnglish : (ℕ → Statement → Text) → Type 0
IsPlainEnglish message =
    (e : ℕ) (q : Statement)
    → contains (codes "duplicate column") (to_lower (message e q)) ≡ (e == duplicate_column)

abbrev IsDone : Schema → List Statement → Type 0
IsDone s qs = All (λ q. is_applied s q ≡ true) qs

abbrev pub IsMigrated : Schema → Type 0
IsMigrated s = IsDone s user_statements × IsDone s device_statements × IsDone s api_key_statements

run-IsDone :
    (down : Statement → Bool) (failed : ℕ → MigrateError) (skips : Statement → ℕ → Bool)
    (qs ps : List Statement) (s : Schema)
    → IsDone s ps
    → IsDone (run_statements down failed skips qs s).0 ps
run-IsDone down failed skips qs ps s h =
    All-mono (λ p. is_applied s p ≡ true) _ ps (λ p. run-kept down failed skips qs s p) h

module _ (message : ℕ → Statement → Text) (plain : IsPlainEnglish message) where
  pub careful : (down : Statement → Bool) → IsCareful (is_duplicate message down)
  careful down q e h = sym (plain e q) ∙ h

  pub passes :
      (down : Statement → Bool) → All (Passes (is_duplicate message down)) device_statements
  passes down = (tt, (plain duplicate_column _, (plain duplicate_column _, tt)))

  pub migrate-IsMigrated :
      (down : Statement → Bool) (s : Schema)
      → (migrate message down s).1 ≡ none
      → IsMigrated (migrate message down s).0
  unfolding migrate
  migrate-IsMigrated down s h =
      let devices =
        run_statements down devices_failed (is_duplicate message down) device_statements in
      let keys = run_statements down api_keys_failed (λ q e. false) api_key_statements in
      let a = run_statements down schema_failed (λ q e. e == duplicate_column) user_statements s in
      let (a_done, a_next) = chain-done a (λ s'. chain (devices s') keys) h in
      let d_h : (chain (devices a.0) keys).1 ≡ none = sym (ap (λ x. x.1) a_next) ∙ h in
      let (d_done, d_next) = chain-done (devices a.0) keys d_h in
      let k_done : (keys (devices a.0).0).1 ≡ none = sym (ap (λ x. x.1) d_next) ∙ d_h in
      subst (λ x. IsMigrated x.0) (sym (a_next ∙ d_next))
        (
          run-IsDone down api_keys_failed _ api_key_statements user_statements (devices a.0).0 (
              run-IsDone down devices_failed _ device_statements user_statements a.0
                (run-All down schema_failed _ user_statements s (λ q e t. t) a_done)),
          run-IsDone down api_keys_failed _ api_key_statements device_statements (devices a.0).0
              (run-All down devices_failed _ device_statements a.0 (careful down) d_done),
          run-All down api_keys_failed _ api_key_statements (devices a.0).0 (λ q e t. ground arith)
              k_done,
        )

  -- When the schema is complete.
  pub migrate-kept :
      (down : Statement → Bool) (s : Schema)
      → IsMigrated s
      → ((migrate message down s).0 ≡ s)
        × (((q : Statement) → down q ≡ false) → (migrate message down s).1 ≡ none)
  unfolding migrate
  migrate-kept down s (users, devs, keys) =
      let devices =
        run_statements down devices_failed (is_duplicate message down) device_statements in
      let keys_of = run_statements down api_keys_failed (λ q e. false) api_key_statements in
      let a = run_statements down schema_failed (λ q e. e == duplicate_column) user_statements s in
      let rest : Schema → Schema × Option MigrateError = λ s'. chain (devices s') keys_of in
      let (a_same, a_none) = run-again down schema_failed _ user_statements s users in
      let (d_same, d_none) = run-again down devices_failed _ device_statements s devs in
      let (k_same, k_none) = run-again down api_keys_failed _ api_key_statements s keys in
      (
        chain-same a rest s a_same (chain-same (devices s) keys_of s d_same k_same),
        λ up. chain-none a rest s a_same (a_none (tt, (refl, (tt, tt))) up) (
            chain-none (devices s) keys_of s d_same (d_none (passes down) up) (k_none (tt, tt) up)),
      )
