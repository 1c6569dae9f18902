-- ===== src/Schema/Complete.antt =====
-- store_mysql.go, store_device.go, store_apikey.go: the migrations end with the whole schema.
use clip_sync_server.Base.{
  ◌++◌, ◌==◌, All, All-mono, Bool, List, Option, Text, [], arith, false, map, none, not, refl,
  select, subst, sym, true, ℕ, ◌∙◌, ◌∷◌, ◌≡◌, same,
}
use clip_sync_server.Schema.Planned.{
  IsOld, IsThere, every-All, lists, lists-IsThere, provided, every,
}
use clip_sync_server.Schema.Migrated.{
  IsPlainEnglish, careful, passes, migrate-kept, migrate-IsMigrated,
}
use clip_sync_server.Schema.{
  MigrateError, Schema, Statement, add_column, api_key_statements, api_keys_failed, chain,
  create_table, device_statements, devices_failed, duplicate_column, is_duplicate, migrate,
  run_statements, schema_failed, user_statements,
}
use clip_sync_server.Schema.Repeats.{chain-next}
use clip_sync_server.Schema.Upgrade.{run-planned}

abbrev pub columns_of : List Statement → List (Text × Text)
columns_of [] = []
columns_of (create_table t columns references ∷ qs) = map (λ c. (t, c)) columns ++ columns_of qs
columns_of (add_column t c before ∷ qs) = columns_of qs

abbrev added : List Statement → List (Text × Text)
added [] = []
added (create_table t columns references ∷ qs) = added qs
added (add_column t c before ∷ qs) = (t, c) ∷ added qs

abbrev statements : List Statement
statements = user_statements ++ (device_statements ++ api_key_statements)

abbrev pub all_columns : List (Text × Text)
all_columns = columns_of statements

-- The columns that no ALTER TABLE adds.
abbrev pub old_columns : List (Text × Text)
old_columns = select (λ p. not (lists (added statements) p)) all_columns

abbrev after_users : List (Text × Text)
after_users = provided old_columns [] user_statements

abbrev after_devices : List (Text × Text)
after_devices = provided old_columns after_users device_statements

covers : every (lists (provided old_columns after_devices api_key_statements)) all_columns ≡ true
unfolding same
covers = refl

module _ (message : ℕ → Statement → Text) (plain : IsPlainEnglish message) (down : Statement → Bool)
    (up : (q : Statement) → down q ≡ false) where
  migrate_planned :
      (s : Schema)
      → All (IsOld s) old_columns
      → let x = migrate message down s in
        (x.1 ≡ none) × All (IsThere x.0) (provided old_columns after_devices api_key_statements)
  unfolding migrate same
  migrate_planned s old =
      let devices : Schema → Schema × Option MigrateError =
        run_statements down devices_failed (is_duplicate message down) device_statements in
      let keys_of : Schema → Schema × Option MigrateError =
        run_statements down api_keys_failed (λ q e. false) api_key_statements in
      let a = run_statements down schema_failed (λ q e. e == duplicate_column) user_statements s in
      let rest : Schema → Schema × Option MigrateError = λ s'. chain (devices s') keys_of in
      let (a_none, a_old, a_there) =
        run-planned down up schema_failed (λ q e. e == duplicate_column) user_statements s
          old_columns [] (λ q e t. t) (tt, (refl, (tt, tt))) refl old tt in
      let (d_none, d_old, d_there) =
        run-planned down up devices_failed (is_duplicate message down) device_statements a.0
          old_columns after_users (careful message plain down) (passes message plain down) refl
          a_old a_there in
      let (k_none, k_old, k_there) =
        run-planned down up api_keys_failed (λ q e. false) api_key_statements (devices a.0).0
          old_columns after_devices (λ q e t. ground arith) (tt, tt) refl d_old d_there in
      subst
        (λ y.
          (y.1 ≡ none) × All (IsThere y.0) (provided old_columns after_devices api_key_statements))
        (sym (chain-next a rest a_none ∙ chain-next (devices a.0) keys_of d_none)) (k_none, k_there)

  -- If MySQL's texts are English and no statement fails for another reason: the migrations end
  -- without an error on every database in which each table is missing or has at least the columns
  -- that the migrations do not add by themselves; every table then has every column that the
  -- CREATE statements name; and to run them again, whichever statements fail then, changes nothing
  -- and gives no error if none fails.
  pub migrate_completes :
      (s : Schema)
      → All (IsOld s) old_columns
      → let s' = (migrate message down s).0 in
        ((migrate message down s).1 ≡ none)
        × All (IsThere s') all_columns
        × ((later_down : Statement → Bool)
            → ((migrate message later_down s').0 ≡ s')
              × (((q : Statement) → later_down q ≡ false)
                  → (migrate message later_down s').1 ≡ none))
  migrate_completes s old =
      let (done, there) = migrate_planned s old in
      (
        done,
        All-mono (λ p. lists (provided old_columns after_devices api_key_statements) p ≡ true) _
            all_columns (λ p. lists-IsThere _ _ p there)
            (every-All (lists (provided old_columns after_devices api_key_statements)) all_columns
              covers),
        λ later_down.
            migrate-kept message plain later_down _ (migrate-IsMigrated message plain down s done),
      )
