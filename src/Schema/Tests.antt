-- ===== src/Schema/Tests.antt =====
-- Runs of the migrations, and the witnesses.
use clip_sync_server.Base.{
  ◌==◌, All, Bool, Bool-cases, List, Text, [], codes, if◌then◌else◌, false, inl, inr, none, refl,
  same, some, true, ℕ, ◌∷◌, ◌≡◌, All-mono, arith, err, not, ◌||◌,
}
use clip_sync_server.Schema.Planned.{IsOld, IsThere, every, every-All}
use clip_sync_server.Schema.Migrated.{IsPlainEnglish}
use clip_sync_server.Schema.{
  Schema, Statement, duplicate_column, has_column, migrate, devices_failed, has_table, open_mysql,
  ping_failed, run_statements,
}
use clip_sync_server.Schema.Complete.{all_columns, migrate_completes, old_columns}
use clip_sync_server.Text.{contains, to_lower, has_prefix, lower_rune}

-- MySQL's texts: 1060 is `Duplicate column name`, and others have other words.
abbrev english : ℕ → Statement → Text
english e q = if e == duplicate_column then codes "Duplicate column name" else codes "Error"

abbrev empty : Schema
empty t = none

-- deploy/mysql/init.sql: no `last_ip`, and no table of keys.
abbrev init_users : List Text
init_users =
    codes "id"
    ∷ codes "username"
    ∷ codes "nickname"
    ∷ codes "password_hash"
    ∷ codes "disabled"
    ∷ codes "created_at"
    ∷ codes "updated_at"
    ∷ []

abbrev init_sessions : List Text
init_sessions = codes "user_id" ∷ codes "token_hash" ∷ codes "created_at" ∷ codes "expires_at" ∷ []

abbrev init_devices : List Text
init_devices =
    codes "user_id"
    ∷ codes "device_id"
    ∷ codes "role"
    ∷ codes "platform"
    ∷ codes "name"
    ∷ codes "disabled"
    ∷ codes "last_seen_at"
    ∷ codes "created_at"
    ∷ []

abbrev init_sql : Schema
init_sql t =
    if same t (codes "users")
    then some init_users
    else if same t (codes "sessions")
    then some init_sessions
    else if same t (codes "devices")
    then some init_devices
    else none

abbrev none_down : Statement → Bool
none_down q = false

english_plain : IsPlainEnglish english
unfolding contains to_lower has_prefix lower_rune
english_plain e q = elim (Bool-cases (e == duplicate_column)) [
  | inl d ↦ rw d refl
  | inr n ↦ rw n refl
]

init_sql_old :
    every (λ k. not (has_table k.0 init_sql) || has_column k.0 k.1 init_sql) old_columns ≡ true
unfolding same
init_sql_old = refl

init_sql-IsOld : All (IsOld init_sql) old_columns
init_sql-IsOld =
    All-mono (λ k. (not (has_table k.0 init_sql) || has_column k.0 k.1 init_sql) ≡ true) _
      old_columns
      (λ k h. elim (Bool-cases (has_table k.0 init_sql)) [
        | inl there ↦ inr (ground (arith, h, there))
        | inr gone ↦ inl gone
      ])
      (every-All (λ k. not (has_table k.0 init_sql) || has_column k.0 k.1 init_sql) old_columns
        init_sql_old)

migrate_test : (migrate english none_down init_sql).1 ≡ none
unfolding migrate run_statements same contains to_lower has_prefix lower_rune
migrate_test = refl

last_ip_test :
    (has_column (codes "devices") (codes "last_ip") init_sql ≡ false)
    × (has_column (codes "devices") (codes "last_ip") (migrate english none_down init_sql).0 ≡ true)
unfolding migrate run_statements same contains to_lower has_prefix lower_rune
last_ip_test = (refl, refl)

-- On a server of another language the second part stops at the column that is there.
language_test :
    (migrate (λ e q. codes "Doppelter Spaltenname") none_down empty).1
    ≡ some (devices_failed duplicate_column)
unfolding migrate run_statements same contains to_lower has_prefix lower_rune
language_test = refl

ping_test : open_mysql english none_down true false empty ≡ (empty, err ping_failed)
unfolding open_mysql
ping_test = refl

migrate_completes_example :
    let s' = (migrate english none_down init_sql).0 in
    ((migrate english none_down init_sql).1 ≡ none)
    × All (IsThere s') all_columns
    × ((later_down : Statement → Bool)
        → ((migrate english later_down s').0 ≡ s')
          × (((q : Statement) → later_down q ≡ false) → (migrate english later_down s').1 ≡ none))
migrate_completes_example =
    migrate_completes english english_plain none_down (λ q. refl) init_sql init_sql-IsOld
