-- ===== src/Schema.antt =====
-- store_mysql.go, store_device.go, store_apikey.go: `OpenMySQL` and the migrations. A schema keeps
-- the names of the tables and of their columns in order; types, keys and defaults are left out. A
-- statement does what its text says, and `down` says for which one the driver fails. The text of an
-- error of MySQL is the parameter `message`.
mod Statements
mod Repeats
mod Migrated
mod Planned
mod Upgrade
mod Complete
mod Tests
use clip_sync_server.Base.{
  ◌&&◌, ◌==◌, Bool, List, Option, Result, Text, [], any, codes, err, false, if◌then◌else◌, none, ok,
  not, same, some, true, ℕ, ◌∷◌,
}
use clip_sync_server.Text.{contains, to_lower}

pub data Statement : Type 0 where
  create_table : Text → List Text → List (Text × Text) → Statement
  add_column : Text → Text → Text → Statement

abbrev pub Schema : Type 0
Schema = Text → Option (List Text)

abbrev lists_column : Text → Option (List Text) → Bool
lists_column c none = false
lists_column c (some columns) = any (same c) columns

abbrev is_some : Option (List Text) → Bool
is_some none = false
is_some (some columns) = true

abbrev pub has_table : Text → Schema → Bool
has_table t s = is_some (s t)

abbrev pub has_column : Text → Text → Schema → Bool
has_column t c s = lists_column c (s t)

abbrev pub with_table : Text → List Text → Schema → Schema
with_table t columns s n = if same n t then some columns else s n

abbrev pub insert_after : Text → Text → List Text → List Text
insert_after before c [] = c ∷ []
insert_after before c (d ∷ columns) =
    let rest = insert_after before c columns in if same before d then d ∷ c ∷ columns else d ∷ rest

abbrev pub are_columns : List (Text × Text) → Schema → Bool
are_columns [] s = true
are_columns ((t, c) ∷ references) s = has_column t c s && are_columns references s

-- The numbers of MySQL's errors.
abbrev pub duplicate_column : ℕ
duplicate_column = 1060

abbrev unknown_column : ℕ
unknown_column = 1054

abbrev no_such_table : ℕ
no_such_table = 1146

abbrev no_referenced_table : ℕ
no_referenced_table = 1824

abbrev pub extend : Text → Text → Text → Schema → Option (List Text) → Result ℕ Schema
extend t c before s none = err no_such_table
extend t c before s (some columns) =
    if any (same c) columns
    then err duplicate_column
    else if any (same before) columns
    then ok (with_table t (insert_after before c columns) s)
    else err unknown_column

abbrev pub apply : Statement → Schema → Result ℕ Schema
apply (create_table t columns references) s =
    if has_table t s
    then ok s
    else if are_columns references s
    then ok (with_table t columns s)
    else err no_referenced_table
apply (add_column t c before) s = extend t c before s (s t)

-- Zero is an error that is not one of MySQL's.
abbrev pub exec : (Statement → Bool) → Statement → Schema → Result ℕ Schema
exec down q s = if down q then err 0 else apply q s

abbrev users_table : Text
users_table = codes "users"

abbrev pub user_statements : List Statement
user_statements =
    create_table users_table
      (codes "id"
        ∷ codes "username"
        ∷ codes "nickname"
        ∷ codes "password_hash"
        ∷ codes "disabled"
        ∷ codes "created_at"
        ∷ codes "updated_at"
        ∷ [])
      []
    ∷ add_column users_table (codes "nickname") (codes "username")
    ∷ create_table (codes "sessions")
        (codes "user_id" ∷ codes "token_hash" ∷ codes "created_at" ∷ codes "expires_at" ∷ [])
        ((users_table, codes "id") ∷ [])
    ∷ []

abbrev pub device_statements : List Statement
device_statements =
    create_table (codes "devices")
      (codes "user_id"
        ∷ codes "device_id"
        ∷ codes "role"
        ∷ codes "platform"
        ∷ codes "name"
        ∷ codes "last_ip"
        ∷ codes "disabled"
        ∷ codes "last_seen_at"
        ∷ codes "created_at"
        ∷ [])
      ((users_table, codes "id") ∷ [])
    ∷ add_column (codes "devices") (codes "name") (codes "platform")
    ∷ add_column (codes "devices") (codes "last_ip") (codes "name")
    ∷ []

abbrev pub api_key_statements : List Statement
api_key_statements =
    create_table (codes "api_keys")
      (codes "id"
        ∷ codes "user_id"
        ∷ codes "key_hash"
        ∷ codes "key_prefix"
        ∷ codes "name"
        ∷ codes "device_id"
        ∷ codes "expires_at"
        ∷ codes "disabled"
        ∷ codes "last_used_at"
        ∷ codes "created_at"
        ∷ [])
      ((users_table, codes "id") ∷ [])
    ∷ []

-- Which part failed, and the number of the error.
pub data MigrateError : Type 0 where
  schema_failed devices_failed api_keys_failed : ℕ → MigrateError

pub data OpenError : Type 0 where
  open_failed ping_failed : OpenError
  migrate_failed : MigrateError → OpenError

abbrev pub chain {ℓ} :
    {E : Type ℓ} → Schema × Option E → (Schema → Schema × Option E) → Schema × Option E
chain (s, none) next = next s
chain (s, some e) next = (s, some e)

module _ (down : Statement → Bool) where
  -- After an error the schema is as before; one that is passed over lets the loop go on.
  abbrev pub settle :
      (ℕ → MigrateError) → (ℕ → Bool) → Schema → Result ℕ Schema → Schema × Option MigrateError
  settle failed skips s (ok s') = (s', none)
  settle failed skips s (err e) = (s, if skips e then none else some (failed e))

  unfoldable pub run_statements :
      (ℕ → MigrateError)
      → (Statement → ℕ → Bool)
      → List Statement
      → Schema
      → Schema × Option MigrateError
  run_statements failed skips [] s = (s, none)
  run_statements failed skips (q ∷ qs) s =
      chain (settle failed (skips q) s (exec down q s)) (run_statements failed skips qs)

module _ (message : ℕ → Statement → Text) (down : Statement → Bool) where
  abbrev pub is_duplicate : Statement → ℕ → Bool
  is_duplicate q e = contains (codes "duplicate column") (to_lower (message e q))

  abbrev pub migrate_devices : Schema → Schema × Option MigrateError
  migrate_devices s = run_statements down devices_failed is_duplicate device_statements s

  abbrev pub migrate_api_keys : Schema → Schema × Option MigrateError
  migrate_api_keys s = run_statements down api_keys_failed (λ q e. false) api_key_statements s

  unfoldable pub migrate : Schema → Schema × Option MigrateError
  migrate s =
      chain (run_statements down schema_failed (λ q e. e == duplicate_column) user_statements s)
        (λ s'. chain (migrate_devices s') migrate_api_keys)

  abbrev opened : Schema × Option MigrateError → Schema × Result OpenError (Unit {0})
  opened (s, none) = (s, ok tt)
  opened (s, some e) = (s, err (migrate_failed e))

  -- `OpenMySQL`; every error closes the connections again.
  unfoldable pub open_mysql : Bool → Bool → Schema → Schema × Result OpenError (Unit {0})
  open_mysql opens pings s =
      if not opens
      then (s, err open_failed)
      else if not pings
      then (s, err ping_failed)
      else opened (migrate s)
