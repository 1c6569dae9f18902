-- ===== src/Device.antt =====
-- store_device.go: the table `devices`. A table is the list of its rows. What a statement does to
-- the rows is read off its SQL text; the comparison of texts in a WHERE clause or a key is that of
-- the column's collation, which is a parameter: two texts are equal if they have the same `key`.
-- Whether MySQL carries a statement out is an argument: `false` is an error of the driver.
pub mod Upsert
pub mod Change
pub mod Gate
pub mod Listing
pub mod Pages
pub mod Remove
mod Tests
use clip_sync_server.Base.{
  ◌&&◌, ◌==◌, ◌>>=◌, Bool, List, Option, Result, Text, [], both_or_neither, count_if, if◌then◌else◌,
  err, false, ltb, map, none, not, ok, same, select, some, true, ℕ, ◌∷◌,
}

pub record Device : Type 0 where
  pub user_id : ℕ
  pub device_id : Text
  pub role : Text
  pub platform : Text
  pub name : Text
  pub last_ip : Text
  pub disabled : Bool
  pub last_seen_at : ℕ
  pub created_at : ℕ

pub data StoreError : Type 0 where
  device_not_found db_failed : StoreError

abbrev pub disabled_of : Option Device → Bool
disabled_of none = false
disabled_of (some d) = d.disabled

module _ (key : Text → Text) where
  -- `user_id = ? AND device_id = ?`.
  abbrev pub is_row : ℕ → Text → Device → Bool
  is_row u device d = d.user_id == u && same (key d.device_id) (key device)

  -- `INSERT … ON DUPLICATE KEY UPDATE` of `UpsertDevice` on the rows.
  unfoldable pub upsert_rows : ℕ → Device → List Device → List Device
  upsert_rows now d [] = record d { disabled = false; last_seen_at = now; created_at = now } ∷ []
  upsert_rows now d (r ∷ rows) =
      if is_row d.user_id d.device_id r
      then record r {
        role = d.role;
        platform = d.platform;
        last_ip = d.last_ip;
        last_seen_at = now;
      }
        ∷ rows
      else r ∷ upsert_rows now d rows

  unfoldable pub upsert_device : Bool → ℕ → Device → List Device → Result StoreError (List Device)
  upsert_device done now d rows = if done then ok (upsert_rows now d rows) else err db_failed

  -- The row that a query by key finds.
  unfoldable pub find_row : ℕ → Text → List Device → Option Device
  find_row u device [] = none
  find_row u device (r ∷ rows) = if is_row u device r then some r else find_row u device rows

  -- No row counts as not disabled.
  unfoldable pub is_device_disabled : Bool → ℕ → Text → List Device → Result StoreError Bool
  is_device_disabled done u device rows =
      if done then ok (disabled_of (find_row u device rows)) else err db_failed

  -- `disabled` and `exists`.
  unfoldable pub get_device_disabled :
      Bool → ℕ → Text → List Device → Result StoreError (Bool × Bool)
  get_device_disabled done u device rows =
      if done
      then elim (find_row u device rows) [
        | none ↦ ok (false, false)
        | some d ↦ ok (d.disabled, true)
      ]
      else err db_failed

  unfoldable pub get_device_name : Bool → ℕ → Text → List Device → Result StoreError Text
  get_device_name done u device rows =
      if done
      then elim (find_row u device rows) [ none ↦ ok [] | some d ↦ ok d.name ]
      else err db_failed

  -- `SELECT COUNT(1) … > 0`.
  unfoldable pub device_exists : Bool → ℕ → Text → List Device → Result StoreError Bool
  device_exists done u device rows =
      if done then ok (ltb 0 (count_if (is_row u device) rows)) else err db_failed

  -- MySQL counts the rows whose values an UPDATE changes.
  abbrev renames : ℕ → Text → Text → Device → Bool
  renames u device name d = is_row u device d && not (same d.name name)

  abbrev pub set_name : ℕ → Text → Text → Device → Device
  set_name u device name d = if is_row u device d then record d { name = name } else d

  -- The check that follows an UPDATE: with no row changed, the device must exist.
  unfoldable pub confirm : Bool → ℕ → ℕ → Text → List Device → Result StoreError (List Device)
  confirm done changed u device new =
      if changed == 0
      then (device_exists done u device new >>= λ exists.
          if not exists then err device_not_found else ok new)
      else ok new

  unfoldable pub update_device_name :
      (done checked : Bool) → ℕ → Text → Text → List Device → Result StoreError (List Device)
  update_device_name done checked u device name rows =
      if done
      then confirm checked (count_if (renames u device name) rows) u device
          (map (set_name u device name) rows)
      else err db_failed

  abbrev pub switches : ℕ → Text → Bool → Device → Bool
  switches u device disabled d = is_row u device d && not (both_or_neither d.disabled disabled)

  abbrev pub set_disabled : ℕ → Text → Bool → Device → Device
  set_disabled u device disabled d =
      if is_row u device d then record d { disabled = disabled } else d

  unfoldable pub update_device_status :
      (done checked : Bool) → ℕ → Text → Bool → List Device → Result StoreError (List Device)
  update_device_status done checked u device disabled rows =
      if done
      then confirm checked (count_if (switches u device disabled) rows) u device
          (map (set_disabled u device disabled) rows)
      else err db_failed

  abbrev pub without : ℕ → Text → List Device → List Device
  without u device rows = select (λ d. not (is_row u device d)) rows

  unfoldable pub delete_device : Bool → ℕ → Text → List Device → Result StoreError (List Device)
  delete_device done u device rows =
      if done
      then (if count_if (is_row u device) rows == 0
          then err device_not_found
          else ok (without u device rows))
      else err db_failed

  unfoldable pub count_devices : Bool → ℕ → List Device → Result StoreError ℕ
  count_devices done u rows =
      if done then ok (count_if (λ d. d.user_id == u) rows) else err db_failed
