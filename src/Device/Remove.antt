-- ===== src/Device/Remove.antt =====
-- admin_http.go: `deleteDeviceSafely`.
use clip_sync_server.Base.{
  Bool, List, Result, Text, codes, if◌then◌else◌, err, not, ok, ℕ, ◌<◌, [], arith, count_if, false,
  none, refl, some, true, ◌∷◌, ◌≡◌, ◌≢◌, ◌⊎◌,
}
use clip_sync_server.Device.{
  Device, StoreError, db_failed, delete_device, device_not_found, get_device_disabled, find_row,
  is_row, without,
}
use clip_sync_server.Hub.Conn.{World}
use clip_sync_server.Hub.Members.{kick_device}

pub data DeleteError : Type 0 where
  device_not_disabled : DeleteError
  store_failed : StoreError → DeleteError

-- The state that the deletion touches: the table and the live connections.
pub record DeviceState : Type 0 where
  pub rows : List Device
  pub world : World

abbrev pub reason_device_banned : Text
reason_device_banned = codes "device_banned"

module _ (key : Text → Text) where
  -- `ErrDeviceNotFound` is no error here.
  abbrev deleted :
      DeviceState → Result StoreError (List Device) → DeviceState × Result DeleteError (Unit {0})
  deleted s (ok rows) = (record s { rows = rows }, ok tt)
  deleted s (err device_not_found) = (s, ok tt)
  deleted s (err db_failed) = (s, err (store_failed db_failed))

  unfoldable pub remove_banned :
      Bool → ℕ → ℕ → Text → DeviceState → DeviceState × Result DeleteError (Unit {0})
  remove_banned done now u device s =
      deleted (record s { world = (kick_device now u device reason_device_banned s.world).0 })
        (delete_device key done u device s.rows)

  unfoldable pub delete_device_safely :
      (queried done : Bool)
      → ℕ
      → ℕ
      → Text
      → DeviceState
      → DeviceState × Result DeleteError (Unit {0})
  delete_device_safely queried done now u device s =
      elim (get_device_disabled key queried u device s.rows) [
        | err e ↦ (s, err (store_failed e))
        | ok (disabled, exists) ↦
            if not exists
            then (s, ok tt)
            else if not disabled
            then (s, err device_not_disabled)
            else remove_banned done now u device s
      ]

  find_row-without :
      (u : ℕ) (device : Text) (rows : List Device)
      → find_row key u device (without key u device rows) ≡ none
  unfolding find_row
  find_row-without u device [] = refl
  find_row-without u device (r ∷ rows) = ground (arith, find_row-without u device rows)

  find_row-count :
      (u : ℕ) (device : Text) (rows : List Device)
      → find_row key u device rows ≢ none
      → 0 < count_if (is_row key u device) rows
  unfolding find_row
  find_row-count u device [] h = absurd (h refl)
  find_row-count u device (r ∷ rows) h = ground (arith, find_row-count u device rows)

  -- A device that is not banned is never deleted: the call is refused, with the table and the
  -- connections as they were. A device that is not there is no error, and nothing changes.
  delete_device_safely_refuses :
      (done : Bool) (now u : ℕ) (device : Text) (s : DeviceState) (d : Device)
      → find_row key u device s.rows ≡ some d
      → d.disabled ≡ false
      → delete_device_safely true done now u device s ≡ (s, err device_not_disabled)
  unfolding delete_device_safely get_device_disabled
  delete_device_safely_refuses done now u device s d e h = ground arith

  -- When the deletion reports success, the device has no row left; when it reports an error, the
  -- table is as it was.
  pub delete_device_safely_result :
      (queried done : Bool) (now u : ℕ) (device : Text) (s : DeviceState)
      → let (s', r) = delete_device_safely queried done now u device s in
        ((r ≡ ok tt) × (find_row key u device s'.rows ≡ none)) ⊎ ((r ≢ ok tt) × (s'.rows ≡ s.rows))
  unfolding delete_device_safely get_device_disabled remove_banned delete_device
  delete_device_safely_result queried done now u device s =
      ground (arith, find_row-without u device s.rows, find_row-count u device s.rows)
