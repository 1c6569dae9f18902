-- ===== src/Device/Gate.antt =====
-- auth_service.go: `EnsureDeviceAllowed`, the check of a device at the handshake.
use clip_sync_server.Base.{◌&&◌, Bool, List, Result, Text, err, not, ok, true, ℕ, ◌≡◌, arith}
use clip_sync_server.Device.{
  Device, StoreError, find_row, is_device_disabled, upsert_device, disabled_of,
}
use clip_sync_server.Device.Upsert.{find_row-upsert_rows}

module _ (key : Text → Text) where
  abbrev kept_or {ℓ} : {A : Type ℓ} → A → Result StoreError A → A
  kept_or old (ok new) = new
  kept_or old (err e) = old

  abbrev may_pass : Result StoreError Bool → Bool
  may_pass (ok disabled) = not disabled
  may_pass (err e) = true

  -- The table afterwards, and whether the connection may be upgraded. Neither a failed INSERT nor
  -- a failed query stops the connection.
  unfoldable pub ensure_device_allowed :
      (upserted queried : Bool) → ℕ → Device → List Device → List Device × Bool
  ensure_device_allowed upserted queried now d rows =
      let rows' = kept_or rows (upsert_device key upserted now d rows) in
      (rows', may_pass (is_device_disabled key queried d.user_id d.device_id rows'))

  -- The ban of a device, `false` if it is unknown.
  abbrev pub is_banned : ℕ → Text → List Device → Bool
  is_banned u device rows = disabled_of (find_row key u device rows)

  -- A handshake is refused exactly if the device was banned and the query for the ban works; and
  -- whatever MySQL does, a handshake neither lifts nor sets a ban.
  pub ensure_device_allowed_iff :
      (upserted queried : Bool) (now : ℕ) (d : Device) (rows : List Device)
      → let (rows', allowed) = ensure_device_allowed upserted queried now d rows in
        (allowed ≡ not (queried && is_banned d.user_id d.device_id rows))
        × (is_banned d.user_id d.device_id rows' ≡ is_banned d.user_id d.device_id rows)
  unfolding ensure_device_allowed upsert_device is_device_disabled
  ensure_device_allowed_iff upserted queried now d rows =
      ground (arith, find_row-upsert_rows key now d rows)
