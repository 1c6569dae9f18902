-- ===== src/Device/Upsert.antt =====
-- What a login or a handshake does to the row of a device.
use clip_sync_server.Device.{Device, find_row, is_row, upsert_rows}
use clip_sync_server.Base.{
  List, Option, Text, [], arith, false, none, same_iff, same_refl, some, ℕ, ◌∷◌, ◌≡◌,
}

module _ (key : Text → Text) where
  -- The row that a first handshake makes.
  abbrev pub first_row : ℕ → Device → Device
  first_row now d = record d { disabled = false; last_seen_at = now; created_at = now }

  -- An old row after another handshake: its name, its ban and its birth stay.
  abbrev pub seen_again : ℕ → Device → Device → Device
  seen_again now d r = record r {
    role = d.role;
    platform = d.platform;
    last_ip = d.last_ip;
    last_seen_at = now;
  }

  abbrev pub row_after : ℕ → Device → Option Device → Device
  row_after now d none = first_row now d
  row_after now d (some r) = seen_again now d r

  -- A handshake makes a row for a new device, and for a known one changes its role, platform,
  -- address and last sight only: not the name that was set for it, and not its ban.
  pub find_row-upsert_rows :
      (now : ℕ) (d : Device) (rows : List Device)
      → find_row key d.user_id d.device_id (upsert_rows key now d rows)
        ≡ some (row_after now d (find_row key d.user_id d.device_id rows))
  unfolding find_row upsert_rows
  find_row-upsert_rows now d [] = ground (arith, same_refl (key d.device_id))
  find_row-upsert_rows now d (r ∷ rows) = ground (arith, find_row-upsert_rows now d rows)

  -- No other device's row is touched.
  pub find_row-upsert_rows_other :
      (now u : ℕ) (device : Text) (d : Device) (rows : List Device)
      → is_row key u device d ≡ false
      → find_row key u device (upsert_rows key now d rows) ≡ find_row key u device rows
  unfolding find_row upsert_rows
  find_row-upsert_rows_other now u device d [] h = rw h
  find_row-upsert_rows_other now u device d (r ∷ rows) h = ground (
    arith,
    find_row-upsert_rows_other now u device d rows h,
    same_iff (key r.device_id) (key d.device_id),
    same_iff (key r.device_id) (key device),
    same_iff (key d.device_id) (key device),
  )
