-- ===== src/Device/Change.antt =====
-- Renaming and banning a device: an unchanged value is no missing device.
use mathlib.Core.Option
use clip_sync_server.Base.{
  Bool, List, Result, Text, [], any, arith, count_if, if◌then◌else◌, err, ltb, map, ok, refl, true,
  ℕ, ◌∷◌, ◌≡◌, ◌≤◌,
}
use clip_sync_server.Device.{
  Device, StoreError, confirm, device_exists, device_not_found, find_row, is_row, set_disabled,
  set_name, update_device_name, update_device_status,
}

module _ (key : Text → Text) where
  -- The table after a change, if the device is there.
  abbrev pub if_found : ℕ → Text → List Device → List Device → Result StoreError (List Device)
  if_found u device rows new =
      if any (is_row key u device) rows then ok new else err device_not_found

  count-any : (p : Device → Bool) (rows : List Device) → ltb 0 (count_if p rows) ≡ any p rows
  count-any p [] = refl
  count-any p (r ∷ rows) = ground (arith, count-any p rows)

  pub count-le :
      (p q : Device → Bool) (rows : List Device)
      → ((d : Device) → p d ≡ true → q d ≡ true)
      → count_if p rows ≤ count_if q rows
  count-le p q [] h = omega arith
  count-le p q (r ∷ rows) h = ground (arith, h r, count-le p q rows h)

  any-map :
      (p : Device → Bool) (f : Device → Device) (rows : List Device)
      → ((d : Device) → p (f d) ≡ p d)
      → any p (map f rows) ≡ any p rows
  any-map p f [] h = refl
  any-map p f (r ∷ rows) h = rw (h r, any-map p f rows h)

  confirm_found :
      (changed u : ℕ) (device : Text) (rows : List Device) (f : Device → Device)
      → changed ≤ count_if (is_row key u device) rows
      → ((d : Device) → is_row key u device (f d) ≡ is_row key u device d)
      → confirm key true changed u device (map f rows) ≡ if_found u device rows (map f rows)
  unfolding confirm device_exists
  confirm_found changed u device rows f h k = ground (
    arith,
    count-any (is_row key u device) (map f rows),
    count-any (is_row key u device) rows,
    any-map (is_row key u device) f rows k,
  )

  -- If MySQL answers, renaming succeeds exactly if the device is known, also when the new name is
  -- the old one; it sets the name and nothing else.
  pub update_device_name_iff :
      (u : ℕ) (device name : Text) (rows : List Device)
      → update_device_name key true true u device name rows
        ≡ if_found u device rows (map (set_name key u device name) rows)
  unfolding update_device_name
  update_device_name_iff u device name rows =
      confirm_found _ u device rows (set_name key u device name)
        (count-le _ (is_row key u device) rows (λ d h. ground arith)) (λ d. ground arith)

  -- If MySQL answers, banning or unbanning succeeds exactly if the device is known, also when it
  -- changes nothing.
  pub update_device_status_iff :
      (u : ℕ) (device : Text) (disabled : Bool) (rows : List Device)
      → update_device_status key true true u device disabled rows
        ≡ if_found u device rows (map (set_disabled key u device disabled) rows)
  unfolding update_device_status
  update_device_status_iff u device disabled rows =
      confirm_found _ u device rows (set_disabled key u device disabled)
        (count-le _ (is_row key u device) rows (λ d h. ground arith)) (λ d. ground arith)

  -- After a ban the query for the ban finds it, for a device that is known.
  pub find_row-set_disabled :
      (u : ℕ) (device : Text) (disabled : Bool) (rows : List Device)
      → find_row key u device (map (set_disabled key u device disabled) rows)
        ≡ Option.map {A = Device}
            (λ d. record d { disabled = disabled })
            (find_row key u device rows)
  unfolding find_row
  find_row-set_disabled u device disabled [] = refl
  find_row-set_disabled u device disabled (r ∷ rows) =
      ground (arith, find_row-set_disabled u device disabled rows)
