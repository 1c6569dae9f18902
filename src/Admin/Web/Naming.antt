-- ===== src/Admin/Web/Naming.antt =====
-- admin_http.go, device_name_http.go: what a device is called once it has been renamed.
use clip_sync_server.Base.{
  ◌&&◌, All, Bool, Text, [], arith, map, same, true, ℕ, ◌∷◌, ◌≡◌, Bool-cases, List, any, false, inl,
  inr, is_empty, length, ltb, ok, refl, some, ◌≤◌,
}
use clip_sync_server.Auth.Service.{AuthConfig, Crypto}
use clip_sync_server.Hub.Conn.{Client, Frame, World, in_group, is_active}
use clip_sync_server.Auth.Redis.{Redis}
use clip_sync_server.Admin.{Server, Outcomes, Device}
use clip_sync_server.Hub.Steps.{feed, feed-IsValid, rename-IsValid}
use clip_sync_server.Hub.Members.{rename_one, rename_device}
use clip_sync_server.Device.{Device, find_row, is_row, set_name, update_device_name}
use clip_sync_server.Hub.Invariant.{IsValid}
use clip_sync_server.Hub.Broadcast.{announced, broadcast_presence-map}
use clip_sync_server.Hub.Presence.{group, presence_for}
use clip_sync_server.Admin.Web.{handle_rename_device, rename}
use clip_sync_server.Text.{trim_space}
use clip_sync_server.Device.Change.{update_device_name_iff}

module _ (R : Redis) (key : Text → Text) (crypto : Crypto) (cfg : AuthConfig)
    (ids : Text → Text) where
  abbrev St : Type 0
  St = Server R key crypto cfg ids

  -- The member is called so, if it is one of the device.
  abbrev pub IsCalled : ℕ → Text → Text → Client → Type 0
  IsCalled u device name c = (in_group u c && same c.device_id device) ≡ true → c.name ≡ name

  named_members :
      (u : ℕ) (device name : Text) (w : World)
      → All (IsCalled u device name) (map (rename_one u device name) w)
  unfolding rename_one
  named_members u device name [] = tt
  named_members u device name (c ∷ w) = (ground arith, named_members u device name w)

  feed_keeps_names :
      (u : ℕ) (device name : Text) (p : Client → Bool) (f : Client → Frame) (w : World)
      → All (IsCalled u device name) w
      → All (IsCalled u device name) (map (feed p f) w)
  feed_keeps_names u device name p f [] h = tt
  feed_keeps_names u device name p f (c ∷ w) (h, hs) =
      (ground (arith, h), feed_keeps_names u device name p f w hs)

  named_row :
      (u : ℕ) (device name : Text) (rows : List Device)
      → any (is_row ids u device) rows ≡ true
      → (d : Device) × (find_row ids u device (map (set_name ids u device name) rows) ≡ some d)
        × (d.name ≡ name)
  unfolding find_row
  named_row u device name [] h = ground arith
  named_row u device name (r ∷ rows) h = elim (Bool-cases (is_row ids u device r)) [
    | inl y ↦ (record r { name = name }, rw y (rw y refl), refl)
    | inr n ↦
        let (d, found, called) = named_row u device name rows (rw n at h) in
        (d, rw n (rw n found), called)
  ]

  -- What a rename achieves: the name is in the table and on every connection of the device, and the
  -- hub is as it must be.
  pub record IsNamed (u : ℕ) (device name : Text) (s : St) : Type 0 where
    pub stored : (d : Device) × (find_row ids u device s.devices.rows ≡ some d) × (d.name ≡ name)
    pub shown : All (IsCalled u device name) s.devices.world
    pub valid : IsValid s.devices.world

  rename-IsNamed :
      (o : Outcomes) (now u : ℕ) (device name : Text) (s : St)
      → o.updated ≡ true
      → o.checked ≡ true
      → any (is_row ids u device) s.devices.rows ≡ true
      → IsValid s.devices.world
      → (s' : St) × (rename R key crypto cfg ids o now u device name s ≡ some (s', 200))
        × IsNamed u device name s'
  unfolding rename rename_device
  rename-IsNamed o now u device name s updated checked known v =
      let w = map (rename_one u device name) s.devices.world in
      let rows = map (set_name ids u device name) s.devices.rows in
      let valid = rename-IsValid u device name s.devices.world v in
      let w' = map (announced now u (group u w)) w in
      let s' : St = record s { devices = record { rows = rows; world = w' } } in
      let done : update_device_name ids o.updated o.checked u device name s.devices.rows ≡ ok rows =
        rw (updated, checked, update_device_name_iff ids u device name s.devices.rows, known)
          refl in
      (
        s',
        rw (done, broadcast_presence-map now u w valid) refl,
        record {
          stored = named_row u device name s.devices.rows known;
          shown =
              feed_keeps_names u device name (is_active u) (λ c. presence_for now (group u w) c.id)
                w (named_members u device name s.devices.world);
          valid = feed-IsValid (is_active u) (λ c. presence_for now (group u w) c.id) w valid;
        },
      )

  -- Renaming a device that is known, with a name of at most 32 characters, succeeds if MySQL
  -- answers: the name without the space around it is in the table and on every connection of the
  -- device, nothing panics, and the hub keeps its invariant.
  pub handle_rename_device-IsNamed :
      (o : Outcomes) (now u : ℕ) (device name : Text) (s : St)
      → o.updated ≡ true
      → o.checked ≡ true
      → is_empty (trim_space device) ≡ false
      → length (trim_space name) ≤ 32
      → any (is_row ids u (trim_space device)) s.devices.rows ≡ true
      → IsValid s.devices.world
      → (s' : St) × (handle_rename_device R key crypto cfg ids o now u (some (device, name)) s
          ≡ some (s', 200))
        × IsNamed u (trim_space device) (trim_space name) s'
  unfolding handle_rename_device
  handle_rename_device-IsNamed o now u device name s updated checked given short known v =
      let (s', done, named) =
        rename-IsNamed o now u (trim_space device) (trim_space name) s updated checked known v in
      let in_bound : ltb 32 (length (trim_space name)) ≡ false = ground arith in
      (s', rw (given, in_bound) done, named)
