-- ===== src/Admin/Kick.antt =====
-- admin_http.go, main.go: what the commands of the administrator achieve.
use clip_sync_server.Base.{
  ◌<◌, Text, false, is_empty, same, some, true, ◌||◌, ℕ, ◌≡◌, arith, same_iff, All, Bool, List, [],
  ok, ◌∷◌, count_if, map, refl, ap, if◌then◌else◌, Result, err, ltb, not, sym, ◌∙◌,
}
use clip_sync_server.Admin.{
  AdminCommand, Outcomes, Server, act_on_device, action_kick_user, admin_kick, is_device_action,
  run_command, action_delete_device, action_disable_device, action_enable_device,
  action_kick_device, kick_one, set_device_status, update_device_status, kick_device, answer_ban,
  changed_rows,
}
use clip_sync_server.Auth.Service.{AuthConfig, Crypto}
use clip_sync_server.Auth.Redis.{Redis}
use clip_sync_server.Device.{
  db_failed, Device, confirm, device_exists, update_device_status, find_row, is_row, set_disabled,
  switches, StoreError, device_not_found,
}
use clip_sync_server.Hub.Conn.{Client, World}
use clip_sync_server.Device.Gate.{ensure_device_allowed, is_banned, ensure_device_allowed_iff}
use clip_sync_server.Hub.Members.{kick_device, send_kick}
use clip_sync_server.Device.Change.{count-le}
use clip_sync_server.Device.Remove.{reason_device_banned}

module _ (R : Redis) (key : Text → Text) (crypto : Crypto) (cfg : AuthConfig)
    (ids : Text → Text) where
  abbrev St : Type 0
  St = Server R key crypto cfg ids

  -- A command with an action that both sides know and a reason does the same over HTTP as over
  -- Redis, whatever MySQL does.
  pub admin_kick-run_command :
      (o : Outcomes) (now : ℕ) (cmd : AdminCommand) (s : St)
      → 0 < cmd.user_id
      → is_empty cmd.reason ≡ false
      → (is_device_action cmd.action || same cmd.action action_kick_user) ≡ true
      → (admin_kick R key crypto cfg ids o now (some cmd) s).0
        ≡ run_command R key crypto cfg ids o now cmd s
  unfolding admin_kick run_command act_on_device
  admin_kick-run_command o now cmd s p r k = ground (
    arith,
    same_iff cmd.action action_kick_user,
    same_iff cmd.action action_kick_device,
    same_iff cmd.action action_disable_device,
    same_iff cmd.action action_enable_device,
    same_iff cmd.action action_delete_device,
  )

  banned_after :
      (u : ℕ) (device : Text) (disabled : Bool) (rows : List Device)
      → 0 < count_if (is_row ids u device) rows
      → is_banned ids u device (map (set_disabled ids u device disabled) rows) ≡ disabled
  unfolding find_row
  banned_after u device disabled [] h = ground arith
  banned_after u device disabled (r ∷ rows) h = ground (arith, banned_after u device disabled rows)

  count-set_disabled :
      (u : ℕ) (device : Text) (disabled : Bool) (rows : List Device)
      → count_if (is_row ids u device) (map (set_disabled ids u device disabled) rows)
        ≡ count_if (is_row ids u device) rows
  count-set_disabled u device disabled [] = refl
  count-set_disabled u device disabled (r ∷ rows) =
      ground (arith, count-set_disabled u device disabled rows)

  -- An UPDATE of the ban that succeeds finds the device, and leaves it with the ban that was asked
  -- for.
  update_device_status_found :
      (updated checked : Bool) (u : ℕ) (device : Text) (disabled : Bool) (rows rows' : List Device)
      → update_device_status ids updated checked u device disabled rows ≡ ok rows'
      → is_banned ids u device rows' ≡ disabled
  unfolding update_device_status confirm device_exists
  update_device_status_found updated checked u device disabled rows rows' h =
      let is_result : rows' ≡ map (set_disabled ids u device disabled) rows = ground arith in
      let some_changed =
        count-le ids (switches ids u device disabled) (is_row ids u device) rows
          (λ d h. ground arith) in
      let there : 0 < count_if (is_row ids u device) rows =
        ground (arith, some_changed, count-set_disabled u device disabled rows) in
      rw is_result (banned_after u device disabled rows there)

  -- A connection of the device that the hub holds, outside its grace.
  abbrev pub IsConnected : ℕ → Text → Client → Type 0
  IsConnected u device c =
      (c.member ≡ true) × (c.grace ≡ false) × (c.user_id ≡ u) × (c.device_id ≡ device)

  kicked_closed :
      (now u : ℕ) (device reason : Text) (w : World)
      → All
          (λ c. IsConnected u device c → c.conn_open ≡ false)
          (kick_device now u device reason w).0
  unfolding kick_device send_kick
  kicked_closed now u device reason [] = tt
  kicked_closed now u device reason (c ∷ w) = (
    λ (member, ready, owner, is_device).
        ground (arith, member, ready, owner, is_device, same_iff c.device_id device),
    kicked_closed now u device reason w,
  )

  ban_answer :
      (o : Outcomes) (now : ℕ) (cmd : AdminCommand) (s : St)
      → cmd.action ≡ action_disable_device
      → admin_kick R key crypto cfg ids o now (some cmd) s ≡ (
          if not (ltb 0 cmd.user_id) || is_empty cmd.device_id
          then (s, 400)
          else answer_ban R key crypto cfg ids now cmd.user_id cmd.device_id
              (set_device_status R key crypto cfg ids o cmd.user_id cmd.device_id true s))
  unfolding admin_kick act_on_device
  ban_answer o now cmd s a = ground (arith, same_iff cmd.action action_disable_device)

  -- Of all answers to a ban only a successful UPDATE gives 200, and then the device is kicked.
  ban_answer_ok :
      (refused : Bool) (now u : ℕ) (device : Text) (s s' : St)
      (x : St × Result StoreError (Unit {0}))
      → (if refused then (s, 400) else answer_ban R key crypto cfg ids now u device x) ≡ (s', 200)
      → (x.1 ≡ ok tt) × (s' ≡ kick_one R key crypto cfg ids now u device reason_device_banned x.0)
  ban_answer_ok true now u device s s' x h =
      let status : ◌≡◌ {A = ℕ} 400 200 = ap (λ p. p.1) h in absurd (omega arith)
  ban_answer_ok false now u device s s' (t, err device_not_found) h =
      let status : ◌≡◌ {A = ℕ} 404 200 = ap (λ p. p.1) h in absurd (omega arith)
  ban_answer_ok false now u device s s' (t, err db_failed) h =
      let status : ◌≡◌ {A = ℕ} 500 200 = ap (λ p. p.1) h in absurd (omega arith)
  ban_answer_ok false now u device s s' (t, ok done) h = (refl, sym (ap (λ p. p.0) h))

  -- A change that succeeded is in the table, with the connections as they were.
  changed_rows_ok :
      (s : St) (x : Result StoreError (List Device))
      → (changed_rows R key crypto cfg ids s x).1 ≡ ok tt
      → let s' = (changed_rows R key crypto cfg ids s x).0 in
        (x ≡ ok s'.devices.rows) × (s'.devices.world ≡ s.devices.world)
  changed_rows_ok s (err e) h = cc
  changed_rows_ok s (ok rows) h = (refl, refl)

  refused_after :
      (upserted : Bool) (later u : ℕ) (device : Text) (d : Device) (rows : List Device)
      → d.user_id ≡ u
      → d.device_id ≡ device
      → is_banned ids u device rows ≡ true
      → (ensure_device_allowed ids upserted true later d rows).1 ≡ false
  refused_after upserted later u device d rows e i h =
      let same_device : is_banned ids d.user_id d.device_id rows ≡ true = rw (e, i) h in
      (ensure_device_allowed_iff ids upserted true later d rows).0 ∙ ap not same_device

  -- A ban that is answered with 200 has been carried out, on the table and on the connections.
  ban_carried_out :
      (o : Outcomes) (now : ℕ) (cmd : AdminCommand) (s s' : St)
      → cmd.action ≡ action_disable_device
      → admin_kick R key crypto cfg ids o now (some cmd) s ≡ (s', 200)
      → let set = set_device_status R key crypto cfg ids o cmd.user_id cmd.device_id true s in
        (set.1 ≡ ok tt)
        × (s'
            ≡ kick_one R key crypto cfg ids now cmd.user_id cmd.device_id reason_device_banned
                set.0)
  ban_carried_out o now cmd s s' a h =
      ban_answer_ok (not (ltb 0 cmd.user_id) || is_empty cmd.device_id) now cmd.user_id
        cmd.device_id s s'
        (set_device_status R key crypto cfg ids o cmd.user_id cmd.device_id true s)
        (sym (ban_answer o now cmd s a) ∙ h)

  -- The ban is in the table.
  pub banned_row :
      (o : Outcomes) (now : ℕ) (cmd : AdminCommand) (s s' : St)
      → cmd.action ≡ action_disable_device
      → admin_kick R key crypto cfg ids o now (some cmd) s ≡ (s', 200)
      → is_banned ids cmd.user_id cmd.device_id s'.devices.rows ≡ true
  unfolding set_device_status kick_one
  banned_row o now cmd s s' a h =
      let u' = cmd.user_id in
      let device = cmd.device_id in
      let (done, is_result) = ban_carried_out o now cmd s s' a h in
      let set = set_device_status R key crypto cfg ids o u' device true s in
      let stored = update_device_status ids o.updated o.checked u' device true s.devices.rows in
      let (changed, kept) = changed_rows_ok s stored done in
      let ban =
        update_device_status_found o.updated o.checked u' device true s.devices.rows
          set.0.devices.rows changed in
      rw (ap (λ t. t.devices.rows) is_result) ban

  -- A ban over HTTP that is answered with 200 locks the device out: every connection of that user
  -- and device ID that the hub holds, but for the placeholders in their grace, is closed, and every
  -- later handshake of the device is refused, if the query for the ban works.
  pub ban_locks_out :
      (o : Outcomes) (now later : ℕ) (cmd : AdminCommand) (s s' : St) (upserted : Bool) (d : Device)
      → cmd.action ≡ action_disable_device
      → d.user_id ≡ cmd.user_id
      → d.device_id ≡ cmd.device_id
      → admin_kick R key crypto cfg ids o now (some cmd) s ≡ (s', 200)
      → All (λ c. IsConnected cmd.user_id cmd.device_id c → c.conn_open ≡ false) s'.devices.world
        × ((ensure_device_allowed ids upserted true later d s'.devices.rows).1 ≡ false)
  unfolding kick_one
  ban_locks_out o now later cmd s s' upserted d a u i h =
      let u' = cmd.user_id in
      let device = cmd.device_id in
      let set = set_device_status R key crypto cfg ids o u' device true s in
      let (done, is_result) = ban_carried_out o now cmd s s' a h in
      (
        rw (ap (λ t. t.devices.world) is_result)
            (kicked_closed now u' device reason_device_banned set.0.devices.world),
        refused_after upserted later u' device d s'.devices.rows u i
            (banned_row o now cmd s s' a h),
      )
