-- ===== src/Handshake/Admission/Grounds.antt =====
-- main.go: on what grounds `wsHandler` lets a connection in, and on what grounds it refuses one.
use clip_sync_server.Base.{
  ◌&&◌, ◌<◌, Bool-cases, Result, Text, ap, arith, err, false, inl, inr, is_empty, ok, refl, same,
  same_refl, subst, sym, true, ◌||◌, ℕ, ◌≡◌,
}
use clip_sync_server.Auth.Service.{AuthConfig, AuthState, Crypto, authenticate_token}
use clip_sync_server.Auth.Store.{AuthError}
use clip_sync_server.Hub.Conn.{Client, role_mobile, role_pc}
use clip_sync_server.Handshake.Admission.{
  Entrance, WsOutcomes, WsRequest, admit, check_device, check_token, device_row, name_or,
  new_client, normalize_role, queue_size, Refusal, missing_parameter,
}
use clip_sync_server.Hub.Steps.{IsFresh}
use clip_sync_server.Auth.Redis.{Redis}
use clip_sync_server.Device.Gate.{ensure_device_allowed, ensure_device_allowed_iff, is_banned}
use clip_sync_server.Device.{get_device_name}
use clip_sync_server.Text.{trim_space}

normalize_role_routable :
    (role : Text)
    → (same (normalize_role role) role_pc || same (normalize_role role) role_mobile) ≡ true
unfolding normalize_role
normalize_role_routable role = ground (arith, same_refl role_pc, same_refl role_mobile)

queue_size_positive : (n : ℕ) → 0 < queue_size n
unfolding queue_size
queue_size_positive n = ground arith

module _ (R : Redis) (key : Text → Text) (crypto : Crypto) (cfg : AuthConfig) (ids : Text → Text)
    (queue : ℕ) where
  abbrev At : Type 0
  At = Entrance R key crypto cfg ids queue

  -- What holds of a connection that has been let in.
  pub record IsAdmitted (o : WsOutcomes) (now : ℕ) (q : WsRequest) (s : At) (c : Client)
      : Type 0 where
    pub owned :
        (name : Text) × ((authenticate_token R key crypto cfg now q.token s.auth).1
          ≡ ok (c.user_id, name))
    pub permitted : (o.queried && is_banned ids c.user_id q.device s.rows) ≡ false
    pub of_device : c.device_id ≡ q.device
    pub routable : (same c.role role_pc || same c.role role_mobile) ≡ true
    pub has_queue : 0 < c.capacity
    pub fresh : IsFresh c

  -- The connection that the check of the device lets in.
  device_admitted :
      (o : WsOutcomes) (now id u : ℕ) (q : WsRequest) (s : At) (c : Client)
      → (check_device R key crypto cfg ids queue o now id q u s).1 ≡ ok c
      → ((o.queried && is_banned ids u q.device s.rows) ≡ false)
        × ((name : Text) × (c ≡ new_client now id (queue_size queue) u name q))
  device_admitted o now id u q s c h =
      let device = device_row now u q in
      let checked = ensure_device_allowed_iff ids o.upserted o.queried now device s.rows in
      let rows = (ensure_device_allowed ids o.upserted o.queried now device s.rows).0 in
      (
        ground (arith, checked.0),
        (
          name_or (trim_space q.name) (get_device_name ids o.named u q.device rows),
          ground (arith, checked.0),
        ),
      )

  -- Why a request of the user `u` is let in.
  IsAdmitted-of :
      (o : WsOutcomes) (now id u : ℕ) (q : WsRequest) (s : At) (c : Client) (name username : Text)
      → (authenticate_token R key crypto cfg now q.token s.auth).1 ≡ ok (u, username)
      → (o.queried && is_banned ids u q.device s.rows) ≡ false
      → c ≡ new_client now id (queue_size queue) u name q
      → IsAdmitted o now q s c
  IsAdmitted-of o now id u q s c name username owned free built =
      subst (IsAdmitted o now q s) (sym built) (record {
        owned = (username, owned);
        permitted = free;
        of_device = refl;
        routable = normalize_role_routable q.role;
        has_queue = queue_size_positive queue;
        fresh = record {
          open_channel = refl;
          not_replaced = refl;
          not_grace = refl;
          no_timer = refl;
          outside = refl;
        };
      })

  token-IsAdmitted :
      (o : WsOutcomes) (now id : ℕ) (q : WsRequest) (s : At) (c : Client)
      (r : AuthState R key crypto cfg × Result AuthError (ℕ × Text))
      → authenticate_token R key crypto cfg now q.token s.auth ≡ r
      → (check_token R key crypto cfg ids queue o now id q s.rows r).1 ≡ ok c
      → IsAdmitted o now q s c
  token-IsAdmitted o now id q s c (auth, err e) is_result h = ground arith
  token-IsAdmitted o now id q s c (auth, ok (u, username)) is_result h =
      let (free, (name, built)) =
        device_admitted o now id u q (record { auth = auth; rows = s.rows }) c h in
      IsAdmitted-of o now id u q s c name username (ap (λ p. p.1) is_result) free built

  -- A connection that is let in belongs to the user of the token that it showed, its device is not
  -- banned if the query for the ban works, its role is one that messages are routed by, its queue
  -- has room, and it is as the hub wants a new connection.
  pub admit-IsAdmitted :
      (o : WsOutcomes) (now id : ℕ) (q : WsRequest) (s s' : At) (c : Client)
      → admit R key crypto cfg ids queue o now id q s ≡ (s', ok c)
      → IsAdmitted o now q s c
  unfolding admit
  admit-IsAdmitted o now id q s s' c h = elim (Bool-cases (is_empty q.token || is_empty q.device)) [
    | inl y ↦
        let wrong : ◌≡◌ {A = Result Refusal Client} (err missing_parameter) (ok c) =
          ap (λ p. p.1) (rw y at h) in
        ground (arith, wrong)
    | inr n ↦
        token-IsAdmitted o now id q s c (authenticate_token R key crypto cfg now q.token s.auth)
          refl (ap (λ p. p.1) (rw n at h))
  ]
