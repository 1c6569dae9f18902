-- ===== src/Push/Forwarding.antt =====
-- main.go: what a push over HTTP may do, and what it does.
use clip_sync_server.Base.{
  ◌&&◌, Bool-cases, Option, Result, Text, if◌then◌else◌, err, false, inl, inr, is_empty, map, ok,
  refl, some, true, ℕ, ◌≡◌, ◌*◌, codes, same,
}
use clip_sync_server.Auth.Service.{AuthConfig, AuthState, Crypto, authenticate_token}
use clip_sync_server.Auth.Store.{AuthError}
use clip_sync_server.Http.{HttpRequest, bearer_token}
use clip_sync_server.Hub.Invariant.{IsValid}
use clip_sync_server.Push.{
  PushBody, PushCodec, PushState, push_as, push_handler, push_message, with_defaults, Message,
}
use clip_sync_server.Auth.Redis.{Redis}
use clip_sync_server.Hub.Steps.{feed}
use clip_sync_server.Hub.Conn.{has_room, is_active, raw}
use clip_sync_server.Hub.Delivery.{is_push_target, push-map}
use clip_sync_server.Hub.Route.{type_notify_pc}
use clip_sync_server.Hub.Loop.{total}
use clip_sync_server.Inbound.{Message}
use clip_sync_server.Cleaning.Preview.{ensure_preview}
use clip_sync_server.Cleaning.{sanitize_sms_payload}

module _ (R : Redis) (key : Text → Text) (crypto : Crypto) (cfg : AuthConfig) (json : PushCodec)
    (limit : ℕ) where
  closed :
      (now : ℕ) (id : Text) (body : Option PushBody)
      (s : PushState R key crypto cfg json true limit)
      (x : AuthState R key crypto cfg × Result AuthError (ℕ × Text))
      → (s' : PushState R key crypto cfg json true limit) × (n : ℕ) × (push_as R key crypto cfg json
            true limit now id s body x
          ≡ some (s', err n))
        × (s'.world ≡ s.world)
  closed now id body s (auth, err e) = (record s { auth = auth }, 401, refl, refl)
  closed now id body s (auth, ok (u, username)) = (record s { auth = auth }, 403, refl, refl)

  -- With the switch `e2ee.require` on, no push over HTTP is forwarded: it is answered with an
  -- error,
  -- and no connection gets anything.
  pub push_handler_closed :
      (now : ℕ) (id : Text) (r : HttpRequest) (body : Option PushBody)
      (s : PushState R key crypto cfg json true limit)
      → (s' : PushState R key crypto cfg json true limit) × (n : ℕ) × (push_handler R key crypto cfg
            json true limit now id r body s
          ≡ some (s', err n))
        × (s'.world ≡ s.world)
  unfolding push_handler bearer_token
  push_handler_closed now id r body s = elim (Bool-cases r.is_post) [
    | inr get ↦ (s, 405, rw get refl, refl)
    | inl post ↦ elim (Bool-cases (is_empty (bearer_token r))) [
      | inl missing ↦ (s, 400, rw (post, missing) refl, refl)
      | inr given ↦
          let (t, n, answer, same_world) =
            closed now id body s
              (authenticate_token R key crypto cfg now (bearer_token r) s.auth) in
          (t, n, rw (post, given) answer, same_world)
    ]
  ]

  -- The message that a push with this body is to become: without a type a notify_pc, which without
  -- a kind is a code, as plain text unless the body says otherwise; cleaned and with a preview.
  abbrev pub pushed : ℕ → Text → PushBody → Message
  pushed now id b =
      let t = if is_empty b.type then type_notify_pc else b.type in
      let kind =
        if is_empty b.fields.kind && same t type_notify_pc
        then codes "sms_code"
        else b.fields.kind in
      let mime = if is_empty b.fields.mime then codes "text/plain" else b.fields.mime in
      record {
        id = id;
        type = t;
        from = codes "http-push";
        to = codes "*";
        ts = now * 1000;
        payload =
            json.payload
              (ensure_preview limit
                (sanitize_sms_payload t (record b.fields { kind = kind; mime = mime })))
              b.content;
      }

  -- A push of a user who is signed in, with the switch off, reaches exactly the user's active
  -- connections of a role that its type is meant for (computers for notify_pc, which is the type
  -- where the body has none, mobile devices for notify_mobile, else all), as far as their queues
  -- have room: each gets the message that is made of the body with its defaults by the cleaning and
  -- then the preview; the answer holds how many do and how many are active; and the server does not
  -- panic.
  pub push_handler_forwards :
      (now u : ℕ) (id username : Text) (r : HttpRequest) (b : PushBody)
      (s : PushState R key crypto cfg json false limit) (auth : AuthState R key crypto cfg)
      → r.is_post ≡ true
      → is_empty (bearer_token r) ≡ false
      → authenticate_token R key crypto cfg now (bearer_token r) s.auth ≡ (auth, ok (u, username))
      → IsValid s.world
      → let m = pushed now id b in
        let frame = raw (json.message m) in
        push_handler R key crypto cfg json false limit now id r (some b) s
        ≡ some (
          record { auth = auth; world = map (feed (is_push_target u m.type) (λ _. frame)) s.world },
          ok (
            total (λ c. if is_push_target u m.type c && has_room c then 1 else 0) s.world,
            total (λ c. if is_active u c then 1 else 0) s.world,
          ),
        )
  unfolding push_handler bearer_token with_defaults push_message
  push_handler_forwards now u id username r b s auth post given known v =
      let b' = with_defaults b in
      rw
        (
          post,
          given,
          known,
          push-map u b'.type (json.message (push_message json limit now id b')) s.world v,
        )
        refl
