-- ===== src/Push.antt =====
-- main.go: `pushHandler`, the message over HTTP: its guards, what it fills in, and the forwarding
-- through the hub. encoding/json is a parameter: the body comes decoded.
pub mod Forwarding
mod Tests
use clip_sync_server.Base.{
  ◌&&◌, ◌*◌, Bool, List, Option, Result, Text, codes, if◌then◌else◌, err, is_empty, none, not, ok,
  same, some, ℕ,
}
use clip_sync_server.Auth.Service.{AuthConfig, AuthState, Crypto, authenticate_token}
use clip_sync_server.Auth.Store.{AuthError}
use clip_sync_server.Http.{HttpRequest, bearer_token}
use clip_sync_server.Inbound.{Message}
use clip_sync_server.Hub.Loop.{Outcome}
use clip_sync_server.Cleaning.{PayloadFields, sanitize_sms_payload}
use clip_sync_server.Auth.Redis.{Redis}
use clip_sync_server.Hub.Conn.{World}
use clip_sync_server.Cleaning.Preview.{ensure_preview}
use clip_sync_server.Hub.Route.{push, type_notify_pc}
use clip_sync_server.Hub.Greet.{queued}

-- The body; what is missing is empty. `content` is the field `data`.
pub record PushBody : Type 0 where
  pub type : Text
  pub fields : PayloadFields
  pub content : Text

-- json.Marshal of the payload and of the message around it.
pub record PushCodec : Type 0 where
  pub payload : PayloadFields → Text → List ℕ
  pub message : Message → List ℕ

abbrev pub or_else : Text → Text → Text
or_else given other = if is_empty given then other else given

-- What is filled in where the body says nothing.
unfoldable pub with_defaults : PushBody → PushBody
with_defaults b =
    let type = or_else b.type type_notify_pc in
    record b {
      type = type;
      fields = record b.fields {
        kind =
            if is_empty b.fields.kind && same type type_notify_pc
            then codes "sms_code"
            else b.fields.kind;
        mime = or_else b.fields.mime (codes "text/plain");
      };
    }

-- The message of a body with its defaults: cleaned, and with a preview. `id` is the text that the
-- time is printed as; `limit` is the configured length of a preview.
unfoldable pub push_message : PushCodec → ℕ → ℕ → Text → PushBody → Message
push_message json limit now id b = record {
  id = id;
  type = b.type;
  from = codes "http-push";
  to = codes "*";
  ts = now * 1000;
  payload = json.payload (ensure_preview limit (sanitize_sms_payload b.type b.fields)) b.content;
}

module _ (R : Redis) (key : Text → Text) (crypto : Crypto) (cfg : AuthConfig) (json : PushCodec)
    (require : Bool) (limit : ℕ) where
  pub record PushState : Type 0 where
    pub auth : AuthState R key crypto cfg
    pub world : World

  -- The counters of an answer 200: queued and online.
  abbrev pub forwarded : PushState → Option Outcome → Option (PushState × Result ℕ (ℕ × ℕ))
  forwarded s none = none
  forwarded s (some o) = some (record s { world = o.world }, ok (o.dispatched, o.online))

  abbrev pub push_body :
      ℕ → Text → ℕ → PushState → Option PushBody → Option (PushState × Result ℕ (ℕ × ℕ))
  push_body now id u s none = some (s, err 400)
  push_body now id u s (some b) =
      let b' = with_defaults b in
      forwarded s (push u b'.type (json.message (push_message json limit now id b')) s.world)

  abbrev pub push_as :
      ℕ
      → Text
      → PushState
      → Option PushBody
      → AuthState R key crypto cfg × Result AuthError (ℕ × Text)
      → Option (PushState × Result ℕ (ℕ × ℕ))
  push_as now id s body (auth, err e) = some (record s { auth = auth }, err 401)
  push_as now id s body (auth, ok (u, username)) =
      let s' = record s { auth = auth } in
      if require then some (s', err 403) else push_body now id u s' body

  -- `pushHandler`; `none` is a panic.
  unfoldable pub push_handler :
      ℕ → Text → HttpRequest → Option PushBody → PushState → Option (PushState × Result ℕ (ℕ × ℕ))
  push_handler now id r body s =
      let token = bearer_token r in
      if not r.is_post
      then some (s, err 405)
      else if is_empty token
      then some (s, err 400)
      else push_as now id s body (authenticate_token R key crypto cfg now token s.auth)
