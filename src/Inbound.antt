-- ===== src/Inbound.antt =====
-- e2ee.go and main.go (`readPump`): what becomes of a frame that a client sends. encoding/json is a
-- parameter, and so is `sanitize`, for `sanitizeSmsPayload`.
pub mod Gate
pub mod Content
use clip_sync_server.Base.{
  ◌&&◌, ◌==◌, Bool, List, Option, Result, Text, codes, if◌then◌else◌, err, false, is_empty, none,
  not, ok, same, some, true, ◌||◌, ℕ,
}
use clip_sync_server.Hub.Conn.{Client, World}
use clip_sync_server.Hub.Route.{answer_ping, route, type_notify_pc, type_presence}
use clip_sync_server.Auth.Redis.{text}
use clip_sync_server.Hub.Presence.{world_of}
mod Tests

-- `v` and `iter` are read from JSON; a negative number is none that is compared with here.
pub record EncEnvelope : Type 0 where
  pub v : ℕ
  pub alg : Text
  pub salt : Text
  pub iv : Text
  pub ct : Text
  pub fp : Text

pub record Message : Type 0 where
  pub id : Text
  pub type : Text
  pub from : Text
  pub to : Text
  pub ts : ℕ
  pub payload : List ℕ

-- `message` is `json.Unmarshal` into a `Message`; `envelope` that of a payload, for the field
-- `enc`,
-- `some none` if it is not there; `marshal` is `json.Marshal`, which compacts the payload and
-- escapes characters of HTML in it.
pub record Codec : Type 0 where
  pub message : List ℕ → Option Message
  pub envelope : List ℕ → Option (Option EncEnvelope)
  pub marshal : Message → List ℕ
  pub sanitize : Text → List ℕ → List ℕ

pub data EncError : Type 0 where
  plaintext_rejected bad_envelope : EncError

abbrev pub enc_version : ℕ
enc_version = 1

abbrev pub enc_alg : Text
enc_alg = codes "AES-256-GCM"

abbrev pub type_ping : Text
type_ping = codes "ping"

abbrev pub type_pong : Text
type_pong = codes "pong"

-- The checks on an envelope.
unfoldable pub check_envelope : EncEnvelope → Result EncError (Option EncEnvelope)
check_envelope e =
    if not (e.v == enc_version) || not (same e.alg enc_alg)
    then err bad_envelope
    else if is_empty e.iv || is_empty e.ct || is_empty e.salt
    then err bad_envelope
    else ok (some e)

-- What happens to one frame. `relays` holds the message that is forwarded and whether it is
-- encrypted.
pub data Handling : Type 0 where
  ignores pongs : Handling
  rejects : EncError → Handling
  relays : Message → Bool → Handling

module _ (json : Codec) where
  unfoldable pub parse_envelope : List ℕ → Result EncError (Option EncEnvelope)
  parse_envelope payload = elim (json.envelope payload) [
    | none ↦ ok none
    | some none ↦ ok none
    | some (some e) ↦ check_envelope e
  ]

  -- `checkEncryption`, with the switch `e2ee.require`.
  unfoldable pub check_encryption : Bool → List ℕ → Result EncError Bool
  check_encryption require payload = elim (parse_envelope payload) [
    | err e ↦ err e
    | ok (some e) ↦ ok true
    | ok none ↦ if require then err plaintext_rejected else ok false
  ]

  -- The time and the sender are filled in: `from` is never what the client wrote.
  abbrev pub stamped : ℕ → Client → Message → Message
  stamped now c msg = record msg { ts = if msg.ts == 0 then now else msg.ts; from = c.device_id }

  -- Only plain text is cleaned.
  abbrev pub cleaned : Bool → Message → Message
  cleaned encrypted msg =
      if encrypted then msg else record msg { payload = json.sanitize msg.type msg.payload }

  abbrev pub screened : Message → Result EncError Bool → Handling
  screened msg (err e) = rejects e
  screened msg (ok encrypted) = relays (cleaned encrypted msg) encrypted

  -- The body of the loop of `readPump`, up to the call of `route`.
  unfoldable pub handle : Bool → ℕ → Client → List ℕ → Handling
  handle require now c bytes = elim (json.message bytes) [
    | none ↦ ignores
    | some msg ↦
        if same msg.type type_pong || same msg.type type_presence
        then ignores
        else if same msg.type type_ping
        then pongs
        else screened (stamped now c msg) (check_encryption require msg.payload)
  ]

  -- What the frame does to the connections; `none` is a panic.
  unfoldable pub deliver : ℕ → Client → Handling → World → Option World
  deliver now c ignores w = some w
  deliver now c pongs w = answer_ping now c.id w
  deliver now c (rejects e) w = some w
  deliver now c (relays msg encrypted) w = world_of (route c msg.type (json.marshal msg) w)

  -- The message handed to `cacheSMSCipherForUser`.
  unfoldable pub cached_sms : Handling → Option Message
  cached_sms (relays msg encrypted) =
      if encrypted && same msg.type type_notify_pc then some msg else none
  cached_sms _ = none

  -- One round of the loop of `readPump` with a frame that has been read.
  unfoldable pub read_frame : Bool → ℕ → Client → List ℕ → World → Option World
  read_frame require now c bytes w = deliver now c (handle require now c bytes) w
