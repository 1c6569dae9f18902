-- ===== src/Inbound/Content.antt =====
-- main.go: `readPump` with the cleaning of plain text and the cache of short messages behind it.
-- What encoding/json reads of a payload and writes back into it are parameters.
pub mod Kept
use clip_sync_server.Base.{
  Bool, List, Option, Text, codes, if◌then◌else◌, none, same, some, ◌||◌, ℕ,
}
use clip_sync_server.Sms.{CachedSms, PublicApiConfig}
use clip_sync_server.Hub.Conn.{Client, World}
use clip_sync_server.Inbound.{Codec, Message, cached_sms, handle, read_frame}
use clip_sync_server.Cleaning.{PayloadFields, sanitize_sms_payload}
use clip_sync_server.SmsCache.{SortedSets, cache_sms_cipher_for_user}
use clip_sync_server.Text.{has_prefix}
use clip_sync_server.Hub.Route.{type_notify_pc}

-- `fields` reads a payload, none if it is no JSON object; `rewrite` writes the text, the preview
-- and the sender into it.
pub record Payloads : Type 0 where
  pub fields : List ℕ → Option PayloadFields
  pub rewrite : List ℕ → PayloadFields → List ℕ

abbrev is_sms : Text → PayloadFields → Bool
is_sms msg_type p = has_prefix (codes "sms") p.kind || same msg_type type_notify_pc

abbrev rewritten : Payloads → Text → List ℕ → Option PayloadFields → List ℕ
rewritten json msg_type payload none = payload
rewritten json msg_type payload (some p) =
    if is_sms msg_type p then json.rewrite payload (sanitize_sms_payload msg_type p) else payload

-- `sanitizeSmsPayload` on the bytes of a payload.
unfoldable pub sanitize_payload : Payloads → Text → List ℕ → List ℕ
sanitize_payload json msg_type payload = rewritten json msg_type payload (json.fields payload)

-- What a frame may change: the connections, and the cache of short messages.
module _ (Z : SortedSets) (json : Codec) (encode : CachedSms → Option Text)
    (meta : List ℕ → Text × Text) (cfg : PublicApiConfig) where
  open Z use {State}

  abbrev pub cached_after : ℕ → Client → Option Message → State → State
  cached_after now c none s = s
  cached_after now c (some msg) s =
      cache_sms_cipher_for_user Z encode meta cfg c.user_id c.device_id now msg s

  abbrev received : State → Option World → Option (World × State)
  received s none = none
  received s (some w) = some (w, s)

  -- One round of the loop of `readPump`, whole; `none` is a panic.
  unfoldable pub receive_frame : Bool → ℕ → Client → List ℕ → World → State → Option (World × State)
  receive_frame require now c bytes w s =
      received (cached_after now c (cached_sms json (handle json require now c bytes)) s)
        (read_frame json require now c bytes w)
