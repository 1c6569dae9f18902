-- ===== src/SmsCache/Tests/Sent.antt =====
-- main.go, store_sms_cache.go: a phone sends a short message, and a key of its user asks for it.
use clip_sync_server.SmsCache.Tests.Ordered.{Sets}
use clip_sync_server.SmsCache.Tests.{
  empty, message, meta, public_api, api_key, ask, unhashed, before, encode, decode, permitted,
  window_open, asked_for, cached_now, codes, cache_sms_cipher_for_user, Message, is_space,
}
use clip_sync_server.SmsCache.Tests.Ordered.{sets}
use clip_sync_server.Sms.{CachedSms, answered, open_api_query_sms}
use clip_sync_server.Hub.Conn.{Client, World, role_mobile}
use clip_sync_server.Inbound.{
  Codec, EncEnvelope, Message, check_encryption, check_envelope, enc_alg, handle, parse_envelope,
  relays, type_ping, type_pong,
}
use clip_sync_server.Hub.Invariant.{IsValid}
use clip_sync_server.Base.{
  List, [], codes, if◌then◌else◌, false, none, refl, same, same_refl, some, true, ◌∷◌, ◌≡◌, ◌||◌,
  ◌==◌, not, select, ℕ,
}
use clip_sync_server.Inbound.Content.{Payloads, receive_frame, sanitize_payload}
use clip_sync_server.SmsCache.{cache_sms_cipher_for_user, recent_sms, sms_of}
use clip_sync_server.Inbound.Content.Kept.{cleaning, handle_payload, sent_then_answered, read_back}
use clip_sync_server.Hub.Route.{type_notify_pc, type_presence}
use clip_sync_server.Text.{trim_left, trim_right, trim_space, is_space}

abbrev envelope : EncEnvelope
envelope = record {
  v = 1;
  alg = enc_alg;
  salt = codes "s";
  iv = codes "i";
  ct = codes "c";
  fp = [];
}

abbrev json : Codec
json = record {
  message = λ bytes. some message;
  envelope = λ payload. some (some envelope);
  marshal = λ msg. msg.payload;
  sanitize = λ type payload. payload;
}

abbrev payloads : Payloads
payloads = record { fields = λ payload. none; rewrite = λ payload p. payload }

abbrev phone : Client
phone = record {
  id = 1;
  token = [];
  device_id = codes "mobile-1";
  role = role_mobile;
  ip = [];
  send = [];
  capacity = 2;
  send_closed = false;
  user_id = 7;
  online_at = 5;
  platform = [];
  name = [];
  caps = [];
  replaced = false;
  grace = false;
  timer = false;
  conn_open = true;
  written = [];
  member = true;
}

IsValid-phone : IsValid (phone ∷ [])
IsValid-phone = record {
  sound = (record { open_channel = refl; replaced_left = refl; timed = refl }, tt);
  apart = (tt, tt);
}

is_relayed : handle (cleaning json payloads) true 1000 phone [] ≡ relays message true
unfolding handle check_encryption parse_envelope check_envelope same
is_relayed = refl

handle_payload_example :
    (msg : Message) × (json.message [] ≡ some msg)
    × (message.id ≡ msg.id)
    × (message.type ≡ msg.type)
    × (message.to ≡ msg.to)
    × (message.ts ≡ (if msg.ts == 0 then 1000 else msg.ts))
    × (message.payload
        ≡ (if true then msg.payload else sanitize_payload payloads msg.type msg.payload))
    × (payloads.fields msg.payload ≡ none → message.payload ≡ msg.payload)
    × (message.from ≡ phone.device_id)
    × ((same message.type type_ping
          || same message.type type_pong
          || same message.type type_presence)
        ≡ false)
handle_payload_example = handle_payload json payloads true 1000 phone [] message true is_relayed

abbrev after : Sets
after =
    cache_sms_cipher_for_user sets encode meta public_api 7 (codes "mobile-1") 1000 message empty

-- json.Marshal leaves out the spaces.
abbrev compact : List ℕ → List ℕ
compact payload = select (λ b. not (b == 32)) payload

reads_back :
    decode (codes "json")
    ≡ some (
        read_back sets json payloads encode decode compact meta unhashed public_api
          (codes "mobile-1")
          1000
          message)
unfolding sms_of trim_space trim_left trim_right is_space
reads_back = refl

sent_then_answered_example :
    (msg : Message) × (w' : World) × (sms : CachedSms) × (rest : List CachedSms) × (json.message []
      ≡ some msg)
    × (receive_frame sets
          (cleaning json payloads)
          encode
          meta
          public_api
          true
          1000
          phone
          []
          (phone ∷ [])
          empty
        ≡ some (w', after))
    × ((open_api_query_sms true unhashed
          (recent_sms sets decode 1000 after)
          public_api
          1000500000000
          ask
          before).1
        ≡ answered (codes "mobile-1") (sms ∷ rest))
    × (sms.payload ≡ compact msg.payload)
    × (sms.from_device ≡ codes "mobile-1")
unfolding sms_of
sent_then_answered_example =
    sent_then_answered sets json payloads encode decode compact meta unhashed public_api true 1000
      1000500000000 phone [] message (codes "json") ask api_key (phone ∷ []) empty before
      IsValid-phone ((λ e. refl), tt) is_relayed (same_refl type_notify_pc) permitted refl refl
      reads_back tt cached_now window_open refl asked_for
