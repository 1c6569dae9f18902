-- ===== src/Inbound/Tests.antt =====
-- e2ee.go, `readPump`: tests, and the theorems at a sealed short message.
use clip_sync_server.Hub.Conn.{Client, role_mobile}
use clip_sync_server.Inbound.{
  Codec, EncEnvelope, Message, cached_sms, check_encryption, check_envelope, enc_alg, handle,
  parse_envelope, relays,
}
use clip_sync_server.Inbound.Gate.{IsSealed, handle-IsSealed}
use clip_sync_server.Hub.Invariant.{IsValid}
use clip_sync_server.Base.{[], codes, false, refl, same, some, true, ◌∷◌, ◌≡◌}
use clip_sync_server.Hub.Route.{type_notify_pc}

abbrev sealed_sms : EncEnvelope
sealed_sms = record {
  v = 1;
  alg = enc_alg;
  salt = codes "s";
  iv = codes "i";
  ct = codes "c";
  fp = [];
}

-- The one frame that is read.
abbrev sms : Message
sms = record {
  id = codes "m1";
  type = type_notify_pc;
  from = codes "someone";
  to = [];
  ts = 4;
  payload = 1 ∷ [];
}

abbrev one_codec : Codec
one_codec = record {
  message = λ bytes. some sms;
  envelope = λ payload. some (some sealed_sms);
  marshal = λ msg. msg.payload;
  sanitize = λ type payload. payload;
}

abbrev phone : Client
phone = record {
  id = 1;
  token = [];
  device_id = codes "mobile-1";
  role = role_mobile;
  ip = [];
  send = [];
  capacity = 2;
  send_closed = false;
  user_id = 7;
  online_at = 5;
  platform = [];
  name = [];
  caps = [];
  replaced = false;
  grace = false;
  timer = false;
  conn_open = true;
  written = [];
  member = true;
}

abbrev out : Message
out = record sms { from = codes "mobile-1" }

handle_test : handle one_codec true 9 phone [] ≡ relays out true
unfolding handle check_encryption parse_envelope check_envelope same
handle_test = refl

cached_test : cached_sms one_codec (handle one_codec true 9 phone []) ≡ some out
unfolding handle check_encryption parse_envelope check_envelope same cached_sms
cached_test = refl

IsValid-phone : IsValid (phone ∷ [])
IsValid-phone = record {
  sound = (record { open_channel = refl; replaced_left = refl; timed = refl }, tt);
  apart = (tt, tt);
}

handle-IsSealed_example :
    (e : EncEnvelope) × (one_codec.envelope out.payload ≡ some (some e))
    × IsSealed e
    × (true ≡ true)
handle-IsSealed_example = handle-IsSealed one_codec 9 phone [] out true handle_test
