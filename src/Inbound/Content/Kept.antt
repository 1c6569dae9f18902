-- ===== src/Inbound/Content/Kept.antt =====
-- main.go: what a relayed message keeps of the one that was sent.
-- The codec of `readPump` with the cleaning of main.go.
use clip_sync_server.Base.{
  Bool, List, Option-cases, arith, if◌then◌else◌, inl, inr, none, some, ℕ, ◌≡◌, ◌*◌, ◌+◌, ◌/◌, ◌<◌,
  All, Option, Text, refl, same, true, ◌∷◌, false, ◌||◌, ◌==◌, ap,
}
use clip_sync_server.Hub.Conn.{Client, World}
use clip_sync_server.Inbound.{
  Codec, Message, handle, relays, cleaned, stamped, cached_sms, type_ping, type_pong,
}
use clip_sync_server.Inbound.Content.{Payloads, sanitize_payload, receive_frame, SortedSets}
use clip_sync_server.Hub.Reach.{IsOpen}
use clip_sync_server.Sms.{
  ApiKey, CachedSms, PublicApiConfig, SmsQuery, SmsState, answered, matches_sms, open_api_query_sms,
  or_default, sms_filter,
}
use clip_sync_server.SmsCache.Answer.{IsPermitted, is_cached, cached_then_answered}
use clip_sync_server.Hub.Invariant.{IsValid}
use clip_sync_server.SmsCache.{
  SortedSets, cache_sms_cipher_for_user, drop_old, recent_sms, sms_of, window,
}
use clip_sync_server.Limit.{minute, second}
use clip_sync_server.Hub.Route.{type_notify_pc, type_presence}
use clip_sync_server.Inbound.Gate.{read_frame-Succeeds, handle_genuine}

abbrev pub cleaning : Codec → Payloads → Codec
cleaning json payloads = record json { sanitize = sanitize_payload payloads }

sanitize_payload_raw :
    (payloads : Payloads) (msg_type : Text) (payload : List ℕ)
    → payloads.fields payload ≡ none
    → sanitize_payload payloads msg_type payload ≡ payload
unfolding sanitize_payload
sanitize_payload_raw payloads msg_type payload h = rw h refl

module _ (json : Codec) (payloads : Payloads) where
  -- A message that is relayed is, before json.Marshal, the one that was sent with only the sender,
  -- a missing time and, for plain text, the payload changed: a payload that passes as encrypted is
  -- handed on as it came, and one in plain text is what the cleaning makes of it, which leaves it
  -- alone if it is no JSON object; a time that the client gave stays, and only zero is replaced by
  -- the server's; the sender is the device of the connection whatever the client wrote; and it is
  -- no ping, pong or presence list.
  pub handle_payload :
      (require : Bool) (now : ℕ) (c : Client) (bytes : List ℕ) (out : Message) (encrypted : Bool)
      → handle (cleaning json payloads) require now c bytes ≡ relays out encrypted
      → (msg : Message) × (json.message bytes ≡ some msg)
        × (out.id ≡ msg.id)
        × (out.type ≡ msg.type)
        × (out.to ≡ msg.to)
        × (out.ts ≡ (if msg.ts == 0 then now else msg.ts))
        × (out.payload
            ≡ (if encrypted then msg.payload else sanitize_payload payloads msg.type msg.payload))
        × (payloads.fields msg.payload ≡ none → out.payload ≡ msg.payload)
        × (out.from ≡ c.device_id)
        × ((same out.type type_ping || same out.type type_pong || same out.type type_presence)
            ≡ false)
  unfolding handle
  handle_payload require now c bytes out encrypted h = elim (Option-cases (json.message bytes)) [
    | inl none_read ↦ ground arith
    | inr (msg, got) ↦
        let from_device_of =
          handle_genuine (cleaning json payloads) require now c bytes out encrypted h in
        let made : out ≡ cleaned (cleaning json payloads) encrypted (stamped json now c msg) =
          ground arith in
        (
          msg,
          got,
          ground arith,
          ground arith,
          ground arith,
          ground arith,
          ground arith,
          λ bare. ground (arith, sanitize_payload_raw payloads msg.type msg.payload bare),
          from_device_of.0,
          from_device_of.1,
        )
  ]

module _ (Z : SortedSets) (json : Codec) (payloads : Payloads) (encode : CachedSms → Option Text)
    (decode : Text → Option CachedSms) (compact : List ℕ → List ℕ) (meta : List ℕ → Text × Text)
    (sha256 : Text → Text) (cfg : PublicApiConfig) where
  open Z use {State, view, exec}

  -- What is read back of a message that was written for the cache: json.Marshal compacts a payload
  -- that is raw JSON and escapes characters of HTML in it.
  abbrev pub read_back : Text → ℕ → Message → CachedSms
  read_back from_device now out =
      let sms = sms_of Z meta from_device now out in record sms { payload = compact sms.payload }

  -- A frame of an open connection in a valid world is relayed without a panic; if it is a sealed
  -- short message for computers and the server caches it, with older messages only before it, and
  -- encoding/json reads it back as it was written but for the form of its payload, which is then
  -- `compact` of it, then within the time that messages are kept a query of a live key of that user
  -- that asks for it gets it as the first answer, from the device of the connection and with
  -- `compact` of the payload that was sent, if Redis works and MySQL finds the key.
  pub sent_then_answered :
      (require : Bool) (now clock : ℕ) (c : Client) (bytes : List ℕ) (out : Message) (body : Text)
      (q : SmsQuery) (k : ApiKey) (w : World) (s : State) (st : SmsState)
      → IsValid w
      → All (IsOpen c.id) w
      → handle (cleaning json payloads) require now c bytes ≡ relays out true
      → same out.type type_notify_pc ≡ true
      → IsPermitted sha256 cfg clock q st k
      → k.user_id ≡ c.user_id
      → encode (sms_of Z meta c.device_id now out) ≡ some body
      → decode body ≡ some (read_back c.device_id now out)
      → All (λ d. d.score < now) (view c.user_id s)
      → is_cached Z encode decode meta sha256 cfg c.user_id c.device_id now out s ≡ true
      → clock / second < now + window (or_default cfg.cache_ttl (10 * minute))
      → let s' = cache_sms_cipher_for_user Z encode meta cfg c.user_id c.device_id now out s in
        (exec s'
            (drop_old Z c.user_id (clock / second) (or_default cfg.cache_ttl (10 * minute)) s')).1
          ≡ true
        → matches_sms (sms_filter k q) (read_back c.device_id now out) ≡ true
        → (msg : Message) × (w' : World) × (sms : CachedSms) × (rest : List CachedSms)
          × (json.message bytes ≡ some msg)
          × (receive_frame Z (cleaning json payloads) encode meta cfg require now c bytes w s
              ≡ some (w', s'))
          × ((open_api_query_sms true sha256
                (recent_sms Z decode (clock / second) s')
                cfg
                clock
                q
                st).1
              ≡ answered k.device_id (sms ∷ rest))
          × (sms.payload ≡ compact msg.payload)
          × (sms.from_device ≡ c.device_id)
  unfolding receive_frame
  sent_then_answered require now clock c bytes out body q k w s st v o relayed for_pc permitted
        owner is_body back older written soon done asked =
      let codec = cleaning json payloads in
      let (msg, got, id, type, to, ts, payload, bare, from, ordinary) =
        handle_payload json payloads require now c bytes out true relayed in
      let (w', frame, valid) = read_frame-Succeeds codec require now c bytes w v o in
      let goes_in : cached_sms codec (handle codec require now c bytes) ≡ some out =
        rw relayed (unfold cached_sms in rw for_pc refl) in
      let (rest, answer) =
        cached_then_answered Z encode decode meta sha256 cfg c.user_id now clock c.device_id body
          out (read_back c.device_id now out) q k s st permitted owner is_body back older written
          soon done asked in
      (
        msg,
        w',
        read_back c.device_id now out,
        rest,
        got,
        rw (frame, goes_in) refl,
        answer,
        unfold sms_of in ap compact payload,
        unfold sms_of in refl,
      )
