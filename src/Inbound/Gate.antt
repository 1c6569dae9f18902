-- ===== src/Inbound/Gate.antt =====
-- e2ee.go, `readPump`: what the gate lets through.
use clip_sync_server.Base.{
  ◌&&◌, All, Bool, List, Option-cases, arith, false, inl, inr, is_empty, not, ok, same, some, true,
  ◌||◌, ℕ, ◌≡◌, ap, refl, same_iff, ◌∙◌,
}
use clip_sync_server.Hub.Conn.{Client, World}
use clip_sync_server.Inbound.{
  Codec, EncEnvelope, Message, cached_sms, check_encryption, check_envelope, enc_alg, enc_version,
  handle, parse_envelope, read_frame, relays, type_ping, type_pong, Handling, cleaned, deliver,
  ignores, pongs, rejects, stamped,
}
use clip_sync_server.Hub.Reach.{IsOpen, Succeeds, act, pings, routes}
use clip_sync_server.Hub.Invariant.{IsValid}
use clip_sync_server.Hub.Route.{type_notify_pc, type_presence}
use clip_sync_server.Hub.Safety.{act-Succeeds}

-- An envelope of the known version and algorithm with nothing missing.
abbrev pub IsSealed : EncEnvelope → Type 0
IsSealed e =
    (e.v ≡ enc_version)
    × ((same e.alg enc_alg && not (is_empty e.iv || is_empty e.ct || is_empty e.salt)) ≡ true)

module _ (json : Codec) where
  -- A payload that passes as encrypted has a complete envelope.
  check_encryption-IsSealed :
      (require : Bool) (payload : List ℕ)
      → check_encryption json require payload ≡ ok true
      → (e : EncEnvelope) × (json.envelope payload ≡ some (some e)) × IsSealed e
  unfolding check_encryption parse_envelope check_envelope
  check_encryption-IsSealed require payload h = elim (Option-cases (json.envelope payload)) [
    | inl miss ↦ ground arith
    | inr (inner, read) ↦ elim (Option-cases inner) [
      | inl bare ↦ ground arith
      | inr (e, sealed) ↦ (e, ground arith, ground arith)
    ]
  ]

  -- With the switch on, nothing passes as plain text.
  check_encryption_required :
      (payload : List ℕ) (encrypted : Bool)
      → check_encryption json true payload ≡ ok encrypted
      → encrypted ≡ true
  unfolding check_encryption
  check_encryption_required payload encrypted h = ground arith

  -- The message that a relayed one was made of.
  record IsRelayed (require : Bool) (now : ℕ) (c : Client) (out : Message) (encrypted : Bool)
      (msg : Message) : Type 0 where
    passed : check_encryption json require msg.payload ≡ ok encrypted
    made : out ≡ cleaned json encrypted (stamped json now c msg)
    ordinary :
        (same msg.type type_ping || same msg.type type_pong || same msg.type type_presence) ≡ false

  handle-IsRelayed :
      (require : Bool) (now : ℕ) (c : Client) (bytes : List ℕ) (out : Message) (encrypted : Bool)
      → handle json require now c bytes ≡ relays out encrypted
      → (msg : Message) × IsRelayed require now c out encrypted msg
  unfolding handle
  handle-IsRelayed require now c bytes out encrypted h = elim (Option-cases (json.message bytes)) [
    | inl none_read ↦ ground arith
    | inr (msg, got) ↦
        (msg, record { passed = ground arith; made = ground arith; ordinary = ground arith })
  ]

  -- With `e2ee.require` on, whatever a client sends, a frame that is relayed is marked encrypted
  -- and carries a complete envelope of the known version and algorithm.
  pub handle-IsSealed :
      (now : ℕ) (c : Client) (bytes : List ℕ) (out : Message) (encrypted : Bool)
      → handle json true now c bytes ≡ relays out encrypted
      → (e : EncEnvelope) × (json.envelope out.payload ≡ some (some e))
        × IsSealed e
        × (encrypted ≡ true)
  handle-IsSealed now c bytes out encrypted h =
      let (msg, r) = handle-IsRelayed true now c bytes out encrypted h in
      let on = check_encryption_required msg.payload encrypted r.passed in
      let (e, there, sealed) = check_encryption-IsSealed true msg.payload (r.passed ∙ ap ok on) in
      (e, ground (arith, r.made), sealed, on)

  -- A relayed message bears the device ID of the connection that it came on, and is no ping, pong
  -- or presence list.
  pub handle_genuine :
      (require : Bool) (now : ℕ) (c : Client) (bytes : List ℕ) (out : Message) (encrypted : Bool)
      → handle json require now c bytes ≡ relays out encrypted
      → (out.from ≡ c.device_id)
        × ((same out.type type_ping || same out.type type_pong || same out.type type_presence)
            ≡ false)
  handle_genuine require now c bytes out encrypted h =
      let (msg, r) = handle-IsRelayed require now c bytes out encrypted h in
      ground (arith, r.made, r.ordinary)

  cached_sms_relays :
      (handled : Handling) (msg : Message)
      → cached_sms json handled ≡ some msg
      → (handled ≡ relays msg true) × (msg.type ≡ type_notify_pc)
  unfolding cached_sms
  cached_sms_relays (relays out encrypted) msg h = ground (arith, same_iff out.type type_notify_pc)
  cached_sms_relays ignores msg h = ground arith
  cached_sms_relays pongs msg h = ground arith
  cached_sms_relays (rejects e) msg h = ground arith

  -- A message is handed to the cache of short messages only if it is for computers and has a
  -- complete envelope of the known version and algorithm.
  pub cached_sms-IsSealed :
      (require : Bool) (now : ℕ) (c : Client) (bytes : List ℕ) (msg : Message)
      → cached_sms json (handle json require now c bytes) ≡ some msg
      → (msg.type ≡ type_notify_pc)
        × (e : EncEnvelope) × (json.envelope msg.payload ≡ some (some e))
        × IsSealed e
  cached_sms-IsSealed require now c bytes msg h =
      let handled = handle json require now c bytes in
      let relayed = cached_sms_relays handled msg h in
      let (raw_msg, r) = handle-IsRelayed require now c bytes msg true relayed.0 in
      let (e, there, sealed) = check_encryption-IsSealed require raw_msg.payload r.passed in
      (relayed.1, e, ground (arith, r.made), sealed)

  deliver-Succeeds :
      (now : ℕ) (c : Client) (handled : Handling) (w : World)
      → IsValid w
      → All (IsOpen c.id) w
      → Succeeds (deliver json now c handled w)
  unfolding deliver
  deliver-Succeeds now c ignores w v o = (w, refl, v)
  deliver-Succeeds now c (rejects e) w v o = (w, refl, v)
  deliver-Succeeds now c pongs w v o = unfold act in act-Succeeds (pings now c.id) w v o
  deliver-Succeeds now c (relays msg encrypted) w v o =
      unfold act in act-Succeeds (routes c msg.type (json.marshal msg)) w v tt

  -- In a valid world, a frame of a connection that has not been unregistered never makes the
  -- server panic.
  pub read_frame-Succeeds :
      (require : Bool) (now : ℕ) (c : Client) (bytes : List ℕ) (w : World)
      → IsValid w
      → All (IsOpen c.id) w
      → Succeeds (read_frame json require now c bytes w)
  unfolding read_frame
  read_frame-Succeeds require now c bytes w v o =
      deliver-Succeeds now c (handle json require now c bytes) w v o
