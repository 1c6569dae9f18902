-- ===== src/Cleaning/Preview.antt =====
-- main.go: the preview of a message (`previewLimit`, `truncatePreview`, `ensurePreview`,
-- `extractPayloadMeta`) and its category (`categorize`, `contentTypeOf`), on payloads that are JSON
-- objects.
use clip_sync_server.Base.{
  ◌+◌, ◌++◌, Text, [], arith, codes, if◌then◌else◌, false, is_empty, leb, length, length-append,
  ltb, not, same, suc, take, zero, ◌||◌, ℕ, ◌∷◌, ◌≡◌, ◌≤◌, refl,
}
use clip_sync_server.Cleaning.{PayloadFields, ellipsis}
use clip_sync_server.Text.{has_prefix}
use clip_sync_server.Hub.Route.{type_clipboard}

unfoldable pub preview_limit : ℕ → ℕ
preview_limit configured = if ltb 0 configured then configured else 40

unfoldable pub truncate_preview : ℕ → Text → Text
truncate_preview configured s =
    let limit = preview_limit configured in
    if leb (length s) limit then s else take limit s ++ ellipsis ∷ []

unfoldable pub ensure_preview : ℕ → PayloadFields → PayloadFields
ensure_preview configured p =
    if not (is_empty p.preview) || is_empty p.text
    then p
    else record p { preview = truncate_preview configured p.text }

-- The kind, the MIME type and the preview for the log.
unfoldable pub extract_payload_meta : ℕ → PayloadFields → Text × Text × Text
extract_payload_meta configured p = (
  if is_empty p.kind then codes "-" else p.kind,
  p.mime,
  if not (is_empty p.preview)
      then p.preview
      else if not (is_empty p.text)
      then truncate_preview configured p.text
      else if not (is_empty p.kind)
      then b'[' ∷ p.kind ++ b']' ∷ []
      else b'(' ∷ 0x7a7a ∷ b')' ∷ [],
)

abbrev pub category_sms : Text
category_sms = codes "sms"

abbrev pub category_clipboard : Text
category_clipboard = codes "clipboard"

abbrev pub category_notification : Text
category_notification = codes "notification"

unfoldable pub categorize : Text → Text → Text
categorize msg_type kind =
    if has_prefix (codes "sms") kind
    then category_sms
    else if same msg_type type_clipboard
        || same kind (codes "text")
        || same kind (codes "image")
        || same kind (codes "share")
    then category_clipboard
    else category_notification

unfoldable pub content_type_of : Text → Text → Text
content_type_of kind mime =
    if same kind (codes "image") || has_prefix (codes "image/") mime
    then codes "image"
    else codes "text"

length-take : (n : ℕ) (s : Text) → length (take n s) ≤ n
length-take zero s = omega arith
length-take (suc n) [] = omega arith
length-take (suc n) (c ∷ s) = omega (arith, length-take n s)

-- A preview has at most the characters that are set and the ellipsis.
pub length-truncate_preview :
    (configured : ℕ) (s : Text)
    → length (truncate_preview configured s) ≤ preview_limit configured + 1
unfolding truncate_preview
length-truncate_preview configured s =
    let limit = preview_limit configured in
    ground (arith, length-append (take limit s) (ellipsis ∷ []), length-take limit s)

snoc_given : (s : Text) (c : ℕ) → is_empty (s ++ c ∷ []) ≡ false
snoc_given [] c = refl
snoc_given (d ∷ s) c = refl

truncated_given :
    (configured : ℕ) (s : Text)
    → is_empty s ≡ false
    → is_empty (truncate_preview configured s) ≡ false
unfolding truncate_preview preview_limit
truncated_given configured [] h = ground arith
truncated_given configured (c ∷ s) h =
    ground (arith, snoc_given (take (preview_limit configured) (c ∷ s)) ellipsis)

-- Filling in the preview changes nothing in what is read of the payload for the log.
pub extract_payload_meta-ensure_preview :
    (configured : ℕ) (p : PayloadFields)
    → extract_payload_meta configured (ensure_preview configured p)
      ≡ extract_payload_meta configured p
unfolding extract_payload_meta ensure_preview
extract_payload_meta-ensure_preview configured p = ground (arith, truncated_given configured p.text)
