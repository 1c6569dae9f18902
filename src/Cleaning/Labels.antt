-- ===== src/Cleaning/Labels.antt =====
-- main.go, e2ee.go: what the log shows of messages, devices and tokens. A slice of a text is over
-- ASCII.
use clip_sync_server.Base.{
  ◌++◌, ◌<◌, Option, Text, [], arith, codes, if◌then◌else◌, is_empty, length, ltb, none, refl, same,
  some, take, ◌∷◌, ◌≡◌,
}
use clip_sync_server.Inbound.{EncEnvelope}
use clip_sync_server.Cleaning.Preview.{category_clipboard, category_notification, category_sms}
use clip_sync_server.Cleaning.{ellipsis}
use clip_sync_server.Hub.Conn.{role_mobile, role_pc}
use clip_sync_server.Hub.Route.{
  target_role_for_type, type_clipboard, type_notify_all, type_notify_mobile, type_notify_pc,
}

unfoldable pub short_id : Text → Text
short_id id = if ltb 8 (length id) then take 8 id else id

unfoldable pub short_token : Text → Text
short_token t = if ltb 6 (length t) then take 6 t ++ ellipsis ∷ [] else t

unfoldable pub push_target_label : Text → Text
push_target_label msg_type =
    let role = target_role_for_type msg_type in
    if same role role_pc
    then codes "→PC"
    else if same role role_mobile
    then codes "→Mobile"
    else if same role (codes "*")
    then codes "→All"
    else codes "→?"

unfoldable pub zh_category : Text → Text
zh_category c =
    if same c category_sms
    then codes "短信"
    else if same c category_clipboard
    then codes "剪切板"
    else if same c category_notification
    then codes "通知"
    else c

unfoldable pub zh_content : Text → Text
zh_content c =
    if same c (codes "text") then codes "文字" else if same c (codes "image") then codes "图片" else c

unfoldable pub zh_push : Text → Text
zh_push t =
    if same t type_notify_pc
    then codes "推送至PC"
    else if same t type_notify_mobile
    then codes "推送至移动"
    else if same t type_notify_all
    then codes "广播"
    else if same t type_clipboard
    then codes "剪贴板广播"
    else t

abbrev pub encrypted_label : Text
encrypted_label = codes "🔒 加密消息"

abbrev preview_of : Text → Text
preview_of fp =
    if is_empty fp
    then encrypted_label
    else encrypted_label ++ (codes " (key=" ++ (fp ++ codes ")"))

unfoldable pub enc_preview : Option EncEnvelope → Text
enc_preview none = encrypted_label
enc_preview (some e) = preview_of (if ltb 8 (length e.fp) then take 8 e.fp else e.fp)

-- Of an envelope the log shows the start of the fingerprint and nothing else.
enc_preview_hides : (e f : EncEnvelope) → e.fp ≡ f.fp → enc_preview (some e) ≡ enc_preview (some f)
unfolding enc_preview
enc_preview_hides e f h = rw h refl

-- Two long tokens that begin alike look alike.
short_token_hides :
    (s t : Text) → 6 < length s → 6 < length t → take 6 s ≡ take 6 t → short_token s ≡ short_token t
unfolding short_token
short_token_hides s t h k e = ground arith

sealed_test : encrypted_label ≡ 0x1f512 ∷ b' ' ∷ codes "加密消息"
sealed_test = refl
