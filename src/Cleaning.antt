-- ===== src/Cleaning.antt =====
-- main.go: `sanitizeSmsPayload` and the previews, on code points. The regular expressions are
-- written out: none of them leaves a choice, since each part ends where the next begins. Loops take
-- fuel, for which the length of the text is enough.
pub mod Rounds
pub mod Bounds
pub mod Preview
pub mod Labels
mod Tests
use clip_sync_server.Base.{
  ◌&&◌, ◌==◌, Bool, List, Option, Text, [], any, codes, drop, if◌then◌else◌, false, is_empty,
  length, none, not, same, some, suc, take, zero, ◌||◌, ℕ, ◌∷◌,
}
use clip_sync_server.Text.{cut, has_prefix, is_digit, trim_space}
use clip_sync_server.Hub.Route.{type_notify_pc}

-- `\s` of a regular expression.
abbrev pub is_blank : ℕ → Bool
is_blank c = c == 9 || c == 10 || c == 12 || c == 13 || c == 32

unfoldable pub skip_blanks : Text → Text
skip_blanks [] = []
skip_blanks (c ∷ s) = if is_blank c then skip_blanks s else c ∷ s

-- `【` and `】`.
abbrev pub left_bracket : ℕ
left_bracket = 0x3010

abbrev pub right_bracket : ℕ
right_bracket = 0x3011

abbrev pub ellipsis : ℕ
ellipsis = 0x2026

abbrev pub with_rest : Option (Text × Text) → Option (Text × Text)
with_rest none = none
with_rest (some (content, rest)) = some (content, skip_blanks rest)

abbrev pub opened : Text → Option (Text × Text)
opened [] = none
opened (c ∷ s) = if c == left_bracket then with_rest (cut right_bracket s) else none

-- `reLeadingBracket` at the start of a text: what it holds, and what is left after it.
unfoldable pub leading_bracket : Text → Option (Text × Text)
leading_bracket s = opened (skip_blanks s)

-- `reDigitLike`.
unfoldable pub has_three_digits : Text → Bool
has_three_digits [] = false
has_three_digits (c ∷ s) =
    let rest = has_three_digits s in
    is_digit c && (length (take 2 s) == 2 && not (any (λ d. not (is_digit d)) (take 2 s))) || rest

abbrev pub is_number : Text → Bool
is_number content = has_three_digits (trim_space content)

-- The loop that takes off the leading brackets with numbers in them.
abbrev pub stripped : Text → (Text → Text) → Option (Text × Text) → Text
stripped s again none = s
stripped s again (some (content, rest)) = if is_number content then again rest else s

unfoldable pub strip_numbers : ℕ → Text → Text
strip_numbers zero s = s
strip_numbers (suc n) s = stripped s (strip_numbers n) (leading_bracket s)

-- The pieces of the other expressions: what is left after a match.
abbrev pub expect : (ℕ → Bool) → Text → Option Text
expect p [] = none
expect p (c ∷ s) = if p c then some s else none

unfoldable pub skip_all : (ℕ → Bool) → Text → Text
skip_all p [] = []
skip_all p (c ∷ s) = if p c then skip_all p s else c ∷ s

abbrev pub and_then : Option Text → (Text → Option Text) → Option Text
and_then none f = none
and_then (some s) f = f s

-- `\d+` with blanks on both sides.
unfoldable pub count_in : Text → Option Text
count_in s =
    and_then (expect is_digit (skip_blanks s)) (λ rest. some (skip_blanks (skip_all is_digit rest)))

-- `reMergeCount1` and `reMergeCount2`.
unfoldable pub merge_count1 : Text → Option Text
merge_count1 s = and_then (expect (λ c. c == b'[') s) (λ a.
    and_then (count_in a)
      (λ b. and_then (expect (λ c. c == 0x6761) b) (λ c. expect (λ d. d == b']') (skip_blanks c))))

unfoldable pub merge_count2 : Text → Option Text
merge_count2 s = and_then (expect (λ c. c == b'[') s) (λ a.
    and_then (expect (λ c. c == b'x' || c == b'X') a)
      (λ b. and_then (count_in b) (expect (λ c. c == b']'))))

-- `ReplaceAllString` with nothing, for an expression that never matches the empty text.
abbrev pub removed : ℕ → Text → (Text → Text) → Option Text → Text
removed c s again none = c ∷ again s
removed c s again (some rest) = again rest

unfoldable pub remove_all : (Text → Option Text) → ℕ → Text → Text
remove_all m zero s = s
remove_all m (suc n) [] = []
remove_all m (suc n) (c ∷ s) = removed c s (remove_all m n) (m (c ∷ s))

abbrev pub is_dot : ℕ → Bool
is_dot c = c == b'.'

abbrev pub is_ellipsis : ℕ → Bool
is_ellipsis c = c == ellipsis

-- `reLeadingEllips`.
unfoldable pub skip_ellipsis : Text → Text
skip_ellipsis s =
    let at = skip_blanks s in
    if has_prefix (codes "...") at
    then skip_blanks (skip_all is_dot at)
    else if has_prefix (ellipsis ∷ []) at
    then skip_blanks (skip_all is_ellipsis at)
    else s

-- `clean`.
unfoldable pub clean : Text → Text
clean s =
    let without_numbers = strip_numbers (length s) s in
    let once = remove_all merge_count1 (length without_numbers) without_numbers in
    let twice = remove_all merge_count2 (length once) once in trim_space (skip_ellipsis twice)

-- `rePhoneInside`: what the brackets of a text hold.
abbrev pub block_in : (Text → List Text) → Option (Text × Text) → List Text
block_in again none = []
block_in again (some (content, rest)) = content ∷ again rest

abbrev pub after_left : (Text → List Text) → Option (Text × Text) → List Text
after_left again none = []
after_left again (some (before, rest)) = block_in again (cut right_bracket rest)

unfoldable pub blocks : ℕ → Text → List Text
blocks zero s = []
blocks (suc n) s = after_left (blocks n) (cut left_bracket s)

abbrev pub without_country : Text → Text
without_country s = if has_prefix (codes "86") s then drop 2 s else s

-- The number in a block.
unfoldable pub candidate : Text → Text
candidate content = trim_space (without_country (skip_all (λ c. c == b'+') (trim_space content)))

unfoldable pub first_number : List Text → Text
first_number [] = []
first_number (b ∷ bs) =
    let rest = first_number bs in if has_three_digits (candidate b) then candidate b else rest

unfoldable pub sender_of : Text → Text → Text
sender_of body preview =
    let from_text = first_number (blocks (length body) body) in
    if is_empty from_text then first_number (blocks (length preview) preview) else from_text

-- The fields of a payload that the cleaning reads or writes; one that is not there, or no text, is
-- empty.
pub record PayloadFields : Type 0 where
  pub kind : Text
  pub mime : Text
  pub text : Text
  pub preview : Text
  pub sender : Text

-- `sanitizeSmsPayload` on a payload that is a JSON object.
unfoldable pub sanitize_sms_payload : Text → PayloadFields → PayloadFields
sanitize_sms_payload msg_type p =
    if not (has_prefix (codes "sms") p.kind || same msg_type type_notify_pc)
    then p
    else let sender = sender_of p.text p.preview in
      record p {
        text = clean p.text;
        preview = clean p.preview;
        sender = if is_empty sender then p.sender else sender;
      }
