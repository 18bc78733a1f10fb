-- ===== src/Smtp/Server/Reply.antt =====
-- internal/smtp/reply.go: the server's replies and their form on the wire.
use mailx.Base.{
  ℕ, ◌+◌, ◌/◌, ◌%◌, Bool, true, false, Option, none, some, List, [], ◌∷◌, ◌++◌, ◌&&◌, ◌||◌, not,
  leb, ltb, ◌==◌, if◌then◌else◌, length,
}
use mailx.Base.Text.{Text, codes, is_empty, contains_any, split}

abbrev pub other_success : Text
other_success = codes "2.0.0"

abbrev pub sender_accepted : Text
sender_accepted = codes "2.1.0"

abbrev pub recipient_accepted : Text
recipient_accepted = codes "2.1.5"

abbrev pub message_accepted : Text
message_accepted = codes "2.6.0"

abbrev pub temporary_system : Text
temporary_system = codes "4.3.0"

abbrev pub too_many_recipients : Text
too_many_recipients = codes "4.5.3"

abbrev pub invalid_command : Text
invalid_command = codes "5.5.1"

abbrev pub syntax_error : Text
syntax_error = codes "5.5.2"

abbrev pub invalid_arguments : Text
invalid_arguments = codes "5.5.4"

abbrev pub message_too_large : Text
message_too_large = codes "5.3.4"

abbrev pub message_content_error : Text
message_content_error = codes "5.6.0"

-- `reply`
pub record Response : Type 0 where
  pub code : ℕ
  pub enhanced : Text
  pub lines : List Text

-- `standardReply`
abbrev pub standard_reply : ℕ → Text → Response
standard_reply code message = record { code = code; enhanced = []; lines = message ∷ [] }

-- `multilineReply`
abbrev pub multiline_reply : ℕ → List Text → Response
multiline_reply code lines = record { code = code; enhanced = []; lines = lines }

-- `enhancedReply`
abbrev pub enhanced_reply : ℕ → Text → Text → Response
enhanced_reply code status message = record { code = code; enhanced = status; lines = message ∷ [] }

unfoldable pub all_digits : Text → Bool
all_digits [] = true
all_digits (c ∷ s) = leb b'0' c && leb c b'9' && all_digits s

unfoldable pub leading_zero : Text → Bool
leading_zero [] = false
leading_zero (c ∷ s) = not (is_empty s) && c == b'0'

-- One part of a status.
unfoldable pub is_status_part : Text → Bool
unfolding is_empty all_digits leading_zero
is_status_part part =
    not (is_empty part) && leb (length part) 3 && not (leading_zero part) && all_digits part

unfoldable pub is_status : ℕ → List Text → Bool
unfolding is_status_part
is_status code ((class ∷ []) ∷ subject ∷ detail ∷ []) =
    is_status_part (class ∷ [])
    && is_status_part subject
    && is_status_part detail
    && class == code / 100 + b'0'
    && (class == b'2' || class == b'4' || class == b'5')
is_status code _ = false

-- `validateEnhancedStatus`; true is a nil error.
unfoldable pub validate_enhanced_status : ℕ → Text → Bool
unfolding is_status split is_empty
validate_enhanced_status code status = is_empty status || is_status code (split b'.' status)

-- `strconv.Itoa`, of three digits.
abbrev pub three_digits : ℕ → Text
three_digits code = (code / 100 + b'0') ∷ (code / 10 % 10 + b'0') ∷ (code % 10 + b'0') ∷ []

-- The status and a space, where there is a status.
unfoldable pub status_text : Text → Text
status_text [] = []
status_text (c ∷ s) = (c ∷ s) ++ 32 ∷ []

unfoldable pub wire_line : ℕ → Text → Text → Text → Text
unfolding status_text
wire_line separator code status line =
    code ++ separator ∷ (status_text status ++ (line ++ 13 ∷ 10 ∷ []))

unfoldable pub is_reply_text : Text → Bool
unfolding is_empty contains_any
is_reply_text line = not (is_empty line) && not (contains_any line (13 ∷ 10 ∷ []))

abbrev before : Text → Option Text → Option Text
before s none = none
before s (some t) = some (s ++ t)

-- The loop of `wire`.
unfoldable pub wire_lines : Text → Text → List Text → Option Text
unfolding wire_line is_reply_text
wire_lines code status [] = some []
wire_lines code status (line ∷ []) =
    if is_reply_text line then some (wire_line 32 code status line) else none
wire_lines code status (line ∷ next ∷ more) =
    let rest = wire_lines code status (next ∷ more) in
    if is_reply_text line then before (wire_line b'-' code status line) rest else none

abbrev has_lines : List Text → Bool
has_lines [] = false
has_lines (l ∷ ls) = true

-- `reply.wire`; `none` is an error.
unfoldable pub wire : Response → Option Text
unfolding validate_enhanced_status wire_lines
wire r =
    if ltb r.code 200 || ltb 599 r.code
    then none
    else if not (has_lines r.lines)
    then none
    else if not (validate_enhanced_status r.code r.enhanced)
    then none
    else wire_lines (three_digits r.code) r.enhanced r.lines
