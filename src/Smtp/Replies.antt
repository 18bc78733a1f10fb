-- ===== src/Smtp/Replies.antt =====
-- internal/smtp/client_reply.go: how the client reads a reply. The connection is the list of bytes
-- that are still to come; `none` is an error.
pub mod RoundTrip
use mailx.Base.{
  ℕ, zero, suc, ◌+◌, ◌-◌, ◌*◌, ◌/◌, Bool, true, false, Option, none, some, List, [], ◌∷◌, ◌++◌,
  ◌&&◌, ◌||◌, not, leb, ltb, ◌==◌, if◌then◌else◌, length,
}
use mailx.Base.Text.{Text, is_empty, cut, split}
use mailx.Smtp.Data.{ends_crlf}
use mailx.Smtp.Server.Reader.{drop_crlf}
use mailx.Smtp.Server.Reply.{all_digits}

-- The loop of `readBoundedLine`, with what it has read and how many bytes it may still read.
unfoldable pub read_bounded_line_from : ℕ → Text → Text → Option (Text × Text)
unfolding ends_crlf drop_crlf
read_bounded_line_from zero line s = none
read_bounded_line_from (suc left) line [] = none
read_bounded_line_from (suc left) line (c ∷ s) =
    let line' = line ++ c ∷ [] in
    let more = read_bounded_line_from left line' s in
    if c == 10 then (if ends_crlf line' then some (drop_crlf line', s) else none) else more

-- `readBoundedLine`
unfoldable pub read_bounded_line : ℕ → Text → Option (Text × Text)
unfolding read_bounded_line_from
read_bounded_line max s = read_bounded_line_from max [] s

abbrev is_digit : ℕ → Bool
is_digit c = leb b'0' c && leb c b'9'

-- A line of a reply: its code, whether more lines follow, and its text.
pub record ReplyLine : Type 0 where
  pub code : ℕ
  pub continues : Bool
  pub text : Text

-- What follows the code.
after_code : ℕ → Text → Option ReplyLine
after_code code [] = some (record { code = code; continues = false; text = [] })
after_code code (separator ∷ text) =
    if separator == 32 || separator == b'-'
    then some (record { code = code; continues = separator == b'-'; text = text })
    else none

-- `parseReplyLine`
unfoldable pub parse_reply_line : Text → Option ReplyLine
unfolding after_code
parse_reply_line (a ∷ b ∷ c ∷ rest) =
    let code = (a - b'0') * 100 + (b - b'0') * 10 + (c - b'0') in
    if not (is_digit a && is_digit b && is_digit c)
    then none
    else if ltb code 100 || ltb 599 code
    then none
    else after_code code rest
parse_reply_line _ = none

abbrev all_parts : List Text → Bool
all_parts [] = true
all_parts (p ∷ ps) = not (is_empty p) && leb (length p) 3 && all_digits p && all_parts ps

abbrev first_char : Text → ℕ
first_char [] = 0
first_char (c ∷ s) = c

-- The first word, if it is a status of the code's class, and what follows it.
status_of : ℕ → Text → (head rest : Text) → Text × Text
unfolding split is_empty all_digits
status_of code text head rest =
    let parts = split b'.' head in
    if not (length parts == 3)
      || not (all_parts parts)
      || not (first_char head - b'0' == code / 100)
    then ([], text)
    else (head, rest)

split_word : ℕ → Text → Option (Text × Text) → Text × Text
unfolding status_of
split_word code text none = status_of code text text []
split_word code text (some (head, rest)) = status_of code text head rest

-- `splitEnhanced`
unfoldable pub split_enhanced : ℕ → Text → Text × Text
unfolding split_word cut is_empty
split_enhanced code text = if is_empty text then ([], text) else split_word code text (cut 32 text)

-- strings.Join(texts, "\n")
unfoldable pub join_lines : List Text → Text
join_lines [] = []
join_lines (t ∷ []) = t
join_lines (t ∷ u ∷ more) = t ++ 10 ∷ join_lines (u ∷ more)

-- What `readReply` returns, with the bytes after it.
pub record ReplyRead : Type 0 where
  pub code : ℕ
  pub enhanced : Text
  pub text : Text
  pub rest : Text

last_line : ReplyLine → List Text → Text → ReplyRead
unfolding split_enhanced join_lines
last_line l texts rest =
    let (enhanced, text) = split_enhanced l.code l.text in
    record {
      code = l.code;
      enhanced = enhanced;
      text = join_lines (texts ++ text ∷ []);
      rest = rest;
    }

abbrev is_code : Option ℕ → ℕ → Bool
is_code none code = true
is_code (some first) code = code == first

abbrev parsed_line : Option (Text × Text) → Option (ReplyLine × Text)
parsed_line none = none
parsed_line (some (line, rest)) = elim (parse_reply_line line) [
  | none ↦ none
  | some l ↦ some (l, rest)
]

-- The loop of `readReply`: the lines that it may still read, the code of the first line, and the
-- texts so far.
unfoldable pub read_reply_from : ℕ → ℕ → Option ℕ → List Text → Text → Option ReplyRead
unfolding read_bounded_line parse_reply_line last_line
read_reply_from zero max first texts s = none
read_reply_from (suc left) max first texts s = elim (parsed_line (read_bounded_line max s)) [
  | none ↦ none
  | some (l, rest) ↦
      let more = read_reply_from left max (some l.code) (texts ++ l.text ∷ []) rest in
      if not (is_code first l.code)
      then none
      else if l.continues
      then more
      else some (last_line l texts rest)
]

-- `readReply`
unfoldable pub read_reply : (max_reply_lines max_reply_line_bytes : ℕ) → Text → Option ReplyRead
unfolding read_reply_from
read_reply max_lines max_bytes s = read_reply_from max_lines max_bytes none [] s
