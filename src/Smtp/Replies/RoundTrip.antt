-- ===== src/Smtp/Replies/RoundTrip.antt =====
-- internal/smtp: the client reads the replies that the server writes.
use mathlib.Core.List.{append_assoc, append-nil}
use mailx.Base.{
  ℕ, zero, suc, ◌+◌, ◌-◌, ◌/◌, ◌≤◌, ◌≡◌, refl, ap, ◌∙◌, true, false, some, List, [], ◌∷◌, ◌++◌,
  ◌==◌, length, length-append, arith, if_cases, All, any,
}
use mailx.Base.Text.{Text, cut, split, onto_first}
use mailx.Smtp.Data.Lines.{ends_crlf-end}
use mailx.Smtp.Server.Reader.RoundTrip.{drop_crlf-append, crlf-append}
use mailx.Smtp.Server.Reply.{enhanced_reply, wire, three_digits, is_status, all_digits}
use mailx.Smtp.Replies.{
  all_parts, first_char, read_bounded_line, read_bounded_line_from, parse_reply_line,
  split_enhanced, status_of, last_line, read_reply, read_reply_from,
}

-- A line without LF is read up to its end.
abbrev NoLf : Text → Type 0
NoLf s = any (λ c. c == 10) s ≡ false

line_read :
    (left : ℕ) (line u rest : Text)
    → NoLf u
    → length u + 2 ≤ left
    → read_bounded_line_from left line (u ++ 13 ∷ 10 ∷ rest) ≡ some (line ++ u, rest)
unfolding read_bounded_line_from
line_read zero line u rest h k = absurd (omega (arith, k))
line_read (suc zero) line u rest h k = absurd (omega (arith, k))
line_read (suc (suc left)) line [] rest h k =
    simp (crlf-append line, ends_crlf-end line, drop_crlf-append line, append-nil line) refl
line_read (suc (suc left)) line (c ∷ u) rest h k =
    let other : (c == 10) ≡ false = ground (arith, h) in
    rw other (
      line_read (suc left) (line ++ c ∷ []) u rest (ground (arith, h)) (omega (arith, k))
      ∙ ap (λ t. some (t, rest)) (append_assoc line (c ∷ []) u))

code_read :
    (code : ℕ) (text : Text)
    → 200 ≤ code
    → code ≤ 599
    → parse_reply_line (three_digits code ++ 32 ∷ text)
      ≡ some (record { code = code; continues = false; text = text })
unfolding parse_reply_line
code_read code text low high = ground arith

-- A status with the parts that the server checks has the parts that the client checks.
status_parts :
    (code : ℕ) (parts : List Text)
    → is_status code parts ≡ true
    → (length parts ≡ 3) × (all_parts parts ≡ true)
unfolding is_status
status_parts code [] h = ground arith
status_parts code ([] ∷ ps) h = ground arith
status_parts code ((c ∷ []) ∷ []) h = ground arith
status_parts code ((c ∷ []) ∷ p ∷ []) h = ground arith
status_parts code ((c ∷ []) ∷ p ∷ q ∷ []) h = (refl, ground (arith, h))
status_parts code ((c ∷ []) ∷ p ∷ q ∷ r ∷ ps) h = ground arith
status_parts code ((c ∷ d ∷ p) ∷ ps) h = ground arith

class_digit :
    (code c : ℕ) (parts : List Text)
    → is_status code (onto_first c parts) ≡ true
    → c ≡ code / 100 + b'0'
unfolding is_status
class_digit code c [] h = ground arith
class_digit code c ((x ∷ p) ∷ ps) h = ground arith
class_digit code c ([] ∷ []) h = ground arith
class_digit code c ([] ∷ p ∷ []) h = ground arith
class_digit code c ([] ∷ p ∷ q ∷ []) h = ground (arith, h)
class_digit code c ([] ∷ p ∷ q ∷ r ∷ ps) h = ground arith

status_class :
    (code : ℕ) (s : Text) → is_status code (split b'.' s) ≡ true → first_char s - b'0' ≡ code / 100
unfolding split is_status
status_class code [] h = ground arith
status_class code (c ∷ s) h =
    if_cases (λ ps. is_status code ps ≡ true → c - b'0' ≡ code / 100) (c == b'.')
      (λ _ e. ground (arith, e)) (λ _ e. omega (arith, class_digit code c (split b'.' s) e)) h

abbrev AllDigits : List Text → Type 0
AllDigits ps = All (λ p. all_digits p ≡ true) ps

all_parts-AllDigits : (ps : List Text) → all_parts ps ≡ true → AllDigits ps
all_parts-AllDigits [] h = tt
all_parts-AllDigits (p ∷ ps) h = (ground (arith, h), all_parts-AllDigits ps (ground (arith, h)))

-- Dots and digits.
abbrev IsDotted : Text → Type 0
IsDotted s = All (λ c. b'.' ≤ c) s

onto_first-AllDigits :
    (c : ℕ) (ps : List Text) → AllDigits (onto_first c ps) → (b'.' ≤ c) × AllDigits ps
unfolding all_digits
onto_first-AllDigits c [] h = (ground (arith, h.0), tt)
onto_first-AllDigits c (p ∷ ps) h = (ground (arith, h.0), (ground (arith, h.0), h.1))

split-IsDotted : (s : Text) → AllDigits (split b'.' s) → IsDotted s
unfolding split
split-IsDotted [] h = tt
split-IsDotted (c ∷ s) h =
    if_cases (λ ps. AllDigits ps → IsDotted (c ∷ s)) (c == b'.')
      (λ dot e. (ground (arith, dot), split-IsDotted s e.1))
      (λ _ e.
        let both = onto_first-AllDigits c (split b'.' s) e in (both.0, split-IsDotted s both.1))
      h

cut-IsDotted : (s t : Text) → IsDotted s → cut 32 (s ++ 32 ∷ t) ≡ some (s, t)
unfolding cut
cut-IsDotted [] t h = refl
cut-IsDotted (c ∷ s) t h =
    let other : (c == 32) ≡ false = ground (arith, h.0) in rw (other, cut-IsDotted s t h.1) refl

IsDotted-NoLf : (s t : Text) → IsDotted s → NoLf t → NoLf (s ++ t)
IsDotted-NoLf [] t h k = k
IsDotted-NoLf (c ∷ s) t h k = ground (arith, h.0, IsDotted-NoLf s t h.1 k)

text_NoLf : (s : Text) → any (λ c. any (λ d. c == d) (13 ∷ 10 ∷ [])) s ≡ false → NoLf s
text_NoLf [] h = refl
text_NoLf (c ∷ s) h = ground (arith, text_NoLf s)

taken :
    (code : ℕ) (text head rest : Text)
    → length (split b'.' head) ≡ 3
    → all_parts (split b'.' head) ≡ true
    → first_char head - b'0' ≡ code / 100
    → status_of code text head rest ≡ (head, rest)
unfolding status_of
taken code text head rest n ps class =
    let three : (length (split b'.' head) == 3) ≡ true = ground (arith, n) in
    let same_class : (first_char head - b'0' == code / 100) ≡ true = ground (arith, class) in
    rw (status_of, three, ps, same_class) refl

status_read :
    (code : ℕ) (c : ℕ) (s message : Text)
    → is_status code (split b'.' (c ∷ s)) ≡ true
    → split_enhanced code ((c ∷ s) ++ 32 ∷ message) ≡ (c ∷ s, message)
unfolding split_enhanced
status_read code c s message h =
    let parts = status_parts code (split b'.' (c ∷ s)) h in
    let dotted = split-IsDotted (c ∷ s) (all_parts-AllDigits (split b'.' (c ∷ s)) parts.1) in
    let class = status_class code (c ∷ s) h in
    rw (cut-IsDotted (c ∷ s) message dotted)
      (taken code ((c ∷ s) ++ 32 ∷ message) (c ∷ s) message parts.0 parts.1 class)

-- What stands on the wire, up to the line's end.
abbrev reply_line : ℕ → Text → Text → Text
reply_line code status message = three_digits code ++ 32 ∷ (status ++ 32 ∷ message)

line_NoLf :
    (code : ℕ) (status message : Text)
    → IsDotted status
    → NoLf message
    → NoLf (reply_line code status message)
line_NoLf code status message h k =
    ground (arith, IsDotted-NoLf status (32 ∷ message) h (ground (arith, k)))

line_end :
    (code : ℕ) (status message rest : Text)
    → (three_digits code ++ 32 ∷ ((status ++ 32 ∷ []) ++ (message ++ 13 ∷ 10 ∷ []))) ++ rest
      ≡ reply_line code status message ++ 13 ∷ 10 ∷ rest
line_end code status message rest = simp append_assoc refl

wire_enhanced :
    (code c : ℕ) (s message w : Text)
    → wire (enhanced_reply code (c ∷ s) message) ≡ some w
    → (200 ≤ code)
      × (code ≤ 599)
      × (is_status code (split b'.' (c ∷ s)) ≡ true)
      × (any (λ c. any (λ d. c == d) (13 ∷ 10 ∷ [])) message ≡ false)
      × (w ≡ three_digits code ++ 32 ∷ (((c ∷ s) ++ 32 ∷ []) ++ (message ++ 13 ∷ 10 ∷ [])))
unfolding wire
wire_enhanced code c s message w h =
    (ground (arith, h), ground (arith, h), ground (arith, h), ground (arith, h), ground (arith, h))

-- One line that ends a reply.
one_line :
    (lines max : ℕ) (t u text rest : Text) (code : ℕ) (enhanced message : Text)
    → read_bounded_line max t ≡ some (u, rest)
    → parse_reply_line u ≡ some (record { code = code; continues = false; text = text })
    → split_enhanced code text ≡ (enhanced, message)
    → read_reply (suc lines) max t
      ≡ some (record { code = code; enhanced = enhanced; text = message; rest = rest })
unfolding read_reply
one_line lines max t u text rest code enhanced message line parsed parts =
    rw (read_reply_from, line, parsed) (rw (last_line, parts) refl)

-- A reply with an enhanced status that the server writes is read by the client as its code, its
-- status and its text, and what follows on the connection is left, where the line is no longer
-- than the client's limit.
pub read_reply-wire :
    (code c : ℕ) (status message w rest : Text) (lines max : ℕ)
    → wire (enhanced_reply code (c ∷ status) message) ≡ some w
    → length w ≤ max
    → read_reply (suc lines) max (w ++ rest)
      ≡ some (record { code = code; enhanced = c ∷ status; text = message; rest = rest })
unfolding read_reply read_bounded_line
read_reply-wire code c status message w rest lines max h small =
    let (low, high, is, clean, whole) = wire_enhanced code c status message w h in
    let dotted = split-IsDotted (c ∷ status) (
      all_parts-AllDigits (split b'.' (c ∷ status))
        (status_parts code (split b'.' (c ∷ status)) is).1) in
    let u = reply_line code (c ∷ status) message in
    let text : w ++ rest ≡ u ++ 13 ∷ 10 ∷ rest =
      ap (λ t. t ++ rest) whole ∙ line_end code (c ∷ status) message rest in
    let got =
      line_read max [] u rest (line_NoLf code (c ∷ status) message dotted (text_NoLf message clean))
        (omega
          (arith, ap length text, length-append w rest, length-append u (13 ∷ 10 ∷ rest), small)) in
    let parsed = code_read code ((c ∷ status) ++ 32 ∷ message) low high in
    let parts = status_read code c status message is in
    one_line lines max (w ++ rest) u ((c ∷ status) ++ 32 ∷ message) rest code (c ∷ status) message
      (ap (λ t. read_bounded_line max t) text ∙ got) parsed parts
