-- ===== src/Smtp/Server/Auth.antt =====
-- encoding/base64 and bytes, as internal/smtp/server.go uses them for AUTH PLAIN.
use mailx.Base.{
  ℕ, ◌+◌, ◌-◌, ◌*◌, ◌/◌, ◌%◌, Bool, Option, none, some, [], ◌∷◌, ◌&&◌, leb, ◌==◌, if◌then◌else◌,
}
use mailx.Base.Text.{Text, is_empty, cut}

abbrev pub sextet : ℕ → Option ℕ
sextet c =
    if leb b'A' c && leb c b'Z'
    then some (c - b'A')
    else if leb b'a' c && leb c b'z'
    then some (c - b'a' + 26)
    else if leb b'0' c && leb c b'9'
    then some (c - b'0' + 52)
    else if c == b'+'
    then some 62
    else if c == b'/'
    then some 63
    else none

abbrev first_byte : Option ℕ → Option ℕ → Option ℕ
first_byte (some a) (some b) = some (a * 4 + b / 16)
first_byte _ _ = none

abbrev second_byte : Option ℕ → Option ℕ → Option ℕ
second_byte (some b) (some c) = some (b % 16 * 16 + c / 4)
second_byte _ _ = none

abbrev third_byte : Option ℕ → Option ℕ → Option ℕ
third_byte (some c) (some d) = some (c % 4 * 64 + d)
third_byte _ _ = none

abbrev onto : Option ℕ → Option Text → Option Text
onto (some b) (some s) = some (b ∷ s)
onto _ _ = none

-- Four characters and what the rest decodes to. Padding may stand at the end only.
unfoldable pub decode_group : (a b c d : ℕ) (is_last : Bool) (more : Option Text) → Option Text
decode_group a b c d is_last more =
    let first = first_byte (sextet a) (sextet b) in
    let second = second_byte (sextet b) (sextet c) in
    if d == b'='
    then (if is_last
        then (if c == b'=' then onto first (some []) else onto first (onto second (some [])))
        else none)
    else onto first (onto second (onto (third_byte (sextet c) (sextet d)) more))

-- `base64.StdEncoding.DecodeString`, of a text with no line breaks; `none` is an error.
unfoldable pub decode_base64 : Text → Option Text
unfolding decode_group is_empty
decode_base64 [] = some []
decode_base64 (a ∷ []) = none
decode_base64 (a ∷ b ∷ []) = none
decode_base64 (a ∷ b ∷ c ∷ []) = none
decode_base64 (a ∷ b ∷ c ∷ d ∷ s) = decode_group a b c d (is_empty s) (decode_base64 s)

abbrev login_after : Option (Text × Text) → Option (Text × Text)
login_after none = none
login_after (some (identity, login)) = cut 0 login

-- The user and the password of an AUTH PLAIN response: parts 1 and 2 of `bytes.SplitN(raw, 0, 3)`.
unfoldable pub auth_plain : Text → Option (Text × Text)
unfolding decode_base64 cut
auth_plain response = elim (decode_base64 response) [
  | none ↦ none
  | some raw ↦ login_after (cut 0 raw)
]
