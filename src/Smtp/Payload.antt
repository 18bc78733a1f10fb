-- ===== src/Smtp/Payload.antt =====
-- encoding/base64, as internal/smtp/client_auth.go uses it, and the AUTH PLAIN payload.
pub mod RoundTrip
use mailx.Base.{ℕ, ◌+◌, ◌-◌, ◌*◌, ◌/◌, ◌%◌, ltb, ◌==◌, if◌then◌else◌, List, [], ◌∷◌, ◌++◌}
use mailx.Base.Text.{Text}
use mailx.Smtp.Validation.{Credentials}

-- The character of a number below 64.
unfoldable pub char_of : ℕ → ℕ
char_of n =
    if ltb n 26
    then n + b'A'
    else if ltb n 52
    then n - 26 + b'a'
    else if ltb n 62
    then n - 52 + b'0'
    else if n == 62
    then b'+'
    else b'/'

-- `b64`: base64.StdEncoding.EncodeToString
unfoldable pub b64 : Text → Text
unfolding char_of
b64 [] = []
b64 (a ∷ []) = char_of (a / 4) ∷ char_of (a % 4 * 16) ∷ b'=' ∷ b'=' ∷ []
b64 (a ∷ b ∷ []) =
    char_of (a / 4) ∷ char_of (a % 4 * 16 + b / 16) ∷ char_of (b % 16 * 4) ∷ b'=' ∷ []
b64 (a ∷ b ∷ c ∷ s) =
    char_of (a / 4)
    ∷ char_of (a % 4 * 16 + b / 16)
    ∷ char_of (b % 16 * 4 + c / 64)
    ∷ char_of (c % 64)
    ∷ b64 s

-- The payload of `authPlain`.
unfoldable pub plain_payload : Credentials → Text
unfolding b64
plain_payload c = b64 (0 ∷ (c.username ++ 0 ∷ c.password))
