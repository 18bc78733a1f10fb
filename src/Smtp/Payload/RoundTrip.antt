-- ===== src/Smtp/Payload/RoundTrip.antt =====
-- internal/smtp: the server reads the credentials that the client sends.
use mailx.Base.{
  ℕ, ◌+◌, ◌*◌, ◌/◌, ◌%◌, ◌<◌, ◌≡◌, refl, ap, ◌∙◌, Bool, true, false, Option, some, [], ◌∷◌, ◌++◌,
  ◌==◌, arith, All, All-append, any,
}
use mailx.Base.Text.{Text, is_empty, cut, contains_any}
use mailx.Smtp.Validation.{Credentials, validate_credentials}
use mailx.Smtp.Payload.{char_of, b64, plain_payload}
use mailx.Smtp.Server.Auth.{sextet, decode_group, decode_base64, auth_plain}

abbrev pub AllBytes : Text → Type 0
AllBytes s = All (λ c. c < 256) s

sextet-char_of : (n : ℕ) → n < 64 → sextet (char_of n) ≡ some n
unfolding char_of
sextet-char_of n h = ground arith

char_of-ne : (n : ℕ) → n < 64 → (char_of n == b'=') ≡ false
unfolding char_of
char_of-ne n h = ground arith

group_one :
    (x y : ℕ) (more : Option Text)
    → x < 64
    → y < 64
    → decode_group (char_of x) (char_of y) b'=' b'=' true more ≡ some ((x * 4 + y / 16) ∷ [])
unfolding decode_group
group_one x y more hx hy = simp (sextet-char_of x hx, sextet-char_of y hy) refl

group_two :
    (x y z : ℕ) (more : Option Text)
    → x < 64
    → y < 64
    → z < 64
    → decode_group (char_of x) (char_of y) (char_of z) b'=' true more
      ≡ some ((x * 4 + y / 16) ∷ (y % 16 * 16 + z / 4) ∷ [])
unfolding decode_group
group_two x y z more hx hy hz =
    simp (char_of-ne z hz, sextet-char_of x hx, sextet-char_of y hy, sextet-char_of z hz) refl

group_three :
    (x y z w : ℕ) (is_last : Bool) (more : Text)
    → x < 64
    → y < 64
    → z < 64
    → w < 64
    → decode_group (char_of x) (char_of y) (char_of z) (char_of w) is_last (some more)
      ≡ some ((x * 4 + y / 16) ∷ (y % 16 * 16 + z / 4) ∷ (z % 4 * 64 + w) ∷ more)
unfolding decode_group
group_three x y z w is_last more hx hy hz hw =
    simp
      (
        char_of-ne w hw,
        sextet-char_of x hx,
        sextet-char_of y hy,
        sextet-char_of z hz,
        sextet-char_of w hw,
      )
      refl

-- What is encoded is decoded.
pub decode_base64-b64 : (s : Text) → AllBytes s → decode_base64 (b64 s) ≡ some s
unfolding b64 decode_base64
decode_base64-b64 [] h = refl
decode_base64-b64 (a ∷ []) h =
    group_one (a / 4) (a % 4 * 16) (some []) (omega (arith, h.0)) (omega arith)
    ∙ ap (λ x. some (x ∷ [])) (omega arith)
decode_base64-b64 (a ∷ b ∷ []) h =
    group_two (a / 4) (a % 4 * 16 + b / 16) (b % 16 * 4) (some []) (omega (arith, h.0))
      (omega (arith, h.1.0)) (omega arith)
    ∙ two (omega (arith, h.1.0)) (omega (arith, h.1.0))
  where
    two : {x y : ℕ} → x ≡ a → y ≡ b → some (x ∷ y ∷ []) ≡ some (a ∷ b ∷ [])
    two p q = rw (p, q) refl
decode_base64-b64 (a ∷ b ∷ c ∷ s) h =
    let x = a / 4 in
    let y = a % 4 * 16 + b / 16 in
    let z = b % 16 * 4 + c / 64 in
    let w = c % 64 in
    ap (λ t. decode_group (char_of x) (char_of y) (char_of z) (char_of w) (is_empty (b64 s)) t)
      (decode_base64-b64 s h.1.1.1)
    ∙ group_three x y z w (is_empty (b64 s)) s (omega (arith, h.0)) (omega (arith, h.1.0))
        (omega (arith, h.1.1.0)) (omega arith)
    ∙ three (omega (arith, h.1.0)) (omega (arith, h.1.0, h.1.1.0)) (omega arith)
  where
    three : {p q r : ℕ} → p ≡ a → q ≡ b → r ≡ c → some (p ∷ q ∷ r ∷ s) ≡ some (a ∷ b ∷ c ∷ s)
    three p q r = rw (p, q, r) refl

cut-NoNul :
    (u t : Text)
    → any (λ c. any (λ d. c == d) (13 ∷ 10 ∷ 0 ∷ [])) u ≡ false
    → cut 0 (u ++ 0 ∷ t) ≡ some (u, t)
unfolding cut
cut-NoNul [] t h = refl
cut-NoNul (c ∷ u) t h =
    let other : (c == 0) ≡ false = ground (arith, h) in
    rw (other, cut-NoNul u t (ground (arith, h))) refl

no_nul :
    (c : Credentials)
    → validate_credentials c ≡ true
    → any (λ c. any (λ d. c == d) (13 ∷ 10 ∷ 0 ∷ [])) c.username ≡ false
unfolding validate_credentials contains_any
no_nul c valid = ground (arith, valid)

-- Credentials that pass the client's checks, sent as AUTH PLAIN, are the user and the password
-- that the server's authenticator is asked about.
auth_plain-plain_payload :
    (c : Credentials)
    → validate_credentials c ≡ true
    → AllBytes c.username
    → AllBytes c.password
    → auth_plain (plain_payload c) ≡ some (c.username, c.password)
unfolding plain_payload auth_plain
auth_plain-plain_payload c valid u p =
    let raw = 0 ∷ (c.username ++ 0 ∷ c.password) in
    let bytes = All-append (λ c. c < 256) c.username (0 ∷ c.password) u (omega arith, p) in
    let clean = no_nul c valid in
    rw (auth_plain, decode_base64-b64 raw (omega arith, bytes))
      (cut-NoNul c.username c.password clean)
