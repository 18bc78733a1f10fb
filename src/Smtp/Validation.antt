-- ===== src/Smtp/Validation.antt =====
-- internal/smtp/client.go and client_auth.go: what is checked of an envelope path and of
-- credentials before a connection is made.
use mailx.Base.{
  ℕ, Bool, true, false, Option, none, some, List, [], ◌∷◌, ◌&&◌, not, leb, ◌==◌, if◌then◌else◌,
  length,
}
use mailx.Base.Text.{Text, text_eq, is_empty, contains_any}

unfoldable pub ends_with : ℕ → Text → Bool
ends_with d [] = false
ends_with d (c ∷ []) = c == d
ends_with d (c ∷ e ∷ s) = ends_with d (e ∷ s)

abbrev pub is_cons {ℓ} : {A : Type ℓ} → List A → Bool
is_cons [] = false
is_cons (x ∷ xs) = true

-- `strings.HasPrefix(path, "<") && strings.HasSuffix(path, ">")`
unfoldable pub is_bracketed : Text → Bool
is_bracketed [] = false
is_bracketed (c ∷ s) = c == b'<' && ends_with b'>' (c ∷ s)

-- `validateEnvelopePath`; true is a nil error.
unfoldable pub is_envelope_path : Bool → Text → Bool
unfolding contains_any text_eq is_bracketed ends_with
is_envelope_path allow_null path =
    if contains_any path (13 ∷ 10 ∷ 0 ∷ [])
    then false
    else if not (is_bracketed path)
    then false
    else if text_eq path (b'<' ∷ b'>' ∷ [])
    then allow_null
    else true

-- internal/smtp/client_auth.go
pub record Credentials : Type 0 where
  pub username : Text
  pub password : Text

credential_ok : Text → Bool
unfolding is_empty contains_any
credential_ok v = not (is_empty v) && leb (length v) 255 && not (contains_any v (13 ∷ 10 ∷ 0 ∷ []))

-- `Credentials.Validate`; true is a nil error.
unfoldable pub validate_credentials : Credentials → Bool
unfolding credential_ok
validate_credentials c = credential_ok c.username && credential_ok c.password

unfoldable pub credentials_ok : Option Credentials → Bool
unfolding validate_credentials
credentials_ok none = true
credentials_ok (some c) = validate_credentials c
