-- ===== src/Smtp/Data.antt =====
-- internal/smtp/client_data.go: a message as the bytes that follow DATA's 354.
pub mod Lines
use mailx.Base.{Bool, true, false, List, [], ◌∷◌, ◌++◌, ◌&&◌, not, ◌==◌, if◌then◌else◌}
use mailx.Base.Text.{Text, is_empty}

-- CRLF, and the line that ends DATA.
abbrev pub crlf : Text
crlf = 13 ∷ 10 ∷ []

abbrev pub terminator : Text
terminator = b'.' ∷ 13 ∷ 10 ∷ []

-- The first loop. The code looks one byte ahead of a CR; here `after_cr` says that a CR, for which
-- CRLF is written already, stands just before.
unfoldable pub normalize_from : Bool → Text → Text
normalize_from after_cr [] = []
normalize_from after_cr (c ∷ s) =
    let line_end = 13 ∷ 10 ∷ normalize_from true s in
    let feed = 13 ∷ 10 ∷ normalize_from false s in
    let skipped = normalize_from false s in
    let kept = c ∷ normalize_from false s in
    if c == 13 then line_end else if c == 10 then (if after_cr then skipped else feed) else kept

-- `strings.HasSuffix(s, "\r\n")`
unfoldable pub ends_crlf : Text → Bool
ends_crlf [] = false
ends_crlf (c ∷ []) = false
ends_crlf (c ∷ d ∷ []) = c == 13 && d == 10
ends_crlf (c ∷ d ∷ e ∷ s) = ends_crlf (d ∷ e ∷ s)

-- Normalized line ends, and a last one.
unfoldable pub normalized : Text → Text
unfolding normalize_from ends_crlf is_empty
normalized raw =
    let text = normalize_from false raw in
    if not (is_empty text) && not (ends_crlf text) then text ++ crlf else text

-- The second loop.
unfoldable pub stuff : Bool → Text → Text
stuff line_start [] = []
stuff line_start (c ∷ s) =
    let rest = c ∷ stuff (c == 10) s in if line_start && c == b'.' then b'.' ∷ rest else rest

-- `serializeForDATA`
unfoldable pub serialize_for_data : Text → Text
unfolding normalized stuff
serialize_for_data raw = stuff true (normalized raw) ++ terminator
