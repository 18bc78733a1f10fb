-- ===== src/Suppression.antt =====
-- internal/suppression/address.go: the key of an address in the suppression list.
-- `mail.ParseAddress` is left out: what passes the other checks is a plain address, which it
-- returns unchanged.
use mailx.Base.{
  ℕ, Bool, true, false, Option, none, some, List, [], ◌∷◌, ◌++◌, ◌&&◌, ◌||◌, not, leb, ltb, ◌==◌,
  if◌then◌else◌, length, any,
}
use mailx.Base.Text.{Text, codes, is_empty, trim_space, to_lower, cut, split}
use mailx.Smtp.Validation.{is_bracketed, ends_with}

unfoldable pub without_last : Text → Text
without_last [] = []
without_last (c ∷ []) = []
without_last (c ∷ d ∷ s) = c ∷ without_last (d ∷ s)

unfoldable pub without_first : Text → Text
without_first [] = []
without_first (c ∷ s) = s

unfoldable pub all_bytes : (ℕ → Bool) → Text → Bool
all_bytes p [] = true
all_bytes p (c ∷ s) = p c && all_bytes p s

abbrev is_lower : ℕ → Bool
is_lower c = leb b'a' c && leb c b'z'

abbrev is_upper : ℕ → Bool
is_upper c = leb b'A' c && leb c b'Z'

abbrev is_digit : ℕ → Bool
is_digit c = leb b'0' c && leb c b'9'

-- A byte of a dot-atom.
unfoldable pub is_local_byte : ℕ → Bool
is_local_byte c =
    is_lower c
    || is_upper c
    || is_digit c
    || c == b'.'
    || any (λ d. c == d) (codes "!#$%&'*+-/=?^_`{|}~")

unfoldable pub starts_with : ℕ → Text → Bool
starts_with d [] = false
starts_with d (c ∷ s) = c == d

unfoldable pub has_double_dot : Text → Bool
unfolding starts_with
has_double_dot [] = false
has_double_dot (c ∷ s) = (c == b'.' && starts_with b'.' s) || has_double_dot s

-- `validLocal`
unfoldable pub valid_local : Text → Bool
unfolding is_empty starts_with ends_with has_double_dot all_bytes is_local_byte
valid_local l =
    if is_empty l || ltb 64 (length l) || starts_with b'.' l || ends_with b'.' l || has_double_dot l
    then false
    else all_bytes is_local_byte l

unfoldable pub is_label_byte : ℕ → Bool
is_label_byte c = is_lower c || is_digit c || c == b'-'

unfoldable pub valid_label : Text → Bool
unfolding is_empty starts_with ends_with all_bytes is_label_byte
valid_label label =
    if is_empty label || ltb 63 (length label) || starts_with b'-' label || ends_with b'-' label
    then false
    else all_bytes is_label_byte label

unfoldable pub all_labels : List Text → Bool
unfolding valid_label
all_labels [] = true
all_labels (l ∷ ls) = valid_label l && all_labels ls

last_label : List Text → Text
last_label [] = []
last_label (l ∷ []) = l
last_label (l ∷ m ∷ ls) = last_label (m ∷ ls)

-- `validDomain`
unfoldable pub valid_domain : Text → Bool
unfolding is_empty split last_label all_bytes all_labels
valid_domain d =
    let labels = split b'.' d in
    if is_empty d || ltb 253 (length d)
    then false
    else if all_bytes is_digit (last_label labels)
    then false
    else all_labels labels

-- The trim, the brackets and the root dot.
unfoldable pub bare : Text → Text
unfolding trim_space is_bracketed ends_with without_last without_first
bare raw =
    let s = trim_space raw in
    let t = if is_bracketed s then without_last (without_first s) else s in
    if ends_with b'.' t then without_last t else t

unfoldable pub is_visible : ℕ → Bool
is_visible c = ltb 0x20 c && ltb c 0x7f

-- The two sides of the only '@'.
key_of_parts : Option (Text × Text) → Option Text
unfolding valid_local valid_domain to_lower is_empty
key_of_parts none = none
key_of_parts (some (local, domain)) =
    if is_empty local || is_empty domain || any (λ c. c == b'@') domain
    then none
    else if not (valid_local local) || not (valid_domain (to_lower domain))
    then none
    else some (to_lower local ++ b'@' ∷ to_lower domain)

unfoldable pub key_of_bare : Text → Option Text
unfolding is_empty all_bytes is_visible key_of_parts cut
key_of_bare s =
    if is_empty s || ltb 254 (length s)
    then none
    else if not (all_bytes is_visible s)
    then none
    else key_of_parts (cut b'@' s)

-- `Normalize`; `none` is an error.
unfoldable pub normalize : Text → Option Text
unfolding bare key_of_bare
normalize raw = key_of_bare (bare raw)
