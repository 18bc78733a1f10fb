-- ===== src/Bounce/Status.antt =====
-- internal/bounce/status.go: enhanced status codes.
pub mod RoundTrip
use mailx.Base.{
  ℕ, ◌+◌, ◌-◌, ◌*◌, ◌/◌, ◌%◌, Bool, true, false, Option, none, some, List, [], ◌∷◌, ◌++◌, ◌&&◌,
  ◌||◌, not, leb, ltb, ◌==◌, if◌then◌else◌, length,
}
use mailx.Base.Text.{Text, is_empty, split}

-- `EnhancedStatus`
pub record EnhancedStatus : Type 0 where
  pub class : ℕ
  pub subject : ℕ
  pub detail : ℕ

abbrev pub is_digit : ℕ → Bool
is_digit c = leb b'0' c && leb c b'9'

-- `parseStatusComponent`
unfoldable pub parse_component : Text → Option ℕ
parse_component (a ∷ []) = if is_digit a then some (a - b'0') else none
parse_component (a ∷ b ∷ []) =
    if not (a == b'0') && is_digit a && is_digit b
    then some ((a - b'0') * 10 + (b - b'0'))
    else none
parse_component (a ∷ b ∷ c ∷ []) =
    if not (a == b'0') && is_digit a && is_digit b && is_digit c
    then some ((a - b'0') * 100 + (b - b'0') * 10 + (c - b'0'))
    else none
parse_component _ = none

abbrev pub is_class : ℕ → Bool
is_class c = c == 2 || c == 4 || c == 5

parsed : Option ℕ → Option ℕ → Option ℕ → Option EnhancedStatus
parsed (some c) (some s) (some d) =
    if is_class c then some (record { class = c; subject = s; detail = d }) else none
parsed _ _ _ = none

parse_parts : List Text → Option EnhancedStatus
unfolding parsed parse_component
parse_parts ((c ∷ []) ∷ subject ∷ detail ∷ []) =
    parsed (parse_component (c ∷ [])) (parse_component subject) (parse_component detail)
parse_parts _ = none

-- `ParseEnhancedStatus`; `none` is an error.
unfoldable pub parse_enhanced_status : Text → Option EnhancedStatus
unfolding parse_parts split
parse_enhanced_status value = parse_parts (split b'.' value)

-- `EnhancedStatus.Valid`
unfoldable pub is_valid : EnhancedStatus → Bool
is_valid s = is_class s.class && leb s.subject 999 && leb s.detail 999

-- `%d`, below 1000.
unfoldable pub decimal : ℕ → Text
decimal n =
    if ltb n 10
    then (n + b'0') ∷ []
    else if ltb n 100
    then (n / 10 + b'0') ∷ (n % 10 + b'0') ∷ []
    else (n / 100 + b'0') ∷ (n / 10 % 10 + b'0') ∷ (n % 10 + b'0') ∷ []

-- `EnhancedStatus.String`
unfoldable pub to_text : EnhancedStatus → Text
unfolding is_valid decimal
to_text s =
    if is_valid s
    then decimal s.class ++ b'.' ∷ (decimal s.subject ++ b'.' ∷ decimal s.detail)
    else []

unfoldable pub is_success : EnhancedStatus → Bool
unfolding is_valid
is_success s = is_valid s && s.class == 2

unfoldable pub is_temporary : EnhancedStatus → Bool
unfolding is_valid
is_temporary s = is_valid s && s.class == 4

unfoldable pub is_permanent : EnhancedStatus → Bool
unfolding is_valid
is_permanent s = is_valid s && s.class == 5

-- `StatusCategory`
pub data Category : Type 0 where
  no_category address mailbox system network protocol content policy : Category

unfoldable pub category_of : ℕ → Category
category_of n =
    if n == 1
    then address
    else if n == 2
    then mailbox
    else if n == 3
    then system
    else if n == 4
    then network
    else if n == 5
    then protocol
    else if n == 6
    then content
    else if n == 7
    then policy
    else no_category

-- `EnhancedStatus.Category`
unfoldable pub category : EnhancedStatus → Category
unfolding is_valid category_of
category s = if is_valid s then category_of s.subject else no_category
