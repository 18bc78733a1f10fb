-- ===== src/Delivery/Request.antt =====
-- internal/delivery/delivery.go: the request of a delivery, and its validation.
use mailx.Base.{
  Bool, true, false, Option, none, some, List, [], ◌∷◌, ◌&&◌, not, ◌==◌, if◌then◌else◌,
}
use mailx.Base.Text.{Text, trim_space, is_empty, to_lower, equal_fold}
use mailx.Smtp.Session.{Envelope, is_bracketed, is_cons}

pub record Request : Type 0 where
  pub domain : Text
  pub envelope : Envelope
  pub raw : Text
  pub member_id : Text

-- What follows the last '@'.
unfoldable pub after_last_at : Text → Option Text
after_last_at [] = none
after_last_at (c ∷ s) = elim (after_last_at s) [
  | some d ↦ some d
  | none ↦ if c == b'@' then some s else none
]

drop_first : Text → Text
drop_first [] = []
drop_first (c ∷ s) = s

drop_last : Text → Text
drop_last [] = []
drop_last (c ∷ []) = []
drop_last (c ∷ d ∷ s) = c ∷ drop_last (d ∷ s)

non_empty : Option Text → Option Text
unfolding is_empty
non_empty none = none
non_empty (some d) = if is_empty d then none else some d

-- `extractDomain`
unfoldable pub extract_domain : Text → Option Text
unfolding trim_space is_bracketed after_last_at drop_first drop_last non_empty
extract_domain path =
    let p = trim_space path in
    if is_bracketed p then non_empty (after_last_at (drop_last (drop_first p))) else none

-- The verdict on one recipient, for the lower-cased target domain.
unfoldable pub is_addressed_to : Text → Text → Bool
unfolding extract_domain equal_fold
is_addressed_to target r = elim (extract_domain r) [ none ↦ false | some d ↦ equal_fold d target ]

all_addressed : Text → List Text → Bool
unfolding is_addressed_to
all_addressed target [] = true
all_addressed target (r ∷ more) = is_addressed_to target r && all_addressed target more

-- `validateRequest`; true is a nil error.
unfoldable pub validate_request : Request → Bool
unfolding trim_space is_empty to_lower all_addressed
validate_request req =
    if is_empty (trim_space req.domain)
    then false
    else if not (is_cons req.envelope.recipients)
    then false
    else all_addressed (to_lower (trim_space req.domain)) req.envelope.recipients
