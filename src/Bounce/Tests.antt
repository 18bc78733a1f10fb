-- ===== src/Bounce/Tests.antt =====
-- Statuses, failures and notifications at concrete texts.
use mailx.Base.{◌≡◌, ◌↔◌, refl, subst, true, false, Option, none, some, [], ◌∷◌}
use mailx.Base.Int.{pos}
use mailx.Base.Text.{codes}
use mailx.Errors.{transfer_permanent}
use mailx.Delivery.Result.{DeliveryResult, blank_result}
use mailx.Retry.Policy.{terminal_failure}
use mailx.Retry.State.{State, DeliveryAttempt, latest}
use mailx.Retry.Limit.{evaluate_state}
use mailx.Bounce.Status.{EnhancedStatus, parse_enhanced_status, is_valid, to_text}
use mailx.Bounce.Status.RoundTrip.{parse_enhanced_status_iff}
use mailx.Bounce.Classify.{Failure, failure_from_attempt, classify}
use mailx.Bounce.Classify.Agreement.{Says, IsDecided, classify-Says}
use mailx.Bounce.Dsn.{bounce_envelope}
use mailx.Bounce.Dsn.Loops.{EndsHere, bounce_envelope-EndsHere}

abbrev no_mailbox : EnhancedStatus
no_mailbox = record { class = 5; subject = 1; detail = 1 }

read_status : parse_enhanced_status (codes "5.1.1") ≡ some no_mailbox
unfolding parse_enhanced_status
read_status = refl

parse_enhanced_status_iff_example :
    (parse_enhanced_status (codes "5.1.1") ≡ some no_mailbox)
    ↔ ((is_valid no_mailbox ≡ true) × (to_text no_mailbox ≡ codes "5.1.1"))
parse_enhanced_status_iff_example = parse_enhanced_status_iff (codes "5.1.1") no_mailbox

abbrev refused_result : DeliveryResult
refused_result = record (blank_result (codes "d.io")) {
  kind = transfer_permanent;
  final_code = 550;
}

abbrev refused_attempt : DeliveryAttempt
refused_attempt = record { number = 1; result = refused_result; decision = terminal_failure }

abbrev refused_state : State
refused_state = record { delivery_attempts = refused_attempt ∷ [] }

abbrev DecidedIn : Option DeliveryAttempt → Type 0
DecidedIn none = Unit
DecidedIn (some a) = IsDecided a

first-IsDecided : IsDecided refused_attempt
unfolding blank_result
first-IsDecided = (λ e. absurd (cc), λ e. absurd (cc))

refused-IsDecided : (a : DeliveryAttempt) → latest refused_state ≡ some a → IsDecided a
unfolding latest
refused-IsDecided a is = subst DecidedIn is first-IsDecided

classify-Says_example :
    Says refused_state
      (evaluate_state refused_state (pos 5))
      (classify (some refused_state) (evaluate_state refused_state (pos 5)))
classify-Says_example = classify-Says refused_state (pos 5) refused-IsDecided

abbrev refusal : Failure
refusal = failure_from_attempt refused_attempt 1 false

bounce_envelope-EndsHere_example :
    EndsHere (codes "<a@x.io>") refusal (bounce_envelope (codes "<a@x.io>"))
bounce_envelope-EndsHere_example = bounce_envelope-EndsHere (codes "<a@x.io>") refusal
