-- ===== src/Bounce/Classify/Agreement.antt =====
-- internal/bounce/classify.go with internal/retry: which ends of a lifecycle are failures.
use mailx.Base.{
  ◌≡◌, refl, true, false, Option, none, some, Result, ok, err, arith, if_cases, inl, inr,
  Bool-cases, sym, ◌∙◌, ◌≢◌, subst, ◌↔◌,
}
use mailx.Base.Int.{ℤ, pos, leb_ℤ}
use mailx.Retry.Policy.{Decision, retry, terminal_success, terminal_failure}
use mailx.Retry.State.{State, DeliveryAttempt, latest, count}
use mailx.Retry.Limit.{
  LifecycleStatus, empty, retryable, succeeded, failed, exhausted, evaluate_state, status_of,
}
use mailx.Bounce.Classify.{
  ClassifyError, Failure, classify, classify_latest, no_delivery_attempts, not_final,
  delivery_succeeded, failure_from_attempt, classify_empty, classify_from,
}

-- What the classification says of a lifecycle in a status.
unfoldable pub Says : State → LifecycleStatus → Result ClassifyError Failure → Type 0
unfolding latest count failure_from_attempt
Says s empty r = r ≡ err no_delivery_attempts
Says s retryable r = r ≡ err not_final
Says s succeeded r = r ≡ err delivery_succeeded
Says s failed r =
    (a : DeliveryAttempt) × (latest s ≡ some a) × (r ≡ ok (failure_from_attempt a (count s) false))
Says s exhausted r =
    (a : DeliveryAttempt) × (latest s ≡ some a) × (r ≡ ok (failure_from_attempt a (count s) true))

-- Every attempt was decided by `Decide`: a success exactly where the server accepted.
abbrev pub IsDecided : DeliveryAttempt → Type 0
IsDecided a = (a.result.accepted ≡ true) ↔ (a.decision ≡ terminal_success)

refused_of :
    (a : DeliveryAttempt) (d : Decision)
    → a.decision ≡ d
    → d ≢ terminal_success
    → IsDecided a
    → a.result.accepted ≡ false
refused_of a d is other dec = elim (Bool-cases a.result.accepted) [
  | inl yes_it ↦ absurd (other (sym is ∙ dec.0 yes_it))
  | inr refused ↦ refused
]

latest-Says :
    (s : State) (a : DeliveryAttempt) (d : Decision) (max : ℤ)
    → latest s ≡ some a
    → a.decision ≡ d
    → IsDecided a
    → Says s (status_of d (count s) max) (classify_latest (status_of d (count s) max) a (count s))
unfolding Says classify_latest status_of
latest-Says s a terminal_failure max is e dec =
    let refused = refused_of a terminal_failure e (λ q. cc) dec in
    (a, is, ground (arith, e, refused))
latest-Says s a terminal_success max is e dec = let taken = dec.1 e in ground (arith, e, taken)
latest-Says s a retry max is e dec =
    let refused = refused_of a retry e (λ q. cc) dec in
    if_cases (λ x. Says s x (classify_latest x a (count s))) (leb_ℤ max (pos (count s)))
      (λ _. (a, is, ground (arith, e, refused))) (λ _. ground (arith, e, refused))

none_left : (s : State) (max : ℤ) → latest s ≡ none → evaluate_state s max ≡ empty
unfolding evaluate_state
none_left s max is = rw (is, evaluate_state) refl

some_left :
    (s : State) (max : ℤ) (a : DeliveryAttempt)
    → latest s ≡ some a
    → evaluate_state s max ≡ status_of a.decision (count s) max
unfolding evaluate_state
some_left s max a is = rw (is, evaluate_state) refl

from-Says :
    (s : State) (max : ℤ) (o : Option DeliveryAttempt)
    → latest s ≡ o
    → ((a : DeliveryAttempt) → latest s ≡ some a → IsDecided a)
    → Says s (evaluate_state s max) (classify_from (evaluate_state s max) (count s) o)
unfolding classify_from classify_empty Says
from-Says s max none is dec =
    subst (λ x. Says s x (classify_from x (count s) none)) (sym (none_left s max is)) refl
from-Says s max (some a) is dec =
    subst (λ x. Says s x (classify_from x (count s) (some a))) (sym (some_left s max a is))
      (latest-Says s a a.decision max is refl (dec a is))

-- For a lifecycle whose latest attempt was decided by whether the server accepted, the
-- classification agrees with the status that the limit gives it: it makes a failure, of the latest
-- attempt, exactly for the two failed ends, and names the other statuses; it never finds the
-- lifecycle invalid.
pub classify-Says :
    (s : State) (max : ℤ)
    → ((a : DeliveryAttempt) → latest s ≡ some a → IsDecided a)
    → Says s (evaluate_state s max) (classify (some s) (evaluate_state s max))
unfolding classify
classify-Says s max dec = from-Says s max (latest s) refl dec
