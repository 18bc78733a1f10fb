-- ===== src/Bounce/Classify.antt =====
-- internal/bounce/classify.go: the final failure that a lifecycle ended with.
pub mod Agreement
use mailx.Base.{
  ℕ, Bool, true, false, Option, none, some, ◌&&◌, ◌||◌, not, if◌then◌else◌, Result, ok, err,
}
use mailx.Base.Text.{Text}
use mailx.Errors.{
  Stage, Kind, accepted, invalid_request, dns_not_found, dns_null_mx, dns_temporary, dns_failure,
  transfer_temporary, transfer_permanent, context, unset,
}
use mailx.Delivery.Result.{DeliveryResult}
use mailx.Retry.Policy.{Decision, retry, terminal_success, terminal_failure}
use mailx.Retry.State.{State, DeliveryAttempt, latest, count}
use mailx.Retry.Limit.{LifecycleStatus, empty, retryable, succeeded, failed, exhausted}
use mailx.Bounce.Status.{EnhancedStatus, parse_enhanced_status}

pub data ClassifyError : Type 0 where
  nil_state no_delivery_attempts not_final delivery_succeeded invalid_lifecycle : ClassifyError

-- `FailureClass`
pub data FailureClass : Type 0 where
  failure_unknown permanent_delivery failure_retry_exhausted failure_dns failure_null_mx :
      FailureClass
  failure_invalid_request failure_aborted : FailureClass

-- `Failure`, without its message.
pub record Failure : Type 0 where
  pub class : FailureClass
  pub delivery_kind : Kind
  pub smtp_code : ℕ
  pub enhanced_status_raw : Text
  pub enhanced_status : Option EnhancedStatus
  pub remote_message : Text
  pub failure_stage : Option Stage
  pub recipient : Text
  pub retry_exhausted : Bool
  pub attempt_count : ℕ

-- `classifyKind`; the last clause is `default`.
unfoldable pub classify_kind : Kind → FailureClass
classify_kind transfer_permanent = permanent_delivery
classify_kind dns_not_found = failure_dns
classify_kind dns_failure = failure_dns
classify_kind dns_null_mx = failure_null_mx
classify_kind invalid_request = failure_invalid_request
classify_kind context = failure_aborted
classify_kind _ = failure_unknown

-- `failureFromAttempt`
unfoldable pub failure_from_attempt : DeliveryAttempt → ℕ → Bool → Failure
unfolding classify_kind parse_enhanced_status
failure_from_attempt a n is_exhausted =
    let r = a.result in
    record {
      class = if is_exhausted then failure_retry_exhausted else classify_kind r.kind;
      delivery_kind = r.kind;
      smtp_code = r.final_code;
      enhanced_status_raw = r.enhanced_status;
      enhanced_status = parse_enhanced_status r.enhanced_status;
      remote_message = r.remote_message;
      failure_stage = r.failure_stage;
      recipient = r.recipient;
      retry_exhausted = is_exhausted;
      attempt_count = n;
    }

abbrev pub is_decision : Decision → Decision → Bool
is_decision retry retry = true
is_decision terminal_success terminal_success = true
is_decision terminal_failure terminal_failure = true
is_decision _ _ = false

-- The `switch` on the status, for the latest attempt.
unfoldable pub classify_latest :
    LifecycleStatus → DeliveryAttempt → ℕ → Result ClassifyError Failure
unfolding failure_from_attempt
classify_latest empty a n = err invalid_lifecycle
classify_latest retryable a n =
    if not (is_decision a.decision retry) || a.result.accepted
    then err invalid_lifecycle
    else err not_final
classify_latest succeeded a n =
    if not (is_decision a.decision terminal_success) || not a.result.accepted
    then err invalid_lifecycle
    else err delivery_succeeded
classify_latest failed a n =
    if not (is_decision a.decision terminal_failure) || a.result.accepted
    then err invalid_lifecycle
    else ok (failure_from_attempt a n false)
classify_latest exhausted a n =
    if not (is_decision a.decision retry) || a.result.accepted
    then err invalid_lifecycle
    else ok (failure_from_attempt a n true)

classify_empty : LifecycleStatus → Result ClassifyError Failure
classify_empty empty = err no_delivery_attempts
classify_empty _ = err invalid_lifecycle

classify_from : LifecycleStatus → ℕ → Option DeliveryAttempt → Result ClassifyError Failure
unfolding classify_latest classify_empty
classify_from status n none = classify_empty status
classify_from status n (some a) = classify_latest status a n

-- `Classify`
unfoldable pub classify : Option State → LifecycleStatus → Result ClassifyError Failure
unfolding classify_from latest count
classify none status = err nil_state
classify (some s) status = classify_from status (count s) (latest s)
