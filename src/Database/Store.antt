-- ===== src/Database/Store.antt =====
-- cmd/mailx/outcome_store.go, internal/suppression/model.go: between the lifecycle of a delivery
-- and its rows. The instants of an attempt are given with it.
pub mod Truth
pub mod Restore
pub mod Reclaim
use mailx.Base.{
  ℕ, Bool, true, false, Option, none, some, List, [], ◌∷◌, ◌&&◌, ◌||◌, not, leb, ltb, if◌then◌else◌,
  Result, ok, err,
}
use mailx.Base.Int.{ℤ}
use mailx.Base.Text.{Text, codes, text_eq, is_empty}
use mailx.Errors.{Err, other, delivery, Stage, rcpt_to, Kind, transfer_permanent}
use mailx.Delivery.Result.{DeliveryResult, blank_result}
use mailx.Retry.Policy.{Decision, retry, terminal_success, terminal_failure, RetryError}
use mailx.Retry.State.{State, DeliveryAttempt, record_attempt, latest}
use mailx.Retry.Limit.{LifecycleStatus, exhausted}
use mailx.Bounce.Classify.{is_decision}
use mailx.Worker.World.{Durable}
use mailx.Database.Outcomes.{
  NewAttempt, Rows, StoreError, persist_delivery_outcome, same_kind, MessageStatus, status_retrying,
  is_terminal,
}

is_rcpt_to : Option Stage → Bool
is_rcpt_to (some rcpt_to) = true
is_rcpt_to _ = false

-- `QualifiesHardBounce`
unfoldable pub qualifies_hard_bounce : Option Stage → Bool → Bool → ℕ → Text → Text → Bool
unfolding is_rcpt_to is_empty text_eq
qualifies_hard_bounce stage permanent taken code enhanced recipient =
    if not permanent
      || taken
      || is_empty recipient
      || not (is_rcpt_to stage)
      || ltb code 500
      || ltb 599 code
    then false
    else text_eq enhanced (codes "5.1.1") || text_eq enhanced (codes "5.1.6")

-- What `Persist` presents; a decision has the same three values in both packages.
unfoldable pub stored_attempt : DeliveryAttempt → ℤ → ℤ → NewAttempt
unfolding qualifies_hard_bounce same_kind
stored_attempt a started finished =
    let r = a.result in
    record {
      attempt_number = a.number;
      decision = a.decision;
      kind = r.kind;
      was_accepted = r.accepted;
      final_code = r.final_code;
      enhanced_status = r.enhanced_status;
      remote_message = r.remote_message;
      failure_stage = r.failure_stage;
      recipient = r.recipient;
      started_at = started;
      finished_at = finished;
      suppress_recipient =
          is_decision a.decision terminal_failure
          && same_kind r.kind transfer_permanent
          && qualifies_hard_bounce r.failure_stage true r.accepted r.final_code r.enhanced_status
              r.recipient;
    }

unfoldable pub is_exhausted : LifecycleStatus → Bool
is_exhausted exhausted = true
is_exhausted _ = false

-- `databaseOutcomeStore.Persist`, at the time `now` of its transaction.
unfoldable pub persist :
    ℤ → Rows → DeliveryAttempt → ℤ → ℤ → LifecycleStatus → Result StoreError Rows
unfolding stored_attempt is_exhausted persist_delivery_outcome
persist now r a started finished status =
    persist_delivery_outcome now r (stored_attempt a started finished) (is_exhausted status)

-- `deliveryResultFromStored`; what is not stored is blank.
unfoldable pub result_from_stored : NewAttempt → DeliveryResult
unfolding blank_result
result_from_stored a = record (blank_result []) {
  kind = a.kind;
  accepted = a.was_accepted;
  final_code = a.final_code;
  enhanced_status = a.enhanced_status;
  remote_message = a.remote_message;
  failure_stage = a.failure_stage;
  recipient = a.recipient;
}

-- The error that `Load` makes up for an attempt.
unfoldable pub error_from_stored : NewAttempt → Option Err
error_from_stored a =
    if is_decision a.decision terminal_success
    then none
    else some (
        delivery (record { kind = a.kind; domain = []; temporary = is_decision a.decision retry })
          other)

-- After `Record`.
checked : NewAttempt → State × Option RetryError → Option State
unfolding latest
checked a (s, some e) = none
checked a (s, none) = elim (latest s) [
  | none ↦ none
  | some l ↦ if is_decision l.decision a.decision then some s else none
]

restore_from : State → List NewAttempt → Option State
unfolding checked record_attempt result_from_stored error_from_stored
restore_from s [] = some s
restore_from s (a ∷ more) =
    elim (checked a (record_attempt s (result_from_stored a) (error_from_stored a))) [
      | none ↦ none
      | some t ↦ restore_from t more
    ]

-- The loop of `Load`; none is an error.
unfoldable pub restore : List NewAttempt → Option State
unfolding restore_from
restore attempts = restore_from (record { delivery_attempts = [] }) attempts

is_retrying : MessageStatus → Bool
is_retrying status_retrying = true
is_retrying _ = false

-- The rest of `Load` and `LoadDeliveryState`; the schedule comes from the last deferral, and the
-- member from the message.
loaded : Rows → Option ℤ → Option Text → Option State → Option Durable
unfolding is_terminal is_retrying
loaded r next member none = none
loaded r next member (some s) = some (record {
  retry_state = some s;
  terminal = is_terminal r.status;
  next_retry_at = if is_retrying r.status then next else none;
  sending_member_id = member;
})

-- `databaseOutcomeStore.Load`
unfoldable pub load : Rows → Option ℤ → Option Text → Option Durable
unfolding loaded restore
load r next member = loaded r next member (restore r.attempts)
