-- ===== src/Database/Outcomes.antt =====
-- internal/database/outcomes.go, attempts.go: the transaction that records the outcome of an
-- attempt, on the rows of one message. A failure of PostgreSQL, which leaves the rows alone, is
-- not modelled.
pub mod Replay
pub mod Endings
pub mod Ledger
use mailx.Base.{
  ℕ, Bool, true, false, Option, none, some, List, [], ◌∷◌, ◌++◌, ◌&&◌, ◌||◌, not, ◌==◌,
  if◌then◌else◌, Result, ok, err, any,
}
use mailx.Base.Int.{ℤ, ltb_ℤ}
use mailx.Base.Text.{Text, text_eq, is_empty}
use mailx.Errors.{
  Stage, Kind, accepted, invalid_request, dns_not_found, dns_null_mx, dns_temporary, dns_failure,
  transfer_temporary, transfer_permanent, context, unset,
}
use mailx.Retry.Policy.{Decision, retry, terminal_success, terminal_failure}
use mailx.Bounce.Classify.{is_decision}
use mailx.Suppression.{normalize}

-- `MessageStatus`
pub data MessageStatus : Type 0 where
  status_queued status_processing status_retrying status_delivered status_failed : MessageStatus
  status_bounced status_suppressed : MessageStatus

-- `DeliveryState.Terminal`
unfoldable pub is_terminal : MessageStatus → Bool
is_terminal status_delivered = true
is_terminal status_failed = true
is_terminal status_bounced = true
is_terminal status_suppressed = true
is_terminal _ = false

-- `NewDeliveryAttempt`, as far as the transaction reads it.
pub record NewAttempt : Type 0 where
  pub attempt_number : ℕ
  pub decision : Decision
  pub kind : Kind
  pub was_accepted : Bool
  pub final_code : ℕ
  pub enhanced_status : Text
  pub remote_message : Text
  pub failure_stage : Option Stage
  pub recipient : Text
  pub started_at : ℤ
  pub finished_at : ℤ
  pub suppress_recipient : Bool

pub data EventType : Type 0 where
  event_deferred event_delivered event_failed : EventType

-- The rows of one message; an event has the number of its attempt.
pub record Rows : Type 0 where
  pub status : MessageStatus
  pub delivered_at : Option ℤ
  pub updated_at : ℤ
  pub attempts : List NewAttempt
  pub events : List (ℕ × EventType)
  pub suppressions : List Text

pub data StoreError : Type 0 where
  invalid_attempt invalid_outcome conflict message_terminal : StoreError

is_unset : Kind → Bool
is_unset unset = true
is_unset _ = false

-- `validate`; true is a nil error.
unfoldable pub validate : NewAttempt → Bool
unfolding is_unset
validate a =
    not (a.attempt_number == 0) && not (is_unset a.kind) && not (ltb_ℤ a.finished_at a.started_at)

-- What an outcome makes of the message.
pub record Effect : Type 0 where
  pub status : MessageStatus
  pub event : EventType
  pub delivered_at : Option ℤ

failure : Result StoreError Effect
failure = ok (record { status = status_failed; event = event_failed; delivered_at = none })

-- `classifyDeliveryOutcome`
unfoldable pub classify_delivery_outcome : Decision → Bool → ℤ → Bool → Result StoreError Effect
unfolding failure
classify_delivery_outcome retry taken finished exhausted =
    if taken
    then err invalid_outcome
    else if exhausted
    then failure
    else ok (record { status = status_retrying; event = event_deferred; delivered_at = none })
classify_delivery_outcome terminal_success taken finished exhausted =
    if exhausted
    then err invalid_outcome
    else if not taken
    then err invalid_outcome
    else ok (record {
      status = status_delivered;
      event = event_delivered;
      delivered_at = some finished;
    })
classify_delivery_outcome terminal_failure taken finished exhausted =
    if exhausted then err invalid_outcome else if taken then err invalid_outcome else failure

unfoldable pub same_kind : Kind → Kind → Bool
same_kind accepted accepted = true
same_kind invalid_request invalid_request = true
same_kind dns_not_found dns_not_found = true
same_kind dns_null_mx dns_null_mx = true
same_kind dns_temporary dns_temporary = true
same_kind dns_failure dns_failure = true
same_kind transfer_temporary transfer_temporary = true
same_kind transfer_permanent transfer_permanent = true
same_kind context context = true
same_kind unset unset = true
same_kind _ _ = false

unfoldable pub same_bool : Bool → Bool → Bool
same_bool true b = b
same_bool false b = not b

unfoldable pub matches : NewAttempt → NewAttempt → Bool
unfolding same_kind same_bool
matches old new =
    is_decision old.decision new.decision
    && same_kind old.kind new.kind
    && same_bool old.was_accepted new.was_accepted
    && old.final_code == new.final_code

-- The attempt with a number.
unfoldable pub find_attempt : ℕ → List NewAttempt → Option NewAttempt
find_attempt n [] = none
find_attempt n (a ∷ more) =
    let rest = find_attempt n more in if a.attempt_number == n then some a else rest

existing : NewAttempt → Option NewAttempt → Result StoreError Bool
unfolding matches
existing new none = ok false
existing new (some old) = if matches old new then ok true else err conflict

-- `matchingAttemptExists`
unfoldable pub matching_attempt_exists : List NewAttempt → NewAttempt → Result StoreError Bool
unfolding existing find_attempt
matching_attempt_exists attempts new = existing new (find_attempt new.attempt_number attempts)

-- `ON CONFLICT (message_id, delivery_attempt_number) DO NOTHING`
unfoldable pub has_event : ℕ → List (ℕ × EventType) → Bool
has_event n [] = false
has_event n ((m, e) ∷ more) = m == n || has_event n more

unfoldable pub add_event : ℕ → EventType → List (ℕ × EventType) → List (ℕ × EventType)
unfolding has_event
add_event n e events = if has_event n events then events else events ++ (n, e) ∷ []

-- `ON CONFLICT (tenant_id, email) DO NOTHING`
unfoldable pub add_key : Option Text → List Text → List Text
add_key none keys = keys
add_key (some k) keys = if any (text_eq k) keys then keys else k ∷ keys

unfoldable pub suppressed_key : NewAttempt → Option Text
unfolding is_empty normalize
suppressed_key a =
    if a.suppress_recipient && is_decision a.decision terminal_failure && not (is_empty a.recipient)
    then normalize a.recipient
    else none

coalesce : Option ℤ → Option ℤ → Option ℤ
coalesce none old = old
coalesce (some t) old = some t

-- The rows after the statements; `now` is the transaction's `now()`.
pub written : ℤ → Rows → NewAttempt → Effect → Bool → Rows
unfolding coalesce add_event add_key suppressed_key
written now r a e duplicate = record {
  status = e.status;
  delivered_at = coalesce e.delivered_at r.delivered_at;
  updated_at = now;
  attempts = if duplicate then r.attempts else r.attempts ++ a ∷ [];
  events = add_event a.attempt_number e.event r.events;
  suppressions = add_key (suppressed_key a) r.suppressions;
}

-- With the status and with what `matchingAttemptExists` says.
pub committed : ℤ → Rows → NewAttempt → Effect → Result StoreError Bool → Result StoreError Rows
unfolding is_terminal written
committed now r a e (err x) = err x
committed now r a e (ok duplicate) =
    if is_terminal r.status && not duplicate
    then err message_terminal
    else ok (written now r a e duplicate)

effected : ℤ → Rows → NewAttempt → Result StoreError Effect → Result StoreError Rows
unfolding committed matching_attempt_exists
effected now r a (err x) = err x
effected now r a (ok e) = committed now r a e (matching_attempt_exists r.attempts a)

-- `PersistDeliveryOutcome`
unfoldable pub persist_delivery_outcome : ℤ → Rows → NewAttempt → Bool → Result StoreError Rows
unfolding validate effected classify_delivery_outcome
persist_delivery_outcome now r a exhausted =
    if not (validate a)
    then err invalid_attempt
    else effected now r a
        (classify_delivery_outcome a.decision a.was_accepted a.finished_at exhausted)
