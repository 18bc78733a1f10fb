-- ===== src/Retry/Coordinator.antt =====
-- internal/retry/coordinator.go: one delivery operation per call, recorded and scheduled. The
-- deliverer is what its call would answer; `delivered` says whether it was called.
pub mod Lifecycle
pub mod Refusal
pub mod Accepted
use mailx.Base.{ℕ, Bool, true, false, Option, none, some, Result, ok, err, ◌>>=◌}
use mailx.Base.Int.{ℤ, pos}
use mailx.Errors.{Err, ContextErr}
use mailx.Delivery.Result.{DeliveryResult}
use mailx.Retry.Policy.{RetryError, not_retryable, retry_exhausted, nil_state, context_done}
use mailx.Retry.State.{State, record_attempt}
use mailx.Retry.Limit.{
  AttemptLimit, LifecycleStatus, empty, retryable, succeeded, failed, exhausted, evaluate,
}
use mailx.Retry.Backoff.{BackoffPolicy, delay}
use mailx.Retry.Schedule.{Schedule, next_schedule}

pub record Coordinator : Type 0 where
  pub backoff : BackoffPolicy
  pub limit : AttemptLimit

-- `Outcome`; `result` is none where Go has the zero `delivery.Result`.
pub record Outcome : Type 0 where
  pub result : Option DeliveryResult
  pub delivery_error : Option Err
  pub status : LifecycleStatus
  pub schedule : Option Schedule

-- What `Attempt` leaves and returns.
pub record Attempted : Type 0 where
  pub state : Option State
  pub delivered : Bool
  pub outcome : Outcome
  pub error : Option RetryError

-- `NewCoordinator`; the nil check on the interface has no counterpart.
unfoldable pub new_coordinator : BackoffPolicy → AttemptLimit → Result RetryError Coordinator
unfolding delay evaluate
new_coordinator backoff limit = delay backoff (pos 1) >>= λ _.
    evaluate none limit >>= λ _. ok (record { backoff = backoff; limit = limit })

abbrev pub blank_outcome : LifecycleStatus → Outcome
blank_outcome status = record {
  result = none;
  delivery_error = none;
  status = status;
  schedule = none;
}

-- A call that ends before the deliverer is called.
refuse : Option State → LifecycleStatus → RetryError → Attempted
refuse s status e = record {
  state = s;
  delivered = false;
  outcome = blank_outcome status;
  error = some e;
}

-- The schedule of a retryable lifecycle.
scheduled : State → Outcome → Result RetryError Schedule → Attempted
scheduled s o (err e) = record { state = some s; delivered = true; outcome = o; error = some e }
scheduled s o (ok x) = record {
  state = some s;
  delivered = true;
  outcome = record o { schedule = some x };
  error = none;
}

-- After the second `Evaluate`.
concluded : Coordinator → ℤ → State → Outcome → LifecycleStatus → Attempted
unfolding scheduled next_schedule
concluded c now s o retryable =
    scheduled s (record o { status = retryable }) (next_schedule (some s) c.backoff c.limit now)
concluded c now s o status = record {
  state = some s;
  delivered = true;
  outcome = record o { status = status };
  error = none;
}

evaluated : Coordinator → ℤ → State → Outcome → Result RetryError LifecycleStatus → Attempted
unfolding concluded
evaluated c now s o (err e) = record {
  state = some s;
  delivered = true;
  outcome = o;
  error = some e;
}
evaluated c now s o (ok status) = concluded c now s o status

-- After `Record`.
recorded : Coordinator → ℤ → Outcome → State × Option RetryError → Attempted
unfolding evaluated evaluate
recorded c now o (s, some e) = record {
  state = some s;
  delivered = true;
  outcome = o;
  error = some e;
}
recorded c now o (s, none) = evaluated c now s o (evaluate (some s) c.limit)

delivered_now : Coordinator → ℤ → State → DeliveryResult × Option Err → Attempted
unfolding recorded record_attempt
delivered_now c now s (result, e) =
    recorded c now
      (record { result = some result; delivery_error = e; status = empty; schedule = none })
      (record_attempt s result e)

-- The context's preflight, and the delivery.
proceed :
    Coordinator
    → Option ContextErr
    → ℤ
    → State
    → DeliveryResult × Option Err
    → LifecycleStatus
    → Attempted
unfolding refuse delivered_now
proceed c ended now s d succeeded = refuse (some s) succeeded not_retryable
proceed c ended now s d failed = refuse (some s) failed not_retryable
proceed c ended now s d exhausted = refuse (some s) exhausted retry_exhausted
proceed c ended now s d status = elim ended [
  | some e ↦ refuse (some s) status (context_done e)
  | none ↦ delivered_now c now s d
]

preflight :
    Coordinator
    → Option ContextErr
    → ℤ
    → State
    → DeliveryResult × Option Err
    → Result RetryError LifecycleStatus
    → Attempted
unfolding proceed
preflight c ended now s d (err e) = refuse (some s) empty e
preflight c ended now s d (ok status) = proceed c ended now s d status

-- `Coordinator.Attempt`
unfoldable pub attempt :
    Coordinator → Option ContextErr → Option State → DeliveryResult × Option Err → ℤ → Attempted
unfolding preflight refuse
attempt c ended none d now = refuse none empty nil_state
attempt c ended (some s) d now = preflight c ended now s d (evaluate (some s) c.limit)
