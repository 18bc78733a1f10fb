-- ===== src/Retry/State.antt =====
-- internal/retry/state.go: the lifecycle's completed operations, latest last. The copies that
-- `cloneDeliveryResult` makes are the values themselves here, where nothing is mutated.
pub mod Lifecycle
use mailx.Base.{
  ℕ, suc, ◌+◌, Bool, true, false, Option, none, some, List, [], ◌∷◌, ◌++◌, length, get_last?,
}
use mailx.Errors.{Err}
use mailx.Delivery.Result.{DeliveryResult}
use mailx.Retry.Policy.{
  Decision, terminal_failure, retry, terminal_success, RetryError, terminal_state, decide,
}

pub record DeliveryAttempt : Type 0 where
  pub number : ℕ
  pub result : DeliveryResult
  pub decision : Decision

pub record State : Type 0 where
  pub delivery_attempts : List DeliveryAttempt

unfoldable pub is_retry : Decision → Bool
is_retry retry = true
is_retry _ = false

unfoldable pub attempt_after : State → DeliveryResult → Option Err → DeliveryAttempt
attempt_after s result e = record {
  number = length s.delivery_attempts + 1;
  result = result;
  decision = decide result e;
}

unfoldable pub append_attempt : State → DeliveryResult → Option Err → State
unfolding attempt_after
append_attempt s result e = record {
  delivery_attempts = s.delivery_attempts ++ attempt_after s result e ∷ [];
}

-- `Record`: the new state, and the error.
unfoldable pub record_attempt : State → DeliveryResult → Option Err → State × Option RetryError
unfolding append_attempt
record_attempt s result e = elim (get_last? s.delivery_attempts) [
  | none ↦ (append_attempt s result e, none)
  | some latest ↦ elim latest.decision [
    | retry ↦ (append_attempt s result e, none)
    | _ ↦ (s, some terminal_state)
  ]
]

-- `Count`
unfoldable pub count : State → ℕ
count s = length s.delivery_attempts

-- `Latest`
unfoldable pub latest : State → Option DeliveryAttempt
latest s = get_last? s.delivery_attempts

-- `History`
unfoldable pub history : State → List DeliveryAttempt
history s = s.delivery_attempts
