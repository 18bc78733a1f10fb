-- ===== src/Retry/Limit.antt =====
-- internal/retry/limit.go: the bound on delivery operations, and a lifecycle's status under it.
use mailx.Base.{ℕ, Option, none, some, Result, ok, err, if◌then◌else◌}
use mailx.Base.Int.{ℤ, pos, leb_ℤ, is_nonpos}
use mailx.Retry.Policy.{
  Decision, terminal_failure, retry, terminal_success, RetryError, invalid_max_attempts,
}
use mailx.Retry.State.{State, latest, count}

pub record AttemptLimit : Type 0 where
  pub max_attempts : ℤ

abbrev pub default_attempt_limit : AttemptLimit
default_attempt_limit = record { max_attempts = pos 5 }

pub data LifecycleStatus : Type 0 where
  empty retryable succeeded failed exhausted : LifecycleStatus

unfoldable pub status_of : Decision → ℕ → ℤ → LifecycleStatus
status_of terminal_success n max = succeeded
status_of terminal_failure n max = failed
status_of retry n max = if leb_ℤ max (pos n) then exhausted else retryable

unfoldable pub evaluate_state : State → ℤ → LifecycleStatus
unfolding status_of latest count
evaluate_state s max = elim (latest s) [
  | none ↦ empty
  | some a ↦ status_of a.decision (count s) max
]

unfoldable pub evaluate_some : Option State → ℤ → LifecycleStatus
unfolding evaluate_state
evaluate_some none max = empty
evaluate_some (some s) max = evaluate_state s max

-- `Evaluate`
unfoldable pub evaluate : Option State → AttemptLimit → Result RetryError LifecycleStatus
unfolding evaluate_some
evaluate s limit =
    if is_nonpos limit.max_attempts
    then err invalid_max_attempts
    else ok (evaluate_some s limit.max_attempts)
