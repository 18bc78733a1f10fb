-- ===== src/Retry/Policy.antt =====
-- internal/retry/policy.go: the classification of one completed delivery operation. The errors
-- of the package are here too.
use mailx.Base.{Bool, false, Option, none, some, if◌then◌else◌}
use mailx.Errors.{
  Err, Kind, ContextErr, is_context, accepted, invalid_request, dns_not_found, dns_null_mx,
  dns_temporary, dns_failure, transfer_temporary, transfer_permanent, context, unset,
}
use mailx.Delivery.Result.{DeliveryResult}

pub data Decision : Type 0 where
  terminal_failure retry terminal_success : Decision

pub data RetryError : Type 0 where
  invalid_max_attempts no_delivery_attempts not_retryable retry_exhausted invalid_schedule_time :
      RetryError
  invalid_attempt invalid_backoff terminal_state nil_state : RetryError
  context_done : ContextErr → RetryError

-- The `switch` on the kind; the last clause is `default`.
unfoldable pub decide_kind : Kind → Decision
decide_kind dns_temporary = retry
decide_kind transfer_temporary = retry
decide_kind accepted = terminal_failure
decide_kind invalid_request = terminal_failure
decide_kind dns_not_found = terminal_failure
decide_kind dns_null_mx = terminal_failure
decide_kind dns_failure = terminal_failure
decide_kind transfer_permanent = terminal_failure
decide_kind context = terminal_failure
decide_kind unset = terminal_failure

unfoldable pub ended_by_context : Option Err → Bool
unfolding is_context
ended_by_context none = false
ended_by_context (some e) = is_context e

-- `Decide`
unfoldable pub decide : DeliveryResult → Option Err → Decision
unfolding decide_kind ended_by_context
decide result e =
    if result.accepted
    then terminal_success
    else if ended_by_context e
    then terminal_failure
    else decide_kind result.kind
