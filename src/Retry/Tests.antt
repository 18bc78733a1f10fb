-- ===== src/Retry/Tests.antt =====
-- Runs of the retry policy, and the theorems about it at concrete lifecycles.
use mailx.Base.{◌*◌, ◌≡◌, refl, true, false, Option, none, some, List, [], ◌∷◌, ok, arith}
use mailx.Base.Int.{ℤ, pos}
use mailx.Errors.{Err, ContextErr, other, accepted, transfer_temporary}
use mailx.Delivery.Result.{DeliveryResult, direct}
use mailx.Retry.Policy.{retry}
use mailx.Retry.State.{State, latest}
use mailx.Retry.State.Lifecycle.{IsLifecycle}
use mailx.Retry.Limit.{default_attempt_limit}
use mailx.Retry.Backoff.{BackoffPolicy, default_backoff_policy, second, delay, jitter}
use mailx.Retry.Backoff.Doubling.{delay_doubles}
use mailx.Retry.Backoff.Spread.{IsJittered, span, percent, jitter-IsJittered}
use mailx.Retry.Schedule.{Schedule, unix_epoch, next_schedule}
use mailx.Retry.Schedule.Range.{IsInRange, next_schedule-IsInRange}
use mailx.Retry.Coordinator.{Coordinator}
use mailx.Retry.Coordinator.Lifecycle.{serve, IsBounded, serve-IsBounded}

abbrev fresh_state : State
fresh_state = record { delivery_attempts = [] }

abbrev deferred : DeliveryResult
deferred = record {
  domain = b'd' ∷ [];
  transport = direct;
  kind = transfer_temporary;
  accepted = false;
  final_code = 451;
  enhanced_status = [];
  remote_message = [];
  failure_stage = none;
  recipient = [];
  quit_error = none;
  attempts = [];
  mx_candidates = [];
  effective_hostname = [];
  effective_source_ip = [];
  effective_member_id = [];
}

abbrev delivered_result : DeliveryResult
delivered_result = record deferred { kind = accepted; accepted = true; final_code = 250 }

abbrev usual : Coordinator
usual = record { backoff = default_backoff_policy; limit = default_attempt_limit }

fresh-IsLifecycle : IsLifecycle fresh_state
fresh-IsLifecycle = record { numbered = tt; retried = tt }

abbrev some_calls : List (Option ContextErr × (DeliveryResult × Option Err) × ℤ)
some_calls =
    (none, (deferred, some other), pos 10)
    ∷ (none, (delivered_result, none), pos 20)
    ∷ (none, (delivered_result, none), pos 30)
    ∷ []

serve-IsBounded_example : IsBounded usual (serve usual fresh_state some_calls)
serve-IsBounded_example = serve-IsBounded usual some_calls

abbrev doubling : BackoffPolicy
doubling = record { schedule = []; base = pos 3; max = pos 20; jitter_percent = pos 20 }

-- 3, 6, 12, and 20 in place of 24.
delay_doubles_example : delay doubling (pos 4) ≡ ok (pos 20)
delay_doubles_example = delay_doubles doubling 2 19 3 refl refl refl

jitter-IsJittered_example :
    IsJittered
      (pos 20)
      (span (300 * second) (percent 20))
      (300 * second)
      (jitter doubling (pos (300 * second)) (pos 7))
jitter-IsJittered_example =
    jitter-IsJittered doubling 19 (300 * second) (pos 7) refl (omega arith) (omega arith)

-- After one deferral.
abbrev once : State
once = record {
  delivery_attempts = record { number = 1; result = deferred; decision = retry } ∷ [];
}

abbrev in_five_seconds : Schedule
in_five_seconds = record {
  attempt = 1;
  delay = pos (5 * second);
  next_retry_at = pos (62_135_596_805 * second);
}

next_schedule-IsInRange_example : IsInRange unix_epoch in_five_seconds
unfolding next_schedule delay jitter latest
next_schedule-IsInRange_example =
    next_schedule-IsInRange (some once) default_backoff_policy default_attempt_limit unix_epoch
      in_five_seconds refl
