-- ===== src/Retry/Schedule.antt =====
-- internal/retry/schedule.go: when the next operation may run. Instants are nanoseconds since
-- year 1, in UTC.
pub mod Range
pub mod Errors
use mailx.Base.{ℕ, ◌*◌, ◌-◌, ◌^◌, Option, none, some, Result, ok, err, ◌>>=◌, if◌then◌else◌, ◌||◌}
use mailx.Base.Int.{ℤ, pos, negsuc, ◌+ℤ◌, ◌-ℤ◌, ltb_ℤ}
use mailx.Retry.Policy.{
  RetryError, no_delivery_attempts, not_retryable, retry_exhausted, invalid_schedule_time,
}
use mailx.Retry.State.{State, DeliveryAttempt, latest}
use mailx.Retry.Limit.{
  AttemptLimit, LifecycleStatus, empty, retryable, succeeded, failed, exhausted, evaluate,
}
use mailx.Retry.Backoff.{BackoffPolicy, delay, jitter, second, i64}

-- The year 1 and the last nanosecond of the year 9999.
abbrev pub min_schedule_time : ℤ
min_schedule_time = pos 0

abbrev pub max_schedule_time : ℤ
max_schedule_time = pos (315_537_897_600 * second - 1)

-- 1970.
abbrev pub unix_epoch : ℤ
unix_epoch = pos (62_135_596_800 * second)

pub record Schedule : Type 0 where
  pub attempt : ℕ
  pub delay : ℤ
  pub next_retry_at : ℤ

-- `time.Time.Sub` saturates.
unfoldable pub time_sub : ℤ → ℤ → ℤ
unfolding ◌-ℤ◌
time_sub a b =
    let d = a -ℤ b in
    if ltb_ℤ (pos (2 ^ 63 - 1)) d
    then pos (2 ^ 63 - 1)
    else if ltb_ℤ d (negsuc (2 ^ 63 - 1))
    then negsuc (2 ^ 63 - 1)
    else d

-- From the jittered delay on.
unfoldable pub schedule_for : ℤ → ℕ → ℤ → Result RetryError Schedule
unfolding time_sub ◌+ℤ◌
schedule_for now attempt wait =
    if ltb_ℤ now min_schedule_time || ltb_ℤ max_schedule_time now
    then err invalid_schedule_time
    else if ltb_ℤ (time_sub max_schedule_time now) wait
    then err invalid_schedule_time
    else ok (record { attempt = attempt; delay = wait; next_retry_at = now +ℤ wait })

-- From a delay on.
unfoldable pub schedule_after : BackoffPolicy → ℤ → ℕ → ℤ → Result RetryError Schedule
unfolding schedule_for jitter ◌-ℤ◌ i64
schedule_after policy now attempt wait =
    schedule_for now attempt (jitter policy wait (i64 (now -ℤ unix_epoch)))

-- `Latest` of a retryable lifecycle; a missing one is the zero attempt, number 0.
latest_number : Option DeliveryAttempt → ℕ
latest_number none = 0
latest_number (some a) = a.number

number_of_latest : Option State → ℕ
unfolding latest_number latest
number_of_latest none = 0
number_of_latest (some s) = latest_number (latest s)

schedule_status : BackoffPolicy → ℤ → ℕ → LifecycleStatus → Result RetryError Schedule
unfolding schedule_after delay
schedule_status policy now number empty = err no_delivery_attempts
schedule_status policy now number exhausted = err retry_exhausted
schedule_status policy now number succeeded = err not_retryable
schedule_status policy now number failed = err not_retryable
schedule_status policy now number retryable =
    delay policy (pos number) >>= schedule_after policy now number

-- `NextSchedule`
unfoldable pub next_schedule :
    Option State → BackoffPolicy → AttemptLimit → ℤ → Result RetryError Schedule
unfolding schedule_status number_of_latest evaluate
next_schedule s policy limit now =
    evaluate s limit >>= schedule_status policy now (number_of_latest s)
