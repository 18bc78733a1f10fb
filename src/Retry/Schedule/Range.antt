-- ===== src/Retry/Schedule/Range.antt =====
-- internal/retry/schedule.go: a schedule stays in the range of times.
use mailx.Base.{
  ◌≡◌, Option, Result, ok, err, arith, Result-cases, inl, inr, ℕ, ◌||◌, if_cases, refl, subst,
}
use mailx.Base.Int.{ℤ, pos, ltb_ℤ, ◌≤ℤ◌, ◌+ℤ◌, ◌-ℤ◌}
use mailx.Retry.Policy.{RetryError}
use mailx.Retry.State.{State}
use mailx.Retry.Limit.{
  AttemptLimit, LifecycleStatus, retryable, evaluate, empty, succeeded, failed, exhausted,
}
use mailx.Retry.Backoff.{BackoffPolicy, delay}
use mailx.Retry.Schedule.{
  Schedule, min_schedule_time, max_schedule_time, time_sub, schedule_for, schedule_after,
  schedule_status, number_of_latest, next_schedule,
}

-- A schedule for after `now`.
pub record IsInRange (now : ℤ) (s : Schedule) : Type 0 where
  pub sum : s.next_retry_at ≡ now +ℤ s.delay
  pub from : min_schedule_time ≤ℤ now
  pub until : s.next_retry_at ≤ℤ max_schedule_time

sub_range : (a now wait : ℤ) → now ≤ℤ a → wait ≤ℤ time_sub a now → (now +ℤ wait) ≤ℤ a
unfolding time_sub ◌+ℤ◌ ◌-ℤ◌
sub_range a now wait h k = ground arith

-- A result that is in range, if it is a schedule.
abbrev AllInRange : ℤ → Result RetryError Schedule → Type 0
AllInRange now (ok s) = IsInRange now s
AllInRange now (err e) = Unit

schedule_for-AllInRange : (now : ℤ) (n : ℕ) (wait : ℤ) → AllInRange now (schedule_for now n wait)
unfolding schedule_for
schedule_for-AllInRange now n wait =
    if_cases (AllInRange now) (ltb_ℤ now min_schedule_time || ltb_ℤ max_schedule_time now) (λ _. tt)
      (λ inside.
        if_cases (AllInRange now) (ltb_ℤ (time_sub max_schedule_time now) wait) (λ _. tt)
          (λ fits. record {
            sum = refl;
            from = ground (arith, inside);
            until =
                sub_range max_schedule_time now wait (ground (arith, inside))
                  (ground (arith, fits));
          }))

schedule_after-AllInRange :
    (p : BackoffPolicy) (now : ℤ) (n : ℕ) (wait : ℤ) → AllInRange now (schedule_after p now n wait)
unfolding schedule_after
schedule_after-AllInRange p now n wait = schedule_for-AllInRange now n _

schedule_status-AllInRange :
    (p : BackoffPolicy) (now : ℤ) (n : ℕ) (status : LifecycleStatus)
    → AllInRange now (schedule_status p now n status)
unfolding schedule_status
schedule_status-AllInRange p now n empty = tt
schedule_status-AllInRange p now n exhausted = tt
schedule_status-AllInRange p now n succeeded = tt
schedule_status-AllInRange p now n failed = tt
schedule_status-AllInRange p now n retryable = elim (Result-cases (delay p (pos n))) [
  | inl (e, is) ↦ simp is tt
  | inr (d, is) ↦ simp is (schedule_after-AllInRange p now n d)
]

next_schedule-AllInRange :
    (s : Option State) (p : BackoffPolicy) (limit : AttemptLimit) (now : ℤ)
    → AllInRange now (next_schedule s p limit now)
unfolding next_schedule
next_schedule-AllInRange s p limit now = elim (Result-cases (evaluate s limit)) [
  | inl (e, is) ↦ simp is tt
  | inr (status, is) ↦ simp is (schedule_status-AllInRange p now (number_of_latest s) status)
]

-- A schedule that is returned names the instant that comes its delay after `now`; `now` is not
-- before the year 1, and that instant is not after the year 9999.
pub next_schedule-IsInRange :
    (state : Option State) (p : BackoffPolicy) (limit : AttemptLimit) (now : ℤ) (s : Schedule)
    → next_schedule state p limit now ≡ ok s
    → IsInRange now s
next_schedule-IsInRange state p limit now s is =
    subst (AllInRange now) is (next_schedule-AllInRange state p limit now)
