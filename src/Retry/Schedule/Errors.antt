-- ===== src/Retry/Schedule/Errors.antt =====
-- internal/retry/schedule.go: which errors the schedule of an unfinished lifecycle can return.
use mailx.Base.{
  ◌>>=◌, ℕ, ◌-◌, ◌≡◌, refl, Bool, true, false, some, List, [], ◌∷◌, ◌||◌, Result, ok, err, if_cases,
}
use mailx.Base.Int.{ℤ, pos, is_nonpos, ltb_ℤ}
use mailx.Retry.Policy.{RetryError, not_retryable, retry_exhausted}
use mailx.Retry.State.{State}
use mailx.Retry.Limit.{AttemptLimit, retryable, evaluate}
use mailx.Retry.Backoff.{BackoffPolicy, delay, delay_at, entry_at, positive_entry}
use mailx.Retry.Schedule.{
  Schedule, next_schedule, schedule_status, schedule_after, schedule_for, time_sub,
  number_of_latest, min_schedule_time, max_schedule_time,
}

-- The errors that say that the lifecycle is over.
unfoldable pub is_over : RetryError → Bool
is_over not_retryable = true
is_over retry_exhausted = true
is_over _ = false

-- A result, or an error that does not say so.
unfoldable pub Plain : {A : Type 0} → Result RetryError A → Type 0
unfolding is_over
Plain (ok x) = Unit
Plain (err e) = is_over e ≡ false

positive_entry-Plain : (d : ℤ) → Plain (positive_entry d)
unfolding Plain positive_entry is_over
positive_entry-Plain d = if_cases (Plain {A = ℤ}) (is_nonpos d) (λ _. refl) (λ _. tt)

delay_at-Plain : (p : BackoffPolicy) (n : ℕ) (ds : List ℤ) → Plain (delay_at p n ds)
unfolding Plain delay_at is_over
delay_at-Plain p n [] =
    if_cases (Plain {A = ℤ}) (is_nonpos p.base || is_nonpos p.max) (λ _. refl) (λ _. tt)
delay_at-Plain p n (d ∷ ds) = positive_entry-Plain (entry_at d ds (n - 1))

delay-Plain : (p : BackoffPolicy) (n : ℤ) → Plain (delay p n)
unfolding Plain delay is_over
delay-Plain p n =
    if_cases (Plain {A = ℤ}) (is_nonpos n) (λ _. refl) (λ _. delay_at-Plain p _ p.schedule)

schedule_for-Plain : (now : ℤ) (n : ℕ) (wait : ℤ) → Plain (schedule_for now n wait)
unfolding Plain schedule_for is_over
schedule_for-Plain now n wait =
    if_cases (Plain {A = Schedule}) (ltb_ℤ now min_schedule_time || ltb_ℤ max_schedule_time now)
      (λ _. refl)
      (λ _.
        if_cases (Plain {A = Schedule}) (ltb_ℤ (time_sub max_schedule_time now) wait) (λ _. refl)
          (λ _. tt))

after-Plain :
    (p : BackoffPolicy) (now : ℤ) (n : ℕ) (r : Result RetryError ℤ)
    → Plain r
    → Plain (r >>= schedule_after p now n)
unfolding Plain schedule_after
after-Plain p now n (err e) h = h
after-Plain p now n (ok wait) h = schedule_for-Plain now n _

pub next_schedule-Plain :
    (s : State) (p : BackoffPolicy) (limit : AttemptLimit) (now : ℤ)
    → evaluate (some s) limit ≡ ok retryable
    → Plain (next_schedule (some s) p limit now)
unfolding next_schedule schedule_status
next_schedule-Plain s p limit now h = rw h (
    after-Plain p now (number_of_latest (some s)) _
      (delay-Plain p (pos (number_of_latest (some s)))))
