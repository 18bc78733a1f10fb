-- ===== src/Retry/Coordinator/Refusal.antt =====
-- internal/retry/coordinator.go: which errors a call on an unfinished lifecycle can return.
use mailx.Base.{◌≡◌, refl, true, false, Option, none, some, Result, ok, err, if_cases}
use mailx.Base.Int.{ℤ, is_nonpos}
use mailx.Errors.{Err, ContextErr}
use mailx.Delivery.Result.{DeliveryResult}
use mailx.Retry.Policy.{RetryError}
use mailx.Retry.State.{State, append_attempt, latest}
use mailx.Retry.State.Lifecycle.{IsOpen, record_open}
use mailx.Retry.Limit.{
  AttemptLimit, LifecycleStatus, empty, retryable, succeeded, failed, exhausted, evaluate,
}
use mailx.Retry.Schedule.{Schedule}
use mailx.Retry.Schedule.Errors.{is_over, Plain, next_schedule-Plain}
use mailx.Retry.Coordinator.{
  Coordinator, Outcome, attempt, preflight, proceed, delivered_now, recorded, evaluated, concluded,
  scheduled, refuse,
}
use mailx.Retry.Coordinator.Lifecycle.{is_live, CanRun, evaluate-CanRun}

-- No error, or one that does not say that the lifecycle is over.
unfoldable pub Unfinished : Option RetryError → Type 0
unfolding is_over
Unfinished none = Unit
Unfinished (some e) = is_over e ≡ false

evaluate-Plain : (s : Option State) (limit : AttemptLimit) → Plain (evaluate s limit)
unfolding evaluate Plain is_over
evaluate-Plain s limit =
    if_cases (Plain {A = LifecycleStatus}) (is_nonpos limit.max_attempts) (λ _. refl) (λ _. tt)

scheduled-Unfinished :
    (s : State) (o : Outcome) (r : Result RetryError Schedule)
    → Plain r
    → Unfinished (scheduled s o r).error
unfolding scheduled Plain Unfinished
scheduled-Unfinished s o (ok x) p = tt
scheduled-Unfinished s o (err e) p = p

evaluated-Unfinished :
    (c : Coordinator) (now : ℤ) (s : State) (o : Outcome) (r : Result RetryError LifecycleStatus)
    → evaluate (some s) c.limit ≡ r
    → Plain r
    → Unfinished (evaluated c now s o r).error
unfolding evaluated concluded Plain Unfinished
evaluated-Unfinished c now s o (err e) is p = p
evaluated-Unfinished c now s o (ok retryable) is p =
    scheduled-Unfinished s _ _ (next_schedule-Plain s c.backoff c.limit now is)
evaluated-Unfinished c now s o (ok empty) is p = tt
evaluated-Unfinished c now s o (ok succeeded) is p = tt
evaluated-Unfinished c now s o (ok failed) is p = tt
evaluated-Unfinished c now s o (ok exhausted) is p = tt

delivered-Unfinished :
    (c : Coordinator) (now : ℤ) (s : State) (d : DeliveryResult × Option Err)
    → IsOpen (latest s)
    → Unfinished (delivered_now c now s d).error
unfolding delivered_now recorded
delivered-Unfinished c now s d o = simp (record_open s d.0 d.1 o) (
    evaluated-Unfinished c now (append_attempt s d.0 d.1) _ _ refl
      (evaluate-Plain (some (append_attempt s d.0 d.1)) c.limit))

proceed-Unfinished :
    (c : Coordinator) (ended : Option ContextErr) (now : ℤ) (s : State)
    (d : DeliveryResult × Option Err) (status : LifecycleStatus)
    → is_live status ≡ true
    → CanRun s c.limit.max_attempts
    → Unfinished (proceed c ended now s d status).error
unfolding proceed refuse Unfinished is_over
proceed-Unfinished c (some e) now s d empty live can = refl
proceed-Unfinished c (some e) now s d retryable live can = refl
proceed-Unfinished c none now s d empty live can = delivered-Unfinished c now s d can.unfinished
proceed-Unfinished c none now s d retryable live can = delivered-Unfinished c now s d can.unfinished
proceed-Unfinished c ended now s d succeeded live can = absurd (cc)
proceed-Unfinished c ended now s d failed live can = absurd (cc)
proceed-Unfinished c ended now s d exhausted live can = absurd (cc)

pub attempt-Unfinished :
    (c : Coordinator) (ended : Option ContextErr) (s : State) (d : DeliveryResult × Option Err)
    (now : ℤ) (status : LifecycleStatus)
    → evaluate (some s) c.limit ≡ ok status
    → is_live status ≡ true
    → Unfinished (attempt c ended (some s) d now).error
unfolding attempt preflight
attempt-Unfinished c ended s d now status is live =
    rw is
      (proceed-Unfinished c ended now s d status live (evaluate-CanRun s c.limit status is live))
