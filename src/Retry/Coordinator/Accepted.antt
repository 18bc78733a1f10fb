-- ===== src/Retry/Coordinator/Accepted.antt =====
-- internal/retry/coordinator.go: a call whose delivery is accepted.
use mailx.Base.{◌≡◌, refl, true, false, Option, none, some, ok, arith, get_last?-snoc}
use mailx.Base.Int.{ℤ, is_nonpos}
use mailx.Errors.{Err, ContextErr}
use mailx.Delivery.Result.{DeliveryResult}
use mailx.Retry.Policy.{decide, terminal_success}
use mailx.Retry.State.{State, append_attempt, attempt_after, latest}
use mailx.Retry.State.Lifecycle.{IsOpen, record_open}
use mailx.Retry.Limit.{
  AttemptLimit, LifecycleStatus, empty, retryable, succeeded, failed, exhausted, evaluate,
  evaluate_some, evaluate_state, status_of,
}
use mailx.Retry.Coordinator.{
  Coordinator, Attempted, attempt, preflight, proceed, delivered_now, recorded, evaluated,
  concluded,
}
use mailx.Retry.Coordinator.Lifecycle.{is_live, CanRun, evaluate-CanRun}

has_limit :
    (s : State) (limit : AttemptLimit) (status : LifecycleStatus)
    → evaluate (some s) limit ≡ ok status
    → is_nonpos limit.max_attempts ≡ false
unfolding evaluate
has_limit s limit status h = ground arith

decides : (r : DeliveryResult) (e : Option Err) → r.accepted ≡ true → decide r e ≡ terminal_success
unfolding decide
decides r e h = ground arith

succeeds :
    (s : State) (d : DeliveryResult × Option Err) (limit : AttemptLimit)
    → is_nonpos limit.max_attempts ≡ false
    → d.0.accepted ≡ true
    → evaluate (some (append_attempt s d.0 d.1)) limit ≡ ok succeeded
unfolding evaluate evaluate_some evaluate_state status_of latest append_attempt attempt_after
succeeds s d limit room accepted =
    rw
      (
        room,
        get_last?-snoc s.delivery_attempts (attempt_after s d.0 d.1),
        evaluate_state,
        decides d.0 d.1 accepted,
      )
      refl

-- The call is recorded as a success.
pub record IsSuccess (s : State) (d : DeliveryResult × Option Err) (a : Attempted) : Type 0 where
  pub delivered : a.delivered ≡ true
  pub recorded : a.state ≡ some (append_attempt s d.0 d.1)
  pub no_error : a.error ≡ none
  pub status : a.outcome.status ≡ succeeded

delivered-IsSuccess :
    (c : Coordinator) (now : ℤ) (s : State) (d : DeliveryResult × Option Err)
    → IsOpen (latest s)
    → is_nonpos c.limit.max_attempts ≡ false
    → d.0.accepted ≡ true
    → IsSuccess s d (delivered_now c now s d)
unfolding delivered_now recorded evaluated concluded
delivered-IsSuccess c now s d o room accepted =
    simp (record_open s d.0 d.1 o, succeeds s d c.limit room accepted)
      (record { delivered = refl; recorded = refl; no_error = refl; status = refl })

proceed-IsSuccess :
    (c : Coordinator) (now : ℤ) (s : State) (d : DeliveryResult × Option Err)
    (status : LifecycleStatus)
    → is_live status ≡ true
    → CanRun s c.limit.max_attempts
    → is_nonpos c.limit.max_attempts ≡ false
    → d.0.accepted ≡ true
    → IsSuccess s d (proceed c none now s d status)
unfolding proceed
proceed-IsSuccess c now s d empty live can = delivered-IsSuccess c now s d can.unfinished
proceed-IsSuccess c now s d retryable live can = delivered-IsSuccess c now s d can.unfinished
proceed-IsSuccess c now s d succeeded live can = absurd (cc)
proceed-IsSuccess c now s d failed live can = absurd (cc)
proceed-IsSuccess c now s d exhausted live can = absurd (cc)

pub attempt-IsSuccess :
    (c : Coordinator) (ended : Option ContextErr) (s : State) (d : DeliveryResult × Option Err)
    (now : ℤ) (status : LifecycleStatus)
    → ended ≡ none
    → evaluate (some s) c.limit ≡ ok status
    → is_live status ≡ true
    → d.0.accepted ≡ true
    → IsSuccess s d (attempt c ended (some s) d now)
unfolding attempt preflight
attempt-IsSuccess c (some e) s d now status alive is live accepted = absurd (cc)
attempt-IsSuccess c none s d now status alive is live accepted = rw is (
    proceed-IsSuccess c now s d status live (evaluate-CanRun s c.limit status is live)
      (has_limit s c.limit status is) accepted)
