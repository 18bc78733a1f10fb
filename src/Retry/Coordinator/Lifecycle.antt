-- ===== src/Retry/Coordinator/Lifecycle.antt =====
-- internal/retry/coordinator.go: what one call does to a lifecycle, and any sequence of calls.
use mailx.Base.{
  ℕ, ◌≤◌, ◌<◌, ◌≡◌, ◌≢◌, refl, Bool, true, false, Option, none, some, List, [], ◌∷◌, length,
  length-append, arith, ◌⊎◌, inl, inr, Bool-cases, Result, ok, err, Result-cases, get_last?,
}
use mailx.Base.Int.{ℤ, pos, negsuc, pos_part, is_nonpos, leb_ℤ}
use mailx.Errors.{Err, ContextErr}
use mailx.Delivery.Result.{DeliveryResult}
use mailx.Retry.Policy.{Decision, retry, terminal_failure, terminal_success, RetryError}
use mailx.Retry.State.{State, DeliveryAttempt, append_attempt, latest, count, attempt_after}
use mailx.Retry.State.Lifecycle.{IsLifecycle, IsOpen, append-IsLifecycle, record_open}
use mailx.Retry.Limit.{
  AttemptLimit, LifecycleStatus, empty, retryable, succeeded, failed, exhausted, evaluate,
  evaluate_some, evaluate_state, status_of,
}
use mailx.Retry.Schedule.{Schedule}
use mailx.Retry.Coordinator.{
  Coordinator, Outcome, Attempted, attempt, preflight, proceed, delivered_now, recorded, evaluated,
  concluded, scheduled, refuse,
}

-- A status under which the coordinator delivers.
abbrev pub is_live : LifecycleStatus → Bool
is_live empty = true
is_live retryable = true
is_live _ = false

-- The lifecycle has room for one more operation.
pub record CanRun (s : State) (max : ℤ) : Type 0 where
  pub unfinished : IsOpen (latest s)
  pub below : count s < pos_part max

last_none {ℓ} : {A : Type ℓ} (xs : List A) → get_last? xs ≡ none → length xs ≡ 0
last_none [] h = refl
last_none (x ∷ []) h = ground arith
last_none (x ∷ y ∷ more) h = ground (arith, last_none (y ∷ more))

status_live :
    (d : Decision) (n : ℕ) (max : ℤ)
    → is_live (status_of d n max) ≡ true
    → (d ≡ retry) × (leb_ℤ max (pos n) ≡ false)
unfolding status_of
status_live terminal_failure n max live = ground arith
status_live terminal_success n max live = ground arith
status_live retry n max live = ground arith

status-CanRun :
    (s : State) (max : ℤ) (o : Option DeliveryAttempt)
    → latest s ≡ o
    → is_nonpos max ≡ false
    → is_live (evaluate_state s max) ≡ true
    → CanRun s max
unfolding evaluate_state status_of latest count
status-CanRun s (negsuc m) o is p live = ground arith
status-CanRun s (pos m) none is p live = record {
  unfinished = rw is tt;
  below = ground (arith, last_none s.delivery_attempts is);
}
status-CanRun s (pos m) (some a) is p live =
    let (d, b) = status_live a.decision (count s) (pos m) (ground arith) in
    record { unfinished = rw is d; below = ground (arith, b) }

pub evaluate-CanRun :
    (s : State) (limit : AttemptLimit) (status : LifecycleStatus)
    → evaluate (some s) limit ≡ ok status
    → is_live status ≡ true
    → CanRun s limit.max_attempts
unfolding evaluate evaluate_some
evaluate-CanRun s limit status h live = elim (Bool-cases (is_nonpos limit.max_attempts)) [
  | inl none_left ↦ ground arith
  | inr room ↦ status-CanRun s limit.max_attempts (latest s) refl room (ground arith)
]

-- What `Attempt` did: it delivered once and recorded that, or left the lifecycle alone.
abbrev pub Advanced :
    Coordinator → Option ContextErr → State → DeliveryResult × Option Err → Attempted → Type 0
Advanced c ended s d a =
    ((a.delivered ≡ true)
      × (a.state ≡ some (append_attempt s d.0 d.1))
      × (ended ≡ none)
      × CanRun s c.limit.max_attempts)
    ⊎ ((a.delivered ≡ false) × (a.state ≡ some s) × (a.error ≢ none) × (a.outcome.schedule ≡ none))

scheduled_state :
    (s : State) (o : Outcome) (r : Result RetryError Schedule)
    → ((scheduled s o r).delivered ≡ true) × ((scheduled s o r).state ≡ some s)
unfolding scheduled
scheduled_state s o (ok x) = (refl, refl)
scheduled_state s o (err e) = (refl, refl)

evaluated_state :
    (c : Coordinator) (now : ℤ) (s : State) (o : Outcome) (r : Result RetryError LifecycleStatus)
    → ((evaluated c now s o r).delivered ≡ true) × ((evaluated c now s o r).state ≡ some s)
unfolding evaluated concluded
evaluated_state c now s o (err e) = (refl, refl)
evaluated_state c now s o (ok retryable) = scheduled_state s _ _
evaluated_state c now s o (ok empty) = (refl, refl)
evaluated_state c now s o (ok succeeded) = (refl, refl)
evaluated_state c now s o (ok failed) = (refl, refl)
evaluated_state c now s o (ok exhausted) = (refl, refl)

delivered_state :
    (c : Coordinator) (now : ℤ) (s : State) (d : DeliveryResult × Option Err)
    → IsOpen (latest s)
    → ((delivered_now c now s d).delivered ≡ true)
      × ((delivered_now c now s d).state ≡ some (append_attempt s d.0 d.1))
unfolding delivered_now recorded
delivered_state c now s d o =
    simp (record_open s d.0 d.1 o) (evaluated_state c now (append_attempt s d.0 d.1) _ _)

proceed-Advanced :
    (c : Coordinator) (ended : Option ContextErr) (now : ℤ) (s : State)
    (d : DeliveryResult × Option Err) (status : LifecycleStatus)
    → (is_live status ≡ true → CanRun s c.limit.max_attempts)
    → Advanced c ended s d (proceed c ended now s d status)
unfolding proceed refuse
proceed-Advanced c ended now s d succeeded can = inr (refl, refl, ground arith, refl)
proceed-Advanced c ended now s d failed can = inr (refl, refl, ground arith, refl)
proceed-Advanced c ended now s d exhausted can = inr (refl, refl, ground arith, refl)
proceed-Advanced c (some e) now s d empty can = inr (refl, refl, ground arith, refl)
proceed-Advanced c (some e) now s d retryable can = inr (refl, refl, ground arith, refl)
proceed-Advanced c none now s d empty can =
    let (a, b) = delivered_state c now s d (can refl).unfinished in inl (a, b, refl, can refl)
proceed-Advanced c none now s d retryable can =
    let (a, b) = delivered_state c now s d (can refl).unfinished in inl (a, b, refl, can refl)

-- A call of the coordinator on a lifecycle either delivers once, with the context alive, the
-- latest attempt to be retried and fewer attempts than the limit, and appends that attempt;
-- or it does not deliver, leaves the lifecycle alone, and returns an error and no schedule.
attempt-Advanced :
    (c : Coordinator) (ended : Option ContextErr) (s : State) (d : DeliveryResult × Option Err)
    (now : ℤ)
    → Advanced c ended s d (attempt c ended (some s) d now)
unfolding attempt preflight refuse
attempt-Advanced c ended s d now = elim (Result-cases (evaluate (some s) c.limit)) [
  | inr (status, is) ↦
      simp is
        (proceed-Advanced c ended now s d status λ live. evaluate-CanRun s c.limit status is live)
  | inl (e, is) ↦ simp is (inr (refl, refl, ground arith, refl))
]

-- One call after another on one lifecycle; a call is the context, the delivery and the time.
unfoldable pub serve :
    Coordinator → State → List (Option ContextErr × (DeliveryResult × Option Err) × ℤ) → State
serve c s [] = s
serve c s ((ended, d, now) ∷ more) =
    serve c (elim (attempt c ended (some s) d now).state [ some t ↦ t | none ↦ s ]) more

-- Numbered, all but the last to be retried, and within the limit.
pub record IsBounded (c : Coordinator) (s : State) : Type 0 where
  pub shape : IsLifecycle s
  pub bound : count s ≤ pos_part c.limit.max_attempts

next-IsBounded :
    (c : Coordinator) (ended : Option ContextErr) (s : State) (d : DeliveryResult × Option Err)
    (now : ℤ)
    → IsBounded c s
    → IsBounded c (elim (attempt c ended (some s) d now).state [ some t ↦ t | none ↦ s ])
unfolding count append_attempt
next-IsBounded c ended s d now b = elim (attempt-Advanced c ended s d now) [
  | inl (made, is, alive, can) ↦ rw is (record {
    shape = append-IsLifecycle s d.0 d.1 b.shape can.unfinished;
    bound =
        omega (arith, can.below, length-append s.delivery_attempts (attempt_after s d.0 d.1 ∷ []));
  })
  | inr (made, is, e, none_planned) ↦ rw is b
]

serve_kept :
    (c : Coordinator) (calls : List (Option ContextErr × (DeliveryResult × Option Err) × ℤ))
    (s : State)
    → IsBounded c s
    → IsBounded c (serve c s calls)
unfolding serve
serve_kept c [] s b = b
serve_kept c ((ended, d, now) ∷ more) s b = serve_kept c more _ (next-IsBounded c ended s d now b)

-- Whatever the deliveries answer and whenever a context ends, calls of the coordinator on a new
-- lifecycle leave a history that is numbered from 1, has only attempts to be retried before its
-- last, and is no longer than the limit.
pub serve-IsBounded :
    (c : Coordinator) (calls : List (Option ContextErr × (DeliveryResult × Option Err) × ℤ))
    → IsBounded c (serve c (record { delivery_attempts = [] }) calls)
unfolding count
serve-IsBounded c calls =
    serve_kept c calls _
      (record { shape = record { numbered = tt; retried = tt }; bound = omega arith })
