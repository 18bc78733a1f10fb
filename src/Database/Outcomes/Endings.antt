-- ===== src/Database/Outcomes/Endings.antt =====
-- internal/database/outcomes.go: what an outcome makes of the status.
use mailx.Base.{
  ◌≡◌, refl, Bool, true, false, none, some, Result, ok, err, arith, inl, inr, Bool-cases, ap, ◌∙◌,
  sym,
}
use mailx.Base.Int.{ℤ}
use mailx.Retry.Policy.{Decision, retry, terminal_success, terminal_failure}
use mailx.Database.Outcomes.{
  Rows, NewAttempt, Effect, event_deferred, status_retrying, StoreError, validate, find_attempt,
  existing, matching_attempt_exists, written, committed, effected, classify_delivery_outcome,
  persist_delivery_outcome, is_terminal,
}
use mailx.Database.Outcomes.Replay.{matches_self, committed-written, committed_duplicate}

abbrev reopening : Effect
reopening = record { status = status_retrying; event = event_deferred; delivered_at = none }

retried :
    (d : Decision) (taken : Bool) (finished : ℤ)
    → d ≡ retry
    → taken ≡ false
    → classify_delivery_outcome d taken finished false ≡ ok reopening
unfolding classify_delivery_outcome
retried retry false finished is refused = refl
retried retry true finished is refused = absurd (cc)
retried terminal_success taken finished is refused = absurd (cc)
retried terminal_failure taken finished is refused = absurd (cc)

recorded_match :
    (r : Rows) (a : NewAttempt)
    → find_attempt a.attempt_number r.attempts ≡ some a
    → matching_attempt_exists r.attempts a ≡ ok true
unfolding matching_attempt_exists existing
recorded_match r a found = ap (existing a) found ∙ rw (matches_self a) refl

-- Whatever the status of the message, an ended one included: if an attempt that was to be retried
-- is recorded, and is presented again without the mark that the retries are exhausted, the
-- message is open afterwards.
pub replay_reopens :
    (now : ℤ) (r : Rows) (a : NewAttempt)
    → validate a ≡ true
    → a.decision ≡ retry
    → a.was_accepted ≡ false
    → find_attempt a.attempt_number r.attempts ≡ some a
    → (after : Rows) × (persist_delivery_outcome now r a false ≡ ok after)
      × (is_terminal after.status ≡ false)
unfolding persist_delivery_outcome effected is_terminal written
replay_reopens now r a valid is refused found = (
  written now r a reopening true,
  rw (valid, persist_delivery_outcome)
      (ap (effected now r a) (retried a.decision a.was_accepted a.finished_at is refused)
        ∙ (ap (committed now r a reopening) (recorded_match r a found)
            ∙ committed_duplicate now r a reopening)),
  refl,
)

committed_status :
    (now : ℤ) (r : Rows) (a : NewAttempt) (e : Effect) (m : Result StoreError Bool) (after : Rows)
    → committed now r a e m ≡ ok after
    → after.status ≡ e.status
unfolding committed written
committed_status now r a e (err x) after h = absurd (cc)
committed_status now r a e (ok d) after h =
    ap (λ x. x.status) (sym (committed-written now r a e d after h))

effected_status :
    (now : ℤ) (r : Rows) (a : NewAttempt) (m : Result StoreError Effect) (after : Rows)
    → effected now r a m ≡ ok after
    → (e : Effect) × (m ≡ ok e) × (after.status ≡ e.status)
unfolding effected
effected_status now r a (err x) after h = absurd (cc)
effected_status now r a (ok e) after h = (e, refl, committed_status now r a e _ after h)

-- A transaction that is made gives the message the status of the outcome.
pub persist_status :
    (now : ℤ) (r : Rows) (a : NewAttempt) (exhausted : Bool) (after : Rows)
    → persist_delivery_outcome now r a exhausted ≡ ok after
    → (e : Effect) × (classify_delivery_outcome a.decision a.was_accepted a.finished_at exhausted
        ≡ ok e)
      × (after.status ≡ e.status)
unfolding persist_delivery_outcome
persist_status now r a exhausted after h = elim (Bool-cases (validate a)) [
  | inl valid ↦ effected_status now r a _ after (ground (arith, valid, h))
  | inr bad ↦ absurd (ground (arith, bad, h))
]
