-- ===== src/Worker/Processor/Endings.antt =====
-- internal/worker/processor.go: the ends of a processing that leave the claim where it is.
use mailx.Base.{
  Bool, true, false, Option, none, some, List, [], ◌∷◌, ◌≡◌, refl, ◌&&◌, ◌||◌, not, arith,
  if◌then◌else◌,
}
use mailx.Base.Text.{Text}
use mailx.Delivery.Request.{Request}
use mailx.Retry.Policy.{RetryError}
use mailx.Retry.State.{State, DeliveryAttempt, latest}
use mailx.Retry.Limit.{LifecycleStatus, empty, retryable, succeeded, failed, exhausted}
use mailx.Retry.Coordinator.{Outcome, Attempted}
use mailx.Retry.Schedule.{Schedule}
use mailx.Worker.World.{
  World, Durable, Stored, Answer, saved, already_terminal, unavailable, Round, Event, sent, Closing,
  to_ack, to_release, left_claimed, running,
}
use mailx.Worker.Persist.{persist_outcome, persist_round}
use mailx.Worker.Processor.{
  settle, persisted, attempted, after_error, after_attempt, run_attempt, retry_at, state_after,
  request_for, attempt_for, handle_attempt_error,
}

is_unavailable : Answer → Bool
is_unavailable unavailable = true
is_unavailable _ = false

-- In every round up to one the outcome could not be made durable, and in that one the context had
-- ended.
unfoldable pub gives_up : List Round → Bool
unfolding is_unavailable
gives_up [] = false
gives_up (r ∷ more) = is_unavailable r.answer && (r.stopping || gives_up more)

-- In every round the outcome could not be made durable, and the context went on.
unfoldable pub tries_on : List Round → Bool
unfolding is_unavailable
tries_on [] = true
tries_on (r ∷ more) = is_unavailable r.answer && (not r.stopping && tries_on more)

-- What the rounds must have been where the claim is neither acknowledged nor released.
unfoldable pub Excused : List Round → Closing → Type 0
Excused rounds to_ack = Unit
Excused rounds (to_release at) = Unit
Excused rounds left_claimed = gives_up rounds ≡ true
Excused rounds running = tries_on rounds ≡ true

unfoldable Persists : List Round → List Event × Option Closing → Type 0
unfolding Excused
Persists rounds (es, none) = Unit
Persists rounds (es, some c) = Excused rounds c

later_Excused :
    (r : Round) (more : List Round) (c : Closing)
    → r.answer ≡ unavailable
    → r.stopping ≡ false
    → Excused more c
    → Excused (r ∷ more) c
unfolding Excused gives_up tries_on
later_Excused r more to_ack lost on h = tt
later_Excused r more (to_release at) lost on h = tt
later_Excused r more left_claimed lost on h = simp (lost, on) h
later_Excused r more running lost on h = simp (lost, on) h

round-Persists :
    (a : DeliveryAttempt) (o : Outcome) (r : Round) (more : List Round) (answer : Answer)
    (stopping : Bool) (later : List Event × Option Closing)
    → r.answer ≡ answer
    → r.stopping ≡ stopping
    → Persists more later
    → Persists (r ∷ more) (persist_round a o answer stopping later)
unfolding Persists persist_round Excused gives_up
round-Persists a o r more saved stopping later is on h = tt
round-Persists a o r more already_terminal stopping later is on h = tt
round-Persists a o r more unavailable true later is on h = simp (is, on) refl
round-Persists a o r more unavailable false (es, none) is on h = tt
round-Persists a o r more unavailable false (es, some c) is on h = later_Excused r more c is on h

persist_outcome-Persists :
    (a : DeliveryAttempt) (o : Outcome) (rounds : List Round)
    → Persists rounds (persist_outcome a o rounds)
unfolding Persists persist_outcome Excused tries_on
persist_outcome-Persists a o [] = refl
persist_outcome-Persists a o (r ∷ more) =
    round-Persists a o r more r.answer r.stopping (persist_outcome a o more) refl refl
      (persist_outcome-Persists a o more)

module _ (w : World) where
  retry_at-Excused : (s : Option Schedule) → Excused w.rounds (retry_at w s)
  unfolding Excused retry_at
  retry_at-Excused none = tt
  retry_at-Excused (some s) = tt

  settle-Excused :
      (m : Stored) (s : State) (o : Outcome) (status : LifecycleStatus)
      → Excused w.rounds (settle w m s o status).1
  unfolding Excused settle
  settle-Excused m s o empty = tt
  settle-Excused m s o retryable = retry_at-Excused o.schedule
  settle-Excused m s o succeeded = tt
  settle-Excused m s o failed = tt
  settle-Excused m s o exhausted = tt

  persisted-Excused :
      (m : Stored) (s : State) (o : Outcome) (x : List Event × Option Closing)
      → Persists w.rounds x
      → Excused w.rounds (persisted w m s o x).1
  unfolding Persists persisted
  persisted-Excused m s o (es, some c) h = h
  persisted-Excused m s o (es, none) h = settle-Excused m s o o.status

  attempted-Excused :
      (m : Stored) (s : State) (o : Outcome) (a : Option DeliveryAttempt)
      → Excused w.rounds (attempted w m s o a).1
  unfolding attempted Excused
  attempted-Excused m s o none = tt
  attempted-Excused m s o (some a) =
      persisted-Excused m s o (persist_outcome a o w.rounds) (persist_outcome-Persists a o w.rounds)

  error_Excused : (e : RetryError) → Excused w.rounds (handle_attempt_error w e)
  unfolding Excused handle_attempt_error
  error_Excused e = ground arith

  after_error-Excused :
      (m : Stored) (s : State) (o : Outcome) (es : List Event) (e : Option RetryError)
      → Excused w.rounds (after_error w m s o es e).1
  unfolding after_error
  after_error-Excused m s o es (some e) = error_Excused e
  after_error-Excused m s o es none = attempted-Excused m s o (latest s)

  after_attempt-Excused :
      (m : Stored) (req : Request) (s : State) (a : Attempted)
      → Excused w.rounds (after_attempt w m req s a).1
  unfolding after_attempt
  after_attempt-Excused m req s a =
      after_error-Excused m (state_after s a.state) a.outcome
        (if a.delivered then sent req ∷ [] else []) a.error

  -- An attempt leaves the claim only as the rounds allow.
  pub run_attempt-Excused :
      (d : Durable) (m : Stored) (s : State) (recipients : List Text) (domain : Text)
      → Excused w.rounds (run_attempt w d m s recipients domain).1
  unfolding run_attempt
  run_attempt-Excused d m s recipients domain =
      let req = request_for d m recipients domain in
      after_attempt-Excused m req s (attempt_for w s req)
