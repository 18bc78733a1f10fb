-- ===== src/Worker/Processor.antt =====
-- internal/worker/processor.go, state_store.go: one claimed job, from the durable state to the
-- `Ack` or the `Release`. Panics, logs and metrics are not modelled.
pub mod Protocol
pub mod Accepted
pub mod Ended
pub mod Endings
use mailx.Base.{
  ℕ, ◌+◌, Bool, true, false, Option, none, some, List, [], ◌∷◌, ◌++◌, ◌&&◌, ◌||◌, not, ◌==◌,
  if◌then◌else◌, Result, ok, err,
}
use mailx.Base.Int.{ℤ, pos, ◌+ℤ◌, ltb_ℤ}
use mailx.Base.Text.{Text, trim_space, is_empty}
use mailx.Errors.{Err}
use mailx.Smtp.Session.{Envelope}
use mailx.Smtp.Validation.{is_bracketed}
use mailx.Delivery.Request.{Request, after_last_at}
use mailx.Suppression.{without_first, without_last}
use mailx.Retry.Policy.{RetryError, not_retryable, retry_exhausted}
use mailx.Retry.State.{State, DeliveryAttempt, latest}
use mailx.Retry.Limit.{LifecycleStatus, empty, retryable, succeeded, failed, exhausted}
use mailx.Retry.Coordinator.{Coordinator, Outcome, Attempted, attempt}
use mailx.Retry.Schedule.{Schedule}
use mailx.Bounce.Classify.{ClassifyError, Failure, classify}
use mailx.Bounce.Dsn.{BounceError, Dsn, should_generate, new_dsn}
use mailx.Worker.Persist.{persist_outcome}
use mailx.Worker.Notify.{handle_terminal_failure}
use mailx.Worker.World.{
  Durable, Answer, saved, already_terminal, unavailable, Round, World, Stored, Event, sent,
  claim_renewed, outcome_offered, notification_built, acked, released_at, Closing, to_ack,
  to_release, left_claimed, running, Processed, due_check, attempt_start, closing_time,
}
use mailx.Worker.Hold.{is_held, member_disabled_hold}
use mailx.Worker.Suppress.{Enforced, handled, passed, enforce_suppression}
use mailx.Worker.Permit.{Acquired, refused, permitted, acquire_permits, freed, taken}

-- `getOrSet`, on the entry of the job.
unfoldable pub get_or_set : Option State → Option State → State
get_or_set (some s) initial = s
get_or_set none (some s) = s
get_or_set none none = record { delivery_attempts = [] }

non_empty : Option Text → Option Text
unfolding is_empty
non_empty none = none
non_empty (some d) = if is_empty d then none else some d

-- The domain of one recipient.
unfoldable pub domain_of : Text → Option Text
unfolding trim_space is_bracketed after_last_at without_first without_last non_empty
domain_of recipient =
    let addr = trim_space recipient in
    if not (is_bracketed addr)
    then none
    else non_empty (after_last_at (without_last (without_first addr)))

-- `recipientDomain`
unfoldable pub recipient_domain : List Text → Option Text
unfolding domain_of
recipient_domain [] = none
recipient_domain (r ∷ rs) = domain_of r

built : Option Dsn → List Event
built none = []
built (some d) = notification_built d ∷ []

-- `handleAttemptError`
unfoldable pub handle_attempt_error : World → RetryError → Closing
handle_attempt_error w not_retryable = to_ack
handle_attempt_error w retry_exhausted = to_ack
handle_attempt_error w e = to_release (w.clock closing_time)

retry_at : World → Option Schedule → Closing
retry_at w none = to_release (w.clock closing_time)
retry_at w (some s) = to_release s.next_retry_at

-- The `switch` on the status of a durable outcome.
settle : World → Stored → State → Outcome → LifecycleStatus → List Event × Closing
unfolding handle_terminal_failure built retry_at
settle w m s o empty = ([], to_release (w.clock closing_time))
settle w m s o retryable = ([], retry_at w o.schedule)
settle w m s o succeeded = ([], to_ack)
settle w m s o failed = (built (handle_terminal_failure w m s failed), to_ack)
settle w m s o exhausted = (built (handle_terminal_failure w m s exhausted), to_ack)

persisted : World → Stored → State → Outcome → List Event × Option Closing → List Event × Closing
unfolding settle
persisted w m s o (events, some closing) = (events, closing)
persisted w m s o (events, none) =
    let (more, closing) = settle w m s o o.status in (events ++ more, closing)

-- After a call of the coordinator without an error.
attempted : World → Stored → State → Outcome → Option DeliveryAttempt → List Event × Closing
unfolding persisted persist_outcome
attempted w m s o none = ([], to_release (w.clock closing_time))
attempted w m s o (some a) = persisted w m s o (persist_outcome a o w.rounds)

-- The state is shared with the coordinator, which leaves its own in the store.
state_after : State → Option State → State
state_after s none = s
state_after s (some t) = t

after_error :
    World → Stored → State → Outcome → List Event → Option RetryError → List Event × Closing × State
unfolding handle_attempt_error attempted latest
after_error w m t o transport (some e) = (transport, handle_attempt_error w e, t)
after_error w m t o transport none =
    let (events, closing) = attempted w m t o (latest t) in (transport ++ events, closing, t)

after_attempt : World → Stored → Request → State → Attempted → List Event × Closing × State
unfolding state_after after_error
after_attempt w m req s a =
    after_error w m (state_after s a.state) a.outcome (if a.delivered then sent req ∷ [] else [])
      a.error

member_of : Option Text → Text
member_of none = []
member_of (some member) = member

-- `delivery.Request`
pub request_for : Durable → Stored → List Text → Text → Request
unfolding member_of
request_for d m recipients domain = record {
  domain = domain;
  envelope = record { mail_from = m.envelope.mail_from; recipients = recipients };
  raw = m.raw;
  member_id = member_of d.sending_member_id;
}

-- `Coordinator.Attempt`
attempt_for : World → State → Request → Attempted
unfolding attempt
attempt_for w s req = attempt w.coordinator w.ended (some s) (w.deliver req) (w.clock attempt_start)

pub run_attempt : World → Durable → Stored → State → List Text → Text → List Event × Closing × State
unfolding request_for attempt_for after_attempt
run_attempt w d m s recipients domain =
    let req = request_for d m recipients domain in after_attempt w m req s (attempt_for w s req)

-- `ack` and `release`.
close : Closing → List Event
close to_ack = acked ∷ []
close (to_release t) = released_at t ∷ []
close left_claimed = []
close running = []

-- `defer donePermits()`, which does not run while the call does.
free_at_end : Closing → List Text → List Event
free_at_end running held = []
free_at_end _ held = freed held

-- The entry of the job: an `Ack` that is taken deletes it.
cached_after : World → Closing → Option State → Option State
cached_after w to_ack s = if w.ack_taken then none else s
cached_after w _ s = s

pub conclude : World → List Event → List Text → Closing → Option State → Processed
unfolding close free_at_end cached_after
conclude w events held closing s = record {
  trace = events ++ (close closing ++ free_at_end closing held);
  closing = closing;
  cached = cached_after w closing s;
}

-- With the permits.
after_permits :
    World → Durable → Stored → State → List Text → Text → List Event → Acquired → Processed
unfolding conclude run_attempt
after_permits w d m s recipients domain before (refused events t) =
    conclude w (before ++ events) [] (to_release t) (some s)
after_permits w d m s recipients domain before (permitted held) =
    let (events, closing, t) = run_attempt w d m s recipients domain in
    conclude w (before ++ (taken held ++ events)) held closing (some t)

-- With the domain.
after_domain : World → Durable → Stored → State → List Text → List Event → Option Text → Processed
unfolding conclude after_permits acquire_permits
after_domain w d m s recipients before none =
    conclude w before [] (to_release (w.clock closing_time)) (some s)
after_domain w d m s recipients before (some domain) =
    after_permits w d m s recipients domain before (acquire_permits w domain)

after_suppression : World → Durable → Stored → State → Enforced → Processed
unfolding conclude after_domain recipient_domain
after_suppression w d m s (handled events closing) = conclude w events [] closing (some s)
after_suppression w d m s (passed events recipients) =
    after_domain w d m s recipients events (recipient_domain recipients)

-- With the message.
after_message : World → Durable → State → Option Stored → Processed
unfolding conclude after_suppression enforce_suppression
after_message w d s none = conclude w [] [] (to_release (w.clock closing_time)) (some s)
after_message w d s (some m) =
    after_suppression w d m s (enforce_suppression w m.envelope.recipients)

-- `NextRetryAt`, where it is still to come.
unfoldable pub not_yet : World → Option ℤ → Bool
not_yet w none = false
not_yet w (some t) = ltb_ℤ (w.clock due_check) t

instant_of : Option ℤ → ℤ
instant_of none = pos 0
instant_of (some t) = t

-- With the durable state of a message that has not ended.
after_unfinished : World → Option State → Durable → Processed
unfolding conclude not_yet instant_of is_held after_message get_or_set ◌+ℤ◌
after_unfinished w cached d =
    if not_yet w d.next_retry_at
    then conclude w [] [] (to_release (instant_of d.next_retry_at)) cached
    else if is_held w d.sending_member_id
    then conclude w [] [] (to_release (w.clock closing_time +ℤ member_disabled_hold)) cached
    else after_message w d (get_or_set cached d.retry_state) w.load_message

after_durable : World → Option State → Durable → Processed
unfolding conclude after_unfinished
after_durable w cached d =
    if d.terminal then conclude w [] [] to_ack cached else after_unfinished w cached d

after_load : World → Option State → Option Durable → Processed
unfolding after_durable conclude
after_load w cached none = conclude w [] [] (to_release (w.clock closing_time)) cached
after_load w cached (some d) = after_durable w cached d

-- `processOne`, with the state that the store has for the job.
unfoldable pub process_one : World → Option State → Processed
unfolding after_load
process_one w cached = after_load w cached w.load_durable
