-- ===== src/Worker/World.antt =====
-- internal/worker/outcome_store.go, worker.go: what the worker's dependencies answer while it
-- processes one claim, and what it does, in order. The claim and the message are fixed.
use mailx.Base.{Bool, Option, List}
use mailx.Base.Int.{ℤ}
use mailx.Base.Text.{Text}
use mailx.Errors.{Err, ContextErr}
use mailx.Smtp.Session.{Envelope}
use mailx.Delivery.Request.{Request}
use mailx.Delivery.Result.{DeliveryResult}
use mailx.Retry.State.{State, DeliveryAttempt}
use mailx.Retry.Coordinator.{Coordinator, Outcome}
use mailx.Bounce.Dsn.{Dsn}

-- `DurableDeliveryState`
pub record Durable : Type 0 where
  pub retry_state : Option State
  pub terminal : Bool
  pub next_retry_at : Option ℤ
  pub sending_member_id : Option Text

-- A transaction of the store: made, refused with `ErrOutcomeAlreadyTerminal`, or failed.
pub data Answer : Type 0 where
  saved already_terminal unavailable : Answer

-- One round of persistence, and whether the pool's context ends before the next one.
pub record Round : Type 0 where
  pub answer : Answer
  pub stopping : Bool

-- `SuppressionGate`; `none` is an error.
pub record SuppressionGate : Type 0 where
  pub suppressed_recipients : List Text → Option (List (Text × Bool))
  pub record_suppressed : List (Text × Bool) → Bool → Answer

-- `Permits`, `TenantLookup` and `PermitPolicy`. `tenant` is none for a store without the lookup;
-- an inner none is an error.
pub record Permits : Type 0 where
  pub tenant : Option (Option Text)
  pub tenant_permit_key : Text → Text
  pub destination_permit_key : Text → Text
  pub tenant_granted : Option Bool
  pub destination_granted : Option Bool
  pub deferral : ℤ
  pub jitter_percent : ℤ

-- `storage.StoredMessage`, as far as the worker reads it.
pub record Stored : Type 0 where
  pub envelope : Envelope
  pub raw : Text

-- Where `p.now()` is called: the check of `NextRetryAt`, the attempt, and the release.
pub data Moment : Type 0 where
  due_check attempt_start closing_time : Moment

-- The gates are none for a store that lacks them; an inner none is an error.
pub record World : Type 0 where
  pub job_id : Text
  pub reporting_mta : Text
  pub clock : Moment → ℤ
  pub load_durable : Option Durable
  pub member_known_locally : Option (Text → Bool)
  pub member_routing_enabled : Option (Text → Option Bool)
  pub load_message : Option Stored
  pub suppression : Option SuppressionGate
  pub permits : Option Permits
  pub coordinator : Coordinator
  pub ended : Option ContextErr
  pub deliver : Request → DeliveryResult × Option Err
  pub rounds : List Round
  pub ack_taken : Bool

pub data Event : Type 0 where
  suppression_recorded : List (Text × Bool) → Bool → Answer → Event
  permit_acquired : Text → Event
  sent : Request → Event
  claim_renewed : Event
  outcome_offered : DeliveryAttempt → Outcome → Answer → Event
  notification_built : Dsn → Event
  acked : Event
  released_at : ℤ → Event
  permit_freed : Text → Event

-- How the processing of a claim ends: by `ack`, by `release`, with the claim left to its lease,
-- or not within the rounds of persistence that are given.
pub data Closing : Type 0 where
  to_ack : Closing
  to_release : ℤ → Closing
  left_claimed : Closing
  running : Closing

-- What was done, how it ends, and the state that is cached for the job.
pub record Processed : Type 0 where
  pub trace : List Event
  pub closing : Closing
  pub cached : Option State
