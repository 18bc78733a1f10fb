-- ===== src/Worker/Processor/Protocol.antt =====
-- internal/worker/processor.go, permits.go: the order in which one claim may be processed, as a step
-- relation on what an observer keeps: the permits that are held, and whether the end of the
-- message is durable.
pub mod Runs
pub mod Attempts
pub mod Gates
pub mod Orderly
use mailx.Base.{Bool, true, false, Option, none, some, List, [], ◌∷◌, ◌++◌, ◌≡◌, All, any}
use mailx.Base.Int.{ℤ}
use mailx.Base.Text.{Text, text_eq}
use mailx.Delivery.Request.{Request}
use mailx.Retry.State.{DeliveryAttempt}
use mailx.Retry.Limit.{LifecycleStatus, empty, retryable, succeeded, failed, exhausted}
use mailx.Retry.Coordinator.{Outcome}
use mailx.Bounce.Dsn.{Dsn}
use mailx.Worker.World.{
  Durable, Answer, saved, already_terminal, unavailable, World, Permits, Event,
  suppression_recorded, permit_acquired, sent, claim_renewed, outcome_offered, notification_built,
  acked, released_at, permit_freed, Closing, to_ack, to_release, left_claimed, running,
  SuppressionGate, Stored,
}
use mailx.Worker.Hold.{is_held}
use mailx.Worker.Suppress.{keys, is_suppressed}
use mailx.Worker.Processor.Endings.{gives_up, tries_on}
use mailx.Worker.Processor.{not_yet, recipient_domain}

-- Whether the delivery was tried, or the end of the message is durable.
pub data Progress : Type 0 where
  going : Bool → Progress
  over : Progress

-- Before and after the `Ack` or the `Release`, with the permits that are held.
pub data Phase : Type 0 where
  opened : List Text → Progress → Phase
  closed : List Text → Phase

abbrev pub after : Bool → Bool → Progress
after tried true = over
after tried false = going tried

-- The permits that an attempt for a domain needs.
pub tenant_keys : Permits → Option (Option Text) → List Text
tenant_keys p none = []
tenant_keys p (some none) = []
tenant_keys p (some (some tenant)) = p.tenant_permit_key tenant ∷ []

pub needed_of : Text → Option Permits → List Text
unfolding tenant_keys
needed_of domain none = []
needed_of domain (some p) = tenant_keys p p.tenant ++ p.destination_permit_key domain ∷ []

unfoldable pub needed : World → Text → List Text
unfolding needed_of
needed w domain = needed_of domain w.permits

-- Whether an answer makes the end of the message durable.
unfoldable pub ends_all : Bool → Answer → Bool
ends_all all saved = all
ends_all all already_terminal = true
ends_all all unavailable = false

unfoldable pub is_final : LifecycleStatus → Bool
is_final empty = false
is_final retryable = false
is_final _ = true

pub start_of : Option Durable → Phase
start_of none = opened [] (going false)
start_of (some d) = opened [] (after false d.terminal)

unfoldable pub start : World → Phase
unfolding start_of
start w = start_of w.load_durable

-- The message may be attempted now.
pub record IsDue (w : World) (d : Durable) : Type 0 where
  pub loaded : w.load_durable ≡ some d
  pub alive : d.terminal ≡ false
  pub due : not_yet w d.next_retry_at ≡ false
  pub free : is_held w d.sending_member_id ≡ false

-- One of the message's recipients, and not suppressed by the answer of the gate.
abbrev pub Deliverable : World → Stored → Text → Type 0
Deliverable w m r =
    (any (text_eq r) m.envelope.recipients ≡ true)
    × ((gate : SuppressionGate) (answer : List (Text × Bool))
        → w.suppression ≡ some gate
        → gate.suppressed_recipients (keys m.envelope.recipients) ≡ some answer
        → is_suppressed answer r ≡ false)

-- What a request for a message may say.
pub record IsRequest (w : World) (m : Stored) (req : Request) : Type 0 where
  pub stored : w.load_message ≡ some m
  pub sender : req.envelope.mail_from ≡ m.envelope.mail_from
  pub content : req.raw ≡ m.raw
  pub recipients : All (Deliverable w m) req.envelope.recipients
  pub first_domain : recipient_domain req.envelope.recipients ≡ some req.domain

pub record IsCleared (w : World) (req : Request) : Type 0 where
  pub durable : Durable
  pub is_due : IsDue w durable
  pub message : Stored
  pub is_request : IsRequest w message req

pub data Step (w : World) : Phase → Event → Phase → Type 0 where
  records :
      (held : List Text) (m : List (Text × Bool)) (all : Bool) (a : Answer)
      → Step w
          (opened held (going false))
          (suppression_recorded m all a)
          (opened held (after false (ends_all all a)))
  acquires :
      (held : List Text) (k : Text)
      → Step w
          (opened held (going false))
          (permit_acquired k)
          (opened (held ++ k ∷ []) (going false))
  -- Once, with every permit held, while the message has not ended, for what may be sent.
  sends :
      (held : List Text) (req : Request)
      → held ≡ needed w req.domain
      → IsCleared w req
      → Step w (opened held (going false)) (sent req) (opened held (going true))
  renews :
      (held : List Text) (t : Bool)
      → Step w (opened held (going t)) claim_renewed (opened held (going t))
  offers :
      (held : List Text) (t : Bool) (a : DeliveryAttempt) (o : Outcome) (answer : Answer)
      → Step w
          (opened held (going t))
          (outcome_offered a o answer)
          (opened held (after t (ends_all (is_final o.status) answer)))
  -- Only once the end is durable.
  builds :
      (held : List Text) (d : Dsn)
      → Step w (opened held over) (notification_built d) (opened held over)
  acks : (held : List Text) → Step w (opened held over) acked (closed held)
  -- Never once the end is durable.
  releases :
      (held : List Text) (t : Bool) (at : ℤ)
      → Step w (opened held (going t)) (released_at at) (closed held)
  -- The permit that was taken first is given back first.
  frees :
      (k : Text) (held : List Text) (p : Progress)
      → Step w (opened (k ∷ held) p) (permit_freed k) (opened held p)
  frees_late :
      (k : Text) (held : List Text) → Step w (closed (k ∷ held)) (permit_freed k) (closed held)

pub data Steps (w : World) : Phase → List Event → Phase → Type 0 where
  stay : (p : Phase) → Steps w p [] p
  go :
      (p q r : Phase) (e : Event) (es : List Event)
      → Step w p e q
      → Steps w q es r
      → Steps w p (e ∷ es) r

-- Where a processing may end: without `Ack` and without `Release` only as the rounds allow.
pub data Finished (w : World) : Closing → Phase → Type 0 where
  by_ack : Finished w to_ack (closed [])
  by_release : (at : ℤ) → Finished w (to_release at) (closed [])
  by_lease : (t : Bool) → gives_up w.rounds ≡ true → Finished w left_claimed (opened [] (going t))
  not_finished :
      (held : List Text) (t : Bool)
      → tries_on w.rounds ≡ true
      → Finished w running (opened held (going t))
