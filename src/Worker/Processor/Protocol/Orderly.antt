-- ===== src/Worker/Processor/Protocol/Orderly.antt =====
-- internal/worker/processor.go: every processing keeps to the protocol.
use mailx.Base.{
  Bool, true, false, Option, none, some, List, [], ◌++◌, ◌≡◌, refl, if_cases, All, if◌then◌else◌,
}
use mailx.Base.Int.{◌+ℤ◌}
use mailx.Base.Text.{Text}
use mailx.Retry.State.{State}
use mailx.Worker.World.{World, Durable, Stored, Event, to_ack, to_release, closing_time}
use mailx.Worker.Hold.{is_held, member_disabled_hold}
use mailx.Worker.Suppress.{Enforced, handled, passed, enforce_suppression}
use mailx.Worker.Permit.{Acquired, refused, permitted, acquire_permits, taken}
use mailx.Worker.Processor.{
  run_attempt, request_for, conclude, after_permits, after_domain, after_suppression, after_message,
  after_unfinished, after_durable, after_load, process_one, get_or_set, recipient_domain, not_yet,
  instant_of,
}
use mailx.Worker.Processor.Endings.{Excused, run_attempt-Excused}
use mailx.Worker.Processor.Protocol.{
  opened, going, over, after, needed, IsCleared, IsDue, Deliverable, start, start_of, Steps, stay,
}
use mailx.Worker.Processor.Protocol.Gates.{idle, Acquires, from-Acquires, Enforces, with-Enforces}
use mailx.Worker.Processor.Protocol.Runs.{append, taken-Steps, IsOrderly, conclude-IsOrderly}
use mailx.Worker.Processor.Protocol.Attempts.{Closes, run-Closes, IsLive}

module _ (w : World) where
  permits-IsOrderly :
      (d : Durable) (m : Stored) (s : State) (rs : List Text) (domain : Text) (before : List Event)
      (x : Acquired)
      → IsLive w s
      → IsCleared w (request_for d m rs domain)
      → Steps w idle before idle
      → Acquires w (needed w domain) x
      → IsOrderly w idle (after_permits w d m s rs domain before x)
  unfolding after_permits Acquires Closes Excused
  permits-IsOrderly d m s rs domain before (refused es t) live clear h a =
      conclude-IsOrderly w idle (before ++ es) [] false _ (some s)
        (append w idle idle idle before es h a) tt
  permits-IsOrderly d m s rs domain before (permitted held) live clear h a =
      let run = run_attempt w d m s rs domain in
      let (t, closes) = run-Closes w held d m s rs domain a clear live in
      conclude-IsOrderly w idle (before ++ (taken held ++ run.0)) held t run.1 (some run.2)
        (append w idle idle _ before (taken held ++ run.0) h (
          append w idle (opened held (going false)) _ (taken held) run.0 (taken-Steps w [] held)
            closes))
        (run_attempt-Excused w d m s rs domain)

  domain-IsOrderly :
      (d : Durable) (m : Stored) (s : State) (rs : List Text) (before : List Event)
      (domain : Option Text)
      → recipient_domain rs ≡ domain
      → IsLive w s
      → IsDue w d
      → w.load_message ≡ some m
      → All (Deliverable w m) rs
      → Steps w idle before idle
      → IsOrderly w idle (after_domain w d m s rs before domain)
  unfolding Excused after_domain acquire_permits needed request_for
  domain-IsOrderly d m s rs before none is live due stored left h =
      conclude-IsOrderly w idle before [] false _ (some s) h tt
  domain-IsOrderly d m s rs before (some domain) is live due stored left h =
      permits-IsOrderly d m s rs domain before _ live
        (record {
          durable = d;
          is_due = due;
          message = m;
          is_request = record {
            stored = stored;
            sender = refl;
            content = refl;
            recipients = left;
            first_domain = is;
          };
        })
        h (from-Acquires w domain w.permits)

  suppression-IsOrderly :
      (d : Durable) (m : Stored) (s : State) (x : Enforced)
      → IsLive w s
      → IsDue w d
      → w.load_message ≡ some m
      → Enforces w m x
      → IsOrderly w idle (after_suppression w d m s x)
  unfolding after_suppression Enforces
  suppression-IsOrderly d m s (handled es c) live due stored h =
      conclude-IsOrderly w idle es [] false c (some s) h.0 h.1
  suppression-IsOrderly d m s (passed es rs) live due stored h =
      domain-IsOrderly d m s rs es _ refl live due stored h.1 h.0

  message-IsOrderly :
      (d : Durable) (s : State) (m : Option Stored)
      → w.load_message ≡ m
      → IsLive w s
      → IsDue w d
      → IsOrderly w idle (after_message w d s m)
  unfolding Excused after_message enforce_suppression
  message-IsOrderly d s none stored live due =
      conclude-IsOrderly w idle [] [] false _ (some s) (stay _) tt
  message-IsOrderly d s (some m) stored live due =
      suppression-IsOrderly d m s _ live due stored (with-Enforces w m w.suppression refl)

  unfinished-IsOrderly :
      (cached : Option State) (d : Durable)
      → w.load_durable ≡ some d
      → d.terminal ≡ false
      → IsLive w (get_or_set cached d.retry_state)
      → IsOrderly w idle (after_unfinished w cached d)
  unfolding Excused after_unfinished
  unfinished-IsOrderly cached d loaded alive live =
      if_cases (IsOrderly w idle) (not_yet w d.next_retry_at)
        (λ _.
          conclude-IsOrderly w idle [] [] false (to_release (instant_of d.next_retry_at)) cached
            (stay _) tt)
        (λ due.
          if_cases (IsOrderly w idle) (is_held w d.sending_member_id)
            (λ _.
              conclude-IsOrderly w idle [] [] false
                (to_release (w.clock closing_time +ℤ member_disabled_hold)) cached (stay _) tt)
            (λ free.
              message-IsOrderly d (get_or_set cached d.retry_state) w.load_message refl live
                (record { loaded = loaded; alive = alive; due = due; free = free })))

  durable-IsOrderly :
      (cached : Option State) (d : Durable) (ended : Bool)
      → w.load_durable ≡ some d
      → d.terminal ≡ ended
      → IsLive w (get_or_set cached d.retry_state)
      → IsOrderly w
          (opened [] (after false ended))
          (if ended then conclude w [] [] to_ack cached else after_unfinished w cached d)
  unfolding Excused
  durable-IsOrderly cached d true loaded is live =
      conclude-IsOrderly w (opened [] over) [] [] false to_ack cached (stay _) tt
  durable-IsOrderly cached d false loaded is live = unfinished-IsOrderly cached d loaded is live

  load-IsOrderly :
      (cached : Option State) (load : Option Durable)
      → w.load_durable ≡ load
      → ((d : Durable) → load ≡ some d → IsLive w (get_or_set cached d.retry_state))
      → IsOrderly w (start_of load) (after_load w cached load)
  unfolding Excused after_load after_durable start_of
  load-IsOrderly cached none loaded live =
      conclude-IsOrderly w idle [] [] false _ cached (stay _) tt
  load-IsOrderly cached (some d) loaded live =
      durable-IsOrderly cached d d.terminal loaded refl (live d refl)

-- If the lifecycle that the worker takes up is unfinished, its processing of a claim keeps to
-- the protocol: it transmits once at most, only while the message has not durably ended, with
-- every permit that the attempt needs, to recipients of the message that the gate does not
-- suppress, when the retry is due and the member is not held; it builds a notification only
-- after a durable end; it acknowledges the claim only when the end is durable and releases it
-- only when it is not, once at most; and it gives every permit back, in the order taken. It ends
-- without either of the two only after rounds that all failed to make the outcome durable, the
-- context ended in one of them; and it is still at it only if all the rounds so far failed and
-- the context goes on.
pub process_one-IsOrderly :
    (w : World) (cached : Option State)
    → ((d : Durable) → w.load_durable ≡ some d → IsLive w (get_or_set cached d.retry_state))
    → IsOrderly w (start w) (process_one w cached)
unfolding process_one start
process_one-IsOrderly w cached live = load-IsOrderly w cached w.load_durable refl live
