-- ===== src/Worker/Processor/Accepted.antt =====
-- internal/worker/processor.go: a transmission that was accepted.
use mailx.Base.{
  ◌≡◌, refl, ap, ◌∙◌, Bool, true, false, Option, none, some, List, [], ◌∷◌, get_last?-snoc,
}
use mailx.Base.Text.{Text}
use mailx.Errors.{Err}
use mailx.Delivery.Request.{Request}
use mailx.Delivery.Result.{DeliveryResult}
use mailx.Retry.State.{State, DeliveryAttempt, append_attempt, latest, attempt_after}
use mailx.Retry.Limit.{succeeded}
use mailx.Retry.Policy.{RetryError}
use mailx.Retry.Coordinator.{Outcome, Attempted}
use mailx.Retry.Coordinator.Accepted.{IsSuccess, attempt-IsSuccess}
use mailx.Worker.World.{
  World, Durable, Stored, Answer, saved, already_terminal, unavailable, Round, Event, Closing,
  to_release, attempt_start,
}
use mailx.Worker.Persist.{persist_outcome, persist_round}
use mailx.Worker.Processor.{
  settle, persisted, attempted, after_error, after_attempt, run_attempt, request_for, attempt_for,
  state_after,
}
use mailx.Worker.Processor.Endings.{Excused, run_attempt-Excused}
use mailx.Worker.Processor.Protocol.Attempts.{IsLive}

-- The claim stays, or is acknowledged.
unfoldable pub is_kept : Closing → Bool
is_kept (to_release at) = false
is_kept _ = true

-- What persistence leads to for an attempt that is not to be released.
unfoldable Keeps : List Event × Option Closing → Type 0
unfolding is_kept
Keeps (es, none) = Unit
Keeps (es, some c) = is_kept c ≡ true

round-Keeps :
    (a : DeliveryAttempt) (o : Outcome) (answer : Answer) (stopping : Bool)
    (later : List Event × Option Closing)
    → Keeps later
    → Keeps (persist_round a o answer stopping later)
unfolding Keeps persist_round is_kept
round-Keeps a o saved stopping later h = tt
round-Keeps a o already_terminal stopping later h = refl
round-Keeps a o unavailable true later h = refl
round-Keeps a o unavailable false (es, none) h = tt
round-Keeps a o unavailable false (es, some c) h = h

persist-Keeps :
    (a : DeliveryAttempt) (o : Outcome) (rounds : List Round) → Keeps (persist_outcome a o rounds)
unfolding Keeps persist_outcome is_kept
persist-Keeps a o [] = refl
persist-Keeps a o (r ∷ more) =
    round-Keeps a o r.answer r.stopping (persist_outcome a o more) (persist-Keeps a o more)

persisted_kept :
    (w : World) (m : Stored) (s : State) (o : Outcome) (x : List Event × Option Closing)
    → o.status ≡ succeeded
    → Keeps x
    → is_kept (persisted w m s o x).1 ≡ true
unfolding persisted Keeps settle is_kept
persisted_kept w m s o (es, some c) is h = h
persisted_kept w m s o (es, none) is h = simp is refl

attempted_kept :
    (w : World) (m : Stored) (s : State) (o : Outcome) (a : DeliveryAttempt)
    (latest : Option DeliveryAttempt)
    → latest ≡ some a
    → o.status ≡ succeeded
    → is_kept (attempted w m s o latest).1 ≡ true
unfolding attempted
attempted_kept w m s o a none is ok = absurd (cc)
attempted_kept w m s o a (some b) is ok = persisted_kept w m s o _ ok (persist-Keeps b o w.rounds)

error_kept :
    (w : World) (m : Stored) (s : State) (o : Outcome) (es : List Event) (a : DeliveryAttempt)
    (e : Option RetryError)
    → e ≡ none
    → latest s ≡ some a
    → o.status ≡ succeeded
    → is_kept (after_error w m s o es e).1 ≡ true
unfolding after_error
error_kept w m s o es a none is last ok = attempted_kept w m s o a (latest s) last ok
error_kept w m s o es a (some e) is last ok = absurd (cc)

state_after-some : (s t : State) (x : Option State) → x ≡ some t → state_after s x ≡ t
unfolding state_after
state_after-some s t none is = absurd (cc)
state_after-some s t (some u) is = cc

last_of :
    (s : State) (r : DeliveryResult) (e : Option Err)
    → latest (append_attempt s r e) ≡ some (attempt_after s r e)
unfolding latest append_attempt
last_of s r e = get_last?-snoc s.delivery_attempts (attempt_after s r e)

after_kept :
    (w : World) (m : Stored) (req : Request) (s : State) (d : DeliveryResult × Option Err)
    (a : Attempted)
    → IsSuccess s d a
    → is_kept (after_attempt w m req s a).1 ≡ true
unfolding after_attempt
after_kept w m req s d a done =
    let is = state_after-some s (append_attempt s d.0 d.1) a.state done.recorded in
    error_kept w m (state_after s a.state) a.outcome _ (attempt_after s d.0 d.1) a.error
      done.no_error (ap latest is ∙ last_of s d.0 d.1) done.status

run_kept :
    (w : World) (d : Durable) (m : Stored) (s : State) (recipients : List Text) (domain : Text)
    → IsLive w s
    → w.ended ≡ none
    → (w.deliver (request_for d m recipients domain)).0.accepted ≡ true
    → is_kept (run_attempt w d m s recipients domain).1 ≡ true
unfolding run_attempt attempt_for
run_kept w d m s recipients domain (status, is, live) alive accepted =
    let req = request_for d m recipients domain in
    after_kept w m req s (w.deliver req) (attempt_for w s req) (
      attempt-IsSuccess w.coordinator w.ended s (w.deliver req) (w.clock attempt_start) status alive
        is live accepted)

-- If the lifecycle is unfinished, the context is alive and the server accepted the message, the
-- claim is not released. It is acknowledged; or it is left with its lease, only after rounds that
-- all failed to make the outcome durable, the context ended in one of them; or the worker still
-- holds it, only if all the rounds so far failed and the context goes on.
pub accepted_kept :
    (w : World) (d : Durable) (m : Stored) (s : State) (recipients : List Text) (domain : Text)
    → IsLive w s
    → w.ended ≡ none
    → (w.deliver (request_for d m recipients domain)).0.accepted ≡ true
    → (is_kept (run_attempt w d m s recipients domain).1 ≡ true)
      × Excused w.rounds (run_attempt w d m s recipients domain).1
accepted_kept w d m s recipients domain live alive accepted = (
  run_kept w d m s recipients domain live alive accepted,
  run_attempt-Excused w d m s recipients domain,
)
