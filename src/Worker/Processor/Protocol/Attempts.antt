-- ===== src/Worker/Processor/Protocol/Attempts.antt =====
-- internal/worker/processor.go: every processing keeps to the protocol.
use mailx.Base.{Bool, true, false, Option, none, some, List, [], ◌∷◌, ◌≡◌, arith, if◌then◌else◌, ok}
use mailx.Base.Text.{Text}
use mailx.Delivery.Request.{Request}
use mailx.Retry.Policy.{RetryError}
use mailx.Retry.State.{State, DeliveryAttempt, latest}
use mailx.Retry.Limit.{LifecycleStatus, empty, retryable, succeeded, failed, exhausted, evaluate}
use mailx.Retry.Coordinator.{Outcome, Attempted}
use mailx.Retry.Coordinator.Lifecycle.{is_live}
use mailx.Retry.Coordinator.Refusal.{Unfinished, attempt-Unfinished}
use mailx.Retry.Schedule.Errors.{is_over}
use mailx.Retry.Schedule.{Schedule}
use mailx.Bounce.Dsn.{Dsn}
use mailx.Worker.World.{
  World, Durable, Stored, Answer, saved, already_terminal, unavailable, Round, Event, sent,
  claim_renewed, outcome_offered, Closing, attempt_start,
}
use mailx.Worker.Persist.{persist_outcome, persist_round}
use mailx.Worker.Processor.{
  settle, persisted, attempted, after_attempt, after_error, run_attempt, request_for, attempt_for,
  state_after, built, retry_at, handle_attempt_error,
}
use mailx.Worker.Processor.Protocol.{
  Phase, opened, going, over, after, IsCleared, needed, ends_all, is_final, sends, renews, offers,
  builds, Steps, stay, go,
}
use mailx.Worker.Processor.Protocol.Runs.{append, one, is_ack}

-- A lifecycle that the coordinator goes on with.
abbrev pub IsLive : World → State → Type 0
IsLive w s =
    (status : LifecycleStatus) × (evaluate (some s) w.coordinator.limit ≡ ok status)
    × (is_live status ≡ true)

module _ (w : World) (held : List Text) (t : Bool) where
  -- Where the persistence of an outcome leads.
  unfoldable pub Leads : Outcome → List Event × Option Closing → Type 0
  unfolding is_final
  Leads o (es, none) =
      Steps w (opened held (going t)) es (opened held (after t (is_final o.status)))
  Leads o (es, some c) = Steps w (opened held (going t)) es (opened held (after t (is_ack c)))

  offered :
      (a : DeliveryAttempt) (o : Outcome) (answer : Answer) (es : List Event) (q : Phase)
      → Steps w (opened held (after t (ends_all (is_final o.status) answer))) es q
      → Steps w (opened held (going t)) (claim_renewed ∷ outcome_offered a o answer ∷ es) q
  offered a o answer es q more = go _ (opened held (going t)) q _ _ (renews held t) (
      go _ (opened held (after t (ends_all (is_final o.status) answer))) q _ es
        (offers held t a o answer) more)

  round-Leads :
      (a : DeliveryAttempt) (o : Outcome) (answer : Answer) (stopping : Bool)
      (later : List Event × Option Closing)
      → Leads o later
      → Leads o (persist_round a o answer stopping later)
  unfolding Leads persist_round ends_all
  round-Leads a o saved stopping later h = offered a o saved [] _ (stay _)
  round-Leads a o already_terminal stopping later h = offered a o already_terminal [] _ (stay _)
  round-Leads a o unavailable true later h = offered a o unavailable [] _ (stay _)
  round-Leads a o unavailable false (es, none) h = offered a o unavailable es _ h
  round-Leads a o unavailable false (es, some c) h = offered a o unavailable es _ h

  persist-Leads :
      (a : DeliveryAttempt) (o : Outcome) (rounds : List Round)
      → Leads o (persist_outcome a o rounds)
  unfolding Leads persist_outcome
  persist-Leads a o [] = stay _
  persist-Leads a o (r ∷ more) =
      round-Leads a o r.answer r.stopping (persist_outcome a o more) (persist-Leads a o more)

  built-Steps : (d : Option Dsn) → Steps w (opened held over) (built d) (opened held over)
  unfolding built
  built-Steps none = stay _
  built-Steps (some d) = one w _ _ _ (builds held d)

  -- Steps to the closing, from what is known to be durable.
  unfoldable pub Settles : Bool → List Event × Closing → Type 0
  Settles b (es, c) = Steps w (opened held (after t b)) es (opened held (after t (is_ack c)))

  retry-Settles : (x : Option Schedule) → Settles false ([], retry_at w x)
  unfolding Settles retry_at
  retry-Settles none = stay _
  retry-Settles (some s) = stay _

  settle-Settles :
      (m : Stored) (s : State) (o : Outcome) (status : LifecycleStatus)
      → Settles (is_final status) (settle w m s o status)
  unfolding Settles settle is_final
  settle-Settles m s o empty = stay _
  settle-Settles m s o retryable = retry-Settles o.schedule
  settle-Settles m s o succeeded = stay _
  settle-Settles m s o failed = built-Steps _
  settle-Settles m s o exhausted = built-Steps _

  persisted-Settles :
      (m : Stored) (s : State) (o : Outcome) (x : List Event × Option Closing)
      → Leads o x
      → Settles false (persisted w m s o x)
  unfolding Settles persisted Leads is_final
  persisted-Settles m s o (es, some c) h = h
  persisted-Settles m s o (es, none) h =
      append w (opened held (going t)) (opened held (after t (is_final o.status))) _ es _ h
        (settle-Settles m s o o.status)

  attempted-Settles :
      (m : Stored) (s : State) (o : Outcome) (a : Option DeliveryAttempt)
      → Settles false (attempted w m s o a)
  unfolding Settles attempted
  attempted-Settles m s o none = stay _
  attempted-Settles m s o (some a) =
      persisted-Settles m s o (persist_outcome a o w.rounds) (persist-Leads a o w.rounds)

  error-Settles : (e : RetryError) → is_over e ≡ false → is_ack (handle_attempt_error w e) ≡ false
  unfolding is_over handle_attempt_error
  error-Settles e h = ground arith

  -- From before the attempt, with the state that is left.
  unfoldable pub Closes : List Event × Closing × State → Type 0
  Closes (es, c, s) = Steps w (opened held (going false)) es (opened held (after t (is_ack c)))

  error-Closes :
      (m : Stored) (s : State) (o : Outcome) (es : List Event) (e : Option RetryError)
      → Steps w (opened held (going false)) es (opened held (going t))
      → Unfinished e
      → Closes (after_error w m s o es e)
  unfolding Closes after_error Unfinished Settles
  error-Closes m s o es (some e) h plain = rw (error-Settles e plain) h
  error-Closes m s o es none h plain =
      append w (opened held (going false)) (opened held (going t)) _ es _ h
        (attempted-Settles m s o (latest s))

module _ (w : World) (held : List Text) where
  transport-Steps :
      (req : Request) (b : Bool)
      → held ≡ needed w req.domain
      → IsCleared w req
      → Steps w
          (opened held (going false))
          (if b then sent req ∷ [] else [])
          (opened held (going b))
  transport-Steps req true h clear = one w _ _ _ (sends held req h clear)
  transport-Steps req false h clear = stay _

  after-Closes :
      (m : Stored) (req : Request) (s : State) (a : Attempted)
      → held ≡ needed w req.domain
      → IsCleared w req
      → Unfinished a.error
      → Closes w held a.delivered (after_attempt w m req s a)
  unfolding after_attempt
  after-Closes m req s a h clear plain =
      error-Closes w held a.delivered m (state_after s a.state) a.outcome _ a.error
        (transport-Steps req a.delivered h clear) plain

  pub run-Closes :
      (d : Durable) (m : Stored) (s : State) (recipients : List Text) (domain : Text)
      → held ≡ needed w domain
      → IsCleared w (request_for d m recipients domain)
      → IsLive w s
      → (t : Bool) × Closes w held t (run_attempt w d m s recipients domain)
  unfolding run_attempt attempt_for request_for
  run-Closes d m s recipients domain h clear (status, is, live) =
      let req = request_for d m recipients domain in
      let a = attempt_for w s req in
      (
        a.delivered,
        after-Closes m req s a h clear (
            attempt-Unfinished w.coordinator w.ended s (w.deliver req) (w.clock attempt_start)
              status is live),
      )
