-- ===== src/Queue/Memory.antt =====
-- internal/queue/memory.go: the bounded in-memory queue. One definition for what a call does
-- each time it holds the mutex. A call that would block returns the channel (and the timer) that
-- it waits on, and goes on by its `resume` function when it is woken.
--
-- `entries` is the Go map as an association list. `avail` is the container/heap of the unclaimed
-- entries: the library's contract (element 0 is least by `Less`) as a list in that order. The Go
-- heap holds pointers to the map's entries, `avail` their values, written wherever the code
-- writes through the pointer.
-- `notify` counts the channels made so far: closing and replacing one is the next number.
pub mod Store
pub mod Agreement
pub mod Change
pub mod Invariant
pub mod Order
pub mod Tokens
pub mod Wakeups
use mailx.Base.{
  ℕ, ◌+◌, ◌%◌, ◌^◌, ◌-◌, Bool, true, false, Option, none, some, List, [], ◌∷◌, ◌&&◌, ◌||◌, not, ltb,
  leb, ◌==◌, if◌then◌else◌, Result, ok, err, is_some, length,
}
use mailx.Base.Int.{ℤ, pos, negsuc, is_nonpos, pos_part}
use mailx.Base.Text.{Text}
use mailx.Queue.Job.{Job, JobError, validate}
use Store.{Entry, find, put, delete, heap_push}

pub data Error : Type 0 where
  invalid_job : JobError → Error
  queue_closed unknown_job job_not_claimed invalid_capacity context_done : Error

pub record Claim : Type 0 where
  pub job : Job
  pub token : ℕ

pub record MemoryQueue : Type 0 where
  pub capacity : ℕ
  pub closed : Bool
  pub entries : List Entry
  pub avail : List Entry
  pub seq : ℕ  -- uint64
  pub next_token : ℕ  -- uint64
  pub notify : ℕ

-- uint64 arithmetic wraps.
abbrev pub u64 : ℕ → ℕ
u64 n = n % 2 ^ 64

unfoldable pub new_memory_queue : ℤ → Result Error MemoryQueue
new_memory_queue capacity =
    if is_nonpos capacity
    then err invalid_capacity
    else ok (record {
      capacity = pos_part capacity;
      closed = false;
      entries = [];
      avail = [];
      seq = 0;
      next_token = 0;
      notify = 0;
    })

unfoldable pub len : MemoryQueue → ℕ
len q = length q.entries

unfoldable pub broadcast : MemoryQueue → MemoryQueue
broadcast q = record q { notify = q.notify + 1 }

-- What one turn of a blocking call comes to.
pub data Turn {ℓ} (A : Type ℓ) : Type ℓ where
  returned : A → Turn A
  waits : (channel : ℕ) (timer : Option ℕ) → Turn A

-- What wakes a waiting call.
pub data Wake : Type 0 where
  context_ended notified timer_fired : Wake

unfoldable pub normalize : ℕ → Job → Job
normalize now job =
    let enqueued = if job.enqueued_at == 0 then now else job.enqueued_at in
    record job {
      enqueued_at = enqueued;
      available_at = if job.available_at == 0 then enqueued else job.available_at;
    }

-- One round of the loop of `Enqueue`.
unfoldable pub enqueue_turn : ℕ → Job → MemoryQueue → MemoryQueue × Turn (Option Error)
unfolding normalize broadcast
enqueue_turn now job q =
    if q.closed
    then (q, returned (some queue_closed))
    else if is_some (find job.id q.entries)
    then (q, returned none)
    else if ltb (length q.entries) q.capacity
    then (let seq : ℕ = u64 (q.seq + 1) in
        let e : Entry = record { job = normalize now job; seq = seq; claimed = false; token = 0 } in
        (
          broadcast
              (record q { seq = seq; entries = put e q.entries; avail = heap_push e q.avail }),
          returned none,
        ))
    else (q, waits q.notify none)

unfoldable pub enqueue : ℕ → Job → MemoryQueue → MemoryQueue × Turn (Option Error)
unfolding enqueue_turn
enqueue now job q = elim (validate job) [
  | some e ↦ (q, returned (some (invalid_job e)))
  | none ↦ enqueue_turn now job q
]

unfoldable pub enqueue_resume : Wake → ℕ → Job → MemoryQueue → MemoryQueue × Turn (Option Error)
unfolding enqueue_turn
enqueue_resume context_ended now job q = (q, returned (some context_done))
enqueue_resume _ now job q = enqueue_turn now job q

-- The loop of `Claim` at the heap's first element.
unfoldable pub claim_top : ℕ → List Entry → MemoryQueue → MemoryQueue × Turn (Result Error Claim)
claim_top now [] q = (q, waits q.notify none)
claim_top now (top ∷ rest) q =
    if leb top.job.available_at now
    then (let token : ℕ = u64 (q.next_token + 1) in
        let e : Entry = record top { claimed = true; token = token } in
        (
          record q { avail = rest; next_token = token; entries = put e q.entries },
          returned (ok (record { job = top.job; token = token })),
        ))
    else (q, waits q.notify (some (top.job.available_at - now)))

unfoldable pub claim : ℕ → MemoryQueue → MemoryQueue × Turn (Result Error Claim)
unfolding claim_top
claim now q = if q.closed then (q, returned (err queue_closed)) else claim_top now q.avail q

unfoldable pub claim_resume : Wake → ℕ → MemoryQueue → MemoryQueue × Turn (Result Error Claim)
unfolding claim
claim_resume context_ended now q = (q, returned (err context_done))
claim_resume _ now q = claim now q

-- The guard that `Ack`, `Renew` and `Release` share; `ended` is `ctx.Err() != nil`.
unfoldable pub claimed_by : Text → ℕ → MemoryQueue → Result Error Entry
claimed_by id token q = elim (find id q.entries) [
  | none ↦ err unknown_job
  | some e ↦ if not e.claimed || not (e.token == token) then err job_not_claimed else ok e
]

unfoldable pub owned : Bool → Text → ℕ → MemoryQueue → Result Error Entry
unfolding claimed_by
owned ended id token q = if ended then err context_done else claimed_by id token q

unfoldable pub ack : Bool → Text → ℕ → MemoryQueue → MemoryQueue × Option Error
unfolding owned broadcast
ack ended id token q = elim (owned ended id token q) [
  | err e ↦ (q, some e)
  | ok e ↦ (broadcast (record q { entries = delete id q.entries }), none)
]

unfoldable pub renew : Bool → Text → ℕ → MemoryQueue → MemoryQueue × Option Error
unfolding owned
renew ended id token q = elim (owned ended id token q) [ err e ↦ (q, some e) | ok e ↦ (q, none) ]

unfoldable pub release : Bool → Text → ℕ → ℕ → MemoryQueue → MemoryQueue × Option Error
unfolding owned broadcast
release ended id token available_at q = elim (owned ended id token q) [
  | err e ↦ (q, some e)
  | ok e ↦
      let seq : ℕ = u64 (q.seq + 1) in
      let job : Job = record (e.job) { available_at = available_at } in
      let e' : Entry = record e { claimed = false; job = job; seq = seq } in
      (
        broadcast
            (record q { seq = seq; entries = put e' q.entries; avail = heap_push e' q.avail }),
        none,
      )
]

unfoldable pub close : MemoryQueue → MemoryQueue
unfolding broadcast
close q = if q.closed then q else broadcast (record q { closed = true })

-- Any call, or any woken call's next round, by any goroutine.
pub data Call : Type 0 where
  enqueues : Job → Call
  enqueue_resumes : Wake → Job → Call
  claims : Call
  claim_resumes : Wake → Call
  acks renews : Bool → Text → ℕ → Call
  releases : Bool → Text → ℕ → ℕ → Call
  closes : Call

-- The mutex makes each of these one atomic step; `now` is what the clock reads.
unfoldable pub step : MemoryQueue → ℕ × Call → MemoryQueue
step q (now, enqueues job) = (enqueue now job q).0
step q (now, enqueue_resumes w job) = (enqueue_resume w now job q).0
step q (now, claims) = (claim now q).0
step q (now, claim_resumes w) = (claim_resume w now q).0
step q (now, acks ended id token) = (ack ended id token q).0
step q (now, renews ended id token) = (renew ended id token q).0
step q (now, releases ended id token at) = (release ended id token at q).0
step q (now, closes) = close q

unfoldable pub run : MemoryQueue → List (ℕ × Call) → MemoryQueue
run q [] = q
run q (c ∷ cs) = run (step q c) cs
