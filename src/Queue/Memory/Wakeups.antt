-- ===== src/Queue/Memory/Wakeups.antt =====
-- internal/queue/memory.go: no wake-up is lost. A blocked call waits on the channel of the state
-- that it saw; as long as that channel is open, the call would block again.
use mailx.Base.{
  ℕ, ◌+◌, ◌-◌, ◌≤◌, ◌<◌, ◌≡◌, refl, true, false, Option, none, some, List, [], ◌∷◌, arith, length,
  All, All-imp, Bool-cases, inl, inr, suc, ◌∙◌, subst,
}
use mailx.Base.Text.{text_eq_iff}
use mailx.Queue.Job.{Job, validate}
use mailx.Queue.Memory.Store.{Entry, less, find, find-put, length-put_old, IsSorted}
use mailx.Queue.Memory.Change.{
  Change, same, added, claimed_first, acked, released, shut, step-Change,
}
use mailx.Queue.Memory.Invariant.{Inv, Fits, Fits-HasRoom, Fits-step, Change-Inv, first_held}
use mailx.Queue.Memory.{MemoryQueue, Call, u64, waits, enqueue, claim_top, claim, step, run}

Change-notify_le : {q q' : MemoryQueue} → Change q q' → q.notify ≤ q'.notify
Change-notify_le same = omega arith
Change-notify_le (added e live fresh space idle aged) = omega arith
Change-notify_le (claimed_first now top rest live first due) = omega arith
Change-notify_le (acked k e held busy) = omega arith
Change-notify_le (released k old e held busy named aged idle) = omega arith
Change-notify_le (shut live) = omega arith

run-notify_le : (q : MemoryQueue) (cs : List (ℕ × Call)) → q.notify ≤ (run q cs).notify
unfolding run
run-notify_le q [] = omega arith
run-notify_le q (c ∷ cs) =
    omega (arith, Change-notify_le (step-Change q c), run-notify_le (step q c) cs)

-- What holds at a state, and across each change that leaves the channel open, holds as long as
-- the channel is open.
run_quiet {ℓ} :
    (P : MemoryQueue → Type ℓ)
    → ((q q' : MemoryQueue) → Change q q' → Inv q → q'.notify ≡ q.notify → P q → P q')
    → (q : MemoryQueue) (cs : List (ℕ × Call)) → Inv q
    → Fits q (length cs)
    → (run q cs).notify ≡ q.notify
    → P q
    → P (run q cs)
unfolding run
run_quiet P keep q [] v f n p = p
run_quiet P keep q (c ∷ cs) v f n p =
    run_quiet P keep (step q c) cs (Change-Inv moved v (Fits-HasRoom f)) (Fits-step q c f)
      (omega (arith, n, up, rest)) (keep q (step q c) moved v (omega (arith, n, up, rest)) p)
  where
    moved : Change q (step q c)
    moved = step-Change q c

    up : q.notify ≤ (step q c).notify
    up = Change-notify_le moved

    rest : (step q c).notify ≤ (run (step q c) cs).notify
    rest = run-notify_le (step q c) cs

-- Why an enqueuer waits.
record IsFull (job : Job) (q : MemoryQueue) : Type 0 where
  live : q.closed ≡ false
  fresh : find job.id q.entries ≡ none
  full : q.capacity ≤ length q.entries

IsFull-quiet :
    (job : Job) (q q' : MemoryQueue)
    → Change q q'
    → Inv q
    → q'.notify ≡ q.notify
    → IsFull job q
    → IsFull job q'
IsFull-quiet job q q' same v n w = w
IsFull-quiet job q q' (added e live fresh space idle aged) v n w = absurd (omega (arith, n))
IsFull-quiet job q q' (claimed_first now top rest live first due) v n w =
    let held = first_held q top rest v first in
    record {
      live = w.live;
      fresh = ground (
        arith,
        find-put (record top { claimed = true; token = u64 (q.next_token + 1) }) job.id q.entries,
        text_eq_iff top.job.id job.id,
        held,
        w.fresh,
      );
      full = omega (
        arith,
        w.full,
        length-put_old (record top { claimed = true; token = u64 (q.next_token + 1) }) q.entries
            (rw held.0),
      );
    }
IsFull-quiet job q q' (acked k e held busy) v n w = absurd (omega (arith, n))
IsFull-quiet job q q' (released k old e held busy named aged idle) v n w = absurd (omega (arith, n))
IsFull-quiet job q q' (shut live) v n w = absurd (omega (arith, n))

enqueue_waits :
    (now : ℕ) (job : Job) (q : MemoryQueue) (ch : ℕ) (t : Option ℕ)
    → (enqueue now job q).1 ≡ waits ch t
    → (validate job ≡ none) × (ch ≡ q.notify) × (t ≡ none) × IsFull job q
unfolding enqueue
enqueue_waits now job q ch t h = ground arith

IsFull-waits :
    (now : ℕ) (job : Job) (q : MemoryQueue)
    → validate job ≡ none
    → IsFull job q
    → enqueue now job q ≡ (q, waits q.notify none)
unfolding enqueue
IsFull-waits now job q valid w = ground (arith, w)

-- On a queue for which the invariant holds, let an Enqueue block, and any calls follow, fewer than
-- the counters have room for. As long as they leave its channel open, the Enqueue tried again
-- blocks on the same channel, at any time: no change that would let it go on goes unannounced.
pub enqueue_wakeup :
    (now now' : ℕ) (job : Job) (q : MemoryQueue) (cs : List (ℕ × Call)) (ch : ℕ) (t : Option ℕ)
    → Inv q
    → Fits q (length cs)
    → (enqueue now job q).1 ≡ waits ch t
    → (run q cs).notify ≡ ch
    → enqueue now' job (run q cs) ≡ (run q cs, waits ch none)
enqueue_wakeup now now' job q cs ch t v f h open_still =
    let (valid, is, _, full) = enqueue_waits now job q ch t h in
    rw (← open_still) (
      IsFull-waits now' job (run q cs) valid
        (run_quiet (IsFull job) (IsFull-quiet job) q cs v f (open_still ∙ is) full))

-- Why a claimer waits: nothing is due before `due`.
record IsIdle (due : ℕ) (q : MemoryQueue) : Type 0 where
  live : q.closed ≡ false
  later : All (λ e. due ≤ e.job.available_at) q.avail

IsIdle-quiet :
    (due : ℕ) (q q' : MemoryQueue)
    → Change q q'
    → Inv q
    → q'.notify ≡ q.notify
    → IsIdle due q
    → IsIdle due q'
IsIdle-quiet due q q' same v n w = w
IsIdle-quiet due q q' (added e live fresh space idle aged) v n w = absurd (omega (arith, n))
IsIdle-quiet due q q' (claimed_first now top rest live first at) v n w = record {
  live = w.live;
  later = (subst (All (λ e. due ≤ e.job.available_at)) first w.later).1;
}
IsIdle-quiet due q q' (acked k e held busy) v n w = absurd (omega (arith, n))
IsIdle-quiet due q q' (released k old e held busy named aged idle) v n w = absurd (omega (arith, n))
IsIdle-quiet due q q' (shut live) v n w = absurd (omega (arith, n))

later-All :
    (top : Entry) (h : List Entry)
    → All (λ f. less top f ≡ true) h
    → All (λ f. top.job.available_at ≤ f.job.available_at) h
unfolding less
later-All top h s = All-imp _ _ (λ f p. ground arith) h s

-- The timer of a claimer that began to wait at `now` has not fired at `now'`.
abbrev pub IsEarly : ℕ → ℕ → Option ℕ → Type 0
IsEarly now now' none = Unit
IsEarly now now' (some wait) = now' < now + wait

claim_top_waits :
    (now now' : ℕ) (h : List Entry) (q : MemoryQueue) (ch : ℕ) (t : Option ℕ)
    → IsSorted h
    → (claim_top now h q).1 ≡ waits ch t
    → IsEarly now now' t
    → (ch ≡ q.notify) × All (λ f. suc now' ≤ f.job.available_at) h
unfolding claim_top
claim_top_waits now now' [] q ch t s h early = (ground arith, tt)
claim_top_waits now now' (top ∷ rest) q ch t s h early =
    let far : suc now' ≤ top.job.available_at = ground arith in
    (ground arith, (far, All-imp _ _ (λ f p. omega (arith, p, far)) rest (later-All top rest s.0)))

claim_top_idle :
    (now : ℕ) (h : List Entry) (q : MemoryQueue)
    → All (λ f. suc now ≤ f.job.available_at) h
    → (t : Option ℕ) × (claim_top now h q ≡ (q, waits q.notify t))
unfolding claim_top
claim_top_idle now [] q a = (none, refl)
claim_top_idle now (top ∷ rest) q a = (some (top.job.available_at - now), ground arith)

claim_waits :
    (now now' : ℕ) (q : MemoryQueue) (ch : ℕ) (t : Option ℕ)
    → Inv q
    → (claim now q).1 ≡ waits ch t
    → IsEarly now now' t
    → (ch ≡ q.notify) × IsIdle (suc now') q
unfolding claim
claim_waits now now' q ch t v h early = elim (Bool-cases q.closed) [
  | inl closed ↦ absurd (ground arith)
  | inr live ↦
      let w = claim_top_waits now now' q.avail q ch t v.sorted (ground arith) early in
      (w.0, record { live = live; later = w.1 })
]

IsIdle-waits :
    (now : ℕ) (q : MemoryQueue)
    → IsIdle (suc now) q
    → (t : Option ℕ) × (claim now q ≡ (q, waits q.notify t))
unfolding claim
IsIdle-waits now q w = simp (w.live) (claim_top_idle now q.avail q w.later)

-- On a queue for which the invariant holds, let a Claim block, and any calls follow, fewer than
-- the counters have room for. As long as they leave its channel open, and its timer, if it has
-- one, has not run out, the Claim tried again blocks on the same channel.
pub claim_wakeup :
    (now now' : ℕ) (q : MemoryQueue) (cs : List (ℕ × Call)) (ch : ℕ) (t : Option ℕ)
    → Inv q
    → Fits q (length cs)
    → (claim now q).1 ≡ waits ch t
    → (run q cs).notify ≡ ch
    → IsEarly now now' t
    → (t' : Option ℕ) × (claim now' (run q cs) ≡ (run q cs, waits ch t'))
claim_wakeup now now' q cs ch t v f h open_still early =
    let (is, idle) = claim_waits now now' q ch t v h early in
    rw (← open_still) (
      IsIdle-waits now' (run q cs)
        (run_quiet (IsIdle (suc now')) (IsIdle-quiet (suc now')) q cs v f (open_still ∙ is) idle))
