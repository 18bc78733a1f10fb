-- ===== src/Queue/Memory/Change.antt =====
-- internal/queue/memory.go: what one atomic step can do to the queue. Every proof about histories
-- goes by these six changes.
use mailx.Base.{
  ℕ, ◌+◌, ◌≤◌, ◌<◌, ◌≡◌, refl, Bool, true, false, Option, none, some, List, [], ◌∷◌, arith, inl,
  inr, Bool-cases, Option-cases, length, ok, leb, ltb, ltb→lt, leb→le, if_cases, Result-cases,
}
use mailx.Base.Text.{Text}
use mailx.Queue.Job.{Job, validate}
use mailx.Queue.Memory.Store.{Entry, find, put, delete, heap_push}
use mailx.Queue.Memory.{
  MemoryQueue, Call, Turn, Error, u64, enqueue_turn, enqueue, enqueue_resume, claim_top, claim,
  claim_resume, claimed_by, owned, ack, renew, release, close, step, normalize, enqueues,
  enqueue_resumes, claims, claim_resumes, acks, renews, releases, closes, context_ended,
}

-- A job enters, the heap's first entry is claimed, a claimed entry leaves or goes back to the
-- heap, the queue closes, or nothing changes.
pub data Change (q : MemoryQueue) : MemoryQueue → Type 0 where
  same : Change q q
  added :
      (e : Entry)
      → q.closed ≡ false
      → find e.job.id q.entries ≡ none
      → length q.entries < q.capacity
      → e.claimed ≡ false
      → e.seq ≡ u64 (q.seq + 1)
      → Change q (record q {
        seq = e.seq;
        entries = put e q.entries;
        avail = heap_push e q.avail;
        notify = q.notify + 1;
      })
  claimed_first :
      (now : ℕ) (top : Entry) (rest : List Entry)
      → q.closed ≡ false
      → q.avail ≡ top ∷ rest
      → top.job.available_at ≤ now
      → Change q (record q {
        avail = rest;
        next_token = u64 (q.next_token + 1);
        entries = put (record top { claimed = true; token = u64 (q.next_token + 1) }) q.entries;
      })
  acked :
      (id : Text) (e : Entry)
      → find id q.entries ≡ some e
      → e.claimed ≡ true
      → Change q (record q { entries = delete id q.entries; notify = q.notify + 1 })
  released :
      (id : Text) (old e : Entry)
      → find id q.entries ≡ some old
      → old.claimed ≡ true
      → e.job.id ≡ old.job.id
      → e.seq ≡ u64 (q.seq + 1)
      → e.claimed ≡ false
      → Change q (record q {
        seq = e.seq;
        entries = put e q.entries;
        avail = heap_push e q.avail;
        notify = q.notify + 1;
      })
  shut : q.closed ≡ false → Change q (record q { closed = true; notify = q.notify + 1 })

enqueue_turn-Change : (now : ℕ) (job : Job) (q : MemoryQueue) → Change q (enqueue_turn now job q).0
unfolding enqueue_turn normalize
enqueue_turn-Change now job q =
    if_cases {A = MemoryQueue × Turn (Option Error)} (λ r. Change q r.0) q.closed (λ _. same)
      λ live. elim (Option-cases (find job.id q.entries)) [
        | inr (e, held) ↦ rw held same
        | inl fresh ↦ rw fresh (
            if_cases {A = MemoryQueue × Turn (Option Error)} (λ r. Change q r.0)
              (ltb (length q.entries) q.capacity)
              (λ space.
                added
                  (record {
                    job = normalize now job;
                    seq = u64 (q.seq + 1);
                    claimed = false;
                    token = 0;
                  })
                  live fresh (ltb→lt _ _ space) refl refl)
              (λ _. same))
      ]

enqueue-Change : (now : ℕ) (job : Job) (q : MemoryQueue) → Change q (enqueue now job q).0
unfolding enqueue
enqueue-Change now job q = elim (Option-cases (validate job)) [
  | inl valid ↦ rw (valid, enqueue) (enqueue_turn-Change now job q)
  | inr (e, invalid) ↦ rw (invalid, enqueue) same
]

claim_top-Change :
    (now : ℕ) (h : List Entry) (q : MemoryQueue)
    → q.closed ≡ false
    → q.avail ≡ h
    → Change q (claim_top now h q).0
unfolding claim_top
claim_top-Change now [] q live e = same
claim_top-Change now (top ∷ rest) q live e = elim (Bool-cases (leb top.job.available_at now)) [
  | inl due ↦ simp due (claimed_first now top rest live e (leb→le _ _ due))
  | inr later ↦ simp later same
]

claim-Change : (now : ℕ) (q : MemoryQueue) → Change q (claim now q).0
unfolding claim
claim-Change now q = elim (Bool-cases q.closed) [
  | inl closed ↦ simp closed same
  | inr live ↦ simp live (claim_top-Change now q.avail q live refl)
]

-- The guard of `Ack`, `Renew` and `Release` lets pass the holder of the current token alone.
pub claimed_by-ok :
    (id : Text) (token : ℕ) (q : MemoryQueue) {e : Entry}
    → claimed_by id token q ≡ ok e
    → (find id q.entries ≡ some e) × (e.claimed ≡ true) × (e.token ≡ token)
unfolding claimed_by
claimed_by-ok id token q h = ground arith

pub owned-ok :
    (ended : Bool) (id : Text) (token : ℕ) (q : MemoryQueue) {e : Entry}
    → owned ended id token q ≡ ok e
    → (ended ≡ false) × (find id q.entries ≡ some e) × (e.claimed ≡ true) × (e.token ≡ token)
unfolding owned
owned-ok ended id token q {e} h = ground (arith, claimed_by-ok id token q {e = e})

ack-Change :
    (ended : Bool) (id : Text) (token : ℕ) (q : MemoryQueue) → Change q (ack ended id token q).0
unfolding ack
ack-Change ended id token q = elim (Result-cases (owned ended id token q)) [
  | inl (e, x) ↦ rw (x, ack) same
  | inr (e, x) ↦ let o = owned-ok ended id token q x in rw (x, ack) (acked id e o.1 o.2)
]

renew-Change :
    (ended : Bool) (id : Text) (token : ℕ) (q : MemoryQueue) → Change q (renew ended id token q).0
unfolding renew
renew-Change ended id token q = elim (Result-cases (owned ended id token q)) [
  | inl (e, x) ↦ rw (x, renew) same
  | inr (e, x) ↦ rw (x, renew) same
]

release-Change :
    (ended : Bool) (id : Text) (token at : ℕ) (q : MemoryQueue)
    → Change q (release ended id token at q).0
unfolding release
release-Change ended id token at q = elim (Result-cases (owned ended id token q)) [
  | inl (e, x) ↦ rw (x, release) same
  | inr (e, x) ↦
      let o = owned-ok ended id token q x in
      rw (x, release) (released id e _ o.1 o.2 refl refl refl)
]

close-Change : (q : MemoryQueue) → Change q (close q)
unfolding close
close-Change q = elim (Bool-cases q.closed) [
  | inl closed ↦ simp closed same
  | inr live ↦ simp live (shut live)
]

-- Every call, and every round of a woken call, makes one of the six changes.
pub step-Change : (q : MemoryQueue) (c : ℕ × Call) → Change q (step q c)
unfolding step enqueue_resume claim_resume
step-Change q (now, enqueues job) = enqueue-Change now job q
step-Change q (now, enqueue_resumes context_ended job) = same
step-Change q (now, enqueue_resumes _ job) = enqueue_turn-Change now job q
step-Change q (now, claims) = claim-Change now q
step-Change q (now, claim_resumes context_ended) = same
step-Change q (now, claim_resumes _) = claim-Change now q
step-Change q (now, acks ended id token) = ack-Change ended id token q
step-Change q (now, renews ended id token) = renew-Change ended id token q
step-Change q (now, releases ended id token at) = release-Change ended id token at q
step-Change q (now, closes) = close-Change q
