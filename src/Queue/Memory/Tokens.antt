-- ===== src/Queue/Memory/Tokens.antt =====
-- internal/queue/memory.go: a claim's token is good until its first Ack or Release, and never
-- again.
use mailx.Base.{
  ℕ, ◌+◌, ◌≤◌, ◌≡◌, ◌≢◌, Bool, true, false, none, some, List, [], ◌∷◌, arith, suc, length, inl, inr,
  Result-cases, ok, ap,
}
use mailx.Base.Text.{Text, text_eq_iff, text_eq_self}
use mailx.Queue.Memory.Store.{Entry, find, find-put, find-delete, find-id}
use mailx.Queue.Memory.Agreement.{find-put_cases}
use mailx.Queue.Memory.Change.{
  Change, same, added, claimed_first, acked, released, shut, step-Change, owned-ok,
}
use mailx.Queue.Memory.Invariant.{Inv, HasRoom, Fits, Fits-HasRoom, Fits-step}
use mailx.Queue.Memory.{
  MemoryQueue, Call, u64, owned, ack, renew, release, step, run, acks, releases,
}

-- The token was given out, and is not the one that holds the job now.
record IsDead (id : Text) (token : ℕ) (q : MemoryQueue) : Type 0 where
  given : token ≤ q.next_token
  unheld : (e : Entry) → find id q.entries ≡ some e → e.claimed ≡ true → e.token ≢ token

Change-IsDead :
    {q q' : MemoryQueue} {id : Text} {token : ℕ}
    → Change q q'
    → HasRoom q
    → IsDead id token q
    → IsDead id token q'
Change-IsDead same r d = d
Change-IsDead {q} {id = id} (added e live fresh space idle aged) r d = record {
  given = d.given;
  unheld = λ f p b. elim (find-put_cases e id q.entries p) [
    | inl (_, is) ↦ ground arith
    | inr (_, old) ↦ d.unheld f old b
  ];
}
Change-IsDead {q} {id = id} (claimed_first now top rest live first due) r d = record {
  given = omega (arith, r, d.given);
  unheld = λ f p b. elim (find-put_cases _ id q.entries p) [
    | inl (_, is) ↦ λ z. absurd (omega (arith, r, d.given, z, ap (λ (g : Entry). g.token) is))
    | inr (_, old) ↦ d.unheld f old b
  ];
}
Change-IsDead {q} {id = id} (acked k e held busy) r d = record {
  given = d.given;
  unheld = λ f p b. d.unheld f (ground (arith, find-delete k id q.entries)) b;
}
Change-IsDead {q} {id = id} (released k old e held busy named aged idle) r d = record {
  given = d.given;
  unheld = λ f p b. elim (find-put_cases e id q.entries p) [
    | inl (_, is) ↦ ground arith
    | inr (_, was) ↦ d.unheld f was b
  ];
}
Change-IsDead (shut live) r d = record { given = d.given; unheld = d.unheld }

run-IsDead :
    {id : Text} {token : ℕ} (q : MemoryQueue) (cs : List (ℕ × Call))
    → Fits q (length cs)
    → IsDead id token q
    → IsDead id token (run q cs)
unfolding run
run-IsDead q [] f d = d
run-IsDead q (c ∷ cs) f d =
    run-IsDead (step q c) cs (Fits-step q c f) (Change-IsDead (step-Change q c) (Fits-HasRoom f) d)

owned-IsDead :
    (ended : Bool) (id : Text) (token : ℕ) (q : MemoryQueue) (e : Entry)
    → IsDead id token q
    → owned ended id token q ≢ ok e
owned-IsDead ended id token q e d h = let o = owned-ok ended id token q h in d.unheld e o.1 o.2 o.3

-- No call with that token succeeds.
abbrev pub IsRefused : Bool → Text → ℕ → ℕ → MemoryQueue → Type 0
IsRefused ended id token at q =
    ((ack ended id token q).1 ≢ none)
    × ((renew ended id token q).1 ≢ none)
    × ((release ended id token at q).1 ≢ none)

IsDead-IsRefused :
    (ended : Bool) (id : Text) (token at : ℕ) (q : MemoryQueue)
    → IsDead id token q
    → IsRefused ended id token at q
unfolding ack renew release
IsDead-IsRefused ended id token at q d = elim (Result-cases (owned ended id token q)) [
  | inl (e, x) ↦ (ground arith, ground arith, ground arith)
  | inr (e, x) ↦ absurd (owned-IsDead ended id token q e d x)
]

ack-IsDead :
    (ended : Bool) (id : Text) (token : ℕ) (q : MemoryQueue)
    → Inv q
    → (ack ended id token q).1 ≡ none
    → IsDead id token (ack ended id token q).0
unfolding ack
ack-IsDead ended id token q v h = elim (Result-cases (owned ended id token q)) [
  | inl (e, x) ↦ absurd (ground arith)
  | inr (e, x) ↦
      let o = owned-ok ended id token q x in
      rw (x, ack)
        (record {
          given = omega (arith, v.tokens id e o.1 o.2, o.3);
          unheld = λ f p. ground (arith, find-delete id id q.entries, text_eq_self id);
        })
]

put_back : Entry → ℕ → MemoryQueue → Entry
put_back e at q = record e {
  claimed = false;
  job = record (e.job) { available_at = at };
  seq = u64 (q.seq + 1);
}

release-IsDead :
    (ended : Bool) (id : Text) (token at : ℕ) (q : MemoryQueue)
    → Inv q
    → (release ended id token at q).1 ≡ none
    → IsDead id token (release ended id token at q).0
unfolding release put_back
release-IsDead ended id token at q v h = elim (Result-cases (owned ended id token q)) [
  | inl (e, x) ↦ absurd (ground arith)
  | inr (e, x) ↦
      let o = owned-ok ended id token q x in
      rw (x, release)
        (record {
          given = omega (arith, v.tokens id e o.1 o.2, o.3);
          unheld = λ f p b. absurd (
              ground (
                arith,
                find-put (put_back e at q) id q.entries,
                text_eq_iff e.job.id id,
                find-id id q.entries o.1,
              ));
        })
]

Fits-ack :
    (ended : Bool) (id : Text) (token : ℕ) (q : MemoryQueue) {n : ℕ}
    → Fits q (suc n)
    → Fits (ack ended id token q).0 n
unfolding step
Fits-ack ended id token q f = Fits-step q (0, acks ended id token) f

Fits-release :
    (ended : Bool) (id : Text) (token at : ℕ) (q : MemoryQueue) {n : ℕ}
    → Fits q (suc n)
    → Fits (release ended id token at q).0 n
unfolding step
Fits-release ended id token at q f = Fits-step q (0, releases ended id token at) f

-- On a queue for which the invariant holds, after a successful Ack and whatever calls follow it,
-- fewer than the counters have room for, no Ack, Renew or Release with that job and token
-- succeeds, whatever its context.
pub ack_once :
    (ended later : Bool) (id : Text) (token at : ℕ) (q : MemoryQueue) (cs : List (ℕ × Call))
    → Inv q
    → Fits q (suc (length cs))
    → (ack ended id token q).1 ≡ none
    → IsRefused later id token at (run (ack ended id token q).0 cs)
ack_once ended later id token at q cs v f h = IsDead-IsRefused later id token at _ (
    run-IsDead (ack ended id token q).0 cs (Fits-ack ended id token q f)
      (ack-IsDead ended id token q v h))

-- On a queue for which the invariant holds, after a successful Release and whatever calls follow
-- it, fewer than the counters have room for, no Ack, Renew or Release with that job and token
-- succeeds, also when the job has been claimed again.
pub release_once :
    (ended later : Bool) (id : Text) (token at at' : ℕ) (q : MemoryQueue) (cs : List (ℕ × Call))
    → Inv q
    → Fits q (suc (length cs))
    → (release ended id token at q).1 ≡ none
    → IsRefused later id token at' (run (release ended id token at q).0 cs)
release_once ended later id token at at' q cs v f h = IsDead-IsRefused later id token at' _ (
    run-IsDead (release ended id token at q).0 cs (Fits-release ended id token at q f)
      (release-IsDead ended id token at q v h))
