-- ===== src/Queue/Memory/Order.antt =====
-- internal/queue/memory.go: what Claim hands out.
use mailx.Base.{
  ℕ, ◌+◌, ◌≤◌, ◌≡◌, refl, sym, true, false, some, List, [], ◌∷◌, arith, ok, Bool-cases, inl, inr,
  ◌⊎◌, subst,
}
use mailx.Queue.Memory.Store.{Entry, less, find, IsSorted, In, here, there, All-In}
use mailx.Queue.Memory.Agreement.{find-put_self}
use mailx.Queue.Memory.Invariant.{Inv, first_held}
use mailx.Queue.Memory.{MemoryQueue, Claim, returned, claim_top, claim, claimed_by, u64}

-- The first entry of the heap comes no later than any other.
first_least :
    (top : Entry) (rest : List Entry) {f : Entry}
    → IsSorted (top ∷ rest)
    → In f (top ∷ rest)
    → (f ≡ top) ⊎ (less top f ≡ true)
first_least top rest s here = inl refl
first_least top rest s (there i) = inr (All-In (λ f. less top f ≡ true) s.0 i)

first_due :
    (top : Entry) (rest : List Entry) {f : Entry}
    → IsSorted (top ∷ rest)
    → In f (top ∷ rest)
    → top.job.available_at ≤ f.job.available_at
unfolding less
first_due top rest s i = ground (arith, first_least top rest s i)

-- `e` is waiting in `q`, is due, and comes no later than any other unclaimed entry; its new token
-- owns it in `q'`.
pub record Grants (now : ℕ) (q q' : MemoryQueue) (c : Claim) : Type 0 where
  pub e : Entry
  pub held : find c.job.id q.entries ≡ some e
  pub idle : e.claimed ≡ false
  pub same_job : e.job ≡ c.job
  pub due : e.job.available_at ≤ now
  pub least :
      (f : Entry)
      → find f.job.id q.entries ≡ some f
      → f.claimed ≡ false
      → (f ≡ e) ⊎ (less e f ≡ true)
  pub owns : claimed_by c.job.id c.token q' ≡ ok (record e { claimed = true; token = c.token })
  pub token_new : c.token ≡ u64 (q.next_token + 1)

claim_top_ok :
    (now : ℕ) (top : Entry) (rest : List Entry) (q : MemoryQueue) (c : Claim)
    → (claim_top now (top ∷ rest) q).1 ≡ returned (ok c)
    → (top.job.available_at ≤ now) × (c ≡ record { job = top.job; token = u64 (q.next_token + 1) })
unfolding claim_top
claim_top_ok now top rest q c h = ground arith

claim_top-Grants :
    (now : ℕ) (top : Entry) (rest : List Entry) (q : MemoryQueue)
    → q.avail ≡ top ∷ rest
    → Inv q
    → top.job.available_at ≤ now
    → Grants now q
        (claim_top now (top ∷ rest) q).0
        (record { job = top.job; token = u64 (q.next_token + 1) })
unfolding claim_top claimed_by
claim_top-Grants now top rest q a v due =
    let own = first_held q top rest v a in
    let e : Entry = record top { claimed = true; token = u64 (q.next_token + 1) } in
    record {
      e = top;
      held = own.0;
      idle = own.1;
      same_job = refl;
      due = due;
      least = λ f held idle.
          first_least top rest (subst IsSorted a v.sorted)
            (subst (In f) a (v.avail_complete f.job.id f held idle));
      owns = ground (arith, find-put_self e q.entries);
      token_new = refl;
    }

claim_top_grant :
    (now : ℕ) (h : List Entry) (q : MemoryQueue) (c : Claim)
    → q.avail ≡ h
    → Inv q
    → (claim_top now h q).1 ≡ returned (ok c)
    → Grants now q (claim_top now h q).0 c
claim_top_grant now [] q c a v h = absurd (unfold claim_top in ground arith)
claim_top_grant now (top ∷ rest) q c a v h =
    let (due, is) = claim_top_ok now top rest q c h in
    subst (λ x. Grants now q (claim_top now (top ∷ rest) q).0 x) (sym is)
      (claim_top-Grants now top rest q a v due)

-- On a queue for which the invariant holds, a successful Claim takes an entry of the map that was
-- not claimed and is due, and that no unclaimed entry of the map comes before, by availability and
-- then by sequence number; afterwards that entry is claimed under the next token.
pub claim-Grants :
    (now : ℕ) (q : MemoryQueue) (c : Claim)
    → Inv q
    → (claim now q).1 ≡ returned (ok c)
    → Grants now q (claim now q).0 c
unfolding claim
claim-Grants now q c v h = elim (Bool-cases q.closed) [
  | inl shut ↦ absurd (ground arith)
  | inr live ↦ simp live (claim_top_grant now q.avail q c refl v (ground arith))
]

claim_top_ready :
    (now : ℕ) (h : List Entry) (q : MemoryQueue) {f : Entry}
    → IsSorted h
    → In f h
    → f.job.available_at ≤ now
    → (c : Claim) × ((claim_top now h q).1 ≡ returned (ok c))
unfolding claim_top
claim_top_ready now [] q s i due = elim i [ ]
claim_top_ready now (top ∷ rest) q {f} s i due = (
  record { job = top.job; token = u64 (q.next_token + 1) },
  ground (arith, first_due top rest s i),
)

-- On an open queue for which the invariant holds, an unclaimed entry that is due makes Claim
-- return a claim at once.
pub claim_ready :
    (now : ℕ) (q : MemoryQueue) (f : Entry)
    → Inv q
    → q.closed ≡ false
    → find f.job.id q.entries ≡ some f
    → f.claimed ≡ false
    → f.job.available_at ≤ now
    → (c : Claim) × ((claim now q).1 ≡ returned (ok c))
unfolding claim
claim_ready now q f v live held idle due =
    simp live (claim_top_ready now q.avail q v.sorted (v.avail_complete f.job.id f held idle) due)
