-- ===== src/Queue/Memory/Invariant.antt =====
-- internal/queue/memory.go: every call keeps the agreement of map, heap and counters, and so
-- does every history of calls that is shorter than the range of the counters.
use mailx.Base.{
  ℕ, suc, ◌+◌, ◌^◌, ◌≤◌, ◌<◌, ◌≡◌, refl, sym, false, some, List, [], ◌∷◌, arith, ok, length, subst,
  Bool-cases, inl, inr, Result, ◌∙◌, All,
}
use mailx.Base.Int.{ℤ, is_nonpos}
use mailx.Queue.Memory.Store.{Entry, find, length-put_new, length-put_old, find-id}
use mailx.Queue.Memory.Agreement.{Agrees, push-Agrees, pop-Agrees, delete-Agrees}
use mailx.Queue.Memory.Change.{
  Change, same, added, claimed_first, acked, released, shut, step-Change,
}
use mailx.Queue.Memory.{MemoryQueue, Error, Call, new_memory_queue, step, run}

-- Between two calls.
abbrev pub Inv : MemoryQueue → Type 0
Inv q = Agrees q.capacity q.entries q.avail q.seq q.next_token

-- The counters have not run out.
pub record HasRoom (q : MemoryQueue) : Type 0 where
  pub seqs : q.seq + 1 < 2 ^ 64
  pub tokens : q.next_token + 1 < 2 ^ 64

-- The heap's first entry is the map's.
pub first_held :
    (q : MemoryQueue) (top : Entry) (rest : List Entry)
    → Inv q
    → q.avail ≡ top ∷ rest
    → (find top.job.id q.entries ≡ some top) × (top.claimed ≡ false)
first_held q top rest v first =
    (subst (All (λ e. (find e.job.id q.entries ≡ some e) × (e.claimed ≡ false))) first
      v.avail_sound).0

ok_injective : {a b : MemoryQueue} → ◌≡◌ {A = Result Error MemoryQueue} (ok a) (ok b) → a ≡ b
ok_injective h = cc

pub new-Inv : (c : ℤ) {q : MemoryQueue} → new_memory_queue c ≡ ok q → Inv q
unfolding new_memory_queue find
new-Inv c {q} h = elim (Bool-cases (is_nonpos c)) [
  | inl bad ↦ absurd (cc (rw bad at h))
  | inr good ↦ subst Inv (ok_injective (rw good at h)) (record {
    bounded = omega arith;
    avail_sound = tt;
    avail_complete = λ id e p. ground arith;
    sorted = tt;
    seqs = λ id e p. ground arith;
    tokens = λ id e p. ground arith;
    one_owner = λ i j e f p. ground arith;
  })
]

pub Change-Inv : {q q' : MemoryQueue} → Change q q' → Inv q → HasRoom q → Inv q'
Change-Inv same v r = v
Change-Inv {q} (added e live fresh space idle aged) v r =
    push-Agrees v e (omega (arith, length-put_new e q.entries fresh)) idle (omega (arith, r))
      (λ f p. ground arith)
Change-Inv {q} (claimed_first now top rest live first due) v r =
    pop-Agrees top _ (subst (λ h. Agrees q.capacity q.entries h q.seq q.next_token) first v) refl
      refl refl (omega (arith, r))
Change-Inv {q} (acked id e held busy) v r = delete-Agrees id v (λ f p. ground arith)
Change-Inv {q} (released id old e held busy named aged idle) v r =
    let found : find e.job.id q.entries ≡ some old =
      subst (λ i. find i q.entries ≡ some old) (sym (named ∙ find-id id q.entries held)) held in
    push-Agrees v e (omega (arith, length-put_old e q.entries (rw found), v.bounded)) idle
      (omega (arith, r)) (λ f p. ground arith)
Change-Inv (shut live) v r = v

-- A call keeps the invariant.
pub step-Inv : (q : MemoryQueue) (c : ℕ × Call) → Inv q → HasRoom q → Inv (step q c)
step-Inv q c v r = Change-Inv (step-Change q c) v r

-- One call moves each counter by one at most.
Change-counters :
    {q q' : MemoryQueue}
    → Change q q'
    → HasRoom q
    → (q'.seq ≤ q.seq + 1) × (q'.next_token ≤ q.next_token + 1)
Change-counters same r = omega arith
Change-counters (added e live fresh space idle aged) r = omega (arith, r)
Change-counters (claimed_first now top rest live first due) r = omega (arith, r)
Change-counters (acked id e held busy) r = omega arith
Change-counters (released id old e held busy named aged idle) r = omega (arith, r)
Change-counters (shut live) r = omega arith

-- A history that the counters can count.
pub record Fits (q : MemoryQueue) (n : ℕ) : Type 0 where
  pub seqs : q.seq + n < 2 ^ 64
  pub tokens : q.next_token + n < 2 ^ 64

pub Fits-HasRoom : {q : MemoryQueue} {n : ℕ} → Fits q (suc n) → HasRoom q
Fits-HasRoom f = record { seqs = omega (arith, f); tokens = omega (arith, f) }

pub Fits-step : (q : MemoryQueue) (c : ℕ × Call) {n : ℕ} → Fits q (suc n) → Fits (step q c) n
Fits-step q c f =
    let grown = Change-counters (step-Change q c) (Fits-HasRoom f) in
    record { seqs = omega (arith, f, grown); tokens = omega (arith, f, grown) }

pub run_from-Inv :
    (q : MemoryQueue) (cs : List (ℕ × Call)) → Inv q → Fits q (length cs) → Inv (run q cs)
unfolding run
run_from-Inv q [] v f = v
run_from-Inv q (c ∷ cs) v f =
    run_from-Inv (step q c) cs (step-Inv q c v (Fits-HasRoom f)) (Fits-step q c f)

new-Fits : (c : ℤ) {q : MemoryQueue} {n : ℕ} → new_memory_queue c ≡ ok q → n < 2 ^ 64 → Fits q n
unfolding new_memory_queue
new-Fits c {q} {n} h b = ground arith

-- After any history of fewer than 2 ^ 64 calls on a new queue the invariant holds: no more
-- entries than the capacity, the heap sorted and holding exactly the map's unclaimed entries, as
-- the map has them, and no two claimed entries with one token.
pub run-Inv :
    (c : ℤ) {q : MemoryQueue} (cs : List (ℕ × Call))
    → new_memory_queue c ≡ ok q
    → length cs < 2 ^ 64
    → Inv (run q cs)
run-Inv c {q} cs h b = run_from-Inv q cs (new-Inv c h) (new-Fits c h b)
