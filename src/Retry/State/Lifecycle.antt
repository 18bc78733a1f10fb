-- ===== src/Retry/State/Lifecycle.antt =====
-- internal/retry/state.go: the shape of a lifecycle's history.
use mailx.Base.{
  ℕ, suc, ◌+◌, ◌≡◌, Option, none, some, List, [], ◌∷◌, ◌++◌, length, get_last?, arith, ◌⊎◌, inl,
  inr, Option-cases, get_last?-snoc, ◌≢◌,
}
use mailx.Errors.{Err}
use mailx.Delivery.Result.{DeliveryResult}
use mailx.Retry.Policy.{Decision, retry, terminal_state}
use mailx.Retry.State.{
  DeliveryAttempt, State, attempt_after, append_attempt, record_attempt, latest,
}

-- The numbers count up from `k`.
abbrev pub Numbered : ℕ → List DeliveryAttempt → Type 0
Numbered k [] = Unit
Numbered k (a ∷ as') = (a.number ≡ k) × Numbered (suc k) as'

-- Every attempt but the last was to be retried.
abbrev pub Retried : List DeliveryAttempt → Type 0
Retried [] = Unit
Retried (a ∷ []) = Unit
Retried (a ∷ b ∷ more) = (a.decision ≡ retry) × Retried (b ∷ more)

-- A history that `Record` built.
pub record IsLifecycle (s : State) : Type 0 where
  pub numbered : Numbered 1 s.delivery_attempts
  pub retried : Retried s.delivery_attempts

Numbered-snoc :
    (k : ℕ) (xs : List DeliveryAttempt) (a : DeliveryAttempt)
    → Numbered k xs
    → a.number ≡ k + length xs
    → Numbered k (xs ++ a ∷ [])
Numbered-snoc k [] a n e = (omega (arith, e), tt)
Numbered-snoc k (x ∷ xs) a n e = (n.0, Numbered-snoc (suc k) xs a n.1 (omega (arith, e)))

-- The next operation may be recorded: there is none yet, or the latest is to be retried.
abbrev pub IsOpen : Option DeliveryAttempt → Type 0
IsOpen none = Unit
IsOpen (some a) = a.decision ≡ retry

Retried-snoc :
    (xs : List DeliveryAttempt) (a : DeliveryAttempt)
    → Retried xs
    → IsOpen (get_last? xs)
    → Retried (xs ++ a ∷ [])
Retried-snoc [] a r o = tt
Retried-snoc (x ∷ []) a r o = (o, tt)
Retried-snoc (x ∷ y ∷ more) a r o = (r.0, Retried-snoc (y ∷ more) a r.1 o)

pub append-IsLifecycle :
    (s : State) (result : DeliveryResult) (e : Option Err)
    → IsLifecycle s
    → IsOpen (latest s)
    → IsLifecycle (append_attempt s result e)
unfolding append_attempt latest
append-IsLifecycle s result e l o = record {
  numbered =
      Numbered-snoc 1 s.delivery_attempts (attempt_after s result e) l.numbered (omega arith);
  retried = Retried-snoc s.delivery_attempts (attempt_after s result e) l.retried o;
}

pub record_open :
    (s : State) (result : DeliveryResult) (e : Option Err)
    → IsOpen (latest s)
    → record_attempt s result e ≡ (append_attempt s result e, none)
unfolding record_attempt latest append_attempt attempt_after
record_open s result e o = elim (Option-cases (get_last? s.delivery_attempts)) [
  | inl first ↦ rw (first, record_attempt)
  | inr (a, is) ↦ ground arith
]

record_closed :
    (s : State) (result : DeliveryResult) (e : Option Err) (a : DeliveryAttempt)
    → latest s ≡ some a
    → a.decision ≢ retry
    → record_attempt s result e ≡ (s, some terminal_state)
unfolding record_attempt latest
record_closed s result e a is n = ground arith

pub latest-append :
    (s : State) (result : DeliveryResult) (e : Option Err)
    → latest (append_attempt s result e) ≡ some (attempt_after s result e)
unfolding latest append_attempt
latest-append s result e = get_last?-snoc s.delivery_attempts (attempt_after s result e)

decision-cases : (d : Decision) → (d ≡ retry) ⊎ (d ≢ retry)
decision-cases d = ground arith

-- On a history that is numbered from 1 with every attempt but the last to be retried, `Record`
-- either appends the attempt (no attempt yet, or the latest is to be retried) or refuses with
-- the terminal error and leaves the history alone (the latest is terminal); the history keeps
-- its shape.
record_attempt-IsLifecycle :
    (s : State) (result : DeliveryResult) (e : Option Err)
    → IsLifecycle s
    → IsLifecycle (record_attempt s result e).0
      × (((record_attempt s result e ≡ (append_attempt s result e, none)) × IsOpen (latest s))
          ⊎ ((record_attempt s result e ≡ (s, some terminal_state)) × ¬ IsOpen (latest s)))
record_attempt-IsLifecycle s result e l = elim (Option-cases (latest s)) [
  | inl first ↦
      let o : IsOpen (latest s) = rw first tt in
      let is = record_open s result e o in (rw is (append-IsLifecycle s result e l o), inl (is, o))
  | inr (a, is) ↦ elim (decision-cases a.decision) [
    | inl go ↦
        let o : IsOpen (latest s) = rw is go in
        let made = record_open s result e o in
        (rw made (append-IsLifecycle s result e l o), inl (made, o))
    | inr stop ↦
        let made = record_closed s result e a is stop in
        (rw made l, inr (made, λ o. stop (rw is at o)))
  ]
]
