-- ===== src/Database/Outcomes/Replay.antt =====
-- internal/database/outcomes.go: an outcome that is presented again.
use mailx.Base.{
  ℕ, ◌≡◌, refl, Bool, true, false, Option, none, some, List, [], ◌∷◌, ◌++◌, ◌&&◌, not,
  if◌then◌else◌, Result, ok, err, any, if_cases, arith, subst, inl, inr, Bool-cases, ap, ◌∙◌,
}
use mailx.Base.Int.{ℤ}
use mailx.Base.Text.{Text, text_eq, text_eq_self}
use mailx.Errors.{Kind}
use mailx.Retry.Policy.{Decision}
use mailx.Bounce.Classify.{is_decision}
use mailx.Database.Outcomes.{
  Rows, NewAttempt, Effect, EventType, StoreError, validate, same_kind, same_bool, matches,
  find_attempt, existing, matching_attempt_exists, has_event, add_event, add_key, suppressed_key,
  coalesce, written, committed, effected, persist_delivery_outcome, is_terminal,
}

same_kind_self : (k : Kind) → same_kind k k ≡ true
unfolding same_kind
same_kind_self k = ground arith

decision_self : (d : Decision) → is_decision d d ≡ true
decision_self d = ground arith

bool_self : (b : Bool) → same_bool b b ≡ true
unfolding same_bool
bool_self b = ground arith

pub matches_self : (a : NewAttempt) → matches a a ≡ true
unfolding matches
matches_self a =
    rw (decision_self a.decision, same_kind_self a.kind, bool_self a.was_accepted) (ground arith)

-- The attempt is recorded at the end.
find_written :
    (a : NewAttempt) (xs : List NewAttempt)
    → find_attempt a.attempt_number xs ≡ none
    → find_attempt a.attempt_number (xs ++ a ∷ []) ≡ some a
unfolding find_attempt
find_written a [] h = ground arith
find_written a (x ∷ xs) h = ground (arith, find_written a xs)

event_at_end :
    (n : ℕ) (e : EventType) (xs : List (ℕ × EventType)) → has_event n (xs ++ (n, e) ∷ []) ≡ true
unfolding has_event
event_at_end n e [] = ground arith
event_at_end n e ((m, f) ∷ xs) = ground (arith, event_at_end n e xs)

event_added :
    (n : ℕ) (e : EventType) (xs : List (ℕ × EventType)) → has_event n (add_event n e xs) ≡ true
unfolding add_event
event_added n e xs =
    if_cases (λ ys. has_event n ys ≡ true) (has_event n xs) (λ there. there)
      (λ _. event_at_end n e xs)

event_kept :
    (n : ℕ) (e : EventType) (xs : List (ℕ × EventType))
    → add_event n e (add_event n e xs) ≡ add_event n e xs
unfolding add_event
event_kept n e xs = rw (event_added n e xs, add_event) refl

key_there : (k : Text) (keys : List Text) → any (text_eq k) (add_key (some k) keys) ≡ true
unfolding add_key
key_there k keys =
    if_cases (λ ys. any (text_eq k) ys ≡ true) (any (text_eq k) keys) (λ there. there)
      (λ _. rw (text_eq_self k) refl)

present_key :
    (k : Text) (keys : List Text) → any (text_eq k) keys ≡ true → add_key (some k) keys ≡ keys
unfolding add_key
present_key k keys h = rw h refl

key_kept : (k : Option Text) (keys : List Text) → add_key k (add_key k keys) ≡ add_key k keys
unfolding add_key
key_kept none keys = refl
key_kept (some k) keys = present_key k (add_key (some k) keys) (key_there k keys)

coalesce_kept : (a b : Option ℤ) → coalesce a (coalesce a b) ≡ coalesce a b
unfolding coalesce
coalesce_kept none b = refl
coalesce_kept (some t) b = refl

-- What a transaction wrote is not changed by the same one, but for the time.
written_kept :
    (now later : ℤ) (r : Rows) (a : NewAttempt) (e : Effect) (duplicate : Bool)
    → written later (written now r a e duplicate) a e true
      ≡ record (written now r a e duplicate) { updated_at = later }
unfolding written
written_kept now later r a e duplicate =
    rw
      (
        coalesce_kept e.delivered_at r.delivered_at,
        event_kept a.attempt_number e.event r.events,
        key_kept (suppressed_key a) r.suppressions,
      )
      refl

existing_then :
    (a : NewAttempt) (xs : List NewAttempt) (o : Option NewAttempt) (duplicate : Bool)
    → find_attempt a.attempt_number xs ≡ o
    → existing a o ≡ ok duplicate
    → existing a (find_attempt a.attempt_number (if duplicate then xs else xs ++ a ∷ [])) ≡ ok true
unfolding existing
existing_then a xs none true is h = absurd (cc)
existing_then a xs none false is h =
    ap (existing a) (find_written a xs is) ∙ rw (matches_self a) refl
existing_then a xs (some old) true is h = ap (existing a) is ∙ h
existing_then a xs (some old) false is h = absurd (ground (arith, h))

pub committed-written :
    (now : ℤ) (r : Rows) (a : NewAttempt) (e : Effect) (duplicate : Bool) (after : Rows)
    → committed now r a e (ok duplicate) ≡ ok after
    → written now r a e duplicate ≡ after
unfolding committed
committed-written now r a e duplicate after h =
    elim (Bool-cases (is_terminal r.status && not duplicate)) [
      | inl refused ↦ absurd (ground (arith, refused, h))
      | inr made ↦ ground (arith, made, h)
    ]

pub committed_duplicate :
    (now : ℤ) (r : Rows) (a : NewAttempt) (e : Effect)
    → committed now r a e (ok true) ≡ ok (written now r a e true)
unfolding committed
committed_duplicate now r a e = ground arith

committed_again :
    (now later : ℤ) (r : Rows) (a : NewAttempt) (e : Effect) (m : Result StoreError Bool)
    (after : Rows)
    → matching_attempt_exists r.attempts a ≡ m
    → committed now r a e m ≡ ok after
    → committed later after a e (matching_attempt_exists after.attempts a)
      ≡ ok (record after { updated_at = later })
unfolding matching_attempt_exists written committed
committed_again now later r a e (err x) after is h = absurd (cc)
committed_again now later r a e (ok duplicate) after is h =
    let first = written now r a e duplicate in
    subst
      (λ x.
        committed later x a e (matching_attempt_exists x.attempts a)
        ≡ ok (record x { updated_at = later }))
      (committed-written now r a e duplicate after h)
      (ap (committed later first a e) (existing_then a r.attempts _ duplicate refl is)
        ∙ (committed_duplicate later first a e
            ∙ ap (λ x. ok x) (written_kept now later r a e duplicate)))

effected_again :
    (now later : ℤ) (r : Rows) (a : NewAttempt) (e : Result StoreError Effect) (after : Rows)
    → effected now r a e ≡ ok after
    → effected later after a e ≡ ok (record after { updated_at = later })
unfolding effected
effected_again now later r a (err x) after h = absurd (cc)
effected_again now later r a (ok e) after h = committed_again now later r a e _ after refl h

-- The same outcome, presented again after it was recorded, is accepted, and changes nothing but
-- the time of the update: the status, the delivery time, the attempts, the events and the
-- suppressions stay.
pub persist_again :
    (now later : ℤ) (r : Rows) (a : NewAttempt) (exhausted : Bool) (after : Rows)
    → persist_delivery_outcome now r a exhausted ≡ ok after
    → persist_delivery_outcome later after a exhausted ≡ ok (record after { updated_at = later })
unfolding persist_delivery_outcome
persist_again now later r a exhausted after h = elim (Bool-cases (validate a)) [
  | inl valid ↦
      rw (valid, persist_delivery_outcome)
        (effected_again now later r a _ after (ground (arith, valid, h)))
  | inr bad ↦ absurd (ground (arith, bad, h))
]
