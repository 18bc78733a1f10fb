-- ===== src/Database/Outcomes/Ledger.antt =====
-- internal/database/outcomes.go: each recorded attempt has its event, and the other way round; and
-- nothing is added to the history of an ended message.
use mailx.Base.{
  ℕ, ◌≡◌, refl, Bool, true, false, Option, none, some, List, [], ◌∷◌, ◌++◌, ◌&&◌, ◌||◌, not, ◌==◌,
  if◌then◌else◌, Result, ok, err, if_cases, arith, ap, ◌∙◌, sym, map, subst, Bool-cases, inl, inr,
}
use mailx.Base.Int.{ℤ}
use mailx.Database.Outcomes.{
  Rows, NewAttempt, Effect, EventType, StoreError, validate, find_attempt, existing, matches,
  MessageStatus, status_delivered, status_failed, status_bounced, status_suppressed,
  matching_attempt_exists, has_event, add_event, written, committed, effected,
  persist_delivery_outcome, is_terminal, classify_delivery_outcome,
}
use mailx.Database.Outcomes.Replay.{committed-written}

-- The numbers of the attempts are those of the events, in the same order.
unfoldable pub IsPaired : Rows → Type 0
IsPaired r = map (λ a. a.attempt_number) r.attempts ≡ map (λ e. e.0) r.events

unfoldable pub KeepsPaired : Result StoreError Rows → Type 0
unfolding IsPaired
KeepsPaired (err x) = Unit
KeepsPaired (ok r) = IsPaired r

numbered : ℕ → List ℕ → Bool
numbered n [] = false
numbered n (m ∷ ms) = m == n || numbered n ms

event_numbered :
    (n : ℕ) (es : List (ℕ × EventType)) → has_event n es ≡ numbered n (map (λ e. e.0) es)
unfolding has_event numbered
event_numbered n [] = refl
event_numbered n ((m, e) ∷ es) = rw (event_numbered n es) refl

is_there : Option NewAttempt → Bool
is_there none = false
is_there (some a) = true

attempt_numbered :
    (n : ℕ) (xs : List NewAttempt)
    → is_there (find_attempt n xs) ≡ numbered n (map (λ a. a.attempt_number) xs)
unfolding find_attempt numbered is_there
attempt_numbered n [] = refl
attempt_numbered n (x ∷ xs) =
    if_cases
      (λ o. is_there o ≡ (x.attempt_number == n || numbered n (map (λ a. a.attempt_number) xs)))
      (x.attempt_number == n) (λ e. rw e refl) (λ e. rw e (attempt_numbered n xs))

map-snoc {ℓ} :
    {A : Type ℓ} (f : A → ℕ) (xs : List A) (x : A) → map f (xs ++ x ∷ []) ≡ map f xs ++ f x ∷ []
map-snoc f [] x = refl
map-snoc f (y ∷ xs) x = rw (map-snoc f xs x) refl

existing_there :
    (a : NewAttempt) (o : Option NewAttempt) (d : Bool) → existing a o ≡ ok d → d ≡ is_there o
unfolding existing is_there
existing_there a none d h = ground arith
existing_there a (some b) d h = ground arith

same_flag :
    (r : Rows) (a : NewAttempt) (d : Bool)
    → IsPaired r
    → matching_attempt_exists r.attempts a ≡ ok d
    → has_event a.attempt_number r.events ≡ d
unfolding IsPaired matching_attempt_exists
same_flag r a d paired h =
    event_numbered a.attempt_number r.events
    ∙ (ap (numbered a.attempt_number) (sym paired)
        ∙ (sym (attempt_numbered a.attempt_number r.attempts)
            ∙ sym (existing_there a (find_attempt a.attempt_number r.attempts) d h)))

paired_after :
    (d : Bool) (xs : List NewAttempt) (es : List (ℕ × EventType)) (a : NewAttempt) (e : EventType)
    → map (λ x. x.attempt_number) xs ≡ map (λ x. x.0) es
    → has_event a.attempt_number es ≡ d
    → map (λ x. x.attempt_number) (if d then xs else xs ++ a ∷ [])
      ≡ map (λ x. x.0) (add_event a.attempt_number e es)
unfolding add_event
paired_after true xs es a e paired h = rw (h, add_event) paired
paired_after false xs es a e paired h =
    rw (h, add_event)
      (map-snoc (λ x. x.attempt_number) xs a
        ∙ (ap (λ ms. ms ++ a.attempt_number ∷ []) paired
            ∙ sym (map-snoc (λ x. x.0) es (a.attempt_number, e))))

written-IsPaired :
    (now : ℤ) (r : Rows) (a : NewAttempt) (e : Effect) (d : Bool)
    → IsPaired r
    → matching_attempt_exists r.attempts a ≡ ok d
    → IsPaired (written now r a e d)
unfolding IsPaired written add_event
written-IsPaired now r a e d paired h =
    paired_after d r.attempts r.events a e.event paired (same_flag r a d paired h)

committed-KeepsPaired :
    (now : ℤ) (r : Rows) (a : NewAttempt) (e : Effect) (m : Result StoreError Bool)
    → IsPaired r
    → matching_attempt_exists r.attempts a ≡ m
    → KeepsPaired (committed now r a e m)
unfolding KeepsPaired committed
committed-KeepsPaired now r a e (err x) paired is = tt
committed-KeepsPaired now r a e (ok d) paired is =
    if_cases KeepsPaired (is_terminal r.status && not d) (λ _. tt)
      (λ _. written-IsPaired now r a e d paired is)

effected-KeepsPaired :
    (now : ℤ) (r : Rows) (a : NewAttempt) (e : Result StoreError Effect)
    → IsPaired r
    → KeepsPaired (effected now r a e)
unfolding KeepsPaired effected
effected-KeepsPaired now r a (err x) paired = tt
effected-KeepsPaired now r a (ok e) paired = committed-KeepsPaired now r a e _ paired refl

-- The attempts and the events of a message have the same numbers, in the same order, and every
-- outcome that is recorded, new or presented again, leaves them so.
pub persist-KeepsPaired :
    (now : ℤ) (r : Rows) (a : NewAttempt) (exhausted : Bool)
    → IsPaired r
    → KeepsPaired (persist_delivery_outcome now r a exhausted)
unfolding KeepsPaired persist_delivery_outcome
persist-KeepsPaired now r a exhausted paired =
    if_cases KeepsPaired (not (validate a)) (λ _. tt) (λ _. effected-KeepsPaired now r a _ paired)

-- The four ends of a message.
abbrev has_ended : MessageStatus → Bool
has_ended status_delivered = true
has_ended status_failed = true
has_ended status_bounced = true
has_ended status_suppressed = true
has_ended _ = false

ended_terminal : (s : MessageStatus) → has_ended s ≡ true → is_terminal s ≡ true
unfolding is_terminal
ended_terminal s h = ground arith

-- Nothing is added to the history, which has a like attempt of that number.
abbrev IsClosed : Rows → NewAttempt → Rows → Type 0
IsClosed r a after =
    (after.attempts ≡ r.attempts)
    × (after.events ≡ r.events)
    × (old : NewAttempt) × (find_attempt a.attempt_number r.attempts ≡ some old)
    × (matches old a ≡ true)

existing_match :
    (a : NewAttempt) (o : Option NewAttempt)
    → existing a o ≡ ok true
    → (old : NewAttempt) × (o ≡ some old) × (matches old a ≡ true)
unfolding existing
existing_match a none h = absurd (cc)
existing_match a (some old) h = (old, refl, ground (arith, h))

written-IsClosed :
    (now : ℤ) (r : Rows) (a : NewAttempt) (e : Effect)
    → IsPaired r
    → matching_attempt_exists r.attempts a ≡ ok true
    → IsClosed r a (written now r a e true)
unfolding written add_event matching_attempt_exists
written-IsClosed now r a e paired is =
    let there = same_flag r a true paired (unfold matching_attempt_exists in is) in
    let (old, found, like) = existing_match a (find_attempt a.attempt_number r.attempts) is in
    (refl, rw (there, add_event) refl, old, found, like)

committed-IsClosed :
    (now : ℤ) (r : Rows) (a : NewAttempt) (e : Effect) (m : Result StoreError Bool) (after : Rows)
    → is_terminal r.status ≡ true
    → IsPaired r
    → matching_attempt_exists r.attempts a ≡ m
    → committed now r a e m ≡ ok after
    → IsClosed r a after
committed-IsClosed now r a e (err x) after ended paired is h = absurd (unfold committed in cc h)
committed-IsClosed now r a e (ok false) after ended paired is h =
    absurd (unfold committed in ground (arith, ended, h))
committed-IsClosed now r a e (ok true) after ended paired is h =
    subst (IsClosed r a) (committed-written now r a e true after h)
      (written-IsClosed now r a e paired is)

effected-IsClosed :
    (now : ℤ) (r : Rows) (a : NewAttempt) (m : Result StoreError Effect) (after : Rows)
    → is_terminal r.status ≡ true
    → IsPaired r
    → effected now r a m ≡ ok after
    → IsClosed r a after
unfolding effected
effected-IsClosed now r a (err x) after ended paired h = absurd (cc)
effected-IsClosed now r a (ok e) after ended paired h =
    committed-IsClosed now r a e _ after ended paired refl h

-- Once a message was delivered, failed, bounced or was suppressed, no transaction that succeeds
-- adds to its history, whatever the attempt and the marks: the attempts and the events stay as
-- they are, and an attempt of the presented number is recorded with the same decision, kind,
-- acceptance and code. The condition is that attempts and events are paired.
pub ended_history :
    (now : ℤ) (r : Rows) (a : NewAttempt) (exhausted : Bool) (after : Rows)
    → has_ended r.status ≡ true
    → IsPaired r
    → persist_delivery_outcome now r a exhausted ≡ ok after
    → (after.attempts ≡ r.attempts)
      × (after.events ≡ r.events)
      × (old : NewAttempt) × (find_attempt a.attempt_number r.attempts ≡ some old)
      × (matches old a ≡ true)
unfolding persist_delivery_outcome
ended_history now r a exhausted after ended paired h = elim (Bool-cases (validate a)) [
  | inl valid ↦
      effected-IsClosed now r a
        (classify_delivery_outcome a.decision a.was_accepted a.finished_at exhausted) after
        (ended_terminal r.status ended) paired (ground (arith, valid, h))
  | inr bad ↦ absurd (ground (arith, bad, h))
]
