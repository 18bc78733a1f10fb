-- ===== src/Database/Suppressed/Ends.antt =====
-- internal/database/suppressions.go: when the transaction ends a message.
use mailx.Base.{
  ◌≡◌, ◌≢◌, refl, Bool, true, false, List, ◌||◌, Result, ok, err, sym, ◌∙◌, arith, if_cases,
  if◌then◌else◌,
}
use mailx.Base.Text.{Text}
use mailx.Database.Outcomes.{
  MessageStatus, status_suppressed, status_delivered, status_failed, status_bounced, is_terminal,
  StoreError,
}
use mailx.Database.Suppressed.{Message, was_suppressed, record_suppressed_recipients}

-- The ends that a message may have otherwise.
abbrev ended_otherwise : MessageStatus → Bool
ended_otherwise status_delivered = true
ended_otherwise status_failed = true
ended_otherwise status_bounced = true
ended_otherwise _ = false

-- A refusal, and a message that is left.
unfoldable pub Ends : Message → Bool → Result StoreError Message → Type 0
unfolding is_terminal was_suppressed
Ends m all (err e) = ended_otherwise m.status ≡ true
Ends m all (ok after) =
    (ended_otherwise m.status ≡ false)
    × (is_terminal after.status ≡ (all || was_suppressed m.status))
    × (m.status ≡ status_suppressed → after ≡ m)

suppressed_ends :
    (s : MessageStatus)
    → was_suppressed s ≡ true
    → (ended_otherwise s ≡ false) × (is_terminal s ≡ true)
unfolding was_suppressed is_terminal
suppressed_ends s h = ground arith

ended_by : (s : MessageStatus) → was_suppressed s ≡ false → ended_otherwise s ≡ is_terminal s
unfolding was_suppressed is_terminal
ended_by s h = ground arith

not_suppressed : (s : MessageStatus) → was_suppressed s ≡ false → s ≢ status_suppressed
unfolding was_suppressed
not_suppressed s h e = absurd (ground arith)

or_right : (a b : Bool) → b ≡ true → true ≡ (a || b)
or_right a b h = ground arith

new_status :
    (all : Bool) (s : MessageStatus)
    → was_suppressed s ≡ false
    → is_terminal s ≡ false
    → is_terminal (if all then status_suppressed else s) ≡ (all || was_suppressed s)
unfolding is_terminal
new_status true s no_one alive = refl
new_status false s no_one alive = alive ∙ sym no_one

-- The transaction refuses exactly a message that was delivered, that failed or that bounced. A
-- message that was suppressed as a whole is left as it is, without an error and whatever the
-- caller's flag says. Where there is no error, the message has ended afterwards exactly if the
-- caller's flag is set or the message was suppressed before.
pub record_suppressed_recipients-Ends :
    (m : Message) (keys : List (Text × Bool)) (all : Bool)
    → Ends m all (record_suppressed_recipients m keys all)
unfolding Ends record_suppressed_recipients
record_suppressed_recipients-Ends m keys all =
    if_cases (Ends m all) (was_suppressed m.status)
      (λ was.
        let (others, ends) = suppressed_ends m.status was in
        (others, ends ∙ or_right all (was_suppressed m.status) was, λ _. refl))
      (λ no_one.
        if_cases (Ends m all) (is_terminal m.status) (λ ended. ended_by m.status no_one ∙ ended)
          (λ alive. (
            ended_by m.status no_one ∙ alive,
            new_status all m.status no_one alive,
            λ is. absurd (not_suppressed m.status no_one is),
          )))
