-- ===== src/Retry/Faults.antt =====
-- internal/smtp, internal/transfer, internal/delivery and internal/retry together: what a fault
-- of the network comes to in the retry policy. One candidate, as in relay mode, suffices.
mod Tests
use mailx.Base.{
  ℕ, ◌≡◌, refl, true, false, Option, none, some, List, [], ◌∷◌, arith, Bool, leb, ltb, ◌&&◌, ◌∙◌,
  ap, ◌≤◌, ◌<◌, err, Result, if_cases, if◌then◌else◌,
}
use mailx.Base.Int.{ℤ}
use mailx.Base.Text.{Text, is_empty}
use mailx.Errors.{
  Err, Stage, SmtpError, TransferError, smtp, transfer, delivery, is_context, dial, mail_from,
  rcpt_to, data_command, message, data_response, transfer_permanent, transfer_temporary,
}
use mailx.Smtp.Session.{Network, Credentials, SendResult, send, is_cons}
use mailx.Smtp.Session.Grades.{IsPlain, send-Grades, Grades, any_code}
use mailx.Transfer as Transfer
use mailx.Transfer.{TransferResult, transfer_mail}
use mailx.Transfer.Reports.{error_of, transfer_mail_failed}
use mailx.Delivery.Policy.{decide_fallback, decide_stage, classify_final}
use mailx.Delivery.Request.{Request}
use mailx.Delivery.Candidates.{Mx}
use mailx.Delivery.Result.{Attempt, DeliveryResult, temporary_kind}
use mailx.Delivery.Engine.{
  World, deliver_to, start, finish, try_candidates, transfer_request, attempt_of, finish_stopped,
  finish_failed, note_attempt,
}
use mailx.Delivery.Engine.Single.{Reported, single_failed}
use mailx.Retry.Policy.{decide, decide_kind, ended_by_context, terminal_failure, retry}

-- The stages from MAIL FROM to the reply to the message's end.
abbrev pub is_transaction : Stage → Bool
is_transaction mail_from = true
is_transaction rcpt_to = true
is_transaction data_command = true
is_transaction message = true
is_transaction data_response = true
is_transaction _ = false

-- One candidate of an operation whose context stays alive, and whose transfer ends in an error
-- of the SMTP client.
pub record Failing (w : World) (net : Network) (r : Transfer.Request) (i : SmtpError) (c : Err)
    : Type 0 where
  pub alive : (n : ℕ) → w.context n ≡ none
  pub transfers : w.transfer 0 r ≡ transfer_mail net r
  pub to_host : is_empty r.destination ≡ false
  pub to_someone : is_cons r.envelope.recipients ≡ true
  pub error : send net r.destination r.envelope r.auth ≡ err (smtp i c)

-- What the operation of such a candidate reports.
fault-Reported :
    (w : World) (net : Network) (mx : Mx) (req : Request) (res : DeliveryResult) (port : ℤ)
    (auth : Option Credentials) (i : SmtpError) (c : Err)
    → Failing w net (transfer_request req port auth mx) i c
    → res.accepted ≡ false
    → Reported
        (error_of (transfer_request req port auth mx) i)
        (smtp i c)
        req.domain
        (deliver_to w req res port auth (mx ∷ []))
fault-Reported w net mx req res port auth i c f un =
    let r = transfer_request req port auth mx in
    let (refused, error) = transfer_mail_failed net r i c f.to_host f.to_someone f.error in
    single_failed w req res port auth mx (error_of r i) (smtp i c) f.alive un
      (rw f.transfers refused) (rw f.transfers error)

-- The retry decision on what was reported.
decide-Reported :
    (te : TransferError) (i : SmtpError) (c : Err) (domain : Text) (r : DeliveryResult × Option Err)
    → Reported te (smtp i c) domain r
    → decide r.0 r.1 ≡ (
        if is_context c
        then terminal_failure
        else decide_kind
            (classify_final (decide_fallback (some (te, smtp i c))) (some (te, smtp i c))))
unfolding decide ended_by_context is_context
decide-Reported te i c domain r p = rw (p.accepted, p.error, p.kind) refl

-- An error in the transaction that is not marked temporary is a permanent failure, and one
-- that is so marked a temporary one.
classify_transaction :
    (te : TransferError) (c : Err)
    → is_transaction te.stage ≡ true
    → classify_final (decide_fallback (some (te, c))) (some (te, c))
      ≡ (if te.temporary then transfer_temporary else transfer_permanent)
unfolding classify_final decide_fallback
classify_transaction te c late = ground arith

-- With one candidate, a live context and the TLS and AUTH stages passed: a transfer whose SMTP
-- error has no reply code (a lost connection or a timeout) and a stage from MAIL FROM to the reply
-- to the message makes a permanent failure, and the retry policy ends the lifecycle.
pub lost_connection_final :
    (w : World) (net : Network) (mx : Mx) (req : Request) (res : DeliveryResult) (port : ℤ)
    (auth : Option Credentials) (i : SmtpError) (c : Err)
    → IsPlain net
    → Failing w net (transfer_request req port auth mx) i c
    → res.accepted ≡ false
    → is_transaction i.stage ≡ true
    → i.code ≡ 0
    → ((deliver_to w req res port auth (mx ∷ [])).0.kind ≡ transfer_permanent)
      × (decide
            (deliver_to w req res port auth (mx ∷ [])).0
            (deliver_to w req res port auth (mx ∷ [])).1
          ≡ terminal_failure)
unfolding decide_kind
lost_connection_final w net mx req res port auth i c plain f un late code =
    let r = transfer_request req port auth mx in
    let p = fault-Reported w net mx req res port auth i c f un in
    let graded : i.temporary ≡ (leb 400 i.code && ltb i.code 500) =
      (rw f.error at (
        send-Grades (λ _. Unit {0}) net r.destination r.envelope r.auth plain
          (λ p _. any_code p.replies))).0 in
    let hard : i.temporary ≡ false = ground (arith, graded, code) in
    let verdict =
      classify_transaction (error_of r i) (smtp i c) late
      ∙ ap (λ t. if t then transfer_temporary else transfer_permanent) hard in
    (
      p.kind ∙ verdict,
      decide-Reported (error_of r i) i c req.domain _ p
          ∙ if_cases (λ d. d ≡ terminal_failure) (is_context c) (λ _. refl)
              (λ _. ap decide_kind verdict),
    )

-- With one candidate and a live context: a transfer whose dial fails by a deadline makes a
-- temporary failure, and still the retry policy ends the lifecycle.
pub dial_timeout_final :
    (w : World) (net : Network) (mx : Mx) (req : Request) (res : DeliveryResult) (port : ℤ)
    (auth : Option Credentials) (i : SmtpError) (c : Err)
    → Failing w net (transfer_request req port auth mx) i c
    → res.accepted ≡ false
    → i.stage ≡ dial
    → is_context c ≡ true
    → ((deliver_to w req res port auth (mx ∷ [])).0.kind ≡ transfer_temporary)
      × (decide
            (deliver_to w req res port auth (mx ∷ [])).0
            (deliver_to w req res port auth (mx ∷ [])).1
          ≡ terminal_failure)
unfolding decide_fallback decide_stage classify_final
dial_timeout_final w net mx req res port auth i c f un dialling timeout =
    let r = transfer_request req port auth mx in
    let p = fault-Reported w net mx req res port auth i c f un in
    (
      p.kind ∙ ground (arith, dialling),
      decide-Reported (error_of r i) i c req.domain _ p ∙ rw timeout refl,
    )

-- With one candidate, a live context and the TLS and AUTH stages passed: a transfer whose SMTP
-- error has a 4xx code, a stage from MAIL FROM to the reply to the message, and no context error
-- inside makes a temporary failure, and the retry policy retries it.
deferral_retried :
    (w : World) (net : Network) (mx : Mx) (req : Request) (res : DeliveryResult) (port : ℤ)
    (auth : Option Credentials) (i : SmtpError) (c : Err)
    → Failing w net (transfer_request req port auth mx) i c
    → IsPlain net
    → res.accepted ≡ false
    → is_transaction i.stage ≡ true
    → 400 ≤ i.code
    → i.code < 500
    → is_context c ≡ false
    → ((deliver_to w req res port auth (mx ∷ [])).0.kind ≡ transfer_temporary)
      × (decide
            (deliver_to w req res port auth (mx ∷ [])).0
            (deliver_to w req res port auth (mx ∷ [])).1
          ≡ retry)
unfolding decide_kind
deferral_retried w net mx req res port auth i c f plain un late from below own =
    let r = transfer_request req port auth mx in
    let p = fault-Reported w net mx req res port auth i c f un in
    let graded : i.temporary ≡ (leb 400 i.code && ltb i.code 500) =
      (rw f.error at (
        send-Grades (λ _. Unit {0}) net r.destination r.envelope r.auth plain
          (λ p _. any_code p.replies))).0 in
    let soft : i.temporary ≡ true = ground (arith, graded, from, below) in
    let verdict =
      classify_transaction (error_of r i) (smtp i c) late
      ∙ ap (λ t. if t then transfer_temporary else transfer_permanent) soft in
    (
      p.kind ∙ verdict,
      decide-Reported (error_of r i) i c req.domain _ p ∙ rw own (ap decide_kind verdict),
    )
