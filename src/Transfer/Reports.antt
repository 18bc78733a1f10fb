-- ===== src/Transfer/Reports.antt =====
-- internal/transfer/transfer.go: a transfer's result and its error tell the same.
use mailx.Base.{
  [], ◌≤◌, ◌<◌, ◌≡◌, refl, true, false, Option, none, some, Result, ok, err, inl, inr, if_cases,
  Option-cases,
}
use mailx.Base.Text.{Text, is_empty}
use mailx.Errors.{Err, TransferError, transfer, as_smtp, SmtpError, smtp, other, unknown}
use mailx.Smtp.Session.{Network, SendResult, send, is_cons}
use mailx.Smtp.Session.Safety.{run_ok, send_ok}
use mailx.Transfer.{Request, TransferResult, transfer_mail, sent, failed_with, refused, blank}

-- What `Transfer` returns: an acceptance with a final reply of 2xx and no error, or a
-- `*TransferError` with the fields of the result.
pub data IsReport (r : TransferResult × Option Err) : Type 0 where
  delivered :
      r.1 ≡ none
      → r.0.accepted ≡ true
      → 200 ≤ r.0.final_code
      → r.0.final_code < 300
      → r.0.failure_stage ≡ none
      → IsReport r
  undelivered :
      (te : TransferError) (cause : Err)
      → r.1 ≡ some (transfer te cause)
      → r.0.accepted ≡ false
      → r.0.failure_stage ≡ some (te.stage)
      → r.0.temporary ≡ te.temporary
      → r.0.final_code ≡ te.code
      → r.0.enhanced_status ≡ te.enhanced
      → r.0.recipient ≡ te.recipient
      → r.0.destination ≡ te.destination
      → IsReport r

failed_with-IsReport : (destination : Text) (e : Err) → IsReport (failed_with destination e)
unfolding failed_with blank
failed_with-IsReport destination e = elim (Option-cases (as_smtp e)) [
  | inl is ↦
      rw (is, failed_with)
        (undelivered
          (record {
            destination = destination;
            stage = unknown;
            temporary = false;
            recipient = [];
            code = 0;
            enhanced = [];
          })
          e refl refl refl refl refl refl refl refl)
  | inr (de, is) ↦
      rw (is, failed_with)
        (undelivered
          (record {
            destination = destination;
            stage = de.stage;
            temporary = de.temporary;
            recipient = de.recipient;
            code = de.code;
            enhanced = de.enhanced;
          })
          e refl refl refl refl refl refl refl refl)
]

refused-IsReport : (destination : Text) → IsReport (refused destination)
unfolding refused blank
refused-IsReport destination = undelivered _ other refl refl refl refl refl refl refl refl

sent-IsReport :
    (net : Network) (req : Request) (r : Result Err SendResult)
    → send net req.destination req.envelope req.auth ≡ r
    → IsReport (sent req.destination r)
unfolding sent blank
sent-IsReport net req (err e) is = failed_with-IsReport req.destination e
sent-IsReport net req (ok r) is =
    let (p, ran) = send_ok net req.destination req.envelope req.auth r is in
    let a = run_ok p req.envelope r ran in delivered refl a.accepted a.from_200 a.below_300 refl

-- A transfer's result and error agree: there is no error exactly on acceptance, which rests on
-- a final reply of 2xx; the error is otherwise a `*TransferError` that names the result's
-- stage, code, enhanced status, recipient and destination, and is temporary where it is.
pub transfer_mail-IsReport : (net : Network) (req : Request) → IsReport (transfer_mail net req)
unfolding transfer_mail
transfer_mail-IsReport net req =
    if_cases IsReport (is_empty req.destination) (λ _. refused-IsReport [])
      (λ _.
        if_cases IsReport (is_cons req.envelope.recipients) (λ _. sent-IsReport net req _ refl)
          (λ _. refused-IsReport req.destination))

-- The error of a transfer whose `Send` fails.
abbrev pub error_of : Request → SmtpError → TransferError
error_of r i = record {
  destination = r.destination;
  stage = i.stage;
  temporary = i.temporary;
  recipient = i.recipient;
  code = i.code;
  enhanced = i.enhanced;
}

pub transfer_mail_failed :
    (net : Network) (r : Request) (i : SmtpError) (c : Err)
    → is_empty r.destination ≡ false
    → is_cons r.envelope.recipients ≡ true
    → send net r.destination r.envelope r.auth ≡ err (smtp i c)
    → ((transfer_mail net r).0.accepted ≡ false)
      × ((transfer_mail net r).1 ≡ some (transfer (error_of r i) (smtp i c)))
unfolding transfer_mail sent failed_with as_smtp
transfer_mail_failed net r i c host someone error = simp (host, someone, error) (refl, refl)
