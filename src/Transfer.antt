-- ===== src/Transfer.antt =====
-- internal/transfer/transfer.go: one SMTP transfer attempt as a structured result. Identifiers,
-- instants and the texts of errors are not modelled.
pub mod Reports
use mailx.Base.{
  Bool, true, false, Option, none, some, List, [], ◌∷◌, ℕ, Result, ok, err, ◌≡◌, refl, arith, inl,
  inr, ◌⊎◌, if◌then◌else◌, Result-cases,
}
use mailx.Base.Text.{Text, is_empty}
use mailx.Errors.{
  Err, Stage, SmtpError, TransferError, other, transfer, as_smtp, invalid_input, unknown,
  as_transfer,
}
use mailx.Smtp.Session.{Envelope, Network, Credentials, SendResult, send, is_cons}

pub record Request : Type 0 where
  pub destination : Text
  pub envelope : Envelope
  pub raw : Text
  pub auth : Option Credentials

-- `Result`; `failure_stage` is none where Go has "".
pub record TransferResult : Type 0 where
  pub destination : Text
  pub accepted : Bool
  pub failure_stage : Option Stage
  pub temporary : Bool
  pub final_code : ℕ
  pub enhanced_status : Text
  pub remote_message : Text
  pub recipient : Text
  pub quit_error : Option Err

blank : Text → TransferResult
blank destination = record {
  destination = destination;
  accepted = false;
  failure_stage = none;
  temporary = false;
  final_code = 0;
  enhanced_status = [];
  remote_message = [];
  recipient = [];
  quit_error = none;
}

refused : Text → TransferResult × Option Err
unfolding blank
refused destination = (
  record (blank destination) { failure_stage = some invalid_input },
  some (
      transfer
        (record {
          destination = destination;
          stage = invalid_input;
          temporary = false;
          recipient = [];
          code = 0;
          enhanced = [];
        })
        other),
)

-- After a failed `Send`.
failed_with : Text → Err → TransferResult × Option Err
unfolding blank
failed_with destination e = elim (as_smtp e) [
  | some de ↦ (
    record (blank destination) {
      failure_stage = some (de.stage);
      temporary = de.temporary;
      final_code = de.code;
      enhanced_status = de.enhanced;
      remote_message = de.remote;
      recipient = de.recipient;
    },
    some (
        transfer
          (record {
            destination = destination;
            stage = de.stage;
            temporary = de.temporary;
            recipient = de.recipient;
            code = de.code;
            enhanced = de.enhanced;
          })
          e),
  )
  | none ↦ (
    record (blank destination) { failure_stage = some unknown },
    some (
        transfer
          (record {
            destination = destination;
            stage = unknown;
            temporary = false;
            recipient = [];
            code = 0;
            enhanced = [];
          })
          e),
  )
]

sent : Text → Result Err SendResult → TransferResult × Option Err
unfolding failed_with blank
sent destination (err e) = failed_with destination e
sent destination (ok r) = (
  record (blank destination) {
    accepted = r.accepted;
    final_code = r.final_code;
    remote_message = r.final_message;
    quit_error = r.quit_error;
  },
  none,
)

-- `Service.Transfer`
unfoldable pub transfer_mail : Network → Request → TransferResult × Option Err
unfolding refused sent is_empty
transfer_mail net req =
    if is_empty req.destination
    then refused []
    else if is_cons req.envelope.recipients
    then sent req.destination (send net req.destination req.envelope req.auth)
    else refused req.destination

-- `IsTemporary`
unfoldable pub is_temporary_transfer : Err → Bool
unfolding as_transfer as_smtp
is_temporary_transfer e = elim (as_transfer e) [
  | some (te, _) ↦ te.temporary
  | none ↦ elim (as_smtp e) [ some de ↦ de.temporary | none ↦ false ]
]
