-- ===== src/Bounce/Dsn.antt =====
-- internal/bounce/dsn.go, safety.go and recipient.go: whether a notification is sent, and what
-- it says of each recipient.
pub mod Loops
use mailx.Base.{
  ℕ, Bool, true, false, Option, none, some, List, [], ◌∷◌, ◌&&◌, ◌||◌, not, if◌then◌else◌, Result,
  ok, err, map, ◌>>=◌, guard,
}
use mailx.Base.Text.{Text, codes, is_empty, trim_space, text_eq, contains_any}
use mailx.Smtp.Validation.{is_bracketed, is_cons}
use mailx.Smtp.Session.{Envelope}
use mailx.Delivery.Result.{DeliveryResult}
use mailx.Bounce.Status.{EnhancedStatus}
use mailx.Bounce.Classify.{
  Failure, FailureClass, failure_unknown, permanent_delivery, failure_retry_exhausted, failure_dns,
  failure_null_mx, failure_invalid_request, failure_aborted,
}

pub data BounceError : Type 0 where
  original_sender_null original_sender_empty not_dsn_eligible not_bracketed forbidden_character :
      BounceError
  reporting_mta_empty no_recipients : BounceError

-- `Failure.Eligible`
unfoldable pub eligible : FailureClass → Bool
eligible permanent_delivery = true
eligible failure_retry_exhausted = true
eligible failure_dns = true
eligible failure_null_mx = true
eligible _ = false

-- `IsNullReversePath`
unfoldable pub is_null_reverse_path : Text → Bool
unfolding trim_space text_eq
is_null_reverse_path mail_from = text_eq (trim_space mail_from) (b'<' ∷ b'>' ∷ [])

-- `ShouldGenerate`; it returns true, or an error.
unfoldable pub should_generate : Text → Failure → Result BounceError Bool
unfolding is_null_reverse_path trim_space is_empty eligible
should_generate mail_from f =
    if is_null_reverse_path mail_from
    then err original_sender_null
    else if is_empty (trim_space mail_from)
    then err original_sender_empty
    else if not (eligible f.class)
    then err not_dsn_eligible
    else ok true

-- `BounceEnvelope`
unfoldable pub bounce_envelope : Text → Result BounceError Envelope
unfolding is_null_reverse_path trim_space is_empty is_bracketed contains_any
bounce_envelope mail_from =
    let trimmed = trim_space mail_from in
    if is_null_reverse_path mail_from
    then err original_sender_null
    else if is_empty trimmed
    then err original_sender_empty
    else if not (is_bracketed trimmed)
    then err not_bracketed
    else if contains_any trimmed (13 ∷ 10 ∷ 0 ∷ [])
    then err forbidden_character
    else ok (record { mail_from = b'<' ∷ b'>' ∷ []; recipients = trimmed ∷ [] })

pub data RecipientAction : Type 0 where
  action_unknown action_failed action_delivered : RecipientAction

-- `aborted` is the fixed text of an aborted transaction.
pub data Diagnostic : Type 0 where
  aborted : Diagnostic
  remote : Text → Diagnostic

pub record RecipientStatus : Type 0 where
  pub final_recipient : Text
  pub action : RecipientAction
  pub status : Option EnhancedStatus
  pub smtp_code : ℕ
  pub diagnostic : Diagnostic

abbrev reported : Failure → Text → RecipientStatus
reported f recipient = record {
  final_recipient = recipient;
  action = action_failed;
  status = f.enhanced_status;
  smtp_code = f.smtp_code;
  diagnostic = remote f.remote_message;
}

-- `recipientStatusFor`
unfoldable pub recipient_status_for : Failure → Text → RecipientStatus
unfolding is_empty text_eq
recipient_status_for f recipient =
    if not (is_empty f.recipient) && text_eq f.recipient recipient
    then reported f recipient
    else if not (is_empty f.recipient)
    then record {
      final_recipient = recipient;
      action = action_failed;
      status = none;
      smtp_code = 0;
      diagnostic = aborted;
    }
    else reported f recipient

-- `RecipientStatuses`
unfoldable pub recipient_statuses : Failure → List Text → List RecipientStatus
unfolding recipient_status_for
recipient_statuses f recipients = map (recipient_status_for f) recipients

-- `DeliveredRecipientStatuses`
unfoldable pub delivered_recipient_statuses : List Text → DeliveryResult → List RecipientStatus
delivered_recipient_statuses recipients r =
    map
      (λ recipient. record {
        final_recipient = recipient;
        action = action_delivered;
        status = none;
        smtp_code = r.final_code;
        diagnostic = remote r.remote_message;
      })
      recipients

-- `DSN`, without its date.
pub record Dsn : Type 0 where
  pub reporting_mta : Text
  pub original_envelope_id : Text
  pub recipients : List RecipientStatus
  pub failure : Failure

-- `NewDSN`
unfoldable pub new_dsn : Failure → List Text → Text → Text → Result BounceError Dsn
unfolding eligible trim_space is_empty recipient_statuses
new_dsn f recipients reporting_mta id =
    if not (eligible f.class)
    then err not_dsn_eligible
    else if is_empty (trim_space reporting_mta)
    then err reporting_mta_empty
    else if not (is_cons recipients)
    then err no_recipients
    else ok (record {
      reporting_mta = reporting_mta;
      original_envelope_id = id;
      recipients = recipient_statuses f recipients;
      failure = f;
    })
