-- ===== src/Database/Suppressed.antt =====
-- internal/database/suppressions.go: the transaction that records the suppressed recipients of a
-- message, on its status and its recipients. A failure of PostgreSQL is not modelled.
pub mod Ends
use mailx.Base.{
  ℕ, Bool, true, false, Option, none, some, List, [], ◌∷◌, ◌&&◌, not, if◌then◌else◌, Result, ok,
  err, map,
}
use mailx.Base.Text.{Text}
use mailx.Suppression.{normalize}
use mailx.Worker.Suppress.{is_suppressed}
use mailx.Database.Outcomes.{
  MessageStatus, status_suppressed, is_terminal, StoreError, message_terminal,
}

-- The status of a recipient; `settled` is any but the two that the transaction reads or writes.
pub data RecipientState : Type 0 where
  pending suppressed settled : RecipientState

pub record Recipient : Type 0 where
  pub address : Text
  pub state : RecipientState

pub record Message : Type 0 where
  pub status : MessageStatus
  pub recipients : List Recipient
  pub has_suppressed_event : Bool

unfoldable pub was_suppressed : MessageStatus → Bool
was_suppressed status_suppressed = true
was_suppressed _ = false

-- A pending recipient whose key is suppressed.
marked : Bool → RecipientState → RecipientState
marked true pending = suppressed
marked _ s = s

unfoldable pub mark : List (Text × Bool) → Recipient → Recipient
unfolding marked is_suppressed
mark keys r = record r { state = marked (is_suppressed keys r.address) r.state }

-- `RecordSuppressedRecipients`
unfoldable pub record_suppressed_recipients :
    Message → List (Text × Bool) → Bool → Result StoreError Message
unfolding was_suppressed is_terminal mark
record_suppressed_recipients m keys all =
    if was_suppressed m.status
    then ok m
    else if is_terminal m.status
    then err message_terminal
    else ok (record {
      status = if all then status_suppressed else m.status;
      recipients = map (mark keys) m.recipients;
      has_suppressed_event = true;
    })
