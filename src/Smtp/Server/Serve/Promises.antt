-- ===== src/Smtp/Server/Serve/Promises.antt =====
-- internal/smtp/server.go: what a session promises to the sink and to the client.
use mailx.Base.{
  ◌≤◌, ◌≡◌, Bool, true, false, Option, none, some, List, [], ◌∷◌, ◌++◌, ◌&&◌, not, if◌then◌else◌,
  length, All, is_some,
}
use mailx.Base.Int.{pos_part}
use mailx.Base.Text.{Text, text_eq}
use mailx.Smtp.Validation.{is_envelope_path}
use mailx.Smtp.Server.Reader.{DataReadResult, read, read_data, read_command, got}
use mailx.Smtp.Server.Command.{message_data, command, verb_of}
use mailx.Smtp.Server.Reader.Parts.{IsPart}
use mailx.Smtp.Server.Reply.{wire, message_accepted}
use mailx.Smtp.Server.Transaction.{Session, is_mail_received}
use mailx.Smtp.Server.Transaction.Invariant.{IsRecipient}
use mailx.Smtp.Server.Serve.{Event, heard, replied, handed, Server, accepted_reply, failed_reply}

-- These bytes of the session follow a line that `readCommand` reads and that is the DATA command.
pub record FollowsData (M : Type 0) (srv : Server M) (input rest : Text) : Type 0 where
  pub from : Text
  pub line : Text
  pub sent : IsPart from input
  pub line_read : read_command (pos_part srv.config.command_line_limit) from ≡ got line rest
  pub is_data : verb_of (command line).verb ≡ message_data

-- The message data that a message was parsed of: it is what `readData` gives of the session's bytes
-- after a DATA command, complete, well-formed and within the size limit.
pub record IsReceived (M : Type 0) (srv : Server M) (input : Text) (m : M) : Type 0 where
  pub from : Text
  pub after : Text
  pub data_read : DataReadResult
  pub sent : FollowsData M srv input from
  pub is_read :
      read_data (pos_part srv.config.command_line_limit) (pos_part srv.config.max_message_size) from
      ≡ read data_read after
  pub whole : data_read.oversized ≡ false
  pub well_formed : data_read.malformed ≡ false
  pub small : length data_read.raw ≤ pos_part srv.config.max_message_size
  pub parsed : srv.parse_message data_read.raw ≡ some m

-- What the sink may rely on: the client is authenticated where that is required; the sender and
-- the recipients, of which there are some and not too many, are envelope paths that the client
-- takes too; and the message is what was parsed of message data that the client sent.
pub record IsHandOver (M : Type 0) (srv : Server M) (input : Text) (s : Session) (m : M)
    : Type 0 where
  pub inside : is_mail_received s.state ≡ true
  pub authorised : (srv.config.require_auth && not s.authenticated) ≡ false
  pub sender : is_envelope_path true s.envelope.mail_from ≡ true
  pub some_recipients : 1 ≤ length s.envelope.recipients
  pub few_recipients : length s.envelope.recipients ≤ pos_part srv.config.max_recipients
  pub recipients : All IsRecipient s.envelope.recipients
  pub received : IsReceived M srv input m

-- A reply has a form on the wire.
abbrev pub IsSafe : {M : Type 0} → Server M → Text → Event M → Type 0
IsSafe {M} srv input (heard line) = Unit
IsSafe {M} srv input (replied r) = is_some (wire r) ≡ true
IsSafe {M} srv input (handed s m taken) = IsHandOver M srv input s m

-- Each hand-over is followed by its answer, which says whether the sink has taken the message; and
-- no other reply says that a message is accepted. `last` is the sink's answer, if it is to be told.
abbrev pub IsHonest : {M : Type 0} (last : Option Bool) → List (Event M) → Type 0
IsHonest last [] = last ≡ none
IsHonest none (heard line ∷ es) = IsHonest none es
IsHonest none (replied r ∷ es) = (text_eq r.enhanced message_accepted ≡ false) × IsHonest none es
IsHonest none (handed s m taken ∷ es) = IsHonest (some taken) es
IsHonest (some taken) (replied r ∷ es) =
    (r ≡ (if taken then accepted_reply else failed_reply)) × IsHonest none es
IsHonest (some taken) (heard line ∷ es) = ⊥
IsHonest (some taken) (handed s m more ∷ es) = ⊥

pub IsHonest-append :
    {M : Type 0} (last : Option Bool) (es fs : List (Event M))
    → IsHonest last es
    → IsHonest none fs
    → IsHonest last (es ++ fs)
IsHonest-append none [] fs h k = k
IsHonest-append (some taken) [] fs h k = absurd (cc)
IsHonest-append none (heard line ∷ es) fs h k = IsHonest-append none es fs h k
IsHonest-append none (replied r ∷ es) fs h k = (h.0, IsHonest-append none es fs h.1 k)
IsHonest-append none (handed s m taken ∷ es) fs h k = IsHonest-append (some taken) es fs h k
IsHonest-append (some taken) (replied r ∷ es) fs h k = (h.0, IsHonest-append none es fs h.1 k)
IsHonest-append (some taken) (heard line ∷ es) fs h k = absurd h
IsHonest-append (some taken) (handed s m more ∷ es) fs h k = absurd h
