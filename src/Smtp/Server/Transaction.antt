-- ===== src/Smtp/Server/Transaction.antt =====
-- internal/smtp/server.go: a session's state, and the commands that do no more than change it.
pub mod Invariant
pub mod Ledger
use mailx.Base.{
  ℕ, Bool, true, false, Option, none, some, List, [], ◌∷◌, ◌++◌, ◌&&◌, ◌||◌, not, leb,
  if◌then◌else◌, length,
}
use mailx.Base.Int.{pos_part}
use mailx.Base.Text.{Text, codes, is_empty, trim_space, equal_fold, cut}
use mailx.Smtp.Session.{Envelope}
use mailx.Smtp.Server.Command.{
  Command, Verb, ehlo, helo, noop, rset, auth, mail, rcpt, valid_greeting_argument,
  parse_path_argument,
}
use mailx.Smtp.Server.Reply.{
  Response, standard_reply, multiline_reply, enhanced_reply, other_success, sender_accepted,
  recipient_accepted, too_many_recipients, invalid_command, syntax_error, invalid_arguments,
}
use mailx.Smtp.Server.Config.{Config}
use mailx.Smtp.Server.Auth.{auth_plain}

pub data State : Type 0 where
  connected : State
  greeted : State
  mail_received : State

abbrev pub is_greeted : State → Bool
is_greeted greeted = true
is_greeted _ = false

abbrev pub is_mail_received : State → Bool
is_mail_received mail_received = true
is_mail_received _ = false

-- `Session`
pub record Session : Type 0 where
  pub id : Text
  pub state : State
  pub envelope : Envelope
  pub authenticated : Bool
  pub tenant_id : Text

abbrev pub no_envelope : Envelope
no_envelope = record { mail_from = []; recipients = [] }

abbrev state_reset : State → State
state_reset mail_received = greeted
state_reset s = s

-- `resetTransaction`
unfoldable pub reset_transaction : Session → Session
reset_transaction s = record s { envelope = no_envelope; state = state_reset s.state }

abbrev pub Answer : Type 0
Answer = Response × Session

abbrev capabilities : Bool → List Text
capabilities true = codes "localhost" ∷ codes "ENHANCEDSTATUSCODES" ∷ codes "AUTH PLAIN" ∷ []
capabilities false = codes "localhost" ∷ codes "ENHANCEDSTATUSCODES" ∷ []

-- EHLO, with what the server offers, or HELO.
unfoldable pub answer_hello : Config → Bool → Command → Session → Answer
unfolding valid_greeting_argument reset_transaction
answer_hello config extended cmd s =
    let greeted_session = record (reset_transaction s) { state = greeted } in
    if not cmd.has_argument || not (valid_greeting_argument cmd.argument)
    then (standard_reply 501 (codes "Syntax: " ++ (cmd.verb ++ codes " hostname")), s)
    else if extended
    then (multiline_reply 250 (capabilities config.require_auth), greeted_session)
    else (standard_reply 250 (codes "localhost"), greeted_session)

unfoldable pub answer_noop : Command → Session → Answer
unfolding is_empty trim_space
answer_noop cmd s =
    if cmd.has_argument && is_empty (trim_space cmd.argument)
    then (enhanced_reply 501 invalid_arguments (codes "Syntax: NOOP [string]"), s)
    else (enhanced_reply 250 other_success (codes "OK"), s)

unfoldable pub answer_rset : Command → Session → Answer
unfolding reset_transaction
answer_rset cmd s =
    if cmd.has_argument
    then (enhanced_reply 501 invalid_arguments (codes "Syntax: RSET"), s)
    else (enhanced_reply 250 other_success (codes "OK"), reset_transaction s)

login_checked : Option Text → Session → Answer
login_checked none s =
    (enhanced_reply 535 invalid_command (codes "Authentication credentials invalid"), s)
login_checked (some tenant) s = (
  enhanced_reply 235 other_success (codes "Authentication successful"),
  record s { authenticated = true; tenant_id = tenant },
)

login : Option (Text → Text → Option Text) → Option (Text × Text) → Session → Answer
unfolding login_checked
login authenticator none s =
    (enhanced_reply 501 invalid_arguments (codes "Invalid AUTH PLAIN response"), s)
login none (some (user, pass)) s =
    (enhanced_reply 535 invalid_command (codes "Authentication not available"), s)
login (some check) (some (user, pass)) s = login_checked (check user pass) s

unknown_mechanism : Session → Answer
unknown_mechanism s =
    (enhanced_reply 504 invalid_command (codes "Unrecognized authentication mechanism"), s)

-- With the mechanism and its response.
authenticate : Config → Option (Text × Text) → Session → Answer
unfolding equal_fold is_empty login unknown_mechanism auth_plain
authenticate config none s = unknown_mechanism s
authenticate config (some (mechanism, response)) s =
    if not (equal_fold mechanism (codes "PLAIN")) || is_empty response
    then unknown_mechanism s
    else login config.authenticator (auth_plain response) s

unfoldable pub answer_auth : Config → Command → Session → Answer
unfolding authenticate cut
answer_auth config cmd s =
    if not cmd.has_argument
    then (enhanced_reply 501 invalid_arguments (codes "Syntax: AUTH PLAIN <response>"), s)
    else authenticate config (cut 32 cmd.argument) s

sender_taken : Option Text → Session → Answer
sender_taken none s =
    (enhanced_reply 501 invalid_arguments (codes "Syntax: MAIL FROM:<address>"), s)
sender_taken (some path) s =
    if not (is_greeted s.state)
    then (enhanced_reply 503 invalid_command (codes "Bad sequence of commands"), s)
    else (
      enhanced_reply 250 sender_accepted (codes "Sender OK"),
      record s {
        envelope = record { mail_from = path; recipients = s.envelope.recipients };
        state = mail_received;
      },
    )

unfoldable pub answer_mail : Config → Command → Session → Answer
unfolding sender_taken parse_path_argument
answer_mail config cmd s =
    if config.require_auth && not s.authenticated
    then (enhanced_reply 530 invalid_command (codes "Authentication required"), s)
    else sender_taken (parse_path_argument cmd.argument cmd.has_argument (codes "FROM") true) s

recipient_taken : Config → Option Text → Session → Answer
recipient_taken config none s =
    (enhanced_reply 501 invalid_arguments (codes "Syntax: RCPT TO:<address>"), s)
recipient_taken config (some path) s =
    if not (is_mail_received s.state)
    then (enhanced_reply 503 invalid_command (codes "Bad sequence of commands"), s)
    else if leb (pos_part config.max_recipients) (length s.envelope.recipients)
    then (enhanced_reply 452 too_many_recipients (codes "Too many recipients"), s)
    else (
      enhanced_reply 250 recipient_accepted (codes "Recipient OK"),
      record s {
        envelope = record {
          mail_from = s.envelope.mail_from;
          recipients = s.envelope.recipients ++ path ∷ [];
        };
      },
    )

unfoldable pub answer_rcpt : Config → Command → Session → Answer
unfolding recipient_taken parse_path_argument
answer_rcpt config cmd s =
    recipient_taken config (parse_path_argument cmd.argument cmd.has_argument (codes "TO") false) s

-- The switch of `serve`, without DATA and QUIT.
unfoldable pub answer : Config → Verb → Command → Session → Answer
unfolding answer_hello answer_noop answer_rset answer_auth answer_mail answer_rcpt
answer config ehlo cmd s = answer_hello config true cmd s
answer config helo cmd s = answer_hello config false cmd s
answer config noop cmd s = answer_noop cmd s
answer config rset cmd s = answer_rset cmd s
answer config auth cmd s = answer_auth config cmd s
answer config mail cmd s = answer_mail config cmd s
answer config rcpt cmd s = answer_rcpt config cmd s
answer config _ cmd s = (enhanced_reply 500 syntax_error (codes "Command unrecognized"), s)
