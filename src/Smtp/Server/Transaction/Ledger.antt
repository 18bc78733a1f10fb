-- ===== src/Smtp/Server/Transaction/Ledger.antt =====
-- internal/smtp/server.go: what an observer of the replies knows of the transaction.
use mailx.Base.{
  ◌≡◌, refl, Bool, true, false, Option, none, some, List, [], ◌∷◌, ◌++◌, ◌&&◌, ◌||◌, not, leb,
  if◌then◌else◌, length, arith, if_cases,
}
use mailx.Base.Int.{pos_part}
use mailx.Base.Text.{Text, codes, text_eq, is_empty, trim_space, equal_fold, cut}
use mailx.Smtp.Server.Command.{
  Command, Verb, ehlo, helo, noop, rset, auth, mail, rcpt, message_data, quit, unknown, is_known,
  valid_greeting_argument, parse_path_argument,
}
use mailx.Smtp.Server.Command.Words.{IsWord}
use mailx.Smtp.Server.Command.Brackets.{from_bracket, NoBracket}
use mailx.Smtp.Server.Config.{Config}
use mailx.Smtp.Server.Reply.{Response, sender_accepted, recipient_accepted}
use mailx.Smtp.Server.Auth.{auth_plain}
use mailx.Smtp.Server.Transaction.{
  Session, greeted, is_greeted, is_mail_received, reset_transaction, Answer, answer, answer_hello,
  answer_noop, answer_rset, answer_auth, answer_mail, answer_rcpt, sender_taken, recipient_taken,
  login_checked, login, authenticate,
}

-- What an observer keeps: the last command line, and the envelope.
pub record Ledger : Type 0 where
  pub line : Text
  pub sender : Text
  pub recipients : List Text

abbrev pub blank : Ledger
blank = record { line = []; sender = []; recipients = [] }

-- A reply with status 2.1.0 puts the path of the line that it answers in the place of the sender
-- and starts with no recipients; one with status 2.1.5 adds it to the recipients.
unfoldable pub note_reply : Ledger → Response → Ledger
unfolding text_eq
note_reply l r =
    if text_eq r.enhanced sender_accepted
    then record l { sender = from_bracket l.line; recipients = [] }
    else if text_eq r.enhanced recipient_accepted
    then record l { recipients = l.recipients ++ from_bracket l.line ∷ [] }
    else l

-- The session and the observer agree on the transaction, and outside one there are no recipients.
pub record Matches (l : Ledger) (s : Session) : Type 0 where
  pub sender : is_mail_received s.state ≡ true → s.envelope.mail_from ≡ l.sender
  pub recipients : is_mail_received s.state ≡ true → s.envelope.recipients ≡ l.recipients
  pub outside : is_mail_received s.state ≡ false → s.envelope.recipients ≡ []

pub reset-Matches : (l : Ledger) (s : Session) → Matches l (reset_transaction s)
unfolding reset_transaction
reset-Matches l s = record {
  sender = λ e. ground arith;
  recipients = λ e. ground arith;
  outside = λ _. refl;
}

greeted-Matches :
    (l : Ledger) (s : Session) → Matches l (record (reset_transaction s) { state = greeted })
unfolding reset_transaction
greeted-Matches l s = record {
  sender = λ e. absurd (cc);
  recipients = λ e. absurd (cc);
  outside = λ _. refl;
}

-- The paths of a command are the one in the last line.
abbrev pub Named : Ledger → Command → Type 0
Named l cmd =
    (k p : Text) (allow : Bool)
    → IsWord k
    → NoBracket k
    → parse_path_argument cmd.argument cmd.has_argument k allow ≡ some p
    → p ≡ from_bracket l.line

module _ (config : Config) (l : Ledger) (s : Session) (v : Matches l s) where
  unfoldable pub Follows : Answer → Type 0
  Follows a = Matches (note_reply l a.0) a.1

  hello-Follows : (extended : Bool) (cmd : Command) → Follows (answer_hello config extended cmd s)
  unfolding Follows answer_hello note_reply
  hello-Follows extended cmd =
      if_cases Follows (not cmd.has_argument || not (valid_greeting_argument cmd.argument)) (λ _. v)
        (λ _. if_cases Follows extended (λ _. greeted-Matches l s) (λ _. greeted-Matches l s))

  noop-Follows : (cmd : Command) → Follows (answer_noop cmd s)
  unfolding Follows answer_noop note_reply
  noop-Follows cmd =
      if_cases Follows (cmd.has_argument && is_empty (trim_space cmd.argument)) (λ _. v) (λ _. v)

  rset-Follows : (cmd : Command) → Follows (answer_rset cmd s)
  unfolding Follows answer_rset note_reply
  rset-Follows cmd = if_cases Follows cmd.has_argument (λ _. v) (λ _. reset-Matches l s)

  checked-Follows : (tenant : Option Text) → Follows (login_checked tenant s)
  unfolding Follows login_checked note_reply
  checked-Follows none = v
  checked-Follows (some tenant) = record {
    sender = v.sender;
    recipients = v.recipients;
    outside = v.outside;
  }

  login-Follows :
      (check : Option (Text → Text → Option Text)) (plain : Option (Text × Text))
      → Follows (login check plain s)
  unfolding Follows login note_reply
  login-Follows check none = v
  login-Follows none (some (user, pass)) = v
  login-Follows (some check) (some (user, pass)) = checked-Follows (check user pass)

  authenticate-Follows : (parts : Option (Text × Text)) → Follows (authenticate config parts s)
  unfolding Follows authenticate note_reply
  authenticate-Follows none = v
  authenticate-Follows (some (mechanism, response)) =
      if_cases Follows (not (equal_fold mechanism (codes "PLAIN")) || is_empty response) (λ _. v)
        (λ _. login-Follows config.authenticator (auth_plain response))

  auth-Follows : (cmd : Command) → Follows (answer_auth config cmd s)
  unfolding Follows answer_auth note_reply
  auth-Follows cmd =
      if_cases Follows (not cmd.has_argument) (λ _. v)
        (λ _. authenticate-Follows (cut 32 cmd.argument))

  sender-Follows :
      (path : Option Text)
      → ((p : Text) → path ≡ some p → p ≡ from_bracket l.line)
      → Follows (sender_taken path s)
  unfolding Follows sender_taken note_reply
  sender-Follows none named = v
  sender-Follows (some path) named =
      if_cases Follows (not (is_greeted s.state)) (λ _. v)
        (λ before. record {
          sender = λ _. named path refl;
          recipients = λ _. v.outside (ground (arith, before));
          outside = λ e. absurd (cc);
        })

  recipient-Follows :
      (path : Option Text)
      → ((p : Text) → path ≡ some p → p ≡ from_bracket l.line)
      → Follows (recipient_taken config path s)
  unfolding Follows recipient_taken note_reply
  recipient-Follows none named = v
  recipient-Follows (some path) named =
      if_cases Follows (not (is_mail_received s.state)) (λ _. v)
        (λ inside.
          if_cases Follows (leb (pos_part config.max_recipients) (length s.envelope.recipients))
            (λ _. v)
            (λ _. record {
              sender = v.sender;
              recipients = λ e. rw (v.recipients e, named path refl) refl;
              outside = λ e. absurd (ground (arith, inside, e));
            }))

  -- Every answer keeps the agreement.
  pub answer-Follows :
      (verb : Verb) (cmd : Command)
      → (is_known verb ≡ true → Named l cmd)
      → Follows (answer config verb cmd s)
  unfolding Follows answer answer_mail answer_rcpt note_reply is_known
  answer-Follows ehlo cmd named = hello-Follows true cmd
  answer-Follows helo cmd named = hello-Follows false cmd
  answer-Follows noop cmd named = noop-Follows cmd
  answer-Follows rset cmd named = rset-Follows cmd
  answer-Follows auth cmd named = auth-Follows cmd
  answer-Follows mail cmd named =
      if_cases Follows (config.require_auth && not s.authenticated) (λ _. v)
        (λ _.
          sender-Follows (parse_path_argument cmd.argument cmd.has_argument (codes "FROM") true)
            (λ p e. named refl (codes "FROM") p true (omega arith) refl e))
  answer-Follows rcpt cmd named =
      recipient-Follows (parse_path_argument cmd.argument cmd.has_argument (codes "TO") false)
        (λ p e. named refl (codes "TO") p false (omega arith) refl e)
  answer-Follows message_data cmd named = v
  answer-Follows quit cmd named = v
  answer-Follows unknown cmd named = v
