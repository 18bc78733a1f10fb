-- ===== src/Smtp/Server/Transaction/Invariant.antt =====
-- internal/smtp/server.go: what holds of a session's state between two commands.
use mailx.Base.{
  ◌≤◌, ◌≡◌, refl, Bool, true, false, Option, none, some, [], ◌∷◌, ◌++◌, ◌&&◌, ◌||◌, not, leb,
  length, length-append, arith, if_cases, All, All-append, is_some,
}
use mailx.Base.Int.{pos_part}
use mailx.Base.Text.{Text, codes, text_eq, contains_any, is_empty, trim_space, equal_fold, cut}
use mailx.Smtp.Validation.{is_envelope_path}
use mailx.Smtp.Server.Command.{
  Command, Verb, ehlo, helo, noop, rset, auth, mail, rcpt, message_data, quit, unknown,
  parse_path_argument, valid_greeting_argument, is_known,
}
use mailx.Smtp.Server.Command.Words.{OneLine}
use mailx.Smtp.Server.Command.Paths.{parse_path_argument-is_envelope_path}
use mailx.Smtp.Server.Config.{Config}
use mailx.Smtp.Server.Reply.{wire, message_accepted, standard_reply, multiline_reply}
use mailx.Smtp.Server.Auth.{auth_plain}
use mailx.Smtp.Server.Transaction.{
  Session, greeted, is_mail_received, reset_transaction, Answer, answer_hello, answer_noop,
  answer_rset, answer_auth, answer_mail, answer_rcpt, answer, sender_taken, recipient_taken,
  login_checked, login, authenticate, capabilities, is_greeted,
}

abbrev pub IsRecipient : Text → Type 0
IsRecipient path = is_envelope_path false path ≡ true

-- A transaction is one of an authenticated client, where that is required; its sender and its
-- recipients are envelope paths that the client takes too; the recipients are not too many; and
-- outside a transaction there are none.
pub record IsSession (config : Config) (s : Session) : Type 0 where
  pub authorised : (is_mail_received s.state && config.require_auth && not s.authenticated) ≡ false
  pub sender : is_mail_received s.state ≡ true → is_envelope_path true s.envelope.mail_from ≡ true
  pub recipients : All IsRecipient s.envelope.recipients
  pub few : length s.envelope.recipients ≤ pos_part config.max_recipients
  pub fresh : is_mail_received s.state ≡ false → s.envelope.recipients ≡ []

-- An answer that is written as it stands, is not the answer to a message, and leaves such a session.
pub record IsSound (config : Config) (a : Answer) : Type 0 where
  pub session : IsSession config a.1
  pub sendable : is_some (wire a.0) ≡ true
  pub modest : text_eq a.0.enhanced message_accepted ≡ false

pub reset_transaction-IsSession :
    (config : Config) (s : Session) → IsSession config s → IsSession config (reset_transaction s)
unfolding reset_transaction
reset_transaction-IsSession config s v = record {
  authorised = ground arith;
  sender = λ e. ground arith;
  recipients = tt;
  few = omega arith;
  fresh = λ _. refl;
}

hostname_reply :
    (verb : Text)
    → contains_any verb (13 ∷ 10 ∷ []) ≡ false
    → contains_any (verb ++ codes " hostname") (13 ∷ 10 ∷ []) ≡ false
unfolding contains_any
hostname_reply [] h = refl
hostname_reply (c ∷ verb) h = ground (arith, hostname_reply verb)

syntax_reply :
    (verb : Text)
    → contains_any verb (13 ∷ 10 ∷ []) ≡ false
    → is_some (wire (standard_reply 501 (codes "Syntax: " ++ (verb ++ codes " hostname")))) ≡ true
unfolding wire contains_any
syntax_reply verb h = rw (hostname_reply verb h) refl

module _ (config : Config) (s : Session) (v : IsSession config s) where
  greeted-IsSession : IsSession config (record (reset_transaction s) { state = greeted })
  unfolding reset_transaction
  greeted-IsSession = record {
    authorised = refl;
    sender = λ e. ground arith;
    recipients = tt;
    few = omega arith;
    fresh = λ _. refl;
  }

  capable :
      (b : Bool)
      → IsSound config
          (multiline_reply 250 (capabilities b), record (reset_transaction s) { state = greeted })
  unfolding wire text_eq
  capable true = record { session = greeted-IsSession; sendable = refl; modest = refl }
  capable false = record { session = greeted-IsSession; sendable = refl; modest = refl }

  hello-IsSound :
      (extended : Bool) (cmd : Command)
      → contains_any cmd.verb (13 ∷ 10 ∷ []) ≡ false
      → IsSound config (answer_hello config extended cmd s)
  unfolding answer_hello wire text_eq
  hello-IsSound extended cmd clean =
      if_cases (IsSound config) (not cmd.has_argument || not (valid_greeting_argument cmd.argument))
        (λ _. record { session = v; sendable = syntax_reply cmd.verb clean; modest = refl })
        (λ _.
          if_cases (IsSound config) extended (λ _. capable config.require_auth)
            (λ _. record { session = greeted-IsSession; sendable = refl; modest = refl }))

  noop-IsSound : (cmd : Command) → IsSound config (answer_noop cmd s)
  unfolding answer_noop wire text_eq
  noop-IsSound cmd =
      if_cases (IsSound config) (cmd.has_argument && is_empty (trim_space cmd.argument))
        (λ _. record { session = v; sendable = refl; modest = refl })
        (λ _. record { session = v; sendable = refl; modest = refl })

  rset-IsSound : (cmd : Command) → IsSound config (answer_rset cmd s)
  unfolding answer_rset wire text_eq
  rset-IsSound cmd =
      if_cases (IsSound config) cmd.has_argument
        (λ _. record { session = v; sendable = refl; modest = refl })
        (λ _. record {
          session = reset_transaction-IsSession config s v;
          sendable = refl;
          modest = refl;
        })

  checked-IsSound : (tenant : Option Text) → IsSound config (login_checked tenant s)
  unfolding login_checked wire text_eq
  checked-IsSound none = record { session = v; sendable = refl; modest = refl }
  checked-IsSound (some tenant) = record {
    session = record {
      authorised = ground (arith, v.authorised);
      sender = v.sender;
      recipients = v.recipients;
      few = v.few;
      fresh = v.fresh;
    };
    sendable = refl;
    modest = refl;
  }

  login-IsSound :
      (check : Option (Text → Text → Option Text)) (plain : Option (Text × Text))
      → IsSound config (login check plain s)
  unfolding login wire text_eq
  login-IsSound check none = record { session = v; sendable = refl; modest = refl }
  login-IsSound none (some (user, pass)) = record { session = v; sendable = refl; modest = refl }
  login-IsSound (some check) (some (user, pass)) = checked-IsSound (check user pass)

  authenticate-IsSound :
      (parts : Option (Text × Text)) → IsSound config (authenticate config parts s)
  unfolding authenticate wire text_eq
  authenticate-IsSound none = record { session = v; sendable = refl; modest = refl }
  authenticate-IsSound (some (mechanism, response)) =
      if_cases (IsSound config) (not (equal_fold mechanism (codes "PLAIN")) || is_empty response)
        (λ _. record { session = v; sendable = refl; modest = refl })
        (λ _. login-IsSound config.authenticator (auth_plain response))

  auth-IsSound : (cmd : Command) → IsSound config (answer_auth config cmd s)
  unfolding answer_auth wire text_eq
  auth-IsSound cmd =
      if_cases (IsSound config) (not cmd.has_argument)
        (λ _. record { session = v; sendable = refl; modest = refl })
        (λ _. authenticate-IsSound (cut 32 cmd.argument))

  sender-IsSound :
      (path : Option Text)
      → ((p : Text) → path ≡ some p → is_envelope_path true p ≡ true)
      → (config.require_auth && not s.authenticated) ≡ false
      → IsSound config (sender_taken path s)
  unfolding sender_taken wire text_eq
  sender-IsSound none valid allowed = record { session = v; sendable = refl; modest = refl }
  sender-IsSound (some path) valid allowed =
      if_cases (IsSound config) (not (is_greeted s.state))
        (λ _. record { session = v; sendable = refl; modest = refl })
        (λ _. record {
          session = record {
            authorised = allowed;
            sender = λ _. valid path refl;
            recipients = v.recipients;
            few = v.few;
            fresh = λ e. absurd (cc);
          };
          sendable = refl;
          modest = refl;
        })

  mail-IsSound : (cmd : Command) → IsSound config (answer_mail config cmd s)
  unfolding answer_mail wire text_eq
  mail-IsSound cmd =
      if_cases (IsSound config) (config.require_auth && not s.authenticated)
        (λ _. record { session = v; sendable = refl; modest = refl })
        (λ allowed.
          sender-IsSound (parse_path_argument cmd.argument cmd.has_argument (codes "FROM") true)
            (λ p e.
              parse_path_argument-is_envelope_path (codes "FROM") cmd.argument p cmd.has_argument
                true e)
            allowed)

  recipient-IsSound :
      (path : Option Text)
      → ((p : Text) → path ≡ some p → IsRecipient p)
      → IsSound config (recipient_taken config path s)
  unfolding recipient_taken wire text_eq
  recipient-IsSound none valid = record { session = v; sendable = refl; modest = refl }
  recipient-IsSound (some path) valid =
      if_cases (IsSound config) (not (is_mail_received s.state))
        (λ _. record { session = v; sendable = refl; modest = refl })
        (λ inside.
          if_cases (IsSound config)
            (leb (pos_part config.max_recipients) (length s.envelope.recipients))
            (λ _. record { session = v; sendable = refl; modest = refl })
            (λ room. record {
              session = record {
                authorised = v.authorised;
                sender = v.sender;
                recipients =
                    All-append IsRecipient s.envelope.recipients (path ∷ []) v.recipients
                      (valid path refl, tt);
                few = ground (arith, room, length-append s.envelope.recipients (path ∷ []));
                fresh = λ e. absurd (ground (arith, inside, e));
              };
              sendable = refl;
              modest = refl;
            }))

  rcpt-IsSound : (cmd : Command) → IsSound config (answer_rcpt config cmd s)
  unfolding answer_rcpt
  rcpt-IsSound cmd =
      recipient-IsSound (parse_path_argument cmd.argument cmd.has_argument (codes "TO") false)
        (λ p e.
          parse_path_argument-is_envelope_path (codes "TO") cmd.argument p cmd.has_argument false e)

  -- Whatever the command, its answer is sound.
  pub verb-IsSound :
      (cmd : Command) (verb : Verb)
      → (is_known verb ≡ true → OneLine cmd.verb)
      → IsSound config (answer config verb cmd s)
  unfolding answer wire text_eq is_known
  verb-IsSound cmd ehlo clean = hello-IsSound true cmd (clean refl)
  verb-IsSound cmd helo clean = hello-IsSound false cmd (clean refl)
  verb-IsSound cmd noop clean = noop-IsSound cmd
  verb-IsSound cmd rset clean = rset-IsSound cmd
  verb-IsSound cmd auth clean = auth-IsSound cmd
  verb-IsSound cmd mail clean = mail-IsSound cmd
  verb-IsSound cmd rcpt clean = rcpt-IsSound cmd
  verb-IsSound cmd message_data clean = record { session = v; sendable = refl; modest = refl }
  verb-IsSound cmd quit clean = record { session = v; sendable = refl; modest = refl }
  verb-IsSound cmd unknown clean = record { session = v; sendable = refl; modest = refl }
