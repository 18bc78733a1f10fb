-- ===== src/Smtp/Server/Serve.antt =====
-- internal/smtp/server.go: the loop of a session. What happens is a list of events: a
-- command line that the server reads, a reply that it writes, or a message that it hands to the
-- sink. A connection whose writes fail
-- shows an initial part of the list, up to the reply that was not written.
pub mod Rounds
pub mod Promises
pub mod Turns
pub mod Safety
pub mod Fuel
pub mod Transcript
use mailx.Base.{
  ℕ, zero, suc, ◌+◌, Bool, true, false, Option, none, some, List, [], ◌∷◌, ◌++◌, ◌&&◌, ◌||◌, not,
  if◌then◌else◌, length, Result, ok, err, ◌>>=◌,
}
use mailx.Base.Int.{pos_part}
use mailx.Base.Text.{Text, codes, is_empty}
use mailx.Smtp.Validation.{is_cons}
use mailx.Smtp.Server.Command.{Command, Verb, message_data, quit, command, verb_of, is_known}
use mailx.Smtp.Server.Config.{Config, ConfigError, normalized_config}
use mailx.Smtp.Server.Reply.{
  Response, standard_reply, enhanced_reply, other_success, message_accepted, temporary_system,
  invalid_command, syntax_error, invalid_arguments, message_too_large, message_content_error,
}
use mailx.Smtp.Server.Reader.{
  CommandLine, got, too_long, bad_framing, closed, read_command, DataReadResult, DataRead, read,
  failed, spent, read_data,
}
use mailx.Smtp.Server.Transaction.{
  Session, State, connected, is_mail_received, no_envelope, reset_transaction, answer,
}

pub data Event (M : Type 0) : Type 0 where
  heard : (line : Text) → Event M
  replied : Response → Event M
  handed : (s : Session) (m : M) (taken : Bool) → Event M

-- The configuration, `mail.ParseMessage` (`none` is an error), and the sink: whether its n-th call
-- takes the message.
pub record Server (M : Type 0) : Type 0 where
  pub config : Config
  pub parse_message : Text → Option M
  pub sink : Option (ℕ → Session → M → Bool)

-- The session goes on, with the number of the sink's calls and the bytes to come, or is over. `unread`
-- stands for message data whose reading did not end.
pub data Next : Type 0 where
  go : Session → (calls : ℕ) → (rest : Text) → Next
  over : Next
  unread : Next

-- One round of the loop.
pub record Turn (M : Type 0) : Type 0 where
  pub events : List (Event M)
  pub next : Next

abbrev pub say : {M : Type 0} → Response → Session → ℕ → Text → Turn M
say r s calls rest = record { events = replied r ∷ []; next = go s calls rest }

abbrev pub accepted_reply : Response
accepted_reply = enhanced_reply 250 message_accepted (codes "Message accepted by MailX")

abbrev pub failed_reply : Response
failed_reply = enhanced_reply 451 temporary_system (codes "Temporary internal failure")

-- What the sink is given, and the reply to its answer.
unfoldable pub hand_over :
    {M : Type 0} → Option (ℕ → Session → M → Bool) → M → Session → ℕ → Text → Turn M
unfolding reset_transaction
hand_over none m s calls rest = say accepted_reply (reset_transaction s) calls rest
hand_over (some sink) m s calls rest =
    let taken = sink calls s m in
    record {
      events = handed s m taken ∷ replied (if taken then accepted_reply else failed_reply) ∷ [];
      next = go (reset_transaction s) (suc calls) rest;
    }

hand_parsed :
    {M : Type 0} → Option (ℕ → Session → M → Bool) → Option M → Session → ℕ → Text → Turn M
unfolding hand_over reset_transaction
hand_parsed sink none s calls rest =
    say (enhanced_reply 554 message_content_error (codes "Message content rejected"))
      (reset_transaction s) calls rest
hand_parsed sink (some m) s calls rest = hand_over sink m s calls rest

-- After the message data.
unfoldable pub finish_data : {M : Type 0} → Server M → DataReadResult → Session → ℕ → Text → Turn M
unfolding hand_parsed reset_transaction
finish_data srv result s calls rest =
    if result.oversized
    then say (enhanced_reply 552 message_too_large (codes "Message size exceeds fixed limit"))
        (reset_transaction s) calls rest
    else if result.malformed
    then say (enhanced_reply 554 message_content_error (codes "Malformed mail data"))
        (reset_transaction s) calls rest
    else hand_parsed srv.sink (srv.parse_message result.raw) s calls rest

abbrev and_before : {M : Type 0} → Event M → Turn M → Turn M
and_before e t = record { events = e ∷ t.events; next = t.next }

abbrev intermediate_reply : Response
intermediate_reply = standard_reply 354 (codes "End data with <CR><LF>.<CR><LF>")

receive : {M : Type 0} → Server M → DataRead → Session → ℕ → Turn M
unfolding finish_data
receive srv (read result rest) s calls =
    and_before (replied intermediate_reply) (finish_data srv result s calls rest)
receive srv failed s calls = record { events = replied intermediate_reply ∷ []; next = over }
receive srv spent s calls = record { events = replied intermediate_reply ∷ []; next = unread }

-- DATA
unfoldable pub answer_data : {M : Type 0} → Server M → Command → Session → ℕ → Text → Turn M
unfolding receive read_data
answer_data srv cmd s calls rest =
    if cmd.has_argument
    then say (enhanced_reply 501 invalid_arguments (codes "Syntax: DATA")) s calls rest
    else if not (is_mail_received s.state) || not (is_cons s.envelope.recipients)
    then say (enhanced_reply 503 invalid_command (codes "Bad sequence of commands")) s calls rest
    else receive srv
        (read_data (pos_part srv.config.command_line_limit) (pos_part srv.config.max_message_size)
          rest)
        s calls

-- QUIT
unfoldable pub answer_quit : {M : Type 0} → Command → Session → ℕ → Text → Turn M
answer_quit cmd s calls rest =
    if cmd.has_argument
    then say (enhanced_reply 501 invalid_arguments (codes "Syntax: QUIT")) s calls rest
    else record {
      events = replied (enhanced_reply 221 other_success (codes "Bye")) ∷ [];
      next = over;
    }

-- The switch of `serve`.
unfoldable pub dispatch : {M : Type 0} → Server M → Verb → Command → Session → ℕ → Text → Turn M
unfolding answer_data answer_quit answer
dispatch srv message_data cmd s calls rest = answer_data srv cmd s calls rest
dispatch srv quit cmd s calls rest = answer_quit cmd s calls rest
dispatch srv verb cmd s calls rest =
    let (r, s') = answer srv.config verb cmd s in say r s' calls rest

obey : {M : Type 0} → Server M → Command → Session → ℕ → Text → Turn M
unfolding dispatch verb_of is_known is_empty
obey srv cmd s calls rest =
    if cmd.is_valid
    then dispatch srv (verb_of cmd.verb) cmd s calls rest
    else if is_empty cmd.verb || not (is_known (verb_of cmd.verb))
    then say (enhanced_reply 500 syntax_error (codes "Syntax error, command unrecognized")) s calls
        rest
    else say
        (enhanced_reply 501 invalid_arguments (codes "Syntax error in parameters or arguments")) s
        calls rest

-- One round, with what `readCommand` returns.
unfoldable pub take_turn : {M : Type 0} → Server M → CommandLine → Session → ℕ → Turn M
unfolding obey command
take_turn srv too_long s calls = record {
  events = replied (enhanced_reply 500 syntax_error (codes "Line too long")) ∷ [];
  next = over;
}
take_turn srv (bad_framing rest) s calls =
    say (enhanced_reply 500 syntax_error (codes "Syntax error, command unrecognized")) s calls rest
take_turn srv closed s calls = record { events = []; next = over }
take_turn srv (got line rest) s calls =
    and_before (heard line) (obey srv (command line) s calls rest)

abbrev pub and_then :
    {M : Type 0} → List (Event M) → Option (List (Event M)) → Option (List (Event M))
and_then es none = none
and_then es (some fs) = some (es ++ fs)

-- The loop of `serve`; `none` means that the fuel was too little.
unfoldable pub serve_from :
    {M : Type 0} → ℕ → Server M → Session → ℕ → Text → Option (List (Event M))
unfolding take_turn read_command
serve_from zero srv s calls input = none
serve_from (suc fuel) srv s calls input =
    let turn =
      take_turn srv (read_command (pos_part srv.config.command_line_limit) input) s calls in
    elim turn.next [
      | go s' calls' rest ↦ and_then turn.events (serve_from fuel srv s' calls' rest)
      | over ↦ some turn.events
      | unread ↦ none
    ]

abbrev pub first_session : Text → Session
first_session id = record {
  id = id;
  state = connected;
  envelope = no_envelope;
  authenticated = false;
  tenant_id = [];
}

abbrev pub greeting_reply : Response
greeting_reply = standard_reply 220 (codes "localhost MailX SMTP Server")

-- `serve`
unfoldable pub serve : {M : Type 0} → Server M → Text → Text → Option (List (Event M))
unfolding serve_from
serve srv id input =
    and_then (replied greeting_reply ∷ [])
      (serve_from (length input + 1) srv (first_session id) 0 input)

-- `HandleConnectionWithConfig`
unfoldable pub handle_connection :
    {M : Type 0} → Server M → Text → Text → Result ConfigError (Option (List (Event M)))
unfolding normalized_config serve
handle_connection srv id input = do
  config ← normalized_config srv.config
  ok (serve (record srv { config = config }) id input)
