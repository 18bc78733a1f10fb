-- ===== src/Smtp/Session.antt =====
-- internal/smtp/client.go: one outbound SMTP transaction over an open connection. What the peer
-- answers is a script: one reply, or one I/O failure, for each read; a script that has run out
-- is a closed connection. The TLS and AUTH stages (client_tls.go, client_auth.go) enter by the
-- error that they end with.
pub mod Safety
pub mod Grades
pub use mailx.Smtp.Validation.{is_cons, Credentials}
unfoldable pub use mailx.Smtp.Validation.{
  ends_with, is_bracketed, is_envelope_path, validate_credentials, credentials_ok,
}
use mailx.Base.{
  ℕ, Bool, true, false, Option, none, some, List, [], ◌∷◌, ◌&&◌, ◌||◌, not, leb, ltb, ◌==◌,
  if◌then◌else◌, Result, ok, err, ◌>>=◌, ◌>>◌, guard, length,
}
use mailx.Base.Text.{Text, text_eq, is_empty, contains_any}
use mailx.Errors.{
  Err, Stage, SmtpError, dial, invalid_input, other, smtp, greeting, ehlo, helo, mail_from, rcpt_to,
  data_command, message, data_response, quit,
}

-- internal/mail/model.go
pub record Envelope : Type 0 where
  pub mail_from : Text
  pub recipients : List Text

-- What a read of the connection gives: `readReply`'s code, enhanced status and text, or an error.
pub data Reply : Type 0 where
  reply : (code : ℕ) (enhanced text : Text) → Reply
  failed : Err → Reply

pub record Peer : Type 0 where
  pub replies : List Reply
  pub secure : Option Err
  pub authenticate : Option Err
  pub write_message : Option Err

-- `DeliveryResult`; `quit_error` is an error after acceptance.
pub record SendResult : Type 0 where
  pub accepted : Bool
  pub final_code : ℕ
  pub final_message : Text
  pub quit_error : Option Err

unfoldable pub reply_error : Stage → ℕ → Text → Text → Err
reply_error stage code enhanced text =
    smtp
      (record {
        stage = stage;
        code = code;
        enhanced = enhanced;
        remote = text;
        recipient = [];
        temporary = leb 400 code && ltb code 500;
      })
      other

unfoldable pub delivery_error_from_read : Stage → Err → Err
delivery_error_from_read stage cause =
    smtp
      (record {
        stage = stage;
        code = 0;
        enhanced = [];
        remote = [];
        recipient = [];
        temporary = false;
      })
      cause

-- The next reply and the rest of the script.
unfoldable pub read_reply : List Reply → Reply × List Reply
read_reply [] = (failed other, [])
read_reply (r ∷ rs) = (r, rs)

abbrev pub is_2xx : ℕ → Bool
is_2xx code = leb 200 code && ltb code 300

-- One step: a reply whose code passes lets the session go on.
expect_reply : Stage → (ℕ → Bool) → Reply → List Reply → Result Err (ℕ × Text × List Reply)
unfolding reply_error delivery_error_from_read
expect_reply stage pass (failed e) rest = err (delivery_error_from_read stage e)
expect_reply stage pass (reply code enhanced text) rest =
    if pass code then ok (code, text, rest) else err (reply_error stage code enhanced text)

unfoldable pub expect : Stage → (ℕ → Bool) → List Reply → Result Err (ℕ × Text × List Reply)
unfolding expect_reply read_reply
expect stage pass rs = expect_reply stage pass (read_reply rs).0 (read_reply rs).1

-- Replies to the greeting, EHLO and HELO carry no enhanced status.
hello_reply : Stage → Reply → Err
unfolding reply_error delivery_error_from_read
hello_reply stage (failed e) = delivery_error_from_read stage e
hello_reply stage (reply code enhanced text) = reply_error stage code [] text

unfoldable pub greet : List Reply → Result Err (List Reply)
unfolding hello_reply read_reply
greet rs = elim (read_reply rs).0 [
  | failed e ↦ err (hello_reply greeting (failed e))
  | reply code enhanced text ↦
      if code == 220
      then ok (read_reply rs).1
      else err (hello_reply greeting (reply code enhanced text))
]

say_helo : List Reply → Result Err (List Reply)
unfolding hello_reply read_reply
say_helo rs = elim (read_reply rs).0 [
  | failed e ↦ err (hello_reply helo (failed e))
  | reply code enhanced text ↦
      if code == 250
      then ok (read_reply rs).1
      else err (hello_reply helo (reply code enhanced text))
]

-- EHLO, with HELO after a 5xx reply.
unfoldable pub hello : List Reply → Result Err (List Reply)
unfolding say_helo
hello rs = elim (read_reply rs).0 [
  | failed e ↦ err (hello_reply ehlo (failed e))
  | reply code enhanced text ↦
      if code == 250
      then ok (read_reply rs).1
      else if ltb code 500 || ltb 599 code
      then err (hello_reply ehlo (reply code enhanced text))
      else say_helo (read_reply rs).1
]

abbrev stage_done : Option Err → Result Err (Unit {0})
stage_done none = ok tt
stage_done (some e) = err e

unfoldable pub rcpt : Text → Reply → List Reply → Result Err (List Reply)
unfolding reply_error delivery_error_from_read
rcpt recipient (failed e) rest = err (delivery_error_from_read rcpt_to e)
rcpt recipient (reply code enhanced text) rest =
    if is_2xx code
    then ok rest
    else err (
        smtp
          (record {
            stage = rcpt_to;
            code = code;
            enhanced = enhanced;
            remote = text;
            recipient = recipient;
            temporary = leb 400 code && ltb code 500;
          })
          other)

-- RCPT TO for each recipient; the first refusal ends the session.
unfoldable pub rcpts : List Text → List Reply → Result Err (List Reply)
unfolding rcpt read_reply
rcpts [] rs = ok rs
rcpts (r ∷ more) rs = rcpt r (read_reply rs).0 (read_reply rs).1 >>= rcpts more

-- QUIT, after acceptance.
unfoldable pub say_quit : Reply → Option Err
unfolding reply_error
say_quit (failed e) = some (
    smtp
      (record {
        stage = quit;
        code = 0;
        enhanced = [];
        remote = [];
        recipient = [];
        temporary = false;
      })
      e)
say_quit (reply code enhanced text) =
    if code == 221 then none else some (reply_error quit code [] text)

message_error : Err → Err
message_error e =
    smtp
      (record {
        stage = message;
        code = 0;
        enhanced = [];
        remote = [];
        recipient = [];
        temporary = false;
      })
      e

abbrev write_done : Option Err → Result Err (Unit {0})
write_done none = ok tt
write_done (some e) = err (message_error e)

-- `clientSession.run`
unfoldable pub run : Peer → Envelope → Result Err SendResult
unfolding greet hello expect rcpts say_quit message_error
run p envelope = do
  rs ← greet p.replies
  rs ← hello rs
  stage_done p.secure
  stage_done p.authenticate
  (_, _, rs) ← expect mail_from is_2xx rs
  rs ← rcpts envelope.recipients rs
  (_, _, rs) ← expect data_command (λ code. code == 354) rs
  write_done p.write_message
  (code, text, rs) ← expect data_response is_2xx rs
  ok (record {
    accepted = true;
    final_code = code;
    final_message = text;
    quit_error = say_quit (read_reply rs).0;
  })

invalid_input_error : Text → Err
invalid_input_error recipient =
    smtp
      (record {
        stage = invalid_input;
        code = 0;
        enhanced = [];
        remote = [];
        recipient = recipient;
        temporary = false;
      })
      other

check_recipients : List Text → Result Err (Unit {0})
unfolding invalid_input_error
check_recipients [] = ok tt
check_recipients (r ∷ more) =
    if is_envelope_path false r then check_recipients more else err (invalid_input_error r)

-- The peer that a dial reaches, or the error of the dial.
pub record Network : Type 0 where
  pub dial : Result Err Peer

dialled : Result Err Peer → Result Err Peer
dialled (ok p) = ok p
dialled (err e) = err (
    smtp
      (record {
        stage = dial;
        code = 0;
        enhanced = [];
        remote = [];
        recipient = [];
        temporary = false;
      })
      e)

-- `Client.Send`
unfoldable pub send : Network → Text → Envelope → Option Credentials → Result Err SendResult
unfolding invalid_input_error check_recipients dialled is_empty credentials_ok
send net address envelope auth = do
  guard (not (is_empty address)) (invalid_input_error [])
  guard (is_envelope_path true envelope.mail_from) (invalid_input_error [])
  guard (is_cons envelope.recipients) (invalid_input_error [])
  check_recipients envelope.recipients
  guard (credentials_ok auth) (invalid_input_error [])
  p ← dialled net.dial
  run p envelope
