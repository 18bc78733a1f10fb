-- ===== src/Smtp/StartTls.antt =====
-- internal/smtp/client_tls.go: the TLS stage of a client's session. The handshake is the TLS library's:
-- it fails with an error, or not at all.
pub mod Secrecy
use mailx.Base.{
  ℕ, ◌+◌, ◌≤◌, Bool, true, false, Option, none, some, is_some, List, [], ◌∷◌, ◌++◌, ◌&&◌, ◌||◌, not,
  leb, ltb, ◌==◌, if◌then◌else◌, length, any,
}
use mailx.Base.Text.{Text, codes, text_eq, to_upper, to_lower, is_empty, fields, without_prefix}
use mailx.Errors.{Stage, SmtpError, start_tls, tls, ehlo_tls, auth}
use mailx.Smtp.Validation.{Credentials}
use mailx.Smtp.Payload.{b64, plain_payload}
use mailx.Smtp.Channel.{
  TlsPolicy, opportunistic, required, TlsOutcome, not_offered, required_not_offered, established,
  rejected, ehlo_failed, verify_failed, handshake_timeout, connection_lost, handshake_failed,
  canceled, protocol_violation, AuthOutcome, success, no_tls, not_advertised, no_mechanism, refused,
  temporary, protocol_error, conn_lost, timeout, abandoned, IoError, Answer, reply, broken,
  Capabilities, Channel, command, has, parse_capabilities,
}

-- What a session is configured with, whether bytes wait in the reader after the reply to STARTTLS,
-- and the error of the handshake.
pub record Setup : Type 0 where
  pub policy : TlsPolicy
  pub identity : Text
  pub credentials : Option Credentials
  pub max_reply_line_bytes : ℕ
  pub early_bytes : Bool
  pub handshake : Option IoError

-- The session after a stage, and its error.
abbrev pub Staged : Type 0
Staged = Channel × Option SmtpError

abbrev pub is_required : TlsPolicy → Bool
is_required required = true
is_required opportunistic = false

-- `classifyIOError`
unfoldable pub classify_io_error : IoError → TlsOutcome
classify_io_error e =
    if e.is_done
    then canceled
    else if e.is_timeout
    then handshake_timeout
    else if e.is_lost
    then connection_lost
    else protocol_violation

-- `classifyHandshakeError`
unfoldable pub classify_handshake_error : IoError → TlsOutcome
classify_handshake_error e =
    if e.is_done
    then canceled
    else if e.is_verification
    then verify_failed
    else if e.is_timeout
    then handshake_timeout
    else if e.is_lost
    then connection_lost
    else handshake_failed

abbrev pub with_outcome : TlsOutcome → Channel → Channel
with_outcome outcome ch = record ch { tls = record ch.tls { outcome = outcome } }

abbrev pub temporary_error : Stage → ℕ → Text → Text → SmtpError
temporary_error stage code enhanced text = record {
  stage = stage;
  code = code;
  enhanced = enhanced;
  remote = text;
  recipient = [];
  temporary = true;
}

-- `tlsFail`
unfoldable pub tls_fail : Stage → TlsOutcome → Channel → Staged
tls_fail stage outcome ch = (with_outcome outcome ch, some (temporary_error stage 0 [] []))

-- After the second EHLO.
greeted_again : Channel × Answer → Staged
unfolding tls_fail classify_io_error parse_capabilities
greeted_again (ch, broken e) = tls_fail ehlo_tls (classify_io_error e) ch
greeted_again (ch, reply code enhanced text) =
    if code == 250
    then (record (with_outcome established ch) { capabilities = parse_capabilities text }, none)
    else (with_outcome ehlo_failed ch, some (temporary_error ehlo_tls code enhanced text))

shaken : Setup → Option IoError → Channel → Staged
unfolding tls_fail classify_handshake_error greeted_again command
shaken setup (some e) ch = tls_fail tls (classify_handshake_error e) ch
shaken setup none ch = greeted_again (
    command (codes "EHLO " ++ setup.identity)
      (record ch { tls = record ch.tls { established = true } }))

-- After STARTTLS.
start_tls_answered : Setup → Channel × Answer → Staged
unfolding tls_fail classify_io_error shaken
start_tls_answered setup (ch, broken e) = tls_fail start_tls (classify_io_error e) ch
start_tls_answered setup (ch, reply code enhanced text) =
    if not (code == 220)
    then (with_outcome rejected ch, some (temporary_error start_tls code enhanced text))
    else if setup.early_bytes
    then tls_fail start_tls protocol_violation ch
    else shaken setup setup.handshake (record ch { capabilities = [] })

-- `secure`
unfoldable pub secure : Setup → Channel → Staged
unfolding has start_tls_answered tls_fail command
secure setup ch =
    let offered = has (codes "STARTTLS") ch.capabilities in
    let ch' = record ch { tls = record ch.tls { policy = setup.policy; advertised = offered } } in
    if offered
    then start_tls_answered setup
        (command (codes "STARTTLS") (record ch' { tls = record ch'.tls { attempted = true } }))
    else if is_required setup.policy || is_some setup.credentials
    then tls_fail start_tls required_not_offered ch'
    else (with_outcome not_offered ch', none)
