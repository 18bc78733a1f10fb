-- ===== src/Smtp/Upgrade.antt =====
-- internal/smtp/client_auth.go: the AUTH stage of a client's session, and both stages of
-- internal/smtp/client.go: run.
pub mod Secrecy
use mailx.Base.{
  ℕ, ◌+◌, ◌≤◌, Bool, true, false, Option, none, some, is_some, List, [], ◌∷◌, ◌++◌, ◌&&◌, ◌||◌, not,
  leb, ltb, ◌==◌, if◌then◌else◌, length, any,
}
use mailx.Base.Text.{Text, codes, text_eq, to_upper, to_lower, is_empty, fields, without_prefix}
use mailx.Errors.{Stage, SmtpError, start_tls, tls, ehlo_tls, auth}
use mailx.Smtp.Validation.{Credentials}
use mailx.Smtp.Payload.{b64, plain_payload}
use mailx.Smtp.Channel.{
  TlsPolicy, opportunistic, required, TlsOutcome, not_offered, required_not_offered, established,
  rejected, ehlo_failed, verify_failed, handshake_timeout, connection_lost, handshake_failed,
  canceled, protocol_violation, AuthOutcome, success, no_tls, not_advertised, no_mechanism, refused,
  temporary, protocol_error, conn_lost, timeout, abandoned, IoError, Answer, reply, broken,
  Capabilities, Channel, command, has, parse_capabilities,
}
use mailx.Smtp.StartTls.{Setup, Staged, secure}

-- What an entry of the capabilities lists.
listed : Text → Text → List Text
unfolding text_eq without_prefix fields to_upper
listed key value =
    if text_eq key (codes "AUTH")
    then fields (to_upper value)
    else elim (without_prefix (codes "AUTH=") key) [
      | none ↦ []
      | some m ↦ m ∷ fields (to_upper value)
    ]

-- `authMechanisms`
unfoldable pub auth_mechanisms : Capabilities → List Text
unfolding listed
auth_mechanisms [] = []
auth_mechanisms ((k, v) ∷ caps) = listed k v ++ auth_mechanisms caps

pub data Mechanism : Type 0 where
  plain : Mechanism
  login : Mechanism

advertises : Text → List Text → Bool
unfolding text_eq to_upper
advertises name ms = any (λ m. text_eq (to_upper m) name) ms

-- `chooseMechanism`
unfoldable pub choose_mechanism : List Text → Option Mechanism
unfolding advertises
choose_mechanism ms =
    if advertises (codes "PLAIN") ms
    then some plain
    else if advertises (codes "LOGIN") ms
    then some login
    else none

abbrev pub is_temporary_auth : AuthOutcome → Bool
is_temporary_auth temporary = true
is_temporary_auth conn_lost = true
is_temporary_auth timeout = true
is_temporary_auth abandoned = true
is_temporary_auth _ = false

-- `authFail`
unfoldable pub auth_fail : AuthOutcome → ℕ → Text → Channel → Staged
auth_fail outcome code enhanced ch = (
  record ch { auth = record ch.auth { outcome = outcome } },
  some (record {
    stage = auth;
    code = code;
    enhanced = enhanced;
    remote = [];
    recipient = [];
    temporary = is_temporary_auth outcome;
  }),
)

-- `classifyAuthIO`
unfoldable pub classify_auth_io : IoError → AuthOutcome
classify_auth_io e =
    if e.is_done
    then abandoned
    else if e.is_timeout
    then timeout
    else if e.is_lost
    then conn_lost
    else protocol_error

-- `authFinish`
unfoldable pub auth_finish : ℕ → Text → Channel → Staged
unfolding auth_fail
auth_finish code enhanced ch =
    if code == 235
    then (record ch { auth = record ch.auth { outcome = success } }, none)
    else if leb 400 code && ltb code 500
    then auth_fail temporary code enhanced ch
    else if leb 500 code && ltb code 600
    then auth_fail refused code enhanced ch
    else auth_fail protocol_error code [] ch

-- What follows a reply; `authRound` ends the exchange where there is none.
on_reply : (ℕ → Text → Channel → Staged) → Channel × Answer → Staged
unfolding auth_fail classify_auth_io
on_reply next (ch, broken e) = auth_fail (classify_auth_io e) 0 [] ch
on_reply next (ch, reply code enhanced text) = next code enhanced ch

-- `authRound`, and what follows it.
unfoldable pub auth_round : Text → (ℕ → Text → Channel → Staged) → Channel → Staged
unfolding command on_reply
auth_round line next ch = on_reply next (command line ch)

-- A line for the challenge 334.
unfoldable pub challenged : (Channel → Staged) → ℕ → Text → Channel → Staged
unfolding auth_finish
challenged next code enhanced ch = if code == 334 then next ch else auth_finish code enhanced ch

-- `authPlain`
unfoldable pub auth_plain : Setup → Credentials → Channel → Staged
unfolding plain_payload auth_round auth_finish challenged
auth_plain setup c ch =
    let payload = plain_payload c in
    let line = codes "AUTH PLAIN " ++ payload in
    if leb (length line + 2) setup.max_reply_line_bytes
    then auth_round line auth_finish ch
    else auth_round (codes "AUTH PLAIN") (challenged (auth_round payload auth_finish)) ch

-- `authLogin`
unfoldable pub auth_login : Credentials → Channel → Staged
unfolding b64 auth_round auth_finish challenged
auth_login c ch =
    auth_round (codes "AUTH LOGIN")
      (challenged
        (auth_round (b64 c.username) (challenged (auth_round (b64 c.password) auth_finish))))
      ch

abbrev mechanism_name : Mechanism → Text
mechanism_name plain = codes "plain"
mechanism_name login = codes "login"

run_mechanism : Setup → Credentials → Mechanism → Channel → Staged
unfolding auth_plain auth_login
run_mechanism setup c plain ch = auth_plain setup c ch
run_mechanism setup c login ch = auth_login c ch

start_auth : Setup → Credentials → Option Mechanism → Channel → Staged
unfolding auth_fail run_mechanism
start_auth setup c none ch = auth_fail no_mechanism 0 [] ch
start_auth setup c (some m) ch =
    run_mechanism setup c m
      (record ch { auth = record ch.auth { attempted = true; mechanism = mechanism_name m } })

with_credentials : Setup → Credentials → Channel → Staged
unfolding auth_fail auth_mechanisms choose_mechanism start_auth is_empty
with_credentials setup c ch =
    let advertised = auth_mechanisms ch.capabilities in
    if not ch.tls.established
    then auth_fail no_tls 0 [] ch
    else if length advertised == 0
    then auth_fail not_advertised 0 [] ch
    else start_auth setup c (choose_mechanism advertised) ch

authenticate_as : Setup → Option Credentials → Channel → Staged
unfolding with_credentials
authenticate_as setup none ch = (ch, none)
authenticate_as setup (some c) ch = with_credentials setup c ch

-- `authenticate`
unfoldable pub authenticate : Setup → Channel → Staged
unfolding authenticate_as
authenticate setup ch = authenticate_as setup setup.credentials ch

if_passed : (Channel → Staged) → Staged → Staged
if_passed next (ch, some e) = (ch, some e)
if_passed next (ch, none) = next ch

-- The two stages of `run`, one after the other.
unfoldable pub upgrade : Setup → Channel → Staged
unfolding secure authenticate if_passed
upgrade setup ch = if_passed (authenticate setup) (secure setup ch)
