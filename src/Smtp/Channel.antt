-- ===== src/Smtp/Channel.antt =====
-- internal/smtp/client_tls.go and client.go: the connection of a client's session before its message.
use mailx.Base.{ℕ, Bool, true, false, List, [], ◌∷◌, ◌++◌, ◌||◌, if◌then◌else◌}
use mailx.Base.Text.{Text, text_eq, to_upper, split, fields, join_words}

-- `TLSPolicy`
pub data TlsPolicy : Type 0 where
  opportunistic required : TlsPolicy

-- `TLSOutcome`; `unset` is the empty string.
pub data TlsOutcome : Type 0 where
  unset not_offered required_not_offered established rejected ehlo_failed verify_failed : TlsOutcome
  handshake_timeout connection_lost handshake_failed canceled protocol_violation : TlsOutcome

-- `AuthOutcome`
pub data AuthOutcome : Type 0 where
  none_yet success no_tls not_advertised no_mechanism refused temporary : AuthOutcome
  protocol_error conn_lost timeout abandoned : AuthOutcome

-- `TLSInfo`, without the version.
pub record TlsInfo : Type 0 where
  pub policy : TlsPolicy
  pub advertised : Bool
  pub attempted : Bool
  pub established : Bool
  pub outcome : TlsOutcome

-- `AuthInfo`
pub record AuthInfo : Type 0 where
  pub attempted : Bool
  pub mechanism : Text
  pub outcome : AuthOutcome

-- What the code asks of an I/O error: whether the context is done, whether it is about the
-- certificate, and `isTimeout` and `isConnLost`.
pub record IoError : Type 0 where
  pub is_done : Bool
  pub is_verification : Bool
  pub is_timeout : Bool
  pub is_lost : Bool

pub data Answer : Type 0 where
  reply : (code : ℕ) (enhanced text : Text) → Answer
  broken : IoError → Answer

abbrev pub Capabilities : Type 0
Capabilities = List (Text × Text)

-- The fields of `clientSession` that TLS and AUTH change; what has been written, each line with
-- whether it went over TLS; and what the peer will answer.
pub record Channel : Type 0 where
  pub capabilities : Capabilities
  pub tls : TlsInfo
  pub auth : AuthInfo
  pub written : List (Text × Bool)
  pub answers : List Answer

abbrev closed_io : IoError
closed_io = record { is_done = false; is_verification = false; is_timeout = false; is_lost = true }

abbrev next_answer : List Answer → Answer × List Answer
next_answer [] = (broken closed_io, [])
next_answer (a ∷ more) = (a, more)

-- `clientSession.command`: a line is written and a reply is read.
unfoldable pub command : Text → Channel → Channel × Answer
command line ch = (
  record ch {
    written = ch.written ++ (line, ch.tls.established) ∷ [];
    answers = (next_answer ch.answers).1;
  },
  (next_answer ch.answers).0,
)

-- An assignment to a map.
unfoldable pub put : Text → Text → Capabilities → Capabilities
unfolding text_eq
put k v [] = (k, v) ∷ []
put k v ((j, w) ∷ m) = if text_eq j k then (k, v) ∷ m else (j, w) ∷ put k v m

-- `capabilities.has`
unfoldable pub has : Text → Capabilities → Bool
unfolding text_eq to_upper
has keyword [] = false
has keyword ((k, v) ∷ m) = text_eq k (to_upper keyword) || has keyword m

put_fields : List Text → Capabilities → Capabilities
unfolding put to_upper join_words
put_fields [] caps = caps
put_fields (w ∷ ws) caps = put (to_upper w) (join_words ws) caps

unfoldable pub put_lines : List Text → Capabilities → Capabilities
unfolding put_fields fields
put_lines [] caps = caps
put_lines (line ∷ more) caps = put_lines more (put_fields (fields line) caps)

abbrev after_first : List Text → List Text
after_first [] = []
after_first (l ∷ ls) = ls

-- `parseCapabilities`
unfoldable pub parse_capabilities : Text → Capabilities
unfolding put_lines split
parse_capabilities text = put_lines (after_first (split 10 text)) []
