-- ===== src/Delivery/Tests.antt =====
-- Runs of the delivery engine, and the theorems about it at concrete worlds.
use mathlib.Core.List.Perm
use mailx.Base.{ℕ, zero, suc, ◌≡◌, refl, true, false, Option, none, some, List, [], ◌∷◌, ok}
use mailx.Base.Int.{pos}
use mailx.Errors.{Err, TransferError, other, transfer, dial, rcpt_to}
use mailx.Smtp.Session.{ends_with, Credentials}
use mailx.Transfer.{TransferResult}
use mailx.Delivery.Policy.{decide_fallback, classify_final}
use mailx.Delivery.Request.{Request}
use mailx.Delivery.Candidates.{Mx, order_candidates}
use mailx.Delivery.Candidates.Order.{Shuffles}
use mailx.Delivery.Engine.{Config, Relay, World, deliver}
use mailx.Delivery.Engine.Sequence.{IsSequence, deliver-IsSequence}
use mailx.Delivery.Engine.Verdict.{IsVerdict, deliver-IsVerdict}
use mailx.Delivery.Engine.Secrecy.{transfers_as_configured}

abbrev two_hosts : List Mx
two_hosts =
    record { host = b'a' ∷ []; preference = 10 } ∷ record { host = b'b' ∷ []; preference = 20 } ∷ []

-- A message to <u@d> of the domain d.
abbrev letter : Request
letter = record {
  domain = b'd' ∷ [];
  envelope = record { mail_from = []; recipients = (b'<' ∷ b'u' ∷ b'@' ∷ b'd' ∷ b'>' ∷ []) ∷ [] };
  raw = [];
  member_id = [];
}

abbrev dial_failure : TransferError
dial_failure = record {
  destination = b'a' ∷ [];
  stage = dial;
  temporary = false;
  recipient = [];
  code = 0;
  enhanced = [];
}

abbrev no_such_user : TransferError
no_such_user = record {
  destination = b'b' ∷ [];
  stage = rcpt_to;
  temporary = false;
  recipient = [];
  code = 550;
  enhanced = [];
}

abbrev failure : TransferResult
failure = record {
  destination = [];
  accepted = false;
  failure_stage = none;
  temporary = false;
  final_code = 0;
  enhanced_status = [];
  remote_message = [];
  recipient = [];
  quit_error = none;
}

abbrev answer : ℕ → TransferResult × Option Err
answer zero = (failure, some (transfer dial_failure other))
answer (suc n) = (failure, some (transfer no_such_user other))

-- The first host is not reached, and the second knows no such user.
abbrev refusing : World
refusing = record { lookup_mx = ok two_hosts; transfer = λ n r. answer n; context = λ n. none }

abbrev direct_mode : Config
direct_mode = record { smtp_port = pos 25; shuffle = λ g. g; relay = none }

abbrev login : Credentials
login = record { username = b'u' ∷ []; password = b'p' ∷ [] }

abbrev the_relay : Relay
the_relay = record { host = b'r' ∷ []; port = pos 587; auth = some login }

abbrev relay_mode : Config
relay_mode = record direct_mode { relay = some the_relay }

deliver-IsSequence_example : IsSequence (deliver direct_mode refusing letter).0
deliver-IsSequence_example = deliver-IsSequence direct_mode refusing letter

deliver-IsVerdict_example : IsVerdict (deliver direct_mode refusing letter).0
unfolding deliver ends_with order_candidates decide_fallback classify_final
deliver-IsVerdict_example = deliver-IsVerdict direct_mode refusing letter refl

-- It accepts what carries no credentials, and resolves to nothing.
abbrev answer_to : ℕ → Option Credentials → TransferResult × Option Err
answer_to n none = (record failure { accepted = true }, none)
answer_to n (some c) = answer n

abbrev elsewhere : World
elsewhere = record refusing { lookup_mx = ok []; transfer = λ n r. answer_to n r.auth }

transfers_as_configured_example :
    deliver relay_mode refusing letter ≡ deliver relay_mode elsewhere letter
transfers_as_configured_example =
    transfers_as_configured relay_mode refusing elsewhere letter (λ none_is. absurd (cc))
      (record { context = λ n. refl; transfer = λ n r p. rw p.1 refl })

-- The first two change places.
abbrev swapped : List Mx → List Mx
swapped (a ∷ b ∷ r) = b ∷ a ∷ r
swapped g = g

swapped-Shuffles : Shuffles swapped
swapped-Shuffles [] = Perm.refl []
swapped-Shuffles (a ∷ []) = Perm.refl (a ∷ [])
swapped-Shuffles (a ∷ b ∷ r) = Perm.swap a b r

abbrev three_hosts : List Mx
three_hosts = record { host = b'c' ∷ []; preference = 10 } ∷ two_hosts
