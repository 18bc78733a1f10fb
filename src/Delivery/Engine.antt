-- ===== src/Delivery/Engine.antt =====
-- internal/delivery/delivery.go: the engine. The resolver, the transferer and the caller's
-- context are a `World`: what each call of them answers, by its number within the operation.
pub mod Attempts
pub mod Outcome
pub mod Sequence
pub mod Verdict
pub mod Secrecy
pub mod Single
pub use mailx.Delivery.Config.{Relay, Config}
use mailx.Base.{
  ℕ, ◌+◌, ◌/◌, ◌%◌, zero, suc, Bool, true, false, Option, none, some, List, [], ◌∷◌, ◌++◌, ◌||◌,
  ◌&&◌, not, ltb, leb, ◌==◌, if◌then◌else◌, Result, ok, err, ◌>>=◌, ◌>>◌, guard, any,
}
use mailx.Base.Int.{ℤ, pos, negsuc}
use mailx.Base.Text.{Text, trim_space, is_empty, contains_any}
use mailx.Errors.{
  Err, LookupKind, Kind, TransferError, ContextErr, other, context_err, nil_transfer, transfer,
  delivery, as_lookup, as_transfer, accepted, invalid_request, dns_not_found, dns_null_mx,
  dns_temporary, dns_failure, transfer_temporary, context,
}
use mailx.Smtp.Session.{Envelope, Credentials, credentials_ok}
use mailx.Transfer as Transfer
use mailx.Transfer.{TransferResult}
use mailx.Delivery.Policy.{
  FallbackDecision, stop_permanent, stop_temporary, try_next, decide_fallback, classify_final,
}
use mailx.Delivery.Request.{Request, validate_request}
use mailx.Delivery.Candidates.{Mx, order_candidates}
use mailx.Delivery.Result.{Attempt, DeliveryResult, Transport, direct, relay, blank_result}

-- What the resolver, the n-th call of the transferer, and the n-th look at the context answer.
pub record World : Type 0 where
  pub lookup_mx : Result Err (List Mx)
  pub transfer : ℕ → Transfer.Request → TransferResult × Option Err
  pub context : ℕ → Option ContextErr

-- Decimal digits, with fuel for as many.
digits : ℕ → ℕ → Text → Text
digits zero n acc = acc
digits (suc f) n acc =
    let more = digits f (n / 10) ((48 + n % 10) ∷ acc) in
    if n / 10 == 0 then (48 + n % 10) ∷ acc else more

decimal : ℤ → Text
unfolding digits
decimal (pos n) = digits 20 n []
decimal (negsuc n) = b'-' ∷ digits 20 (suc n) []

-- `net.JoinHostPort`
unfoldable pub join_host_port : Text → ℤ → Text
unfolding decimal
join_host_port host port =
    if any (λ c. c == b':') host
    then (b'[' ∷ host) ++ (b']' ∷ b':' ∷ decimal port)
    else host ++ (b':' ∷ decimal port)

unfoldable pub transfer_request : Request → ℤ → Option Credentials → Mx → Transfer.Request
unfolding join_host_port
transfer_request req port auth mx = record {
  destination = join_host_port mx.host port;
  envelope = req.envelope;
  raw = req.raw;
  auth = auth;
}

-- The variables of the loop.
pub record Trail : Type 0 where
  pub attempts : List Attempt
  pub last_err : Option (TransferError × Err)
  pub last_remote : Text
  pub last_decision : FallbackDecision

-- How the loop ends: the context, an acceptance, or a last failure.
pub data Tried : Type 0 where
  interrupted : ContextErr → Trail → Tried
  taken : TransferResult → Trail → Tried
  stopped : ℕ → Trail → Tried

as_transfer_opt : Option Err → Option (TransferError × Err)
as_transfer_opt none = none
as_transfer_opt (some e) = as_transfer e

unfoldable pub attempt_of : Mx → Text → TransferResult × Option Err → Attempt
unfolding as_transfer_opt as_transfer
attempt_of mx dest (t, e) = record {
  mx = mx;
  destination = dest;
  transfer = t;
  transfer_err = if t.accepted then none else as_transfer_opt e;
}

unfoldable pub note_attempt : Trail → Attempt → Trail
note_attempt t a = record {
  attempts = t.attempts ++ a ∷ [];
  last_err = a.transfer_err;
  last_remote = a.transfer.remote_message;
  last_decision = decide_fallback a.transfer_err;
}

-- The loop over the candidates from the n-th on; `again` is the rest of the loop.
after_attempt : (again : Trail → Tried) → ℕ → Trail → Attempt → Tried
unfolding note_attempt
after_attempt again n t a =
    if a.transfer.accepted
    then taken (a.transfer) (record t { attempts = t.attempts ++ a ∷ [] })
    else elim (decide_fallback a.transfer_err) [
      | try_next ↦ again (note_attempt t a)
      | _ ↦ stopped (suc n) (note_attempt t a)
    ]

unfoldable pub try_candidates : World → (Mx → Transfer.Request) → ℕ → List Mx → Trail → Tried
unfolding after_attempt attempt_of
try_candidates w request n [] t = stopped n t
try_candidates w request n (mx ∷ rest) t = elim (w.context n) [
  | some c ↦ interrupted c t
  | none ↦
      after_attempt (try_candidates w request (suc n) rest) n t
        (attempt_of mx (request mx).destination (w.transfer n (request mx)))
]

abbrev pub start : Trail
start = record { attempts = []; last_err = none; last_remote = []; last_decision = stop_temporary }

lookup_kind : Option LookupKind → Kind
lookup_kind (some LookupKind.invalid_domain) = invalid_request
lookup_kind (some LookupKind.null_mx) = dns_null_mx
lookup_kind (some LookupKind.not_found) = dns_not_found
lookup_kind (some LookupKind.temporary) = dns_temporary
lookup_kind (some LookupKind.resolver_failure) = dns_failure
lookup_kind none = dns_failure

is_dns_temporary : Kind → Bool
is_dns_temporary dns_temporary = true
is_dns_temporary _ = false

-- `finishDNS`
unfoldable pub finish_dns : DeliveryResult → Text → Err → DeliveryResult × Option Err
unfolding lookup_kind is_dns_temporary as_lookup
finish_dns res domain e =
    let kind = lookup_kind (as_lookup e) in
    (
      record res { kind = kind },
      some
          (delivery (record { kind = kind; domain = domain; temporary = is_dns_temporary kind }) e),
    )

-- `finishContext`
unfoldable pub finish_context : DeliveryResult → Text → ContextErr → DeliveryResult × Option Err
finish_context res domain c = (
  record res { kind = context },
  some (delivery (record { kind = context; domain = domain; temporary = true }) (context_err c)),
)

unfoldable pub is_transfer_temporary : Kind → Bool
is_transfer_temporary transfer_temporary = true
is_transfer_temporary _ = false

-- The error that the terminating attempt leaves in `Err: lastErr`.
last_error : Option (TransferError × Err) → Err
last_error none = nil_transfer
last_error (some (te, c)) = transfer te c

-- The fields that mirror the terminating attempt.
mirror : DeliveryResult → Text → Option (TransferError × Err) → DeliveryResult
mirror res remote none = res
mirror res remote (some (te, _)) = record res {
  failure_stage = some (te.stage);
  final_code = te.code;
  enhanced_status = te.enhanced;
  remote_message = remote;
  recipient = te.recipient;
}

-- A failure with attempts made.
unfoldable pub finish_failed : DeliveryResult → Text → Trail → DeliveryResult × Option Err
unfolding mirror last_error is_transfer_temporary
finish_failed res domain t =
    let kind = classify_final t.last_decision t.last_err in
    (
      mirror (record res { kind = kind }) t.last_remote t.last_err,
      some (
          delivery (record { kind = kind; domain = domain; temporary = is_transfer_temporary kind })
            (last_error t.last_err)),
    )

no_candidates : DeliveryResult → Text → DeliveryResult × Option Err
no_candidates res domain = (
  record res { kind = dns_failure },
  some (delivery (record { kind = dns_failure; domain = domain; temporary = false }) other),
)

-- The end of `Deliver`, at an empty and at a non-empty list of attempts.
unfoldable pub finish_stopped : DeliveryResult → Text → Trail → DeliveryResult × Option Err
unfolding finish_failed no_candidates
finish_stopped res domain t = elim t.attempts [
  | [] ↦ no_candidates res domain
  | a ∷ more ↦ finish_failed res domain t
]

-- What follows the loop.
unfoldable pub finish : World → DeliveryResult → Text → Tried → DeliveryResult × Option Err
unfolding finish_context finish_stopped
finish w res domain (interrupted c t) =
    finish_context (record res { attempts = t.attempts }) domain c
finish w res domain (taken r t) = (
  record res {
    attempts = t.attempts;
    kind = accepted;
    accepted = true;
    final_code = r.final_code;
    remote_message = r.remote_message;
    quit_error = r.quit_error;
  },
  none,
)
finish w res domain (stopped n t) = elim (w.context n) [
  | some c ↦ finish_context (record res { attempts = t.attempts }) domain c
  | none ↦ finish_stopped (record res { attempts = t.attempts }) domain t
]

-- From the settled candidates on.
unfoldable pub deliver_to :
    World
    → Request
    → DeliveryResult
    → ℤ
    → Option Credentials
    → List Mx
    → DeliveryResult × Option Err
unfolding finish try_candidates transfer_request
deliver_to w req res port auth candidates =
    finish w (record res { mx_candidates = candidates }) req.domain
      (try_candidates w (transfer_request req port auth) 0 candidates start)

-- Direct mode resolves MX hosts and carries no credentials.
unfoldable pub direct_found :
    Config → World → Request → DeliveryResult → Result Err (List Mx) → DeliveryResult × Option Err
unfolding deliver_to finish_dns
direct_found c w req res (err e) = finish_dns res req.domain e
direct_found c w req res (ok candidates) =
    deliver_to w req res c.smtp_port none (order_candidates c.shuffle candidates)

unfoldable pub deliver_direct :
    Config → World → Request → DeliveryResult → DeliveryResult × Option Err
unfolding direct_found
deliver_direct c w req res = direct_found c w req res w.lookup_mx

-- Relay mode names the one configured relay, and carries its credentials.
unfoldable pub routed : Config → World → Request → Option Relay → DeliveryResult × Option Err
unfolding deliver_direct deliver_to blank_result
routed c w req (some r) =
    deliver_to w req (record (blank_result req.domain) { transport = relay }) r.port r.auth
      (record { host = r.host; preference = 0 } ∷ [])
routed c w req none =
    deliver_direct c w req (record (blank_result req.domain) { transport = direct })

unfoldable pub deliver_valid : Config → World → Request → DeliveryResult × Option Err
unfolding routed
deliver_valid c w req = routed c w req c.relay

unfoldable pub invalid : Request → DeliveryResult × Option Err
unfolding blank_result
invalid req = (
  record (blank_result req.domain) { kind = invalid_request },
  some (delivery (record { kind = invalid_request; domain = req.domain; temporary = false }) other),
)

-- `Engine.Deliver`
unfoldable pub deliver : Config → World → Request → DeliveryResult × Option Err
unfolding deliver_valid invalid validate_request
deliver c w req = if validate_request req then deliver_valid c w req else invalid req
