-- ===== src/Delivery/Policy.antt =====
-- internal/delivery/policy.go: what one failed attempt means for the next MX and for a retry.
use mailx.Base.{Bool, true, false, Option, none, some, if◌then◌else◌, ◌≡◌, refl, ◌≢◌, arith, ◌⊎◌}
use mailx.Errors.{
  Err, Stage, TransferError, Kind, dial, greeting, ehlo, helo, start_tls, tls, auth, ehlo_tls,
  mail_from, rcpt_to, data_command, message, data_response, quit, invalid_input, unknown,
  invalid_request, transfer_permanent, transfer_temporary,
}

pub data FallbackDecision : Type 0 where
  stop_permanent stop_temporary try_next : FallbackDecision

-- The `switch` on the stage; the last clause is `default`.
unfoldable pub decide_stage : Stage → Bool → FallbackDecision
decide_stage invalid_input t = stop_permanent
decide_stage dial t = try_next
decide_stage auth t = stop_temporary
decide_stage start_tls t = try_next
decide_stage tls t = try_next
decide_stage ehlo_tls t = try_next
decide_stage greeting t = try_next
decide_stage ehlo t = try_next
decide_stage helo t = try_next
decide_stage mail_from t = if t then stop_temporary else stop_permanent
decide_stage rcpt_to t = if t then stop_temporary else stop_permanent
decide_stage data_command t = if t then stop_temporary else stop_permanent
decide_stage message t = if t then stop_temporary else stop_permanent
decide_stage data_response t = if t then stop_temporary else stop_permanent
decide_stage quit t = stop_temporary
decide_stage unknown t = stop_temporary

-- `decideFallback`, of the error that `Transfer` returned.
unfoldable pub decide_fallback : Option (TransferError × Err) → FallbackDecision
unfolding decide_stage
decide_fallback none = stop_temporary
decide_fallback (some (te, _)) = decide_stage te.stage te.temporary

is_invalid_input : Option (TransferError × Err) → Bool
is_invalid_input none = false
is_invalid_input (some (te, _)) = elim te.stage [ invalid_input ↦ true | _ ↦ false ]

unfoldable pub classify_final : FallbackDecision → Option (TransferError × Err) → Kind
unfolding is_invalid_input
classify_final stop_permanent te =
    if is_invalid_input te then invalid_request else transfer_permanent
classify_final stop_temporary te = transfer_temporary
classify_final try_next te = transfer_temporary

-- Before MAIL FROM.
abbrev pub is_pre_session : Stage → Bool
is_pre_session dial = true
is_pre_session start_tls = true
is_pre_session tls = true
is_pre_session ehlo_tls = true
is_pre_session greeting = true
is_pre_session ehlo = true
is_pre_session helo = true
is_pre_session _ = false

-- At MAIL FROM or later, up to the reply to the data.
abbrev pub is_envelope_stage : Stage → Bool
is_envelope_stage mail_from = true
is_envelope_stage rcpt_to = true
is_envelope_stage data_command = true
is_envelope_stage message = true
is_envelope_stage data_response = true
is_envelope_stage _ = false

-- Another MX is tried only after an error whose stage is one before MAIL FROM, and not AUTH.
pub try_next_only :
    (te : Option (TransferError × Err))
    → decide_fallback te ≡ try_next
    → (i : TransferError) × (c : Err) × (te ≡ some (i, c)) × (is_pre_session i.stage ≡ true)
unfolding decide_fallback
try_next_only none h = absurd (ground arith)
try_next_only (some (i, c)) h = (i, c, refl, ground arith)

-- Another MX is tried exactly after a failure before MAIL FROM that is not one of AUTH.
try_next_iff :
    (te : TransferError) (c : Err)
    → ((decide_fallback (some (te, c)) ≡ try_next) × (is_pre_session te.stage ≡ true))
      ⊎ ((decide_fallback (some (te, c)) ≢ try_next) × (is_pre_session te.stage ≡ false))
unfolding decide_fallback
try_next_iff te c = ground arith
